-- ===== src/Rtmp/Truncated.antt =====
-- Reading a chunk of internal/rtmp/chunk from a stream that ends too early.
use rtc_simple_server.Base.{
  length, take, drop, length-append, ℕ, zero, suc, ◌≤◌, ◌≡◌, refl, sym, ap, ◌∙◌, ◌⊎◌, inl, inr,
  List, [], ◌∷◌, ◌++◌, arith,
}
use rtc_simple_server.Base.Bytes.{be24}
use mathlib.Core.List.{append-nil}
use rtc_simple_server.Rtmp.Reader.{ReadError, Read, and_then, ◌>>=◌, pure, read_full, failed, got}
use rtc_simple_server.Rtmp.Chunk.{
  Chunk0, Chunk1, Chunk2, Chunk3, chunk_body_len, read_chunk0, marshal_chunk0, read_chunk1,
  marshal_chunk1, read_chunk2, marshal_chunk2, read_chunk3, marshal_chunk3,
}
use rtc_simple_server.Rtmp.RoundTrip.{
  IsChunk0, IsChunk1, IsChunk2, IsChunk3, read_chunk0-marshal_chunk0, read_chunk1-marshal_chunk1,
  read_chunk2-marshal_chunk2, read_chunk3-marshal_chunk3,
}

take-append : (n : ℕ) (xs ys : List ℕ) → n ≤ length xs → take n (xs ++ ys) ≡ take n xs
take-append zero xs ys h = refl
take-append (suc n) [] ys h = absurd (omega arith)
take-append (suc n) (x ∷ xs) ys h = ap (◌∷◌ x) (take-append n xs ys (omega arith))

drop-append : (n : ℕ) (xs ys : List ℕ) → n ≤ length xs → drop n (xs ++ ys) ≡ drop n xs ++ ys
drop-append zero xs ys h = refl
drop-append (suc n) [] ys h = absurd (omega arith)
drop-append (suc n) (x ∷ xs) ys h = drop-append n xs ys (omega arith)

-- What a read returns does not depend on what comes after the bytes that it takes.
unfoldable IsStable : {A : Type 0} → (List ℕ → Read A) → Type 0
IsStable {A} m =
    (bs : List ℕ) (a : A) (rest ys : List ℕ) → m bs ≡ got a rest → m (bs ++ ys) ≡ got a (rest ++ ys)

read_full-IsStable : (n : ℕ) → IsStable (read_full n)
unfolding IsStable read_full
read_full-IsStable n bs a rest ys e =
    ground (arith, e, take-append n bs ys, drop-append n bs ys, length-append bs ys)

pure-IsStable : {A : Type 0} (a : A) → IsStable (pure a)
unfolding IsStable
pure-IsStable a bs b rest ys e = ground (arith, e)

Read-cases :
    {A : Type 0} (r : Read A)
    → ((e : ReadError) × (r ≡ failed e)) ⊎ ((a : A) × (rest : List ℕ) × (r ≡ got a rest))
Read-cases (failed e) = inl (e, refl)
Read-cases (got a rest) = inr (a, rest, refl)

bind-IsStable :
    {A B : Type 0} (m : List ℕ → Read A) (f : A → List ℕ → Read B)
    → IsStable m
    → ((a : A) → IsStable (f a))
    → IsStable (m >>= f)
unfolding IsStable
bind-IsStable m f s t bs b rest ys e = elim (Read-cases (m bs)) [
  | inl (x, q) ↦ absurd (ground (arith, e, q))
  | inr (a, r, q) ↦ ap (and_then f) (s bs a r ys q) ∙ t a r b rest ys (sym (ap (and_then f) q) ∙ e)
]

-- A reader that gives back what was marshalled fails on what is left when bytes are cut off its end.
fails_of_IsStable :
    {A : Type 0} (m : List ℕ → Read A) (a : A) (bs : List ℕ) (y : ℕ) (ys : List ℕ)
    → IsStable m
    → m (bs ++ (y ∷ ys)) ≡ got a []
    → (e : ReadError) × (m bs ≡ failed e)
unfolding IsStable
fails_of_IsStable {A = A} m a bs y ys s h = elim (Read-cases (m bs)) [
  | inl q ↦ q
  | inr (b, r, q) ↦ absurd (not_got b r (s bs b r (y ∷ ys) q))
]
  where
    not_got : (b : A) (r : List ℕ) → m (bs ++ (y ∷ ys)) ≡ got b (r ++ (y ∷ ys)) → ⊥
    not_got b [] q = ground (arith, h, q)
    not_got b (x ∷ r) q = ground (arith, h, q)

-- A header of `k` bytes, then a body.
header-IsStable :
    {A : Type 0} (k : ℕ) (len : List ℕ → ℕ) (f : List ℕ → List ℕ → A)
    → IsStable (read_full k >>= λ h. read_full (len h) >>= λ b. pure (f h b))
header-IsStable k len f = bind-IsStable (read_full k) _ (read_full-IsStable k) (λ h.
    bind-IsStable (read_full (len h)) _ (read_full-IsStable (len h)) (λ b. pure-IsStable (f h b)))

cut :
    {A : Type 0} (m : List ℕ → Read A) (a : A) (w bs : List ℕ) (y : ℕ) (ys : List ℕ)
    → IsStable m
    → m (w ++ []) ≡ got a []
    → bs ++ (y ∷ ys) ≡ w
    → (e : ReadError) × (m bs ≡ failed e)
cut m a w bs y ys s h e = fails_of_IsStable m a bs y ys s (ap m (e ∙ sym (append-nil w)) ∙ h)

-- A read of a type 0 chunk that its stream cuts short fails, wherever it is cut: no other chunk is taken
-- from it.
pub read_chunk0_cut :
    (n : ℕ) (c : Chunk0) (bs : List ℕ) (y : ℕ) (ys : List ℕ)
    → IsChunk0 n c
    → bs ++ (y ∷ ys) ≡ marshal_chunk0 c
    → (e : ReadError) × (read_chunk0 n bs ≡ failed e)
read_chunk0_cut n c bs y ys h e =
    cut (read_chunk0 n) c (marshal_chunk0 c) bs y ys
      (unfold read_chunk0 in header-IsStable 12 (λ h. chunk_body_len n (be24 h 4)) _)
      (read_chunk0-marshal_chunk0 n c [] h) e

-- A read of a type 1 chunk that its stream cuts short fails, wherever it is cut: no other chunk is taken
-- from it.
pub read_chunk1_cut :
    (n : ℕ) (c : Chunk1) (bs : List ℕ) (y : ℕ) (ys : List ℕ)
    → IsChunk1 n c
    → bs ++ (y ∷ ys) ≡ marshal_chunk1 c
    → (e : ReadError) × (read_chunk1 n bs ≡ failed e)
read_chunk1_cut n c bs y ys h e =
    cut (read_chunk1 n) c (marshal_chunk1 c) bs y ys
      (unfold read_chunk1 in header-IsStable 8 (λ h. chunk_body_len n (be24 h 4)) _)
      (read_chunk1-marshal_chunk1 n c [] h) e

-- A read of a type 2 chunk that its stream cuts short fails, wherever it is cut: no other chunk is taken
-- from it.
pub read_chunk2_cut :
    (n : ℕ) (c : Chunk2) (bs : List ℕ) (y : ℕ) (ys : List ℕ)
    → IsChunk2 n c
    → bs ++ (y ∷ ys) ≡ marshal_chunk2 c
    → (e : ReadError) × (read_chunk2 n bs ≡ failed e)
read_chunk2_cut n c bs y ys h e =
    cut (read_chunk2 n) c (marshal_chunk2 c) bs y ys
      (unfold read_chunk2 in header-IsStable 4 (λ h. n) _) (read_chunk2-marshal_chunk2 n c [] h) e

-- A read of a type 3 chunk that its stream cuts short fails, wherever it is cut: no other chunk is taken
-- from it.
pub read_chunk3_cut :
    (n : ℕ) (c : Chunk3) (bs : List ℕ) (y : ℕ) (ys : List ℕ)
    → IsChunk3 n c
    → bs ++ (y ∷ ys) ≡ marshal_chunk3 c
    → (e : ReadError) × (read_chunk3 n bs ≡ failed e)
read_chunk3_cut n c bs y ys h e =
    cut (read_chunk3 n) c (marshal_chunk3 c) bs y ys
      (unfold read_chunk3 in header-IsStable 1 (λ h. n) _) (read_chunk3-marshal_chunk3 n c [] h) e
