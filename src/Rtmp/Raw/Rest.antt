-- ===== src/Rtmp/Raw/Rest.antt =====
-- The loop of `writeMessage` after the first chunk, and how the reader takes what it wrote.
use mathlib.Core.List.{append-nil, append_assoc}
use rtc_simple_server.Base.{
  length, take, drop, is_empty, length-append, take-append-drop, length-take, length-drop, ℕ, zero,
  suc, ◌+◌, ◌-◌, ◌%◌, ◌<◌, ◌≡◌, refl, sym, ap, subst, ◌∙◌, Bool, true, false, Option, none, some,
  List, [], ◌∷◌, ◌++◌, arith,
}
use rtc_simple_server.Rtmp.Chunk.{chunk_body_len, marshal_chunk3}
use rtc_simple_server.Rtmp.RoundTrip.{IsChunk3}
use rtc_simple_server.Rtmp.Raw.Reader.{Reader}
use rtc_simple_server.Rtmp.Raw.Writer.{Writer, write_rest, chunk_3, ok}
use rtc_simple_server.Rtmp.Raw.Deliver.{stream_of, message_of, Delivers, type_3_next-Delivers}
use rtc_simple_server.Rtmp.Raw.Pieces.{
  write_chunk_lem, Delivered, Delivers-complete, Delivers-partial,
}

-- What is left to send of a message fits the chunk that is read.
next_chunk-IsChunk3 :
    (size id : ℕ) (b body whole : List ℕ)
    → id < 64
    → b ++ body ≡ whole
    → length whole < 16777216
    → IsChunk3
        (chunk_body_len size ((length whole + 4294967296 - length b) % 4294967296))
        (record { chunk_stream_id = id; body = take size body })
unfolding IsChunk3
next_chunk-IsChunk3 size id b body whole h e l =
    let f : length whole ≡ length b + length body = ap length (sym e) ∙ length-append b body in
    (h, ground (arith, f, l, length-take size body))

module _ (written_count read_count : List ℕ → ℕ) (acknowledge : List ℕ → ℕ → Bool)
    (acks_ok : (acks : List ℕ) (n : ℕ) → acknowledge acks n ≡ true) where
  -- A chunk, and the chunks with the rest of the body.
  pub Delivers-rest :
      (n : ℕ) (r : Reader) (c bs rest : List ℕ) (id t ty ms : ℕ) (b : Option (List ℕ))
      (d : Option ℕ) (got body whole : List ℕ)
      → Delivers read_count acknowledge acks_ok r
          (c ++ (bs ++ rest))
          id
          (stream_of t ty ms (length whole) b d)
          got
          (bs ++ rest)
      → got ++ body ≡ whole
      → (is_empty body ≡ true → bs ≡ [])
      → ((r' : Reader)
          → r'.chunk_size ≡ r.chunk_size
          → is_empty body ≡ false
          → r'.chunk_streams id ≡ stream_of t ty ms (length whole) (some got) d
          → Delivered written_count read_count acknowledge acks_ok n r'
              (bs ++ rest)
              (message_of id t ty ms whole)
              (stream_of t ty ms (length whole) none d)
              rest)
      → Delivered written_count read_count acknowledge acks_ok
          (suc n)
          r
          (c ++ bs ++ rest)
          (message_of id t ty ms whole)
          (stream_of t ty ms (length whole) none d)
          rest
  Delivers-rest n r c bs rest id t ty ms b d got [] whole h e z k =
      let g : got ≡ whole = sym (append-nil got) ∙ e in
      let rc = stream_of t ty ms (length whole) none d in
      let all =
        Delivers-complete written_count read_count acknowledge acks_ok n r (c ++ (bs ++ rest)) id t
          ty ms (length whole) b d got (bs ++ rest) h (ap length g) in
      subst
        (λ l.
          Delivered written_count read_count acknowledge acks_ok (suc n) r (c ++ bs ++ rest)
            (message_of id t ty ms whole) rc l)
        (ap (λ l. l ++ rest) (z refl))
        (subst
          (λ l.
            Delivered written_count read_count acknowledge acks_ok (suc n) r l
              (message_of id t ty ms whole) rc (bs ++ rest))
          (sym (append_assoc c bs rest))
          (subst
            (λ l.
              Delivered written_count read_count acknowledge acks_ok (suc n) r (c ++ (bs ++ rest))
                (message_of id t ty ms l) rc (bs ++ rest))
            g all))
  Delivers-rest n r c bs rest id t ty ms b d got (x ∷ xs) whole h e z k =
      let l : length got < length whole =
        omega (arith, ap length (sym e) ∙ length-append got (x ∷ xs)) in
      rw (append_assoc c bs rest) (
        Delivers-partial written_count read_count acknowledge acks_ok n r (c ++ (bs ++ rest)) id t
          ty ms (length whole) b d got (bs ++ rest) rest (message_of id t ty ms whole)
          (stream_of t ty ms (length whole) none d) h l refl (λ r' p q. k r' p refl q))

  pub write_rest-Delivered :
      (n : ℕ) (body : List ℕ) (w : Writer) (id t ty ms : ℕ) (d : Option ℕ) (whole : List ℕ)
      → length body < n
      → w.check_acknowledge ≡ false
      → 0 < w.chunk_size
      → id < 64
      → length whole < 16777216
      → (bs : List ℕ) × (write_rest written_count n (message_of id t ty ms whole) body w
          ≡ ok (record w { written = w.written ++ bs }))
        × (is_empty body ≡ true → bs ≡ [])
        × ((r : Reader) (b rest : List ℕ)
            → r.chunk_size ≡ w.chunk_size
            → b ++ body ≡ whole
            → is_empty body ≡ false
            → r.chunk_streams id ≡ stream_of t ty ms (length whole) (some b) d
            → Delivered written_count read_count acknowledge acks_ok n r
                (bs ++ rest)
                (message_of id t ty ms whole)
                (stream_of t ty ms (length whole) none d)
                rest)
  unfolding write_rest
  write_rest-Delivered zero body w id t ty ms d whole h c s i l = absurd (omega (arith, h))
  write_rest-Delivered (suc n) [] w id t ty ms d whole h c s i l = (
    [],
    ap (λ l. ok (record w { written = l })) (sym (append-nil w.written)),
    λ e. refl,
    λ r b rest p q e f. ground (arith, e),
  )
  write_rest-Delivered (suc n) (x ∷ xs) w id t ty ms d whole h c s i l =
      let body = x ∷ xs in
      let ch = chunk_3 (message_of id t ty ms whole) (take w.chunk_size body) in
      let w1 = record w { written = w.written ++ marshal_chunk3 ch } in
      let h' : length (drop w.chunk_size body) < n = omega (arith, length-drop w.chunk_size body) in
      let (bs, e, z, k) =
        write_rest-Delivered n (drop w.chunk_size body) w1 id t ty ms d whole h' c s i l in
      (
        marshal_chunk3 ch ++ bs,
        rw (write_chunk_lem written_count (marshal_chunk3 ch) w c) e
            ∙ ap (λ l. ok (record w { written = l }))
                (append_assoc w.written (marshal_chunk3 ch) bs),
        λ e. cc,
        λ r b rest p q g f.
            Delivers-rest n r (marshal_chunk3 ch) bs rest id t ty ms (some b) d
              (b ++ take w.chunk_size body) (drop w.chunk_size body) whole
              (type_3_next-Delivers read_count acknowledge acks_ok r ch (bs ++ rest) t ty ms
                (length whole) b d f
                (rw p (next_chunk-IsChunk3 w.chunk_size id b body whole i q l)))
              (append_assoc b (take w.chunk_size body) (drop w.chunk_size body)
                ∙ ap (λ l. b ++ l) (take-append-drop w.chunk_size body)
                ∙ q)
              z
              (λ r' p' g' f'.
                k r' (b ++ take w.chunk_size body) rest (p' ∙ p)
                  (append_assoc b (take w.chunk_size body) (drop w.chunk_size body)
                    ∙ ap (λ l. b ++ l) (take-append-drop w.chunk_size body)
                    ∙ q)
                  g' f'),
      )
