-- ===== src/Core/Stream/Readers.antt =====
-- Which readers of internal/core/stream.go get the units that are written.
use rtc_simple_server.Base.{
  ◌==◌, if◌then◌else◌, ==_refl, ==_iff, Bool-cases, Option-cases, is_empty, ℕ, ◌≡◌, refl, sym, ap,
  subst, ◌∙◌, inl, inr, Bool, true, false, not, Option, none, some, List, [], ◌∷◌, arith,
}
use rtc_simple_server.Core.Stream.{
  find, erase, put, StreamFormat, StreamMedia, Call, Stream, reader_add, remove_from_formats,
  remove_from_medias, reader_remove, forward_packets, call_readers, format_write_unit, write_unit,
}

-- The calls for a reader: the callbacks and the units.
abbrev pub calls_of : ℕ → List Call → List (ℕ × ℕ)
calls_of r [] = []
calls_of r (c ∷ cs) =
    let others = calls_of r cs in if c.reader == r then (c.callback, c.unit) ∷ others else others

-- The callbacks of a format, by reader.
abbrev pub readers_of : Option StreamFormat → List (ℕ × ℕ)
readers_of none = []
readers_of (some sf) = sf.non_rtsp_readers

abbrev pub format_of : ℕ → Option StreamMedia → Option StreamFormat
format_of forma none = none
format_of forma (some sm) = find forma sm.formats

abbrev pub readers_at : ℕ → ℕ → Stream → List (ℕ × ℕ)
readers_at medi forma s = readers_of (format_of forma (find medi s.smedias))

-- The calls for a reader after the unit d has come to all readers of a format.
abbrev pub delivered : ℕ → ℕ → List (ℕ × ℕ) → List (ℕ × ℕ) → List (ℕ × ℕ)
delivered q d [] calls = calls
delivered q d ((key, cb) ∷ rs) calls =
    delivered q d rs (if key == q then (cb, d) ∷ calls else calls)

delivered-erase :
    (q r d : ℕ) (rs calls : List (ℕ × ℕ))
    → (r == q) ≡ false
    → delivered q d (erase r rs) calls ≡ delivered q d rs calls
unfolding erase
delivered-erase q r d [] calls h = refl
delivered-erase q r d ((key, cb) ∷ rs) calls h = elim (Bool-cases (key == r)) [
  | inl e ↦
      let eq = (==_iff key r).0 e in
      let k : (key == q) ≡ false = subst (λ n. (n == q) ≡ false) (sym eq) h in
      rw (e, k) (delivered-erase q r d rs calls h)
  | inr e ↦ rw e (delivered-erase q r d rs (if key == q then (cb, d) ∷ calls else calls) h)
]

delivered-put :
    (q r cb d : ℕ) (rs calls : List (ℕ × ℕ))
    → (r == q) ≡ false
    → delivered q d (put r cb rs) calls ≡ delivered q d rs calls
unfolding put
delivered-put q r cb d rs calls h =
    ap (λ b. delivered q d (erase r rs) (if b then (cb, d) ∷ calls else calls)) h
    ∙ delivered-erase q r d rs calls h

some_inj : {A : Type 0} (a b : A) → some a ≡ some b → a ≡ b
some_inj a b e = cc e

module _ {V : Type 0} where
  find-erase : (k : ℕ) (entries : List (ℕ × V)) → find k (erase k entries) ≡ none
  unfolding find erase
  find-erase k [] = refl
  find-erase k ((key, v) ∷ rest) = elim (Bool-cases (key == k)) [
    | inl h ↦ rw h (find-erase k rest)
    | inr h ↦ rw (h, h) (find-erase k rest)
  ]

  find-put : (k : ℕ) (v : V) (entries : List (ℕ × V)) → find k (put k v entries) ≡ some v
  unfolding find put
  find-put k v entries = rw (==_refl k) refl

find-remove_from_formats :
    (r forma : ℕ) (fs : List (ℕ × StreamFormat)) (sf : StreamFormat)
    → find forma (remove_from_formats r fs) ≡ some sf
    → find r sf.non_rtsp_readers ≡ none
unfolding remove_from_formats find
find-remove_from_formats r forma [] sf e = absurd (ground (arith, e))
find-remove_from_formats r forma ((key, f) ∷ fs) sf e = elim (Bool-cases (key == forma)) [
  | inr h ↦ find-remove_from_formats r forma fs sf (rw h at e)
  | inl h ↦
      let q : some (record f { non_rtsp_readers = erase r f.non_rtsp_readers }) ≡ some sf =
        rw h at e in
      let p : record f { non_rtsp_readers = erase r f.non_rtsp_readers } ≡ sf = cc q in
      subst (λ sf. find r sf.non_rtsp_readers ≡ none) p (find-erase r f.non_rtsp_readers)
]

find-remove_from_medias :
    (r medi : ℕ) (ms : List (ℕ × StreamMedia)) (sm : StreamMedia)
    → find medi (remove_from_medias r ms) ≡ some sm
    → (fs : List (ℕ × StreamFormat)) × (sm.formats ≡ remove_from_formats r fs)
unfolding remove_from_medias find
find-remove_from_medias r medi [] sm e = absurd (ground (arith, e))
find-remove_from_medias r medi ((key, m) ∷ ms) sm e = elim (Bool-cases (key == medi)) [
  | inr h ↦ find-remove_from_medias r medi ms sm (rw h at e)
  | inl h ↦
      let q : some (record m { formats = remove_from_formats r m.formats }) ≡ some sm = rw h at e in
      let p : record m { formats = remove_from_formats r m.formats } ≡ sm = cc q in
      (m.formats, ap (λ sm. sm.formats) (sym p))
]

reader_add_lem :
    (r medi forma cb : ℕ) (s : Stream) (sm : StreamMedia) (sf : StreamFormat)
    → find medi s.smedias ≡ some sm
    → find forma sm.formats ≡ some sf
    → reader_add r medi forma cb s
      ≡ some (record s {
        smedias =
            put medi
              (record sm {
                formats =
                    put forma
                      (record sf { non_rtsp_readers = put r cb sf.non_rtsp_readers })
                      sm.formats;
              })
              s.smedias;
      })
unfolding reader_add
reader_add_lem r medi forma cb s sm sf h g = rw (h, reader_add, g) refl

module _ (process : ℕ → ℕ → Bool → Option ℕ) (packets : ℕ → List (ℕ × ℕ)) where
  forward_packets_calls :
      (medi : ℕ) (pkts : List (ℕ × ℕ)) (s : Stream)
      → (forward_packets process packets medi pkts s).calls ≡ s.calls
  unfolding forward_packets
  forward_packets_calls medi [] s = refl
  forward_packets_calls medi ((pkt, size) ∷ pkts) s = forward_packets_calls medi pkts _

  call_readers_others :
      (r d : ℕ) (rs : List (ℕ × ℕ)) (s : Stream)
      → find r rs ≡ none
      → calls_of r (call_readers process packets d rs s).calls ≡ calls_of r s.calls
  unfolding call_readers find
  call_readers_others r d [] s e = refl
  call_readers_others r d ((key, cb) ∷ rs) s e = elim (Bool-cases (key == r)) [
    | inl h ↦ absurd (ground (arith, h, e))
    | inr h ↦ call_readers_others r d rs _ (rw h at e) ∙ rw h refl
  ]

  call_readers_all :
      (q d : ℕ) (rs : List (ℕ × ℕ)) (s : Stream)
      → calls_of q (call_readers process packets d rs s).calls
        ≡ delivered q d rs (calls_of q s.calls)
  unfolding call_readers
  call_readers_all q d [] s = refl
  call_readers_all q d ((key, cb) ∷ rs) s = call_readers_all q d rs _

  call_readers-put_others :
      (q r cb d : ℕ) (rs : List (ℕ × ℕ)) (s : Stream)
      → (r == q) ≡ false
      → calls_of q (call_readers process packets d (put r cb rs) s).calls
        ≡ delivered q d rs (calls_of q s.calls)
  call_readers-put_others q r cb d rs s h =
      call_readers_all q d (put r cb rs) s ∙ delivered-put q r cb d rs (calls_of q s.calls) h

  call_readers-put :
      (r cb d : ℕ) (rs : List (ℕ × ℕ)) (s : Stream)
      → calls_of r (call_readers process packets d (put r cb rs) s).calls
        ≡ (cb, d) ∷ calls_of r s.calls
  unfolding call_readers put
  call_readers-put r cb d rs s =
      call_readers_others r d (erase r rs) _ (find-erase r rs) ∙ rw (==_refl r) refl

  format_write_unit_others :
      (r medi forma unit : ℕ) (sf : StreamFormat) (s : Stream)
      → find r sf.non_rtsp_readers ≡ none
      → calls_of r (format_write_unit process packets medi forma unit sf s).calls
        ≡ calls_of r s.calls
  unfolding format_write_unit
  format_write_unit_others r medi forma unit sf s e =
      elim (Option-cases (process forma unit (not (is_empty sf.non_rtsp_readers)))) [
        | inl h ↦ rw (format_write_unit, h) refl
        | inr (d, h) ↦
            rw (format_write_unit, h)
              (call_readers_others r d sf.non_rtsp_readers _ e
                ∙ ap (calls_of r) (forward_packets_calls medi (packets d) s))
      ]

  format_write_unit-put :
      (r cb d medi forma unit : ℕ) (rs : List (ℕ × ℕ)) (s : Stream)
      → process forma unit true ≡ some d
      → calls_of r
          (format_write_unit process packets medi forma unit
            (record { non_rtsp_readers = put r cb rs })
            s).calls
        ≡ (cb, d) ∷ calls_of r s.calls
  unfolding format_write_unit put
  format_write_unit-put r cb d medi forma unit rs s p =
      rw (format_write_unit, p)
        (call_readers-put r cb d rs _
          ∙ ap (λ cs. (cb, d) ∷ calls_of r cs) (forward_packets_calls medi (packets d) s))

  format_write_unit-put_others :
      (q r cb d medi forma unit : ℕ) (rs : List (ℕ × ℕ)) (s : Stream)
      → process forma unit true ≡ some d
      → (r == q) ≡ false
      → calls_of q
          (format_write_unit process packets medi forma unit
            (record { non_rtsp_readers = put r cb rs })
            s).calls
        ≡ delivered q d rs (calls_of q s.calls)
  unfolding format_write_unit put
  format_write_unit-put_others q r cb d medi forma unit rs s p h =
      rw (format_write_unit, p)
        (call_readers-put_others q r cb d rs _ h
          ∙ ap (λ cs. delivered q d rs (calls_of q cs)) (forward_packets_calls medi (packets d) s))

  write_unit_lem :
      (medi forma unit : ℕ) (s : Stream) (sm : StreamMedia) (sf : StreamFormat)
      → find medi s.smedias ≡ some sm
      → find forma sm.formats ≡ some sf
      → write_unit process packets medi forma unit s
        ≡ some (format_write_unit process packets medi forma unit sf s)
  unfolding write_unit
  write_unit_lem medi forma unit s sm sf h g = rw (h, write_unit, g) refl

  -- Once a reader is removed from a stream, no unit that is written to it comes to the reader.
  pub write_unit-reader_remove :
      (r medi forma unit : ℕ) (s s' : Stream)
      → write_unit process packets medi forma unit (reader_remove r s) ≡ some s'
      → calls_of r s'.calls ≡ calls_of r s.calls
  unfolding write_unit reader_remove
  write_unit-reader_remove r medi forma unit s s' e =
      elim (Option-cases (find medi (remove_from_medias r s.smedias))) [
        | inl h ↦ absurd (ground (arith, h, e))
        | inr (sm, h) ↦ elim (Option-cases (find forma sm.formats)) [
          | inl g ↦ absurd (ground (arith, h, g, e))
          | inr (sf, g) ↦
              let (fs, q) = find-remove_from_medias r medi s.smedias sm h in
              let n = find-remove_from_formats r forma fs sf (ap (find forma) (sym q) ∙ g) in
              let f : format_write_unit process packets medi forma unit sf (reader_remove r s)
                  ≡ s' =
                some_inj _ _
                  (sym (write_unit_lem medi forma unit (reader_remove r s) sm sf h g) ∙ e) in
              ap (λ s. calls_of r s.calls) (sym f)
              ∙ format_write_unit_others r medi forma unit sf (reader_remove r s) n
        ]
      ]

  -- A unit that is written where a reader was added, and that its processor takes, comes to the
  -- reader just once, with the callback that was given, and to every other reader as often as it
  -- stood there before, with the callbacks that it has.
  pub write_unit-reader_add :
      (r medi forma cb unit d : ℕ) (s s1 : Stream)
      → reader_add r medi forma cb s ≡ some s1
      → process forma unit true ≡ some d
      → (s2 : Stream) × (write_unit process packets medi forma unit s1 ≡ some s2)
        × (calls_of r s2.calls ≡ (cb, d) ∷ calls_of r s.calls)
        × ((q : ℕ)
            → (r == q) ≡ false
            → calls_of q s2.calls ≡ delivered q d (readers_at medi forma s) (calls_of q s.calls))
  unfolding reader_add
  write_unit-reader_add r medi forma cb unit d s s1 e p =
      elim (Option-cases (find medi s.smedias)) [
        | inl h ↦ absurd (ground (arith, h, e))
        | inr (sm, h) ↦ elim (Option-cases (find forma sm.formats)) [
          | inl g ↦ absurd (ground (arith, h, g, e))
          | inr (sf, g) ↦
              let sf' = record sf { non_rtsp_readers = put r cb sf.non_rtsp_readers } in
              let sm' = record sm { formats = put forma sf' sm.formats } in
              let t : Stream = record s { smedias = put medi sm' s.smedias } in
              let q : t ≡ s1 =
                some_inj t s1 (sym (reader_add_lem r medi forma cb s sm sf h g) ∙ e) in
              let w =
                write_unit_lem medi forma unit t sm' sf' (find-put medi sm' s.smedias)
                  (find-put forma sf' sm.formats) in
              (
                format_write_unit process packets medi forma unit sf' t,
                ap (write_unit process packets medi forma unit) (sym q) ∙ w,
                format_write_unit-put r cb d medi forma unit sf.non_rtsp_readers t p,
                λ q other.
                    format_write_unit-put_others q r cb d medi forma unit sf.non_rtsp_readers t p
                      other
                    ∙ ap (λ f. delivered q d (readers_of f) (calls_of q s.calls))
                        (sym (ap (format_of forma) h ∙ g)),
              )
        ]
      ]
