-- ===== src/Rtmp/Raw/Rounds.antt =====
-- One round of the reader of internal/rtmp/rawmessage on one marshalled chunk.
use Prim.Native.Nat.{bit_or}
use rtc_simple_server.Base.{
  ltb, ◌==◌, Bool-cases, ℕ, ◌+◌, ◌-◌, ◌/◌, ◌%◌, ◌<◌, ◌≡◌, refl, inl, inr, Bool, true, some, List,
  ◌∷◌, ◌++◌, arith,
}
use rtc_simple_server.Base.Bytes.{or_64, or_128, or_192}
use rtc_simple_server.Rtmp.Reader.{Read, got}
use rtc_simple_server.Rtmp.Chunk.{
  Chunk0, Chunk1, Chunk2, Chunk3, marshal_chunk0, marshal_chunk1, marshal_chunk2, marshal_chunk3,
}
use rtc_simple_server.Rtmp.RoundTrip.{low_id, tagged_id}
use rtc_simple_server.Rtmp.Raw.Reader.{
  Reader, Result, check_ack, read_chunk, read_type_0, read_type_1, read_type_2, read_type_3,
  read_message, read_round,
}

-- A reader that differs from another in its acknowledgements alone.
abbrev pub Like : Reader → Reader → Type 0
Like r' r = (r'.chunk_size ≡ r.chunk_size) × (r'.chunk_streams ≡ r.chunk_streams)

module _ (counted : List ℕ → ℕ) (acknowledge : List ℕ → ℕ → Bool)
    (ok : (acks : List ℕ) (n : ℕ) → acknowledge acks n ≡ true) where
  check_ack_lem :
      (r : Reader) (rest : List ℕ)
      → (r' : Reader) × (check_ack counted acknowledge r rest ≡ some r') × Like r' r
  unfolding check_ack
  check_ack_lem r rest =
      let count = counted rest % 4294967296 in
      let diff = (count + 4294967296 - r.last_ack_count) % 4294967296 in
      elim (Bool-cases (r.ack_window_size == 0)) [
        | inl e ↦ (r, rw e refl, (refl, refl))
        | inr e ↦ elim (Bool-cases (ltb r.ack_window_size diff)) [
          | inl f ↦ (
            record r {
              last_ack_count = (r.last_ack_count + r.ack_window_size) % 4294967296;
              acks = count ∷ r.acks;
            },
            rw (e, f, ok r.acks count) refl,
            (refl, refl),
          )
          | inr f ↦ (r, rw (e, f) refl, (refl, refl))
        ]
      ]

  pub read_chunk_lem :
      {C : Type 0} (get : List ℕ → Read C) (r : Reader) (bs : List ℕ)
      (k : C → Reader → List ℕ → Result) (c : C) (rest : List ℕ)
      → get bs ≡ got c rest
      → (r' : Reader) × (read_chunk counted acknowledge get r bs k ≡ k c r' rest) × Like r' r
  unfolding read_chunk
  read_chunk_lem get r bs k c rest e =
      let (r', f, l) = check_ack_lem r rest in (r', rw (read_chunk, e, f) refl, l)

  pub round_0 :
      (r : Reader) (c : Chunk0) (rest : List ℕ)
      → c.chunk_stream_id < 64
      → read_round counted acknowledge r (marshal_chunk0 c ++ rest)
        ≡ read_type_0 counted acknowledge c.chunk_stream_id
            (r.chunk_streams c.chunk_stream_id)
            r
            (marshal_chunk0 c ++ rest)
  unfolding read_round read_message marshal_chunk0
  round_0 r c rest h =
      let q : c.chunk_stream_id / 64 ≡ 0 = omega (arith, h) in
      rw (q, low_id c.chunk_stream_id h) refl

  pub round_1 :
      (r : Reader) (c : Chunk1) (rest : List ℕ)
      → c.chunk_stream_id < 64
      → read_round counted acknowledge r (marshal_chunk1 c ++ rest)
        ≡ read_type_1 counted acknowledge c.chunk_stream_id
            (r.chunk_streams c.chunk_stream_id)
            r
            (marshal_chunk1 c ++ rest)
  unfolding read_round read_message marshal_chunk1
  round_1 r c rest h =
      let q : bit_or 64 c.chunk_stream_id / 64 ≡ 1 = omega (arith, h, or_64 c.chunk_stream_id h) in
      rw (q, tagged_id 64 c.chunk_stream_id (or_64 c.chunk_stream_id h) h refl (omega arith)) refl

  pub round_2 :
      (r : Reader) (c : Chunk2) (rest : List ℕ)
      → c.chunk_stream_id < 64
      → read_round counted acknowledge r (marshal_chunk2 c ++ rest)
        ≡ read_type_2 counted acknowledge c.chunk_stream_id
            (r.chunk_streams c.chunk_stream_id)
            r
            (marshal_chunk2 c ++ rest)
  unfolding read_round read_message marshal_chunk2
  round_2 r c rest h =
      let q : bit_or 128 c.chunk_stream_id / 64 ≡ 2 =
        omega (arith, h, or_128 c.chunk_stream_id h) in
      rw (q, tagged_id 128 c.chunk_stream_id (or_128 c.chunk_stream_id h) h refl (omega arith)) refl

  pub round_3 :
      (r : Reader) (c : Chunk3) (rest : List ℕ)
      → c.chunk_stream_id < 64
      → read_round counted acknowledge r (marshal_chunk3 c ++ rest)
        ≡ read_type_3 counted acknowledge c.chunk_stream_id
            (r.chunk_streams c.chunk_stream_id)
            r
            (marshal_chunk3 c ++ rest)
  unfolding read_round read_message marshal_chunk3
  round_3 r c rest h =
      let q : bit_or 192 c.chunk_stream_id / 64 ≡ 3 =
        omega (arith, h, or_192 c.chunk_stream_id h) in
      rw (q, tagged_id 192 c.chunk_stream_id (or_192 c.chunk_stream_id h) h refl (omega arith)) refl
