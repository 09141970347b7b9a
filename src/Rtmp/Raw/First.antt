-- ===== src/Rtmp/Raw/First.antt =====
-- The chunk that `writeMessage` begins with, and how the reader takes it.
use rtc_simple_server.Base.{
  length, take, length-take, ℕ, ◌+◌, ◌-◌, ◌*◌, ◌%◌, ◌≤◌, ◌<◌, ◌≡◌, refl, subst, ◌∙◌, Bool, true,
  Option, none, some, List, ◌++◌, arith,
}
use rtc_simple_server.Rtmp.Chunk.{
  Chunk0, Chunk1, Chunk2, Chunk3, marshal_chunk0, marshal_chunk1, marshal_chunk2, marshal_chunk3,
}
use rtc_simple_server.Rtmp.RoundTrip.{IsChunk0, IsChunk1, IsChunk2, IsChunk3}
use rtc_simple_server.Rtmp.Raw.Reader.{ReaderChunkStream, new_chunk_stream, Reader}
use rtc_simple_server.Rtmp.Raw.Writer.{
  Writer, WriterChunkStream, first_chunk, delta_since, differs, milliseconds, body_len_of,
}
use rtc_simple_server.Rtmp.Raw.Writer as W
use rtc_simple_server.Rtmp.Raw.Deliver.{
  stream_of, message_of, Delivers, type_0-Delivers, type_1-Delivers, type_2-Delivers,
  type_3_first-Delivers,
}

-- A chunk stream of the writer after a message.
abbrev pub sent : ℕ → ℕ → ℕ → ℕ → Option ℕ → WriterChunkStream
sent timestamp type message_stream_id len delta = record {
  last_message_stream_id = some message_stream_id;
  last_type = some type;
  last_body_len = some len;
  last_timestamp = some (timestamp * 1000000);
  last_timestamp_delta = delta;
}

abbrev pub nanoseconds : Option ℕ → Option ℕ
nanoseconds none = none
nanoseconds (some d) = some (d * 1000000)

-- The two ends of a connection agree on a chunk stream: nothing was sent, or the same last message
-- is known to both.
pub data Synced : WriterChunkStream → ReaderChunkStream → Type 0 where
  fresh : Synced W.new_chunk_stream new_chunk_stream
  after :
      (t ty ms len : ℕ) (d : Option ℕ)
      → t < 16777216
      → Synced (sent t ty ms len (nanoseconds d)) (stream_of t ty ms len none d)

module _ (count : List ℕ → ℕ) (acknowledge : List ℕ → ℕ → Bool)
    (acks_ok : (acks : List ℕ) (n : ℕ) → acknowledge acks n ≡ true) (id t ty ms : ℕ) (body : List ℕ)
    (ih : id < 64) (th : t < 16777216) (mh : ms < 4294967296) (bh : length body < 16777216) where
  abbrev len : ℕ
  len = length body

  -- A first chunk is written, and the reader takes it as the beginning of the message.
  abbrev pub Starts : ℕ → WriterChunkStream → Reader → Option ℕ → Type 0
  Starts size wc r d =
      (buf : List ℕ) × (first_chunk wc (delta_since wc.last_timestamp (t * 1000000))
          (message_of id t ty ms body) (take size body)
        ≡ some buf)
      × ((rest : List ℕ)
          → Delivers count acknowledge acks_ok r (buf ++ rest) id
              (stream_of t ty ms (length body) none d) (take size body) rest)

  pub Starts-0 :
      (wc : WriterChunkStream) (r : Reader)
      → (r.chunk_streams id).cur_body ≡ none
      → first_chunk wc
          (delta_since wc.last_timestamp (t * 1000000))
          (message_of id t ty ms body)
          (take r.chunk_size body)
        ≡ some (marshal_chunk0 (W.first_0 (message_of id t ty ms body) (take r.chunk_size body)))
      → Starts r.chunk_size wc r none
  unfolding IsChunk0
  Starts-0 wc r e f =
      let c : Chunk0 = record {
        chunk_stream_id = id;
        timestamp = t;
        type = ty;
        message_stream_id = ms;
        body_len = length body;
        body = take r.chunk_size body;
      } in
      let p : milliseconds (t * 1000000) ≡ t = omega (arith, th) in
      let q : length body % 4294967296 ≡ length body = omega (arith, bh) in
      (
        marshal_chunk0 c,
        f ∙ rw (p, q) refl,
        λ rest.
            type_0-Delivers count acknowledge acks_ok r c rest (r.chunk_streams id) refl e
              (ih, th, mh, bh, ground (arith, length-take r.chunk_size body)),
      )

  module _ (t0 : ℕ) (order : t0 ≤ t) (r : Reader) where
    abbrev pub delta : ℕ
    delta = t * 1000000 - t0 * 1000000

    delta_ms : milliseconds delta ≡ t - t0
    delta_ms = omega (arith, th, order)

    delta_sum : (t0 + (t - t0)) % 4294967296 ≡ t
    delta_sum = omega (arith, th, order)

    pub delta_since_lem : delta_since (some (t0 * 1000000)) (t * 1000000) ≡ some delta
    unfolding delta_since
    delta_since_lem = let h : t0 * 1000000 ≤ t * 1000000 = omega (arith, order) in ground (arith, h)

    pub len_lem : length body % 4294967296 ≡ length body
    len_lem = omega (arith, bh)

    pub Starts-1 :
        (ty0 len0 : ℕ) (d0 : Option ℕ)
        → r.chunk_streams id ≡ stream_of t0 ty0 ms len0 none d0
        → (wc : WriterChunkStream)
        → first_chunk wc
            (delta_since wc.last_timestamp (t * 1000000))
            (message_of id t ty ms body)
            (take r.chunk_size body)
          ≡ some (
              marshal_chunk1
                (W.first_1 (message_of id t ty ms body) delta (take r.chunk_size body)))
        → Starts r.chunk_size wc r (some (t - t0))
    unfolding IsChunk1
    Starts-1 ty0 len0 d0 known wc f =
        let c : Chunk1 = record {
          chunk_stream_id = id;
          timestamp_delta = t - t0;
          type = ty;
          body_len = length body;
          body = take r.chunk_size body;
        } in
        let lt : t - t0 < 16777216 = omega (arith, th) in
        (
          marshal_chunk1 c,
          f ∙ rw (delta_ms, len_lem) refl,
          λ rest.
              subst
                (λ n.
                  Delivers count acknowledge acks_ok r (marshal_chunk1 c ++ rest) id
                    (stream_of n ty ms (length body) none (some (t - t0))) (take r.chunk_size body)
                    rest)
                delta_sum
                (type_1-Delivers count acknowledge acks_ok r c rest t0 ty0 ms len0 d0 known
                  (ih, lt, bh, ground (arith, length-take r.chunk_size body))),
        )

    pub Starts-2 :
        (d0 : Option ℕ)
        → r.chunk_streams id ≡ stream_of t0 ty ms (length body) none d0
        → (wc : WriterChunkStream)
        → first_chunk wc
            (delta_since wc.last_timestamp (t * 1000000))
            (message_of id t ty ms body)
            (take r.chunk_size body)
          ≡ some (
              marshal_chunk2
                (W.first_2 (message_of id t ty ms body) delta (take r.chunk_size body)))
        → Starts r.chunk_size wc r (some (t - t0))
    unfolding IsChunk2
    Starts-2 d0 known wc f =
        let c : Chunk2 = record {
          chunk_stream_id = id;
          timestamp_delta = t - t0;
          body = take r.chunk_size body;
        } in
        let lt : t - t0 < 16777216 = omega (arith, th) in
        (
          marshal_chunk2 c,
          f ∙ rw delta_ms refl,
          λ rest.
              subst
                (λ n.
                  Delivers count acknowledge acks_ok r (marshal_chunk2 c ++ rest) id
                    (stream_of n ty ms (length body) none (some (t - t0))) (take r.chunk_size body)
                    rest)
                delta_sum
                (type_2-Delivers count acknowledge acks_ok r c rest t0 ty ms (length body) d0 known
                  (ih, lt, ground (arith, length-take r.chunk_size body))),
        )

    pub Starts-3 :
        r.chunk_streams id ≡ stream_of t0 ty ms (length body) none (some (t - t0))
        → (wc : WriterChunkStream)
        → first_chunk wc
            (delta_since wc.last_timestamp (t * 1000000))
            (message_of id t ty ms body)
            (take r.chunk_size body)
          ≡ some (marshal_chunk3 (W.chunk_3 (message_of id t ty ms body) (take r.chunk_size body)))
        → Starts r.chunk_size wc r (some (t - t0))
    unfolding IsChunk3
    Starts-3 known wc f =
        let c : Chunk3 = record { chunk_stream_id = id; body = take r.chunk_size body } in
        (
          marshal_chunk3 c,
          f,
          λ rest.
              subst
                (λ n.
                  Delivers count acknowledge acks_ok r (marshal_chunk3 c ++ rest) id
                    (stream_of n ty ms (length body) none (some (t - t0))) (take r.chunk_size body)
                    rest)
                delta_sum
                (type_3_first-Delivers count acknowledge acks_ok r c rest t0 ty ms (length body)
                  (t - t0) known (ih, ground (arith, length-take r.chunk_size body))),
        )
