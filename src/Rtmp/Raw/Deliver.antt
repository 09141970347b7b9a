-- ===== src/Rtmp/Raw/Deliver.antt =====
-- What the reader of internal/rtmp/rawmessage makes of one marshalled chunk of each type.
use rtc_simple_server.Base.{
  ==_refl, length, ℕ, ◌+◌, ◌-◌, ◌*◌, ◌%◌, ◌<◌, ◌≡◌, refl, ap, ◌∙◌, Bool, true, Option, none, some,
  List, ◌++◌, arith,
}
use rtc_simple_server.Rtmp.Chunk.{
  Chunk0, Chunk1, Chunk2, Chunk3, chunk_body_len, read_chunk0, marshal_chunk0, read_chunk1,
  marshal_chunk1, read_chunk2, marshal_chunk2, read_chunk3, marshal_chunk3,
}
use rtc_simple_server.Rtmp.RoundTrip.{
  IsChunk0, IsChunk1, IsChunk2, IsChunk3, read_chunk0-marshal_chunk0, read_chunk1-marshal_chunk1,
  read_chunk2-marshal_chunk2, read_chunk3-marshal_chunk3,
}
use rtc_simple_server.Rtmp.Message.{RawMessage}
use rtc_simple_server.Rtmp.Raw.Reader.{
  ReaderChunkStream, Reader, store, deliver, read_type_0, read_type_1, read_type_2, read_type_3,
  read_round, message,
}
use rtc_simple_server.Rtmp.Raw.Rounds.{Like, read_chunk_lem, round_0, round_1, round_2, round_3}

-- A chunk stream after a message, with the body read so far.
abbrev pub stream_of : ℕ → ℕ → ℕ → ℕ → Option (List ℕ) → Option ℕ → ReaderChunkStream
stream_of timestamp type message_stream_id len body delta = record {
  cur_timestamp = some timestamp;
  cur_type = some type;
  cur_message_stream_id = some message_stream_id;
  cur_body_len = some len;
  cur_body = body;
  cur_timestamp_delta = delta;
}

abbrev pub message_of : ℕ → ℕ → ℕ → ℕ → List ℕ → RawMessage
message_of id timestamp type message_stream_id body = record {
  chunk_stream_id = id;
  timestamp = timestamp * 1000000;
  type = type;
  message_stream_id = message_stream_id;
  body = body;
}

module _ (counted : List ℕ → ℕ) (acknowledge : List ℕ → ℕ → Bool)
    (ok : (acks : List ℕ) (n : ℕ) → acknowledge acks n ≡ true) where
  -- Reading the bytes gives what `deliver` makes of the chunk stream and the body.
  abbrev pub Delivers : Reader → List ℕ → ℕ → ReaderChunkStream → List ℕ → List ℕ → Type 0
  Delivers r bs id rc body rest =
      (r' : Reader) × (read_round counted acknowledge r bs ≡ deliver id rc body r' rest) × Like r' r

  pub type_0-Delivers :
      (r : Reader) (c : Chunk0) (rest : List ℕ)
      → (rc : ReaderChunkStream) → r.chunk_streams c.chunk_stream_id ≡ rc
      → rc.cur_body ≡ none
      → IsChunk0 r.chunk_size c
      → Delivers r
          (marshal_chunk0 c ++ rest)
          c.chunk_stream_id
          (stream_of c.timestamp c.type c.message_stream_id c.body_len none none)
          c.body
          rest
  unfolding read_type_0 IsChunk0
  type_0-Delivers r c rest rc e g h =
      let (r', f, l) =
        read_chunk_lem counted acknowledge ok (read_chunk0 r.chunk_size) r
          (marshal_chunk0 c ++ rest)
          (λ c'.
            deliver c.chunk_stream_id
              (stream_of c'.timestamp c'.type c'.message_stream_id c'.body_len none none) c'.body)
          c rest (read_chunk0-marshal_chunk0 r.chunk_size c rest h) in
      (r', round_0 counted acknowledge ok r c rest h.0 ∙ rw (e, g) f, l)

  pub type_1-Delivers :
      (r : Reader) (c : Chunk1) (rest : List ℕ) (t ty ms len : ℕ) (d : Option ℕ)
      → r.chunk_streams c.chunk_stream_id ≡ stream_of t ty ms len none d
      → IsChunk1 r.chunk_size c
      → Delivers r
          (marshal_chunk1 c ++ rest)
          c.chunk_stream_id
          (stream_of
            ((t + c.timestamp_delta) % 4294967296)
            c.type
            ms
            c.body_len
            none
            (some c.timestamp_delta))
          c.body
          rest
  unfolding read_type_1 IsChunk1
  type_1-Delivers r c rest t ty ms len d e h =
      let (r', f, l) =
        read_chunk_lem counted acknowledge ok (read_chunk1 r.chunk_size) r
          (marshal_chunk1 c ++ rest)
          (λ c'.
            deliver c.chunk_stream_id
              (stream_of ((t + c'.timestamp_delta) % 4294967296) c'.type ms c'.body_len none
                (some c'.timestamp_delta))
              c'.body)
          c rest (read_chunk1-marshal_chunk1 r.chunk_size c rest h) in
      (
        r',
        round_1 counted acknowledge ok r c rest h.0
            ∙ (ap
                  (λ rc.
                    read_type_1 counted acknowledge c.chunk_stream_id rc r
                      (marshal_chunk1 c ++ rest))
                  e
                ∙ f),
        l,
      )

  pub type_2-Delivers :
      (r : Reader) (c : Chunk2) (rest : List ℕ) (t ty ms len : ℕ) (d : Option ℕ)
      → r.chunk_streams c.chunk_stream_id ≡ stream_of t ty ms len none d
      → IsChunk2 (chunk_body_len r.chunk_size len) c
      → Delivers r
          (marshal_chunk2 c ++ rest)
          c.chunk_stream_id
          (stream_of ((t + c.timestamp_delta) % 4294967296) ty ms len none (some c.timestamp_delta))
          c.body
          rest
  unfolding read_type_2 IsChunk2
  type_2-Delivers r c rest t ty ms len d e h =
      let (r', f, l) =
        read_chunk_lem counted acknowledge ok (read_chunk2 (chunk_body_len r.chunk_size len)) r
          (marshal_chunk2 c ++ rest)
          (λ c'.
            deliver c.chunk_stream_id
              (stream_of ((t + c'.timestamp_delta) % 4294967296) ty ms len none
                (some c'.timestamp_delta))
              c'.body)
          c rest (read_chunk2-marshal_chunk2 (chunk_body_len r.chunk_size len) c rest h) in
      (
        r',
        round_2 counted acknowledge ok r c rest h.0
            ∙ (ap
                  (λ rc.
                    read_type_2 counted acknowledge c.chunk_stream_id rc r
                      (marshal_chunk2 c ++ rest))
                  e
                ∙ f),
        l,
      )

  -- A type 3 chunk that begins a message.
  pub type_3_first-Delivers :
      (r : Reader) (c : Chunk3) (rest : List ℕ) (t ty ms len d : ℕ)
      → r.chunk_streams c.chunk_stream_id ≡ stream_of t ty ms len none (some d)
      → IsChunk3 (chunk_body_len r.chunk_size len) c
      → Delivers r
          (marshal_chunk3 c ++ rest)
          c.chunk_stream_id
          (stream_of ((t + d) % 4294967296) ty ms len none (some d))
          c.body
          rest
  unfolding read_type_3 IsChunk3
  type_3_first-Delivers r c rest t ty ms len d e h =
      let (r', f, l) =
        read_chunk_lem counted acknowledge ok (read_chunk3 (chunk_body_len r.chunk_size len)) r
          (marshal_chunk3 c ++ rest)
          (λ c'.
            deliver c.chunk_stream_id (stream_of ((t + d) % 4294967296) ty ms len none (some d))
              c'.body)
          c rest (read_chunk3-marshal_chunk3 (chunk_body_len r.chunk_size len) c rest h) in
      (
        r',
        round_3 counted acknowledge ok r c rest h.0
            ∙ (ap
                  (λ rc.
                    read_type_3 counted acknowledge c.chunk_stream_id rc r
                      (marshal_chunk3 c ++ rest))
                  e
                ∙ f),
        l,
      )

  -- A type 3 chunk that goes on with a body.
  pub type_3_next-Delivers :
      (r : Reader) (c : Chunk3) (rest : List ℕ) (t ty ms len : ℕ) (b : List ℕ) (d : Option ℕ)
      → r.chunk_streams c.chunk_stream_id ≡ stream_of t ty ms len (some b) d
      → IsChunk3 (chunk_body_len r.chunk_size ((len + 4294967296 - length b) % 4294967296)) c
      → Delivers r
          (marshal_chunk3 c ++ rest)
          c.chunk_stream_id
          (stream_of t ty ms len (some b) d)
          (b ++ c.body)
          rest
  unfolding read_type_3 IsChunk3
  type_3_next-Delivers r c rest t ty ms len b d e h =
      let n = chunk_body_len r.chunk_size ((len + 4294967296 - length b) % 4294967296) in
      let (r', f, l) =
        read_chunk_lem counted acknowledge ok (read_chunk3 n) r (marshal_chunk3 c ++ rest)
          (λ c'. deliver c.chunk_stream_id (stream_of t ty ms len (some b) d) (b ++ c'.body)) c rest
          (read_chunk3-marshal_chunk3 n c rest h) in
      (
        r',
        round_3 counted acknowledge ok r c rest h.0
            ∙ (ap
                  (λ rc.
                    read_type_3 counted acknowledge c.chunk_stream_id rc r
                      (marshal_chunk3 c ++ rest))
                  e
                ∙ f),
        l,
      )

-- The body is complete.
pub deliver_complete :
    (id t ty ms : ℕ) (b : Option (List ℕ)) (d : Option ℕ) (body : List ℕ) (r : Reader)
    (rest : List ℕ)
    → deliver id (stream_of t ty ms (length body) b d) body r rest
      ≡ message
          (some (message_of id t ty ms body))
          (store id (stream_of t ty ms (length body) none d) r)
          rest
unfolding deliver
deliver_complete id t ty ms b d body r rest = rw (==_refl (length body)) refl

-- Bytes of the body are missing.
pub deliver_partial :
    (id t ty ms len : ℕ) (b : Option (List ℕ)) (d : Option ℕ) (body : List ℕ) (r : Reader)
    (rest : List ℕ)
    → length body < len
    → deliver id (stream_of t ty ms len b d) body r rest
      ≡ message none (store id (stream_of t ty ms len (some body) d) r) rest
unfolding deliver
deliver_partial id t ty ms len b d body r rest h = ground arith
