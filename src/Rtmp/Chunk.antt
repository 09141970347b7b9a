-- ===== src/Rtmp/Chunk.antt =====
-- internal/rtmp/chunk: the four chunk types, read from a stream and marshalled.
use rtc_simple_server.Base.{ltb, if◌then◌else◌, ℕ, List, ◌∷◌}
use rtc_simple_server.Base.Bytes.{byte_at, be24, be32, put24, put32}
use rtc_simple_server.Rtmp.Reader.{Read, ◌>>=◌, pure, read_full}
use Prim.Native.Nat.{bit_and, bit_or}

pub record Chunk0 : Type 0 where
  pub chunk_stream_id : ℕ
  pub timestamp : ℕ
  pub type : ℕ
  pub message_stream_id : ℕ
  pub body_len : ℕ
  pub body : List ℕ

pub record Chunk1 : Type 0 where
  pub chunk_stream_id : ℕ
  pub timestamp_delta : ℕ
  pub type : ℕ
  pub body_len : ℕ
  pub body : List ℕ

pub record Chunk2 : Type 0 where
  pub chunk_stream_id : ℕ
  pub timestamp_delta : ℕ
  pub body : List ℕ

pub record Chunk3 : Type 0 where
  pub chunk_stream_id : ℕ
  pub body : List ℕ

-- The part of a body of `body_len` bytes that the first chunk carries.
abbrev pub chunk_body_len : ℕ → ℕ → ℕ
chunk_body_len max_body_len body_len = if ltb max_body_len body_len then max_body_len else body_len

unfoldable pub read_chunk0 : ℕ → List ℕ → Read Chunk0
read_chunk0 max_body_len = do
  h ← read_full 12
  b ← read_full (chunk_body_len max_body_len (be24 h 4))
  pure (record {
    chunk_stream_id = bit_and (byte_at h 0) 0x3F;
    timestamp = be24 h 1;
    type = byte_at h 7;
    message_stream_id = be32 h 8;
    body_len = be24 h 4;
    body = b;
  })

unfoldable pub marshal_chunk0 : Chunk0 → List ℕ
marshal_chunk0 c =
    c.chunk_stream_id
    ∷ put24 c.timestamp (put24 c.body_len (c.type ∷ put32 c.message_stream_id c.body))

unfoldable pub read_chunk1 : ℕ → List ℕ → Read Chunk1
read_chunk1 max_body_len = do
  h ← read_full 8
  b ← read_full (chunk_body_len max_body_len (be24 h 4))
  pure (record {
    chunk_stream_id = bit_and (byte_at h 0) 0x3F;
    timestamp_delta = be24 h 1;
    type = byte_at h 7;
    body_len = be24 h 4;
    body = b;
  })

unfoldable pub marshal_chunk1 : Chunk1 → List ℕ
marshal_chunk1 c =
    bit_or 64 c.chunk_stream_id ∷ put24 c.timestamp_delta (put24 c.body_len (c.type ∷ c.body))

unfoldable pub read_chunk2 : ℕ → List ℕ → Read Chunk2
read_chunk2 body_len = do
  h ← read_full 4
  b ← read_full body_len
  pure (record {
    chunk_stream_id = bit_and (byte_at h 0) 0x3F;
    timestamp_delta = be24 h 1;
    body = b;
  })

unfoldable pub marshal_chunk2 : Chunk2 → List ℕ
marshal_chunk2 c = bit_or 128 c.chunk_stream_id ∷ put24 c.timestamp_delta c.body

unfoldable pub read_chunk3 : ℕ → List ℕ → Read Chunk3
read_chunk3 body_len = do
  h ← read_full 1
  b ← read_full body_len
  pure (record { chunk_stream_id = bit_and (byte_at h 0) 0x3F; body = b })

unfoldable pub marshal_chunk3 : Chunk3 → List ℕ
marshal_chunk3 c = bit_or 192 c.chunk_stream_id ∷ c.body
