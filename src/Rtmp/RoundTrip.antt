-- ===== src/Rtmp/RoundTrip.antt =====
-- The chunks of internal/rtmp/chunk: what marshalling writes, reading gives back.
use rtc_simple_server.Base.{
  length, ℕ, ◌+◌, ◌%◌, ◌<◌, ◌≡◌, refl, ap, subst, List, [], ◌∷◌, ◌++◌, arith,
}
use rtc_simple_server.Base.Bytes.{
  put24, put32, be24-put24, be32-put32, low_bits, or_64, or_128, or_192,
}
use Prim.Native.Nat.{bit_and, bit_or}
use rtc_simple_server.Rtmp.Reader.{Read, and_then, read_full, read_full-append, got}
use rtc_simple_server.Rtmp.Chunk.{
  Chunk0, Chunk1, Chunk2, Chunk3, chunk_body_len, read_chunk0, marshal_chunk0, read_chunk1,
  marshal_chunk1, read_chunk2, marshal_chunk2, read_chunk3, marshal_chunk3,
}

-- The header of a type 0 or 1 chunk fits its fields, and the body is what a first chunk carries.
unfoldable pub IsChunk0 : ℕ → Chunk0 → Type 0
IsChunk0 max_body_len c =
    c.chunk_stream_id < 64
    × c.timestamp < 16777216
    × c.message_stream_id < 4294967296
    × c.body_len < 16777216
    × length c.body ≡ chunk_body_len max_body_len c.body_len

unfoldable pub IsChunk1 : ℕ → Chunk1 → Type 0
IsChunk1 max_body_len c =
    c.chunk_stream_id < 64
    × c.timestamp_delta < 16777216
    × c.body_len < 16777216
    × length c.body ≡ chunk_body_len max_body_len c.body_len

unfoldable pub IsChunk2 : ℕ → Chunk2 → Type 0
IsChunk2 body_len c =
    c.chunk_stream_id < 64 × c.timestamp_delta < 16777216 × length c.body ≡ body_len

unfoldable pub IsChunk3 : ℕ → Chunk3 → Type 0
IsChunk3 body_len c = c.chunk_stream_id < 64 × length c.body ≡ body_len

read_full-and_then :
    {A : Type 0} (n : ℕ) (xs rest : List ℕ) (f : List ℕ → List ℕ → Read A)
    → length xs ≡ n
    → and_then f (read_full n (xs ++ rest)) ≡ f xs rest
read_full-and_then n xs rest f e =
    subst (λ n. and_then f (read_full n (xs ++ rest)) ≡ f xs rest) e
      (ap (and_then f) (read_full-append xs rest))

pub low_id : (i : ℕ) → i < 64 → bit_and i 0x3F ≡ i
low_id i h = omega (arith, low_bits i)

pub tagged_id :
    (tag i : ℕ)
    → bit_or tag i ≡ tag + i
    → i < 64
    → tag % 64 ≡ 0
    → tag < 193
    → bit_and (bit_or tag i) 0x3F ≡ i
tagged_id tag i e h t f = rw e (omega (arith, low_bits (tag + i)))

-- Reading a type 0 chunk gives back the marshalled chunk and the bytes after it, where the fields
-- fit their widths and the body is as long as a first chunk carries.
pub read_chunk0-marshal_chunk0 :
    (n : ℕ) (c : Chunk0) (rest : List ℕ)
    → IsChunk0 n c
    → read_chunk0 n (marshal_chunk0 c ++ rest) ≡ got c rest
unfolding read_chunk0 marshal_chunk0 IsChunk0
read_chunk0-marshal_chunk0 n c rest h =
    let tail = c.type ∷ put32 c.message_stream_id [] in
    let head = c.chunk_stream_id ∷ put24 c.timestamp (put24 c.body_len tail) in
    rw
      (
        read_full-and_then 12 head (c.body ++ rest) _ refl,
        be24-put24 c.timestamp (put24 c.body_len tail) (ground arith),
        be24-put24 c.body_len tail (ground arith),
        be32-put32 c.message_stream_id [] (ground arith),
        low_id c.chunk_stream_id (ground arith),
        read_full-and_then (chunk_body_len n c.body_len) c.body rest _ (ground arith),
      )
      refl

-- Reading a type 1 chunk gives back the marshalled chunk and the bytes after it, where the fields
-- fit their widths and the body is as long as a first chunk carries.
pub read_chunk1-marshal_chunk1 :
    (n : ℕ) (c : Chunk1) (rest : List ℕ)
    → IsChunk1 n c
    → read_chunk1 n (marshal_chunk1 c ++ rest) ≡ got c rest
unfolding read_chunk1 marshal_chunk1 IsChunk1
read_chunk1-marshal_chunk1 n c rest h =
    let head =
      bit_or 64 c.chunk_stream_id ∷ put24 c.timestamp_delta (put24 c.body_len (c.type ∷ [])) in
    rw
      (
        read_full-and_then 8 head (c.body ++ rest) _ refl,
        be24-put24 c.timestamp_delta (put24 c.body_len (c.type ∷ [])) (ground arith),
        be24-put24 c.body_len (c.type ∷ []) (ground arith),
        tagged_id 64 c.chunk_stream_id (or_64 c.chunk_stream_id (ground arith)) (ground arith) refl
            (omega arith),
        read_full-and_then (chunk_body_len n c.body_len) c.body rest _ (ground arith),
      )
      refl

-- Reading a type 2 chunk, with the body length known from the chunk before it, gives back the
-- marshalled chunk and the bytes after it, where the fields fit their widths.
pub read_chunk2-marshal_chunk2 :
    (n : ℕ) (c : Chunk2) (rest : List ℕ)
    → IsChunk2 n c
    → read_chunk2 n (marshal_chunk2 c ++ rest) ≡ got c rest
unfolding read_chunk2 marshal_chunk2 IsChunk2
read_chunk2-marshal_chunk2 n c rest h =
    let head = bit_or 128 c.chunk_stream_id ∷ put24 c.timestamp_delta [] in
    rw
      (
        read_full-and_then 4 head (c.body ++ rest) _ refl,
        be24-put24 c.timestamp_delta [] (ground arith),
        tagged_id 128 c.chunk_stream_id (or_128 c.chunk_stream_id (ground arith)) (ground arith)
            refl (omega arith),
        read_full-and_then n c.body rest _ (ground arith),
      )
      refl

-- Reading a type 3 chunk, with the body length known from the chunks before it, gives back the
-- marshalled chunk and the bytes after it, where its chunk stream ID fits six bits.
pub read_chunk3-marshal_chunk3 :
    (n : ℕ) (c : Chunk3) (rest : List ℕ)
    → IsChunk3 n c
    → read_chunk3 n (marshal_chunk3 c ++ rest) ≡ got c rest
unfolding read_chunk3 marshal_chunk3 IsChunk3
read_chunk3-marshal_chunk3 n c rest h =
    let head = bit_or 192 c.chunk_stream_id ∷ [] in
    rw
      (
        read_full-and_then 1 head (c.body ++ rest) _ refl,
        tagged_id 192 c.chunk_stream_id (or_192 c.chunk_stream_id (ground arith)) (ground arith)
            refl (omega arith),
        read_full-and_then n c.body rest _ (ground arith),
      )
      refl
