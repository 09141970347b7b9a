-- ===== src/Rtmp/Tests.antt =====
-- H264 configurations at work, and a chunk that its stream cuts short.
use mathlib.Core.Option
use rtc_simple_server.Base.{ℕ, List, [], ◌∷◌, ◌≡◌, refl, some, arith}
use rtc_simple_server.Rtmp.Reader.{ReadError, failed}
use rtc_simple_server.Rtmp.Chunk.{Chunk0, read_chunk0, marshal_chunk0}
use rtc_simple_server.Rtmp.RoundTrip.{IsChunk0}
use rtc_simple_server.Rtmp.Truncated.{read_chunk0_cut}
use rtc_simple_server.Rtmp.H264Conf.{Conf, ConfResult, unmarshal, marshal, unmarshal-marshal}

abbrev conf : Conf
conf = record { sps = 103 ∷ 100 ∷ 0 ∷ 12 ∷ 172 ∷ []; pps = 104 ∷ 238 ∷ [] }

unmarshal-marshal_example : Option.map unmarshal (marshal conf) ≡ some (ConfResult.ok conf)
unmarshal-marshal_example = unmarshal-marshal conf (omega arith) (omega arith) (omega arith)

abbrev chunk : Chunk0
chunk = record {
  chunk_stream_id = 4;
  timestamp = 1000;
  type = 8;
  message_stream_id = 1;
  body_len = 3;
  body = 7 ∷ 8 ∷ 9 ∷ [];
}

-- All of the chunk but the last byte of its body.
abbrev received : List ℕ
received = 4 ∷ 0 ∷ 3 ∷ 232 ∷ 0 ∷ 0 ∷ 3 ∷ 8 ∷ 0 ∷ 0 ∷ 0 ∷ 1 ∷ 7 ∷ 8 ∷ []

chunk-IsChunk0 : IsChunk0 128 chunk
unfolding IsChunk0
chunk-IsChunk0 = (omega arith, omega arith, omega arith, omega arith, refl)

read_chunk0_cut_example : (e : ReadError) × (read_chunk0 128 received ≡ failed e)
unfolding marshal_chunk0
read_chunk0_cut_example = read_chunk0_cut 128 chunk received 9 [] chunk-IsChunk0 refl
