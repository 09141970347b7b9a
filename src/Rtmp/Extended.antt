-- ===== src/Rtmp/Extended.antt =====
-- The extended video messages of internal/rtmp/message. A FourCC, four bytes, is a big-endian integer.
use rtc_simple_server.Base.{
  ltb, ◌==◌, if◌then◌else◌, length, drop, ℕ, ◌*◌, ◌/◌, ◌%◌, ◌≤◌, ◌<◌, ◌≡◌, ◌⊎◌, Bool, not, Option,
  none, some, List, ◌∷◌, arith,
}
use rtc_simple_server.Base.Bytes.{be24, be32, put24, put32, be24-put24, be32-put32}
use Prim.Native.Nat.{bit_or}
use rtc_simple_server.Rtmp.Message.{RawMessage, Kind, allocate_message}
use rtc_simple_server.Rtmp.Message

pub record CodedFrames : Type 0 where
  pub chunk_stream_id : ℕ
  pub dts : ℕ
  pub message_stream_id : ℕ
  pub four_cc : ℕ
  pub pts_delta : ℕ
  pub payload : List ℕ

pub record FramesX : Type 0 where
  pub chunk_stream_id : ℕ
  pub dts : ℕ
  pub message_stream_id : ℕ
  pub four_cc : ℕ
  pub payload : List ℕ

-- `hvc1`
abbrev is_hevc : ℕ → Bool
is_hevc f = f == 0x68766331

-- Durations are in nanoseconds, here whole milliseconds. `none` is the error of a body that is too
-- short.
unfoldable pub unmarshal_coded_frames : RawMessage → Option CodedFrames
unmarshal_coded_frames raw =
    let f = be32 raw.body 1 in
    if ltb (length raw.body) 8
    then none
    else some (record {
      chunk_stream_id = raw.chunk_stream_id;
      dts = raw.timestamp;
      message_stream_id = raw.message_stream_id;
      four_cc = f;
      pts_delta = if is_hevc f then be24 raw.body 5 * 1000000 else 0;
      payload = if is_hevc f then drop 8 raw.body else drop 5 raw.body;
    })

unfoldable pub marshal_coded_frames : CodedFrames → RawMessage
marshal_coded_frames m = record {
  chunk_stream_id = m.chunk_stream_id;
  timestamp = m.dts;
  type = 9;
  message_stream_id = m.message_stream_id;
  body =
      bit_or 0x80 1
      ∷ put32 m.four_cc (
          if is_hevc m.four_cc
          then put24 (m.pts_delta / 1000000 % 4294967296) m.payload
          else m.payload);
}

-- The slices of a body shorter than five bytes panic, which is `none`; `allocateMessage` refuses it before.
unfoldable pub unmarshal_frames_x : RawMessage → Option FramesX
unmarshal_frames_x raw =
    if ltb (length raw.body) 5
    then none
    else some (record {
      chunk_stream_id = raw.chunk_stream_id;
      dts = raw.timestamp;
      message_stream_id = raw.message_stream_id;
      four_cc = be32 raw.body 1;
      payload = drop 5 raw.body;
    })

unfoldable pub marshal_frames_x : FramesX → RawMessage
marshal_frames_x m = record {
  chunk_stream_id = m.chunk_stream_id;
  timestamp = m.dts;
  type = 9;
  message_stream_id = m.message_stream_id;
  body = bit_or 0x80 3 ∷ put32 m.four_cc m.payload;
}

pub record SequenceStart : Type 0 where
  pub four_cc : ℕ
  pub config : List ℕ

pub record SequenceEnd : Type 0 where
  pub four_cc : ℕ

-- As with `unmarshal_frames_x`, `none` is a panic.
unfoldable pub unmarshal_sequence_start : RawMessage → Option SequenceStart
unmarshal_sequence_start raw =
    if ltb (length raw.body) 5
    then none
    else some (record { four_cc = be32 raw.body 1; config = drop 5 raw.body })

-- `none` is the error of a body of another size.
unfoldable pub unmarshal_sequence_end : RawMessage → Option SequenceEnd
unmarshal_sequence_end raw =
    if not (length raw.body == 5) then none else some (record { four_cc = be32 raw.body 1 })

-- The FourCC that a metadata or an MPEG2-TS message takes before it returns an error; `none` is a
-- panic.
unfoldable pub unmarshal_four_cc : RawMessage → Option ℕ
unmarshal_four_cc raw = if ltb (length raw.body) 5 then none else some (be32 raw.body 1)

-- The FourCC is one of the three of the package.
unfoldable pub IsFourCc : ℕ → Type 0
IsFourCc f = (f ≡ 0x61763031) ⊎ (f ≡ 0x76703039) ⊎ (f ≡ 0x68766331)

-- With HEVC the delta is a whole number of milliseconds below 2^24; with another codec there is none,
-- and the payload has three bytes at least.
unfoldable pub IsCodedFrames : CodedFrames → Type 0
IsCodedFrames m =
    IsFourCc m.four_cc
    × (if is_hevc m.four_cc
        then (m.pts_delta % 1000000 ≡ 0) × (m.pts_delta / 1000000 < 16777216)
        else (m.pts_delta ≡ 0) × (3 ≤ length m.payload))

be32_of_IsFourCc : (f : ℕ) (bs : List ℕ) → IsFourCc f → be32 (put32 f bs) 0 ≡ f
unfolding IsFourCc
be32_of_IsFourCc f bs h = be32-put32 f bs (ground (arith, h))

-- A CodedFrames message is read back from the raw message that it marshals to, for which the reader
-- allocates its type, where its FourCC is one of the three of the package; where with HEVC its delta is a
-- whole number of milliseconds below 2^24; and where with another codec it has no delta and a payload of
-- three bytes at least.
pub unmarshal_coded_frames-marshal_coded_frames :
    (m : CodedFrames)
    → IsCodedFrames m
    → (allocate_message (marshal_coded_frames m) ≡ Message.ok Kind.extended_coded_frames)
      × (unmarshal_coded_frames (marshal_coded_frames m) ≡ some m)
unfolding IsCodedFrames IsFourCc allocate_message unmarshal_coded_frames marshal_coded_frames
unmarshal_coded_frames-marshal_coded_frames m h =
    let ms = m.pts_delta / 1000000 % 4294967296 in
    ground (
      arith,
      h,
      be32_of_IsFourCc m.four_cc m.payload,
      be32_of_IsFourCc m.four_cc (put24 ms m.payload),
      be24-put24 ms m.payload,
    )

-- A FramesX message is read back from the raw message that it marshals to, for which the reader allocates
-- its type, where its FourCC is one of the three of the package.
pub unmarshal_frames_x-marshal_frames_x :
    (m : FramesX)
    → IsFourCc m.four_cc
    → (allocate_message (marshal_frames_x m) ≡ Message.ok Kind.extended_frames_x)
      × (unmarshal_frames_x (marshal_frames_x m) ≡ some m)
unfolding IsFourCc allocate_message unmarshal_frames_x marshal_frames_x
unmarshal_frames_x-marshal_frames_x m h = ground (arith, h, be32_of_IsFourCc m.four_cc m.payload h)
