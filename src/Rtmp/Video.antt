-- ===== src/Rtmp/Video.antt =====
-- The video message of internal/rtmp/message.
use rtc_simple_server.Base.{
  ltb, ◌==◌, if◌then◌else◌, length, drop, ℕ, ◌+◌, ◌*◌, ◌/◌, ◌%◌, ◌<◌, ◌≡◌, refl, ◌≢◌, Bool, true,
  false, not, ◌||◌, List, ◌∷◌, arith,
}
use rtc_simple_server.Base.Bytes.{agree_below, eq_of_agree, byte_at, be24, put24, be24-put24}
use Prim.Native.Nat.{bit_and, bit_or}
use rtc_simple_server.Rtmp.Message.{RawMessage}
use rtc_simple_server.Rtmp.Media.{
  MediaResult, invalid_body_size, unsupported_codec, unsupported_type, err, ok,
}

pub record Video : Type 0 where
  pub chunk_stream_id : ℕ
  pub dts : ℕ
  pub message_stream_id : ℕ
  pub codec : ℕ
  pub is_key_frame : Bool
  pub type : ℕ
  pub pts_delta : ℕ
  pub payload : List ℕ

-- `frame_key` and `frame_inter` stand for `FRAME_KEY` and `FRAME_INTER` of the package flvio.
module _ (frame_key frame_inter : ℕ) where
  unfoldable pub video_head : Bool → ℕ → ℕ
  video_head is_key_frame codec =
      bit_or (if is_key_frame then frame_key * 16 else frame_inter * 16) codec

  -- Durations are in nanoseconds, here whole milliseconds.
  unfoldable pub unmarshal_video : RawMessage → MediaResult Video
  unmarshal_video raw =
      let b = byte_at raw.body 0 in
      let codec = bit_and b 0x0F in
      let type = byte_at raw.body 1 in
      if ltb (length raw.body) 5
      then err invalid_body_size
      else if not (codec == 7)
      then err (unsupported_codec codec)
      else if not (type == 0 || type == 1 || type == 2)
      then err (unsupported_type type)
      else ok (record {
        chunk_stream_id = raw.chunk_stream_id;
        dts = raw.timestamp;
        message_stream_id = raw.message_stream_id;
        codec = codec;
        is_key_frame = b / 16 == frame_key;
        type = type;
        pts_delta = be24 raw.body 2 * 1000000;
        payload = drop 5 raw.body;
      })

  -- Of a delta that is not negative.
  unfoldable pub marshal_video : Video → RawMessage
  unfolding video_head
  marshal_video m = record {
    chunk_stream_id = m.chunk_stream_id;
    timestamp = m.dts;
    type = 9;
    message_stream_id = m.message_stream_id;
    body =
        video_head m.is_key_frame m.codec
        ∷ m.type
        ∷ put24 (m.pts_delta / 1000000 % 4294967296) m.payload;
  }

or_seven : (k : ℕ) → k < 16 → bit_or (k * 16) 7 ≡ k * 16 + 7
unfolding agree_below
or_seven = eq_of_agree _ _ 16 refl

four_bits : (b : ℕ) → b < 256 → bit_and b 0x0F ≡ b % 16
unfolding agree_below
four_bits = eq_of_agree _ _ 256 refl

-- The codec is H264, the type one of three, and the delta a whole number of milliseconds below 2^24.
unfoldable pub IsVideo : Video → Type 0
IsVideo m = (m.codec ≡ 7) × (m.type < 3) × (ms : ℕ) × (m.pts_delta ≡ ms * 1000000) × (ms < 16777216)

module _ (frame_key frame_inter : ℕ) (k : frame_key < 16) (i : frame_inter < 16)
    (d : frame_key ≢ frame_inter) where
  pub video_head_sum :
      (b : Bool)
      → video_head frame_key frame_inter b 7 ≡ (if b then frame_key else frame_inter) * 16 + 7
  unfolding video_head
  video_head_sum true = or_seven frame_key k
  video_head_sum false = or_seven frame_inter i

  -- A video message is read back from the raw message that it marshals to, where its codec is H264, its
  -- type one of three and its delta a whole number of milliseconds below 2^24, and the two frame types of
  -- flvio are different numbers of four bits.
  pub unmarshal_video-marshal_video :
      (m : Video)
      → IsVideo m
      → unmarshal_video frame_key frame_inter (marshal_video frame_key frame_inter m) ≡ ok m
  unfolding IsVideo unmarshal_video marshal_video
  unmarshal_video-marshal_video m h = ground (
    arith,
    h,
    video_head_sum m.is_key_frame,
    four_bits (video_head frame_key frame_inter m.is_key_frame 7),
    be24-put24 (m.pts_delta / 1000000 % 4294967296) m.payload,
  )
