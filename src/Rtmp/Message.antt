-- ===== src/Rtmp/Message.antt =====
-- internal/rtmp/message: which message a raw message holds, and the control messages.
use rtc_simple_server.Base.{
  ltb, ◌==◌, if◌then◌else◌, length, ℕ, Bool, ◌||◌, List, [], ◌∷◌, ◌*◌, ◌+◌,
}
use rtc_simple_server.Base.Bytes.{byte_at, be32}
use Prim.Native.Nat.{bit_and}

-- internal/rtmp/rawmessage/message.go; the timestamp is in nanoseconds.
pub record RawMessage : Type 0 where
  pub chunk_stream_id : ℕ
  pub timestamp : ℕ
  pub type : ℕ
  pub message_stream_id : ℕ
  pub body : List ℕ

pub data Kind : Type 0 where
  set_chunk_size : Kind
  acknowledge : Kind
  set_window_ack_size : Kind
  set_peer_bandwidth : Kind
  stream_begin : Kind
  stream_eof : Kind
  stream_dry : Kind
  set_buffer_length : Kind
  stream_is_recorded : Kind
  ping_request : Kind
  ping_response : Kind
  command_amf0 : Kind
  data_amf0 : Kind
  audio : Kind
  video : Kind
  extended_sequence_start : Kind
  extended_coded_frames : Kind
  extended_sequence_end : Kind
  extended_frames_x : Kind
  extended_metadata : Kind
  extended_mpeg2ts_sequence_start : Kind

pub data MessageError : Type 0 where
  not_enough_bytes : MessageError
  invalid_user_control_type : ℕ → MessageError
  invalid_four_cc : MessageError
  invalid_extended_type : ℕ → MessageError
  invalid_message_type : ℕ → MessageError
  unexpected_chunk_stream_id : MessageError
  invalid_body_size : MessageError

pub data Result {ℓ} (A : Type ℓ) : Type ℓ where
  err : MessageError → Result A
  ok : A → Result A

abbrev user_control_kind : ℕ → Result Kind
user_control_kind t =
    if t == 0
    then ok stream_begin
    else if t == 1
    then ok stream_eof
    else if t == 2
    then ok stream_dry
    else if t == 3
    then ok set_buffer_length
    else if t == 4
    then ok stream_is_recorded
    else if t == 6
    then ok ping_request
    else if t == 7
    then ok ping_response
    else err (invalid_user_control_type t)

abbrev extended_kind : ℕ → Result Kind
extended_kind t =
    if t == 0
    then ok extended_sequence_start
    else if t == 1
    then ok extended_coded_frames
    else if t == 2
    then ok extended_sequence_end
    else if t == 3
    then ok extended_frames_x
    else if t == 4
    then ok extended_metadata
    else if t == 5
    then ok extended_mpeg2ts_sequence_start
    else err (invalid_extended_type t)

-- `av01`, `vp09` and `hvc1`, read as big-endian integers.
abbrev is_four_cc : ℕ → Bool
is_four_cc f = f == 0x61763031 || f == 0x76703039 || f == 0x68766331

abbrev video_kind : List ℕ → Result Kind
video_kind body =
    if ltb (length body) 5
    then err not_enough_bytes
    else if bit_and (byte_at body 0) 0x80 == 0
    then ok video
    else if is_four_cc (be32 body 1)
    then extended_kind (bit_and (byte_at body 0) 0x0F)
    else err invalid_four_cc

-- The two bytes of the type are read behind a look at the length.
abbrev control_kind : List ℕ → Result Kind
control_kind [] = err not_enough_bytes
control_kind (high ∷ []) = err not_enough_bytes
control_kind (high ∷ low ∷ others) = user_control_kind (high * 256 + low)

unfoldable pub allocate_message : RawMessage → Result Kind
allocate_message raw =
    if raw.type == 1
    then ok set_chunk_size
    else if raw.type == 3
    then ok acknowledge
    else if raw.type == 5
    then ok set_window_ack_size
    else if raw.type == 6
    then ok set_peer_bandwidth
    else if raw.type == 4
    then control_kind raw.body
    else if raw.type == 20
    then ok command_amf0
    else if raw.type == 18
    then ok data_amf0
    else if raw.type == 8
    then ok audio
    else if raw.type == 9
    then video_kind raw.body
    else err (invalid_message_type raw.type)
