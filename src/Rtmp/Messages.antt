-- ===== src/Rtmp/Messages.antt =====
-- The interface `Message` of internal/rtmp/message: all messages but those that carry AMF0, their
-- `Marshal`, and the reader's choice of a type, then that type's `Unmarshal`.
use rtc_simple_server.Base.{ℕ, ◌^◌, ◌<◌, Option, none, some}
use rtc_simple_server.Rtmp.Message.{
  RawMessage, Kind, MessageError, Result, err, ok, allocate_message,
}
use rtc_simple_server.Rtmp.Control.{
  Acknowledge, unmarshal_acknowledge, marshal_acknowledge, SetChunkSize, unmarshal_set_chunk_size,
  marshal_set_chunk_size, SetWindowAckSize, unmarshal_set_window_ack_size,
  marshal_set_window_ack_size, SetPeerBandwidth, unmarshal_set_peer_bandwidth,
  marshal_set_peer_bandwidth,
}
use rtc_simple_server.Rtmp.UserControl.{
  StreamBegin, unmarshal_stream_begin, marshal_stream_begin, StreamEof, unmarshal_stream_eof,
  marshal_stream_eof, StreamDry, unmarshal_stream_dry, marshal_stream_dry, StreamIsRecorded,
  unmarshal_stream_is_recorded, marshal_stream_is_recorded, PingRequest, unmarshal_ping_request,
  marshal_ping_request, PingResponse, unmarshal_ping_response, marshal_ping_response,
  SetBufferLength, unmarshal_set_buffer_length, marshal_set_buffer_length,
}
use rtc_simple_server.Rtmp.Media.{
  Audio, unmarshal_audio, marshal_audio, IsAudio, MediaError, MediaResult,
}
use rtc_simple_server.Rtmp.Video.{Video, unmarshal_video, marshal_video, IsVideo}
use rtc_simple_server.Rtmp.Extended.{
  CodedFrames, unmarshal_coded_frames, marshal_coded_frames, IsCodedFrames, FramesX,
  unmarshal_frames_x, marshal_frames_x, IsFourCc, SequenceStart, unmarshal_sequence_start,
  SequenceEnd, unmarshal_sequence_end, unmarshal_four_cc,
}
pub mod RoundTrip
pub mod Safe
pub mod Exchange
pub mod Sequence
pub mod ReadWriter
mod Tests

pub data Control : Type 0 where
  chunk_size : SetChunkSize → Control
  ack : Acknowledge → Control
  window_ack_size : SetWindowAckSize → Control
  peer_bandwidth : SetPeerBandwidth → Control
  begin : StreamBegin → Control
  end_of_file : StreamEof → Control
  dry : StreamDry → Control
  buffer : SetBufferLength → Control
  recorded : StreamIsRecorded → Control
  ping : PingRequest → Control
  pong : PingResponse → Control

pub data Message : Type 0 where
  control : Control → Message
  audio : Audio → Message
  video : Video → Message
  sequence_start : SequenceStart → Message
  coded_frames : CodedFrames → Message
  sequence_end : SequenceEnd → Message
  frames_x : FramesX → Message
  metadata : ℕ → Message
  mpeg2ts_sequence_start : ℕ → Message

-- What reading a raw message gives; `amf0` stands for what the AMF0 messages make of it.
pub data Parsed : Type 0 where
  refused : MessageError → Parsed
  media_refused : MediaError → Parsed
  body_size_refused : Parsed
  not_implemented : Parsed
  panics : Parsed
  amf0 : RawMessage → Parsed
  parsed : Message → Parsed

abbrev of_result {ℓ} : {A : Type ℓ} → (A → Message) → Result A → Parsed
of_result f (err e) = refused e
of_result f (ok a) = parsed (f a)

abbrev of_media {ℓ} : {A : Type ℓ} → (A → Message) → MediaResult A → Parsed
of_media f (MediaResult.err e) = media_refused e
of_media f (MediaResult.ok a) = parsed (f a)

abbrev of_option {ℓ} : {A : Type ℓ} → Parsed → (A → Parsed) → Option A → Parsed
of_option p f none = p
of_option p f (some a) = f a

unfoldable pub marshal_control : Control → RawMessage
marshal_control (chunk_size m) = marshal_set_chunk_size m
marshal_control (ack m) = marshal_acknowledge m
marshal_control (window_ack_size m) = marshal_set_window_ack_size m
marshal_control (peer_bandwidth m) = marshal_set_peer_bandwidth m
marshal_control (begin m) = marshal_stream_begin m
marshal_control (end_of_file m) = marshal_stream_eof m
marshal_control (dry m) = marshal_stream_dry m
marshal_control (buffer m) = marshal_set_buffer_length m
marshal_control (recorded m) = marshal_stream_is_recorded m
marshal_control (ping m) = marshal_ping_request m
marshal_control (pong m) = marshal_ping_response m

module _ (frame_key frame_inter : ℕ) where
  -- `Unmarshal` of an allocated message.
  unfoldable pub unmarshal_as : Kind → RawMessage → Parsed
  unmarshal_as Kind.set_chunk_size raw =
      of_result (λ m. control (chunk_size m)) (unmarshal_set_chunk_size raw)
  unmarshal_as Kind.acknowledge raw = of_result (λ m. control (ack m)) (unmarshal_acknowledge raw)
  unmarshal_as Kind.set_window_ack_size raw =
      of_result (λ m. control (window_ack_size m)) (unmarshal_set_window_ack_size raw)
  unmarshal_as Kind.set_peer_bandwidth raw =
      of_result (λ m. control (peer_bandwidth m)) (unmarshal_set_peer_bandwidth raw)
  unmarshal_as Kind.stream_begin raw =
      of_result (λ m. control (begin m)) (unmarshal_stream_begin raw)
  unmarshal_as Kind.stream_eof raw =
      of_result (λ m. control (end_of_file m)) (unmarshal_stream_eof raw)
  unmarshal_as Kind.stream_dry raw = of_result (λ m. control (dry m)) (unmarshal_stream_dry raw)
  unmarshal_as Kind.set_buffer_length raw =
      of_result (λ m. control (buffer m)) (unmarshal_set_buffer_length raw)
  unmarshal_as Kind.stream_is_recorded raw =
      of_result (λ m. control (recorded m)) (unmarshal_stream_is_recorded raw)
  unmarshal_as Kind.ping_request raw =
      of_result (λ m. control (ping m)) (unmarshal_ping_request raw)
  unmarshal_as Kind.ping_response raw =
      of_result (λ m. control (pong m)) (unmarshal_ping_response raw)
  unmarshal_as Kind.command_amf0 raw = amf0 raw
  unmarshal_as Kind.data_amf0 raw = amf0 raw
  unmarshal_as Kind.audio raw = of_media audio (unmarshal_audio raw)
  unmarshal_as Kind.video raw = of_media video (unmarshal_video frame_key frame_inter raw)
  unmarshal_as Kind.extended_sequence_start raw =
      of_option panics (λ m. parsed (sequence_start m)) (unmarshal_sequence_start raw)
  unmarshal_as Kind.extended_coded_frames raw =
      of_option body_size_refused (λ m. parsed (coded_frames m)) (unmarshal_coded_frames raw)
  unmarshal_as Kind.extended_sequence_end raw =
      of_option body_size_refused (λ m. parsed (sequence_end m)) (unmarshal_sequence_end raw)
  unmarshal_as Kind.extended_frames_x raw =
      of_option panics (λ m. parsed (frames_x m)) (unmarshal_frames_x raw)
  unmarshal_as Kind.extended_metadata raw =
      of_option panics (λ f. not_implemented) (unmarshal_four_cc raw)
  unmarshal_as Kind.extended_mpeg2ts_sequence_start raw =
      of_option panics (λ f. not_implemented) (unmarshal_four_cc raw)

  -- `allocateMessage`, then `Unmarshal`.
  unfoldable pub parse : RawMessage → Parsed
  unfolding unmarshal_as
  parse raw = elim (allocate_message raw) [ err e ↦ refused e | ok k ↦ unmarshal_as k raw ]

  -- `none` is the error of a message whose `Marshal` is still to be written.
  unfoldable pub marshal_message : Message → Option RawMessage
  marshal_message (control m) = some (marshal_control m)
  marshal_message (audio m) = some (marshal_audio m)
  marshal_message (video m) = some (marshal_video frame_key frame_inter m)
  marshal_message (sequence_start m) = none
  marshal_message (coded_frames m) = some (marshal_coded_frames m)
  marshal_message (sequence_end m) = none
  marshal_message (frames_x m) = some (marshal_frames_x m)
  marshal_message (metadata f) = none
  marshal_message (mpeg2ts_sequence_start f) = none

-- The fields fit 32 bits.
unfoldable pub IsU32 : Control → Type 0
IsU32 (chunk_size m) = m.value < 2 ^ 32
IsU32 (ack m) = m.value < 2 ^ 32
IsU32 (window_ack_size m) = m.value < 2 ^ 32
IsU32 (peer_bandwidth m) = m.value < 2 ^ 32
IsU32 (begin m) = m.stream_id < 2 ^ 32
IsU32 (end_of_file m) = m.stream_id < 2 ^ 32
IsU32 (dry m) = m.stream_id < 2 ^ 32
IsU32 (buffer m) = (m.stream_id < 2 ^ 32) × (m.buffer_length < 2 ^ 32)
IsU32 (recorded m) = m.stream_id < 2 ^ 32
IsU32 (ping m) = m.server_time < 2 ^ 32
IsU32 (pong m) = m.server_time < 2 ^ 32

-- The fields of a message fit what carries them.
unfoldable pub IsValid : Message → Type 0
unfolding IsU32
IsValid (control m) = IsU32 m
IsValid (audio m) = IsAudio m
IsValid (video m) = IsVideo m
IsValid (sequence_start m) = Unit
IsValid (coded_frames m) = IsCodedFrames m
IsValid (sequence_end m) = Unit
IsValid (frames_x m) = IsFourCc m.four_cc
IsValid (metadata f) = Unit
IsValid (mpeg2ts_sequence_start f) = Unit
