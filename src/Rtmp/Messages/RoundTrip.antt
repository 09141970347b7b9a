-- ===== src/Rtmp/Messages/RoundTrip.antt =====
-- A message of internal/rtmp/message that is marshalled as a raw message is read back from it.
use Prim.Native.Nat.{bit_and}
use rtc_simple_server.Base.{ℕ, ◌<◌, ◌≡◌, ◌≢◌, refl, ap, ◌∙◌, some, [], ◌∷◌, arith}
use rtc_simple_server.Base.Bytes.{put32, be32-put32, agree_below, eq_of_agree}
use rtc_simple_server.Rtmp.Message.{RawMessage, Kind, ok, allocate_message}
use rtc_simple_server.Rtmp.Control.{
  unmarshal_acknowledge, marshal_acknowledge, unmarshal_set_chunk_size, marshal_set_chunk_size,
  unmarshal_set_window_ack_size, marshal_set_window_ack_size, unmarshal_set_peer_bandwidth,
  marshal_set_peer_bandwidth,
}
use rtc_simple_server.Rtmp.UserControl.{
  unmarshal_stream_begin, marshal_stream_begin, unmarshal_stream_eof, marshal_stream_eof,
  unmarshal_stream_dry, marshal_stream_dry, unmarshal_stream_is_recorded,
  marshal_stream_is_recorded, unmarshal_ping_request, marshal_ping_request, unmarshal_ping_response,
  marshal_ping_response, unmarshal_set_buffer_length, marshal_set_buffer_length,
}
use rtc_simple_server.Rtmp.Media.{Audio, marshal_audio, IsAudio, unmarshal_audio-marshal_audio}
use rtc_simple_server.Rtmp.Video.{
  Video, video_head, marshal_video, IsVideo, video_head_sum, unmarshal_video-marshal_video,
}
use rtc_simple_server.Rtmp.Extended.{
  CodedFrames, marshal_coded_frames, IsCodedFrames, FramesX, marshal_frames_x, IsFourCc,
  unmarshal_coded_frames-marshal_coded_frames, unmarshal_frames_x-marshal_frames_x,
}
use rtc_simple_server.Rtmp.Messages.{
  Control, chunk_size, ack, window_ack_size, peer_bandwidth, begin, end_of_file, dry, buffer,
  recorded, ping, pong, marshal_control, IsU32, Message, control, audio, video, sequence_start,
  coded_frames, sequence_end, frames_x, metadata, mpeg2ts_sequence_start, panics, parsed,
  unmarshal_as, parse, marshal_message, IsValid, of_option, of_media, body_size_refused,
}

high_bit : (b : ℕ) → b < 128 → bit_and b 0x80 ≡ 0
unfolding agree_below
high_bit = eq_of_agree _ _ 128 refl

module _ (frame_key frame_inter : ℕ) where
  -- Every control message whose fields fit 32 bits is read back from the raw message it marshals to:
  -- the reader allocates its type and unmarshals its fields.
  pub parse-marshal_control :
      (m : Control) → IsU32 m → parse frame_key frame_inter (marshal_control m) ≡ parsed (control m)
  unfolding parse unmarshal_as marshal_control IsU32 allocate_message marshal_set_chunk_size
      marshal_acknowledge marshal_set_window_ack_size marshal_set_peer_bandwidth
      marshal_stream_begin marshal_stream_eof marshal_stream_dry marshal_set_buffer_length
      marshal_stream_is_recorded marshal_ping_request marshal_ping_response unmarshal_set_chunk_size
      unmarshal_acknowledge unmarshal_set_window_ack_size unmarshal_set_peer_bandwidth
      unmarshal_stream_begin unmarshal_stream_eof unmarshal_stream_dry unmarshal_set_buffer_length
      unmarshal_stream_is_recorded unmarshal_ping_request unmarshal_ping_response
  parse-marshal_control (chunk_size m) h = ground (arith, be32-put32 m.value [])
  parse-marshal_control (ack m) h = ground (arith, be32-put32 m.value [])
  parse-marshal_control (window_ack_size m) h = ground (arith, be32-put32 m.value [])
  parse-marshal_control (peer_bandwidth m) h = ground (arith, be32-put32 m.value (m.type ∷ []))
  parse-marshal_control (begin m) h = ground (arith, be32-put32 m.stream_id [])
  parse-marshal_control (end_of_file m) h = ground (arith, be32-put32 m.stream_id [])
  parse-marshal_control (dry m) h = ground (arith, be32-put32 m.stream_id [])
  parse-marshal_control (buffer m) h =
      ground
        (arith, be32-put32 m.stream_id (put32 m.buffer_length []), be32-put32 m.buffer_length [])
  parse-marshal_control (recorded m) h = ground (arith, be32-put32 m.stream_id [])
  parse-marshal_control (ping m) h = ground (arith, be32-put32 m.server_time [])
  parse-marshal_control (pong m) h = ground (arith, be32-put32 m.server_time [])

  parse-marshal_audio :
      (m : Audio) → IsAudio m → parse frame_key frame_inter (marshal_audio m) ≡ parsed (audio m)
  unfolding parse unmarshal_as allocate_message marshal_audio
  parse-marshal_audio m h = rw (unmarshal_audio-marshal_audio m h) refl

  pub parse_allocated :
      (raw : RawMessage) (k : Kind)
      → allocate_message raw ≡ ok k
      → parse frame_key frame_inter raw ≡ unmarshal_as frame_key frame_inter k raw
  unfolding parse
  parse_allocated raw k e = rw (e, parse) refl

  parse-marshal_coded_frames :
      (m : CodedFrames)
      → IsCodedFrames m
      → parse frame_key frame_inter (marshal_coded_frames m) ≡ parsed (coded_frames m)
  unfolding unmarshal_as
  parse-marshal_coded_frames m h =
      let (a, u) = unmarshal_coded_frames-marshal_coded_frames m h in
      parse_allocated _ _ a ∙ ap (of_option body_size_refused (λ m. parsed (coded_frames m))) u

  parse-marshal_frames_x :
      (m : FramesX)
      → IsFourCc m.four_cc
      → parse frame_key frame_inter (marshal_frames_x m) ≡ parsed (frames_x m)
  unfolding unmarshal_as
  parse-marshal_frames_x m h =
      let (a, u) = unmarshal_frames_x-marshal_frames_x m h in
      parse_allocated _ _ a ∙ ap (of_option panics (λ m. parsed (frames_x m))) u

module _ (frame_key frame_inter : ℕ) (k : frame_key < 8) (i : frame_inter < 8)
    (d : frame_key ≢ frame_inter) where
  video-allocated :
      (m : Video)
      → IsVideo m
      → allocate_message (marshal_video frame_key frame_inter m) ≡ ok Kind.video
  unfolding allocate_message marshal_video IsVideo
  video-allocated m h =
      let sum =
        video_head_sum frame_key frame_inter (omega (arith, k)) (omega (arith, i)) d
          m.is_key_frame in
      ground (arith, h, sum, high_bit (video_head frame_key frame_inter m.is_key_frame 7))

  parse-marshal_video :
      (m : Video)
      → IsVideo m
      → parse frame_key frame_inter (marshal_video frame_key frame_inter m) ≡ parsed (video m)
  unfolding unmarshal_as
  parse-marshal_video m h =
      parse_allocated frame_key frame_inter _ _ (video-allocated m h)
      ∙ ap (of_media video) (
          unmarshal_video-marshal_video frame_key frame_inter (omega (arith, k)) (omega (arith, i))
            d m h)

  back :
      {m : Message} {raw raw' : RawMessage}
      → parse frame_key frame_inter raw' ≡ parsed m
      → some raw' ≡ some raw
      → parse frame_key frame_inter raw ≡ parsed m
  back p e = cc (p, e)

  -- Every message whose fields fit what carries them and that can be marshalled is read back from its
  -- raw message.
  pub parse-marshal_message :
      (m : Message) (raw : RawMessage)
      → IsValid m
      → marshal_message frame_key frame_inter m ≡ some raw
      → parse frame_key frame_inter raw ≡ parsed m
  unfolding marshal_message IsValid
  parse-marshal_message (control m) raw h e =
      back (parse-marshal_control frame_key frame_inter m h) e
  parse-marshal_message (audio m) raw h e = back (parse-marshal_audio frame_key frame_inter m h) e
  parse-marshal_message (video m) raw h e = back (parse-marshal_video m h) e
  parse-marshal_message (sequence_start m) raw h e = cc e
  parse-marshal_message (coded_frames m) raw h e =
      back (parse-marshal_coded_frames frame_key frame_inter m h) e
  parse-marshal_message (sequence_end m) raw h e = cc e
  parse-marshal_message (frames_x m) raw h e =
      back (parse-marshal_frames_x frame_key frame_inter m h) e
  parse-marshal_message (metadata f) raw h e = cc e
  parse-marshal_message (mpeg2ts_sequence_start f) raw h e = cc e
