-- ===== src/Rtmp/UserControl.antt =====
-- The user control messages of internal/rtmp/message: a type on two bytes, then the fields.
use rtc_simple_server.Base.{ℕ, []}
use rtc_simple_server.Base.Bytes.{be32, put16, put32}
use rtc_simple_server.Rtmp.Message.{RawMessage, Result}
use rtc_simple_server.Rtmp.Control.{checked, control}

pub record StreamBegin : Type 0 where
  pub stream_id : ℕ

unfoldable pub unmarshal_stream_begin : RawMessage → Result StreamBegin
unmarshal_stream_begin raw = checked 6 raw (record { stream_id = be32 raw.body 2 })

unfoldable pub marshal_stream_begin : StreamBegin → RawMessage
marshal_stream_begin m = control 4 (put16 0 (put32 m.stream_id []))

pub record StreamEof : Type 0 where
  pub stream_id : ℕ

unfoldable pub unmarshal_stream_eof : RawMessage → Result StreamEof
unmarshal_stream_eof raw = checked 6 raw (record { stream_id = be32 raw.body 2 })

unfoldable pub marshal_stream_eof : StreamEof → RawMessage
marshal_stream_eof m = control 4 (put16 1 (put32 m.stream_id []))

pub record StreamDry : Type 0 where
  pub stream_id : ℕ

unfoldable pub unmarshal_stream_dry : RawMessage → Result StreamDry
unmarshal_stream_dry raw = checked 6 raw (record { stream_id = be32 raw.body 2 })

unfoldable pub marshal_stream_dry : StreamDry → RawMessage
marshal_stream_dry m = control 4 (put16 2 (put32 m.stream_id []))

pub record StreamIsRecorded : Type 0 where
  pub stream_id : ℕ

unfoldable pub unmarshal_stream_is_recorded : RawMessage → Result StreamIsRecorded
unmarshal_stream_is_recorded raw = checked 6 raw (record { stream_id = be32 raw.body 2 })

unfoldable pub marshal_stream_is_recorded : StreamIsRecorded → RawMessage
marshal_stream_is_recorded m = control 4 (put16 4 (put32 m.stream_id []))

pub record PingRequest : Type 0 where
  pub server_time : ℕ

unfoldable pub unmarshal_ping_request : RawMessage → Result PingRequest
unmarshal_ping_request raw = checked 6 raw (record { server_time = be32 raw.body 2 })

unfoldable pub marshal_ping_request : PingRequest → RawMessage
marshal_ping_request m = control 4 (put16 6 (put32 m.server_time []))

pub record PingResponse : Type 0 where
  pub server_time : ℕ

unfoldable pub unmarshal_ping_response : RawMessage → Result PingResponse
unmarshal_ping_response raw = checked 6 raw (record { server_time = be32 raw.body 2 })

unfoldable pub marshal_ping_response : PingResponse → RawMessage
marshal_ping_response m = control 4 (put16 7 (put32 m.server_time []))

pub record SetBufferLength : Type 0 where
  pub stream_id : ℕ
  pub buffer_length : ℕ

unfoldable pub unmarshal_set_buffer_length : RawMessage → Result SetBufferLength
unmarshal_set_buffer_length raw =
    checked 10 raw (record { stream_id = be32 raw.body 2; buffer_length = be32 raw.body 6 })

unfoldable pub marshal_set_buffer_length : SetBufferLength → RawMessage
marshal_set_buffer_length m = control 4 (put16 3 (put32 m.stream_id (put32 m.buffer_length [])))
