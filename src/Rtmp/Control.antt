-- ===== src/Rtmp/Control.antt =====
-- The control messages of internal/rtmp/message, a `Marshal` and an `Unmarshal` for each.
use rtc_simple_server.Base.{◌==◌, if◌then◌else◌, length, ℕ, not, List, [], ◌∷◌}
use rtc_simple_server.Base.Bytes.{byte_at, be32, put32}
use rtc_simple_server.Rtmp.Message.{
  RawMessage, Result, ok, err, unexpected_chunk_stream_id, invalid_body_size,
}

-- The tests that every control message begins with, for a body of `n` bytes.
abbrev pub checked {ℓ} : {A : Type ℓ} → ℕ → RawMessage → A → Result A
checked n raw m =
    if not (raw.chunk_stream_id == 2)
    then err unexpected_chunk_stream_id
    else if not (length raw.body == n)
    then err invalid_body_size
    else ok m

abbrev pub control : ℕ → List ℕ → RawMessage
control type body = record {
  chunk_stream_id = 2;
  timestamp = 0;
  type = type;
  message_stream_id = 0;
  body = body;
}

pub record Acknowledge : Type 0 where
  pub value : ℕ

unfoldable pub unmarshal_acknowledge : RawMessage → Result Acknowledge
unmarshal_acknowledge raw = checked 4 raw (record { value = be32 raw.body 0 })

unfoldable pub marshal_acknowledge : Acknowledge → RawMessage
marshal_acknowledge m = control 3 (put32 m.value [])

pub record SetChunkSize : Type 0 where
  pub value : ℕ

unfoldable pub unmarshal_set_chunk_size : RawMessage → Result SetChunkSize
unmarshal_set_chunk_size raw = checked 4 raw (record { value = be32 raw.body 0 })

unfoldable pub marshal_set_chunk_size : SetChunkSize → RawMessage
marshal_set_chunk_size m = control 1 (put32 m.value [])

pub record SetWindowAckSize : Type 0 where
  pub value : ℕ

unfoldable pub unmarshal_set_window_ack_size : RawMessage → Result SetWindowAckSize
unmarshal_set_window_ack_size raw = checked 4 raw (record { value = be32 raw.body 0 })

unfoldable pub marshal_set_window_ack_size : SetWindowAckSize → RawMessage
marshal_set_window_ack_size m = control 5 (put32 m.value [])

pub record SetPeerBandwidth : Type 0 where
  pub value : ℕ
  pub type : ℕ

unfoldable pub unmarshal_set_peer_bandwidth : RawMessage → Result SetPeerBandwidth
unmarshal_set_peer_bandwidth raw =
    checked 5 raw (record { value = be32 raw.body 0; type = byte_at raw.body 4 })

unfoldable pub marshal_set_peer_bandwidth : SetPeerBandwidth → RawMessage
marshal_set_peer_bandwidth m = control 6 (put32 m.value (m.type ∷ []))
