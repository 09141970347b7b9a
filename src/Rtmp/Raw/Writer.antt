-- ===== src/Rtmp/Raw/Writer.antt =====
-- internal/rtmp/rawmessage/writer.go: messages, split into the chunks of a stream.
use rtc_simple_server.Base.{
  ltb, leb, ◌==◌, if◌then◌else◌, is_some, length, take, drop, is_empty, ℕ, zero, suc, ◌+◌, ◌-◌, ◌*◌,
  ◌/◌, ◌%◌, Bool, true, false, not, ◌&&◌, Option, none, some, List, [], ◌++◌,
}
use rtc_simple_server.Rtmp.Chunk.{
  Chunk0, Chunk1, Chunk2, Chunk3, marshal_chunk0, marshal_chunk1, marshal_chunk2, marshal_chunk3,
}
use rtc_simple_server.Rtmp.Message.{RawMessage}

-- `writerChunkStream`: the last message of one chunk stream; durations are in nanoseconds.
pub record WriterChunkStream : Type 0 where
  pub last_message_stream_id : Option ℕ
  pub last_type : Option ℕ
  pub last_body_len : Option ℕ
  pub last_timestamp : Option ℕ
  pub last_timestamp_delta : Option ℕ

abbrev pub new_chunk_stream : WriterChunkStream
new_chunk_stream = record {
  last_message_stream_id = none;
  last_type = none;
  last_body_len = none;
  last_timestamp = none;
  last_timestamp_delta = none;
}

-- `Writer`: `written` holds the bytes that were written, in their order.
pub record Writer : Type 0 where
  pub check_acknowledge : Bool
  pub chunk_size : ℕ
  pub ack_window_size : ℕ
  pub ack_value : ℕ
  pub chunk_streams : ℕ → WriterChunkStream
  pub written : List ℕ

-- After an error of the check for acknowledgements the writer goes on.
pub data Result : Type 0 where
  no_acknowledge : Writer → Result
  nil_pointer : Result
  out_of_fuel : Result
  ok : Writer → Result

unfoldable pub new_writer : Bool → Writer
new_writer check = record {
  check_acknowledge = check;
  chunk_size = 128;
  ack_window_size = 0;
  ack_value = 0;
  chunk_streams = λ id. new_chunk_stream;
  written = [];
}

unfoldable pub set_chunk_size : ℕ → Writer → Writer
set_chunk_size v w = record w { chunk_size = v }

unfoldable pub set_window_ack_size : ℕ → Writer → Writer
set_window_ack_size v w = record w { ack_window_size = v }

unfoldable pub set_acknowledge_value : ℕ → Writer → Writer
set_acknowledge_value v w = record w { ack_value = v }

-- The time since the last message, if it is not negative; timestamps are not negative.
unfoldable pub delta_since : Option ℕ → ℕ → Option ℕ
delta_since none timestamp = none
delta_since (some last) timestamp = if leb last timestamp then some (timestamp - last) else none

-- `p == nil || *p != v`
abbrev pub differs : Option ℕ → ℕ → Bool
differs none v = true
differs (some a) v = not (a == v)

-- A use of a pointer; `none` is a nil pointer.
abbrev pub deref : Option ℕ → (ℕ → Option (List ℕ)) → Option (List ℕ)
deref none k = none
deref (some a) k = k a

abbrev pub body_len_of : RawMessage → ℕ
body_len_of msg = length msg.body % 4294967296

-- `uint32(d / time.Millisecond)`
abbrev pub milliseconds : ℕ → ℕ
milliseconds d = d / 1000000 % 4294967296

-- The four chunks that a message can begin with.
abbrev pub first_0 : RawMessage → List ℕ → Chunk0
first_0 msg body = record {
  chunk_stream_id = msg.chunk_stream_id;
  timestamp = milliseconds msg.timestamp;
  type = msg.type;
  message_stream_id = msg.message_stream_id;
  body_len = body_len_of msg;
  body = body;
}

abbrev pub first_1 : RawMessage → ℕ → List ℕ → Chunk1
first_1 msg d body = record {
  chunk_stream_id = msg.chunk_stream_id;
  timestamp_delta = milliseconds d;
  type = msg.type;
  body_len = body_len_of msg;
  body = body;
}

abbrev pub first_2 : RawMessage → ℕ → List ℕ → Chunk2
first_2 msg d body = record {
  chunk_stream_id = msg.chunk_stream_id;
  timestamp_delta = milliseconds d;
  body = body;
}

abbrev pub chunk_3 : RawMessage → List ℕ → Chunk3
chunk_3 msg body = record { chunk_stream_id = msg.chunk_stream_id; body = body }

-- The first chunk of a message, as bytes.
unfoldable pub first_chunk : WriterChunkStream → Option ℕ → RawMessage → List ℕ → Option (List ℕ)
first_chunk wc none msg body = some (marshal_chunk0 (first_0 msg body))
first_chunk wc (some d) msg body =
    if differs wc.last_message_stream_id msg.message_stream_id
    then some (marshal_chunk0 (first_0 msg body))
    else deref wc.last_type λ type.
      if not (type == msg.type)
      then some (marshal_chunk1 (first_1 msg d body))
      else deref wc.last_body_len λ len.
        if not (len == body_len_of msg)
        then some (marshal_chunk1 (first_1 msg d body))
        else if differs wc.last_timestamp_delta d
        then some (marshal_chunk2 (first_2 msg d body))
        else some (marshal_chunk3 (chunk_3 msg body))

-- What is known of a chunk stream once its first chunk is written.
unfoldable pub after_first : WriterChunkStream → Option ℕ → RawMessage → WriterChunkStream
after_first wc delta msg = record {
  last_message_stream_id = some msg.message_stream_id;
  last_type = some msg.type;
  last_body_len = some (body_len_of msg);
  last_timestamp = some msg.timestamp;
  last_timestamp_delta = if is_some delta then delta else wc.last_timestamp_delta;
}

unfoldable pub store : ℕ → WriterChunkStream → Writer → Writer
store id wc w = record w { chunk_streams = λ k. if k == id then wc else w.chunk_streams k }

-- `counted` stands for the count of the bytes that have left the buffer of bufio, when the bytes given
-- have been written to it.
module _ (counted : List ℕ → ℕ) where
  -- The check of `writeChunk`; `window * 3 / 2` wraps at 32 bits.
  unfoldable pub is_overdue : Writer → Bool
  is_overdue w =
      w.check_acknowledge
      && not (w.ack_window_size == 0)
      && ltb (w.ack_window_size * 3 % 4294967296 / 2)
          ((counted w.written % 4294967296 + 4294967296 - w.ack_value) % 4294967296)

  unfoldable pub write_chunk : List ℕ → Writer → Result
  unfolding is_overdue
  write_chunk buf w =
      if is_overdue w then no_acknowledge w else ok (record w { written = w.written ++ buf })

  abbrev pub and_then : (Writer → Result) → Result → Result
  and_then f (ok w) = f w
  and_then f r = r

  -- The rounds of the loop after the first one; the bound is on their number.
  unfoldable pub write_rest : ℕ → RawMessage → List ℕ → Writer → Result
  unfolding write_chunk
  write_rest zero msg body w = out_of_fuel
  write_rest (suc n) msg body w = elim (is_empty body) [
    | true ↦ ok w
    | false ↦
        and_then (write_rest n msg (drop w.chunk_size body))
          (write_chunk (marshal_chunk3 (chunk_3 msg (take w.chunk_size body))) w)
  ]

  -- `writeMessage` on the chunk stream of the message. A round writes a byte at least, if chunks can
  -- hold one.
  unfoldable pub write : RawMessage → Writer → Result
  unfolding first_chunk after_first store write_chunk write_rest delta_since
  write msg w =
      let wc = w.chunk_streams msg.chunk_stream_id in
      let delta = delta_since wc.last_timestamp msg.timestamp in
      elim (first_chunk wc delta msg (take w.chunk_size msg.body)) [
        | none ↦ nil_pointer
        | some buf ↦
            and_then
              (λ w'.
                write_rest (suc (length msg.body)) msg (drop w.chunk_size msg.body)
                  (store msg.chunk_stream_id (after_first wc delta msg) w'))
              (write_chunk buf w)
      ]
