-- ===== src/Rtmp/Raw/Reader.antt =====
-- internal/rtmp/rawmessage/reader.go: messages, put together from the chunks of a stream.
use Prim.Native.Nat.{bit_and}
use rtc_simple_server.Base.{
  ltb, ◌==◌, if◌then◌else◌, is_some, length, ℕ, zero, suc, ◌+◌, ◌-◌, ◌*◌, ◌/◌, ◌%◌, Bool, not,
  Option, none, some, List, [], ◌∷◌, ◌++◌,
}
use rtc_simple_server.Rtmp.Reader.{ReadError, eof, Read, failed, got}
use rtc_simple_server.Rtmp.Chunk.{
  chunk_body_len, read_chunk0, read_chunk1, read_chunk2, read_chunk3,
}
use rtc_simple_server.Rtmp.Message.{RawMessage}

-- `readerChunkStream`: what is known of the last message of one chunk stream; a pointer that is nil
-- is `none`.
pub record ReaderChunkStream : Type 0 where
  pub cur_timestamp : Option ℕ
  pub cur_type : Option ℕ
  pub cur_message_stream_id : Option ℕ
  pub cur_body_len : Option ℕ
  pub cur_body : Option (List ℕ)
  pub cur_timestamp_delta : Option ℕ

-- A chunk stream that has had no chunk.
abbrev pub new_chunk_stream : ReaderChunkStream
new_chunk_stream = record {
  cur_timestamp = none;
  cur_type = none;
  cur_message_stream_id = none;
  cur_body_len = none;
  cur_body = none;
  cur_timestamp_delta = none;
}

-- `Reader`: the chunk streams by their ID, a missing one being new, and the acknowledgements that
-- were sent, the newest first.
pub record Reader : Type 0 where
  pub chunk_size : ℕ
  pub ack_window_size : ℕ
  pub last_ack_count : ℕ
  pub chunk_streams : ℕ → ReaderChunkStream
  pub acks : List ℕ

pub data Failure : Type 0 where
  read_error : ReadError → Failure
  expected_type_3 : ℕ → Failure
  no_previous_chunk : ℕ → Failure
  ack_failed : Failure
  nil_pointer : Failure
  out_of_fuel : Failure

-- `message none` says that more chunks are needed.
pub data Result : Type 0 where
  failure : Failure → Result
  message : Option RawMessage → Reader → List ℕ → Result

unfoldable pub new_reader : Reader
new_reader = record {
  chunk_size = 128;
  ack_window_size = 0;
  last_ack_count = 0;
  chunk_streams = λ id. new_chunk_stream;
  acks = [];
}

unfoldable pub set_chunk_size : ℕ → Reader → Reader
set_chunk_size v r = record r { chunk_size = v }

unfoldable pub set_window_ack_size : ℕ → Reader → Reader
set_window_ack_size v r = record r { ack_window_size = v }

unfoldable pub store : ℕ → ReaderChunkStream → Reader → Reader
store id rc r = record r { chunk_streams = λ k. if k == id then rc else r.chunk_streams k }

-- A use of a pointer.
abbrev pub deref : Option ℕ → (ℕ → Result) → Result
deref none k = failure nil_pointer
deref (some a) k = k a

-- The end of `readMessage`, once the body has been extended.
unfoldable pub deliver : ℕ → ReaderChunkStream → List ℕ → Reader → List ℕ → Result
unfolding store
deliver id rc body r rest = deref rc.cur_body_len λ len.
    if not (len == length body)
    then message none (store id (record rc { cur_body = some body }) r) rest
    else deref rc.cur_timestamp λ timestamp. deref rc.cur_type λ type.
      deref rc.cur_message_stream_id λ message_stream_id.
        message
          (some (record {
            chunk_stream_id = id;
            timestamp = timestamp * 1000000;
            type = type;
            message_stream_id = message_stream_id;
            body = body;
          }))
          (store id (record rc { cur_body = none }) r) rest

-- `counted` stands for the count of the bytes that have been taken from the connection, when the bytes
-- given are still to be read: with the buffer of bufio it may run ahead. `acknowledge` says whether
-- `onAckNeeded` returns no error, after the acknowledgements that the reader has sent.
module _ (counted : List ℕ → ℕ) (acknowledge : List ℕ → ℕ → Bool) where
  -- The check of `readChunk`.
  unfoldable pub check_ack : Reader → List ℕ → Option Reader
  check_ack r rest =
      let count = counted rest % 4294967296 in
      let diff = (count + 4294967296 - r.last_ack_count) % 4294967296 in
      if r.ack_window_size == 0
      then some r
      else if ltb r.ack_window_size diff
      then (if acknowledge r.acks count
          then some (record r {
            last_ack_count = (r.last_ack_count + r.ack_window_size) % 4294967296;
            acks = count ∷ r.acks;
          })
          else none)
      else some r

  unfoldable pub read_chunk :
      {C : Type 0} → (List ℕ → Read C) → Reader → List ℕ → (C → Reader → List ℕ → Result) → Result
  read_chunk read r bs k = elim (read bs) [
    | failed e ↦ failure (read_error e)
    | got c rest ↦ elim (check_ack r rest) [ none ↦ failure ack_failed | some r' ↦ k c r' rest ]
  ]

  unfoldable pub read_type_0 : ℕ → ReaderChunkStream → Reader → List ℕ → Result
  unfolding read_chunk deliver
  read_type_0 id rc r bs =
      if is_some rc.cur_body
      then failure (expected_type_3 0)
      else read_chunk (read_chunk0 r.chunk_size) r bs λ c.
        deliver id
          (record rc {
            cur_message_stream_id = some c.message_stream_id;
            cur_type = some c.type;
            cur_timestamp = some c.timestamp;
            cur_body_len = some c.body_len;
            cur_timestamp_delta = none;
          })
          c.body

  unfoldable pub read_type_1 : ℕ → ReaderChunkStream → Reader → List ℕ → Result
  unfolding read_chunk deliver
  read_type_1 id rc r bs = elim rc.cur_timestamp [
    | none ↦ failure (no_previous_chunk 1)
    | some timestamp ↦
        if is_some rc.cur_body
        then failure (expected_type_3 1)
        else read_chunk (read_chunk1 r.chunk_size) r bs λ c.
          deliver id
            (record rc {
              cur_type = some c.type;
              cur_timestamp = some ((timestamp + c.timestamp_delta) % 4294967296);
              cur_body_len = some c.body_len;
              cur_timestamp_delta = some c.timestamp_delta;
            })
            c.body
  ]

  unfoldable pub read_type_2 : ℕ → ReaderChunkStream → Reader → List ℕ → Result
  unfolding read_chunk deliver
  read_type_2 id rc r bs = elim rc.cur_timestamp [
    | none ↦ failure (no_previous_chunk 2)
    | some timestamp ↦
        if is_some rc.cur_body
        then failure (expected_type_3 2)
        else deref rc.cur_body_len λ len.
          read_chunk (read_chunk2 (chunk_body_len r.chunk_size len)) r bs λ c.
            deliver id
              (record rc {
                cur_timestamp = some ((timestamp + c.timestamp_delta) % 4294967296);
                cur_timestamp_delta = some c.timestamp_delta;
              })
              c.body
  ]

  -- A type 3 chunk goes on with a body, or begins a message like the last one.
  unfoldable pub read_type_3 : ℕ → ReaderChunkStream → Reader → List ℕ → Result
  unfolding read_chunk deliver
  read_type_3 id rc r bs = elim rc.cur_body [
    | some body ↦ deref rc.cur_body_len λ len.
        read_chunk
          (read_chunk3
            (chunk_body_len r.chunk_size ((len + 4294967296 - length body) % 4294967296)))
          r bs λ c. deliver id rc (body ++ c.body)
    | none ↦ elim rc.cur_timestamp_delta [
      | none ↦ failure (no_previous_chunk 3)
      | some delta ↦ deref rc.cur_body_len λ len.
          read_chunk (read_chunk3 (chunk_body_len r.chunk_size len)) r bs λ c r' rest.
            deref rc.cur_timestamp λ timestamp.
              deliver id (record rc { cur_timestamp = some ((timestamp + delta) % 4294967296) })
                c.body r' rest
    ]
  ]

  unfoldable pub read_message : ℕ → ℕ → Reader → List ℕ → Result
  unfolding read_type_0 read_type_1 read_type_2 read_type_3
  read_message type id r bs =
      let rc = r.chunk_streams id in
      if type == 0
      then read_type_0 id rc r bs
      else if type == 1
      then read_type_1 id rc r bs
      else if type == 2
      then read_type_2 id rc r bs
      else read_type_3 id rc r bs

  -- One round of the loop of `Read`: the first byte is read and put back.
  unfoldable pub read_round : Reader → List ℕ → Result
  unfolding read_message
  read_round r [] = failure (read_error eof)
  read_round r (b ∷ bs) = read_message (b / 64) (bit_and b 0x3F) r (b ∷ bs)

  -- `Read`, with a bound on the number of chunks.
  unfoldable pub read : ℕ → Reader → List ℕ → Result
  unfolding read_round
  read zero r bs = failure out_of_fuel
  read (suc n) r bs = elim (read_round r bs) [
    | failure e ↦ failure e
    | message (some m) r' rest ↦ message (some m) r' rest
    | message none r' rest ↦ read n r' rest
  ]
