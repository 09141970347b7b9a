-- ===== src/Rtmp/Raw/Tests.antt =====
-- Messages of internal/rtmp/rawmessage on concrete connections.
use rtc_simple_server.Base.{
  ℕ, suc, ◌≡◌, refl, Bool, true, false, none, some, List, [], ◌∷◌, ◌++◌, arith,
}
use rtc_simple_server.Rtmp.Message.{RawMessage}
use rtc_simple_server.Rtmp.Chunk.{marshal_chunk0, marshal_chunk1, marshal_chunk3}
use rtc_simple_server.Rtmp.Raw.Reader.{
  new_chunk_stream, Reader, read, no_previous_chunk, failure, message,
}
use rtc_simple_server.Rtmp.Raw.Writer.{Writer, ok, write}
use rtc_simple_server.Rtmp.Raw.Writer as W
use rtc_simple_server.Rtmp.Raw.Deliver.{stream_of, message_of}
use rtc_simple_server.Rtmp.Raw.First.{sent, fresh}
use rtc_simple_server.Rtmp.Raw.Messages.{Agree, IsSendable}
use rtc_simple_server.Rtmp.Raw.Sequence.{
  write_all, all_steady, read_all, AreSendable, read_all-write_all,
}
use rtc_simple_server.Rtmp.Raw.Stale.{read-write_repeated}

abbrev uncounted : List ℕ → ℕ
uncounted bs = 0

abbrev always : List ℕ → ℕ → Bool
always acks n = true

always_lem : (acks : List ℕ) (n : ℕ) → always acks n ≡ true
always_lem acks n = refl

abbrev writer : Writer
writer = record {
  check_acknowledge = false;
  chunk_size = 2;
  ack_window_size = 0;
  ack_value = 0;
  chunk_streams = λ id. W.new_chunk_stream;
  written = 7 ∷ [];
}

abbrev reader : Reader
reader = record {
  chunk_size = 2;
  ack_window_size = 0;
  last_ack_count = 0;
  chunk_streams = λ id. new_chunk_stream;
  acks = [];
}

writer-Agree : Agree writer reader
unfolding Agree
writer-Agree = (refl, omega arith, refl, λ k. fresh)

-- Two streams take turns; the second message of stream 4 begins with a type 1 chunk, the third one
-- with a type 3 chunk.
abbrev first : RawMessage
first = message_of 4 10 8 1 (1 ∷ 2 ∷ 3 ∷ [])

abbrev messages : List RawMessage
messages =
    first
    ∷ message_of 6 10 9 1 (4 ∷ [])
    ∷ message_of 4 15 9 1 (5 ∷ 6 ∷ 7 ∷ 8 ∷ 9 ∷ [])
    ∷ message_of 4 20 9 1 (9 ∷ 8 ∷ 7 ∷ 6 ∷ 5 ∷ [])
    ∷ []

messages-AreSendable : AreSendable 7 messages
unfolding AreSendable IsSendable
messages-AreSendable = (
  (omega arith, refl, omega arith, omega arith, omega arith),
  omega arith,
  (
    (omega arith, refl, omega arith, omega arith, omega arith),
    omega arith,
    (
      (omega arith, refl, omega arith, omega arith, omega arith),
      omega arith,
      ((omega arith, refl, omega arith, omega arith, omega arith), omega arith, tt),
    ),
  ),
)

messages_steady : all_steady uncounted messages writer ≡ true
unfolding all_steady write
messages_steady = refl

-- The bytes of the messages: each chunk carries two bytes of a body.
messages_written :
    elim (write_all uncounted messages writer) as (λ x. List ℕ) [
      | ok w ↦ w.written
      | W.no_acknowledge w ↦ []
      | W.nil_pointer ↦ []
      | W.out_of_fuel ↦ []
    ]
    ≡ 7 ∷ 4 ∷ 0 ∷ 0 ∷ 10 ∷ 0 ∷ 0 ∷ 3 ∷ 8 ∷ 0 ∷ 0 ∷ 0 ∷ 1 ∷ 1 ∷ 2 ∷ 196 ∷ 3 ∷ 6 ∷ 0 ∷ 0 ∷ 10 ∷ 0 ∷ 0
      ∷ 1 ∷ 9 ∷ 0 ∷ 0 ∷ 0 ∷ 1 ∷ 4 ∷ 68 ∷ 0 ∷ 0 ∷ 5 ∷ 0 ∷ 0 ∷ 5 ∷ 9 ∷ 5 ∷ 6 ∷ 196 ∷ 7 ∷ 8 ∷ 196 ∷ 9
      ∷ 196 ∷ 9 ∷ 8 ∷ 196 ∷ 7 ∷ 6 ∷ 196 ∷ 5 ∷ []
unfolding write_all write marshal_chunk0 marshal_chunk1 marshal_chunk3
messages_written = refl

read_all-write_all_example :
    (w' : Writer) × (bs : List ℕ) × (write_all uncounted messages writer ≡ ok w')
    × (w'.written ≡ 7 ∷ bs)
    × ((rest : List ℕ) → read_all uncounted always 7 4 reader (bs ++ rest) ≡ some (messages, rest))
read_all-write_all_example =
    read_all-write_all uncounted uncounted always always_lem 7 messages writer reader writer-Agree
      messages-AreSendable messages_steady

-- A message of message stream 1 has come before, and messages of message stream 2 follow.
abbrev used_writer : Writer
used_writer = record writer { chunk_streams = λ id. sent 0 9 1 2 none }

abbrev used_reader : Reader
used_reader = record reader { chunk_streams = λ id. stream_of 0 9 1 2 none none }

read-write_repeated_example :
    (w1 : Writer) × (w2 : Writer) × (bs1 : List ℕ) × (bs2 : List ℕ) × (r1 : Reader) × (write
        uncounted
        (message_of 4 10 9 2 (1 ∷ 2 ∷ []))
        used_writer
      ≡ ok w1)
    × (w1.written ≡ used_writer.written ++ bs1)
    × (write uncounted (message_of 4 20 9 2 (3 ∷ 4 ∷ [])) w1 ≡ ok w2)
    × (w2.written ≡ w1.written ++ bs2)
    × (read uncounted always 4 used_reader (bs1 ++ bs2)
        ≡ message (some (message_of 4 10 9 2 (1 ∷ 2 ∷ []))) r1 bs2)
    × ((n : ℕ) → read uncounted always (suc n) r1 bs2 ≡ failure (no_previous_chunk 3))
read-write_repeated_example =
    read-write_repeated uncounted uncounted always always_lem used_writer used_reader 4 0 9 1 2 10 9
      2 none (1 ∷ 2 ∷ []) (3 ∷ 4 ∷ []) refl (omega arith) refl refl refl (omega arith) refl
      (omega arith) (omega arith) (omega arith) (omega arith) (omega arith) refl
