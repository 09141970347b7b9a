-- ===== src/Rtmp/Messages/Tests.antt =====
-- Messages of internal/rtmp/message on a new connection.
use rtc_simple_server.Base.{inr, ℕ, ◌≡◌, refl, Bool, true, false, some, List, [], ◌∷◌, ◌++◌, arith}
use rtc_simple_server.Rtmp.Message.{RawMessage, not_enough_bytes, allocate_message}
use rtc_simple_server.Rtmp.Control.{marshal_set_chunk_size}
use rtc_simple_server.Rtmp.Raw.Reader.{new_reader}
use rtc_simple_server.Rtmp.Raw.Writer.{Writer, new_writer, ok, write}
use rtc_simple_server.Rtmp.Raw.First.{fresh}
use rtc_simple_server.Rtmp.Raw.Messages.{IsSendable, Agree}
use rtc_simple_server.Rtmp.Messages.{
  Message, control, audio, video, chunk_size, marshal_message, marshal_control, IsValid, parse,
  refused,
}
use rtc_simple_server.Rtmp.Messages.Exchange.{HasSize, write_message}
use rtc_simple_server.Rtmp.Messages.Sequence.{
  write_messages, read_messages, all_steady_messages, AreValid, read_messages-write_messages,
}
use rtc_simple_server.Rtmp.Media.{IsAudio, marshal_audio}
use rtc_simple_server.Rtmp.Video.{IsVideo, marshal_video}

abbrev uncounted : List ℕ → ℕ
uncounted bs = 0

abbrev always : List ℕ → ℕ → Bool
always acks n = true

new-Agree : Agree (new_writer false) new_reader
unfolding Agree new_writer new_reader
new-Agree = (refl, omega arith, refl, λ k. fresh)

-- Chunks of three bytes, in which the messages after it are split.
abbrev smaller : Message
smaller = control (chunk_size (record { value = 3 }))

abbrev sound : Message
sound = audio (record {
  chunk_stream_id = 4;
  dts = 20000000;
  message_stream_id = 1;
  codec = 10;
  rate = 3;
  depth = 1;
  channels = 1;
  aac_type = 1;
  payload = 33 ∷ [];
})

abbrev picture : Message
picture = video (record {
  chunk_stream_id = 6;
  dts = 40000000;
  message_stream_id = 1;
  codec = 7;
  is_key_frame = true;
  type = 1;
  pts_delta = 15000000;
  payload = 101 ∷ [];
})

abbrev messages : List Message
messages = smaller ∷ sound ∷ picture ∷ sound ∷ []

sound-IsValid : IsValid sound
unfolding IsValid IsAudio
sound-IsValid = (inr (refl, omega arith), omega arith, omega arith, omega arith)

picture-IsValid : IsValid picture
unfolding IsValid IsVideo
picture-IsValid = (refl, omega arith, 15, refl, omega arith)

messages-AreValid : AreValid 1 2 9 messages
unfolding AreValid IsValid HasSize marshal_message marshal_control marshal_set_chunk_size
    marshal_audio marshal_video IsSendable
messages-AreValid = (
  omega arith,
  omega arith,
  (_, refl, (omega arith, refl, omega arith, omega arith, omega arith), omega arith),
  (
    sound-IsValid,
    tt,
    (_, refl, (omega arith, refl, omega arith, omega arith, omega arith), omega arith),
    (
      picture-IsValid,
      tt,
      (_, refl, (omega arith, refl, omega arith, omega arith, omega arith), omega arith),
      (
        sound-IsValid,
        tt,
        (_, refl, (omega arith, refl, omega arith, omega arith, omega arith), omega arith),
        tt,
      ),
    ),
  ),
)

messages_steady : all_steady_messages 1 2 uncounted messages (new_writer false) ≡ true
unfolding all_steady_messages write_message marshal_message new_writer write marshal_control
    marshal_set_chunk_size marshal_audio marshal_video
messages_steady = refl

read_messages-write_messages_example :
    (w' : Writer) × (bs : List ℕ) × (write_messages 1 2 uncounted messages (new_writer false)
      ≡ some (ok w'))
    × (w'.written ≡ (new_writer false).written ++ bs)
    × ((rest : List ℕ)
        → read_messages 1 2 uncounted always 9 4 new_reader (bs ++ rest) ≡ some (messages, rest))
read_messages-write_messages_example =
    read_messages-write_messages 1 2 (omega arith) (omega arith) (omega arith) uncounted uncounted
      always (λ acks n. refl) 9 messages (new_writer false) new_reader new-Agree messages-AreValid
      messages_steady

-- An extended message that ends within its FourCC is refused.
abbrev cut_short : RawMessage
cut_short = record {
  chunk_stream_id = 6;
  timestamp = 0;
  type = 9;
  message_stream_id = 1;
  body = 131 ∷ 104 ∷ 118 ∷ 99 ∷ [];
}

cut_short_refused : parse 1 2 cut_short ≡ refused not_enough_bytes
unfolding parse allocate_message
cut_short_refused = refl
