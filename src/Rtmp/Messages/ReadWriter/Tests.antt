-- ===== src/Rtmp/Messages/ReadWriter/Tests.antt =====
-- A ping between two new connections of internal/rtmp/message.
use rtc_simple_server.Base.{ℕ, ◌≡◌, refl, Bool, true, false, some, List, ◌++◌, arith}
use rtc_simple_server.Rtmp.Raw.Reader.{new_reader}
use rtc_simple_server.Rtmp.Raw.Writer.{Writer, new_writer, ok}
use rtc_simple_server.Rtmp.Raw.First.{fresh}
use rtc_simple_server.Rtmp.Raw.Messages.{Agree}
use rtc_simple_server.Rtmp.Messages.Exchange.{write_message}
use rtc_simple_server.Rtmp.Messages.ReadWriter.{ReadWriter, new_read_writer}
use rtc_simple_server.Rtmp.Messages.ReadWriter.Ping.{ping_at, Answered, ping_answered}

abbrev uncounted : List ℕ → ℕ
uncounted bs = 0

abbrev always : List ℕ → ℕ → Bool
always acks n = true

abbrev here : ReadWriter
here = new_read_writer false

abbrev there : ReadWriter
there = new_read_writer false

new-Agree : Agree here.writer there.reader
unfolding Agree new_read_writer new_writer new_reader
new-Agree = (refl, omega arith, refl, λ k. fresh)

ping_answered_example :
    (w' : Writer) × (bs : List ℕ) × (write_message 1 2 uncounted (ping_at 3000) here.writer
      ≡ some (ok w'))
    × (w'.written ≡ here.writer.written ++ bs)
    × ((rest : List ℕ)
        → Answered 1 2 uncounted uncounted uncounted always 8 3000 there here.reader bs rest)
unfolding new_read_writer new_writer
ping_answered_example =
    ping_answered 1 2 (omega arith) (omega arith) (omega arith) uncounted uncounted uncounted
      uncounted always (λ acks n. refl) 8 3000 here.writer here.reader there new-Agree new-Agree
      refl (omega arith) (omega arith)
