-- ===== src/Rtmp/Messages/ReadWriter.antt =====
-- internal/rtmp/message/readwriter.go: the two ends of a connection at one place, of which the reader
-- has the writer send acknowledgements and answers to pings.
use rtc_simple_server.Base.{◌%◌, ℕ, Bool, true, false, Option, none, some, List, [], ◌∷◌}
use rtc_simple_server.Rtmp.Raw.Reader.{Reader, new_reader}
use rtc_simple_server.Rtmp.Raw.Writer.{Writer, new_writer, set_acknowledge_value, ok}
use rtc_simple_server.Rtmp.Raw.Writer as W
use rtc_simple_server.Rtmp.Messages.{Control, ack, ping, pong, Message, control}
use rtc_simple_server.Rtmp.Messages.Exchange.{
  Reading, not_read, not_parsed, got, read_message, write_message, on_written,
}
pub mod Replies
pub mod Ping
mod Tests

pub record ReadWriter : Type 0 where
  pub reader : Reader
  pub writer : Writer

unfoldable pub new_read_writer : Bool → ReadWriter
unfolding new_reader new_writer
new_read_writer check = record { reader = new_reader; writer = new_writer check }

-- What `Read` gives. `crashed` is a panic of the writer.
pub data Reception : Type 0 where
  not_received : Reading → Reception
  crashed : Reception
  received : Message → ReadWriter → List ℕ → Reception

-- The count is a word of 32 bits.
abbrev pub acknowledgement : ℕ → Message
acknowledgement n = control (ack (record { value = n % 4294967296 }))

module _ (frame_key frame_inter : ℕ) (written_count : List ℕ → ℕ) where
  -- The acknowledgements of one `Read`, the newest first.
  unfoldable pub write_acks : List ℕ → Writer → Option W.Result
  write_acks [] w = some (ok w)
  write_acks (n ∷ ns) w =
      on_written (write_message frame_key frame_inter written_count (acknowledgement n))
        (write_acks ns w)

  abbrev pub is_written : Option W.Result → Bool
  is_written none = false
  is_written (some (ok w)) = true
  is_written (some (W.no_acknowledge w)) = false
  is_written (some W.nil_pointer) = false
  is_written (some W.out_of_fuel) = false

  -- Whether the callback returns no error, after the acknowledgements that are given.
  unfoldable pub acknowledges : Writer → List ℕ → ℕ → Bool
  unfolding write_acks
  acknowledges w ns n = is_written (write_acks (n ∷ ns) w)

  -- The error of a write is not looked at; `none` is a panic.
  unfoldable pub after_write : Option W.Result → Option Writer
  after_write none = none
  after_write (some (ok w)) = some w
  after_write (some (W.no_acknowledge w)) = some w
  after_write (some W.nil_pointer) = none
  after_write (some W.out_of_fuel) = none

  -- The switch of `Read`.
  unfoldable pub respond_control : Control → Writer → Option Writer
  unfolding set_acknowledge_value after_write
  respond_control (ack m) w = some (set_acknowledge_value m.value w)
  respond_control (ping m) w = after_write (
      write_message frame_key frame_inter written_count
        (control (pong (record { server_time = m.server_time }))) w)
  respond_control m w = some w

  unfoldable pub respond : Message → Writer → Option Writer
  unfolding respond_control
  respond (control c) w = respond_control c w
  respond m w = some w

  -- The writer after the acknowledgements.
  unfoldable pub answer : Message → Option W.Result → Option Writer
  unfolding respond
  answer m none = none
  answer m (some (ok w)) = respond m w
  answer m (some (W.no_acknowledge w)) = none
  answer m (some W.nil_pointer) = none
  answer m (some W.out_of_fuel) = none

  abbrev reception : Message → Reader → List ℕ → Option Writer → Reception
  reception m r rest none = crashed
  reception m r rest (some w) = received m (record { reader = r; writer = w }) rest

  -- `ReadWriter.Read`, with a bound on the number of chunks; the acknowledgements of the reader are
  -- those that it has sent since the call.
  unfoldable pub receive : (List ℕ → ℕ) → ℕ → ReadWriter → List ℕ → Reception
  unfolding acknowledges write_acks answer
  receive read_count fuel s bs =
      elim (read_message frame_key frame_inter read_count (acknowledges s.writer) fuel
        (record s.reader { acks = [] }) bs) [
          | not_read e ↦ not_received (not_read e)
          | not_parsed p ↦ not_received (not_parsed p)
          | got m r rest ↦ reception m r rest (answer m (write_acks r.acks s.writer))
        ]
