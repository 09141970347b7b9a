-- ===== src/Rtmp/Messages/Exchange.antt =====
-- A connection whose ends use internal/rtmp/message: `Write` of its writer and `Read` of its reader,
-- which also take over the sizes that some messages bring.
use rtc_simple_server.Base.{
  length, ℕ, suc, ◌≤◌, ◌<◌, ◌≡◌, refl, ◌∙◌, ◌≢◌, Bool, true, Option, none, some, List, ◌++◌,
}
use rtc_simple_server.Rtmp.Message.{RawMessage}
use rtc_simple_server.Rtmp.Raw.Reader.{
  Reader, Failure, out_of_fuel, failure, message, read, set_chunk_size, set_window_ack_size,
}
use rtc_simple_server.Rtmp.Raw.Writer.{Writer, ok, write, and_then}
use rtc_simple_server.Rtmp.Raw.Writer as W
use rtc_simple_server.Rtmp.Raw.Start.{is_steady}
use rtc_simple_server.Rtmp.Raw.Messages.{IsSendable, Agree, read_more}
use rtc_simple_server.Rtmp.Raw.Exchange.{read_any-write}
use rtc_simple_server.Rtmp.Messages.{
  Control, chunk_size, ack, window_ack_size, peer_bandwidth, begin, end_of_file, dry, buffer,
  recorded, ping, pong, Message, control, audio, video, sequence_start, coded_frames, sequence_end,
  frames_x, metadata, mpeg2ts_sequence_start, Parsed, parsed, parse, marshal_message, IsValid,
}
use rtc_simple_server.Rtmp.Messages.RoundTrip.{parse-marshal_message}

-- What `Read` gives; the reader is not used after an error.
pub data Reading : Type 0 where
  not_read : Failure → Reading
  not_parsed : Parsed → Reading
  got : Message → Reader → List ℕ → Reading

-- The sizes that a control message brings, at the reader and at the writer.
unfoldable pub adopt_control : Control → Reader → Reader
unfolding set_chunk_size set_window_ack_size
adopt_control (chunk_size m) r = set_chunk_size m.value r
adopt_control (window_ack_size m) r = set_window_ack_size m.value r
adopt_control m r = r

unfoldable pub adopt : Message → Reader → Reader
unfolding adopt_control
adopt (control c) r = adopt_control c r
adopt m r = r

unfoldable pub apply_control : Control → Writer → Writer
unfolding W.set_chunk_size W.set_window_ack_size
apply_control (chunk_size m) w = W.set_chunk_size m.value w
apply_control (window_ack_size m) w = W.set_window_ack_size m.value w
apply_control m w = w

unfoldable pub apply : Message → Writer → Writer
unfolding apply_control
apply (control c) w = apply_control c w
apply m w = w

module _ (frame_key frame_inter : ℕ) (count : List ℕ → ℕ) where
  -- The part of `Read` after the raw message has been read.
  unfoldable pub settle : Parsed → Reader → List ℕ → Reading
  unfolding adopt
  settle (parsed m) r rest = got m (adopt m r) rest
  settle p r rest = not_parsed p

  -- `Reader.Read`, with a bound on the number of chunks. The raw reader gives a message or fails.
  unfoldable pub read_message : (List ℕ → ℕ → Bool) → ℕ → Reader → List ℕ → Reading
  unfolding settle
  read_message acknowledge n r bs = elim (read count acknowledge n r bs) [
    | failure e ↦ not_read e
    | message none r' rest ↦ not_read out_of_fuel
    | message (some raw) r' rest ↦ settle (parse frame_key frame_inter raw) r' rest
  ]

  -- `Writer.Write`; `none` is the error of a message that cannot be marshalled.
  unfoldable pub write_message : Message → Writer → Option W.Result
  unfolding apply
  write_message m w = elim (marshal_message frame_key frame_inter m) [
    | none ↦ none
    | some raw ↦ some (and_then count (λ w'. ok (apply m w')) (write count raw w))
  ]

-- A write after another, if that succeeded.
abbrev pub on_written : (Writer → Option W.Result) → Option W.Result → Option W.Result
on_written f none = none
on_written f (some (ok w)) = f w
on_written f (some (W.no_acknowledge w)) = some (W.no_acknowledge w)
on_written f (some W.nil_pointer) = some W.nil_pointer
on_written f (some W.out_of_fuel) = some W.out_of_fuel

-- Chunks of a size of 0 hold nothing.
unfoldable pub HasSize : Message → Type 0
HasSize (control (chunk_size m)) = 0 < m.value
HasSize m = Unit

adopt_control-Agree :
    (c : Control) (w : Writer) (r : Reader)
    → HasSize (control c)
    → Agree w r
    → Agree (apply_control c w) (adopt_control c r)
unfolding HasSize Agree apply_control adopt_control
adopt_control-Agree (chunk_size m) w r h (c, s, z, k) = (c, h, refl, k)
adopt_control-Agree (ack m) w r h a = a
adopt_control-Agree (window_ack_size m) w r h a = a
adopt_control-Agree (peer_bandwidth m) w r h a = a
adopt_control-Agree (begin m) w r h a = a
adopt_control-Agree (end_of_file m) w r h a = a
adopt_control-Agree (dry m) w r h a = a
adopt_control-Agree (buffer m) w r h a = a
adopt_control-Agree (recorded m) w r h a = a
adopt_control-Agree (ping m) w r h a = a
adopt_control-Agree (pong m) w r h a = a

adopt-Agree :
    (m : Message) (w : Writer) (r : Reader) → HasSize m → Agree w r → Agree (apply m w) (adopt m r)
unfolding apply adopt
adopt-Agree (control c) w r h a = adopt_control-Agree c w r h a
adopt-Agree (audio m) w r h a = a
adopt-Agree (video m) w r h a = a
adopt-Agree (sequence_start m) w r h a = a
adopt-Agree (coded_frames m) w r h a = a
adopt-Agree (sequence_end m) w r h a = a
adopt-Agree (frames_x m) w r h a = a
adopt-Agree (metadata f) w r h a = a
adopt-Agree (mpeg2ts_sequence_start f) w r h a = a

apply_control-written : (c : Control) (w : Writer) → (apply_control c w).written ≡ w.written
unfolding apply_control
apply_control-written (chunk_size m) w = refl
apply_control-written (ack m) w = refl
apply_control-written (window_ack_size m) w = refl
apply_control-written (peer_bandwidth m) w = refl
apply_control-written (begin m) w = refl
apply_control-written (end_of_file m) w = refl
apply_control-written (dry m) w = refl
apply_control-written (buffer m) w = refl
apply_control-written (recorded m) w = refl
apply_control-written (ping m) w = refl
apply_control-written (pong m) w = refl

apply-written : (m : Message) (w : Writer) → (apply m w).written ≡ w.written
unfolding apply
apply-written (control c) w = apply_control-written c w
apply-written (audio m) w = refl
apply-written (video m) w = refl
apply-written (sequence_start m) w = refl
apply-written (coded_frames m) w = refl
apply-written (sequence_end m) w = refl
apply-written (frames_x m) w = refl
apply-written (metadata f) w = refl
apply-written (mpeg2ts_sequence_start f) w = refl

module _ (frame_key frame_inter : ℕ) (k : frame_key < 8) (i : frame_inter < 8)
    (d : frame_key ≢ frame_inter) (written_count read_count : List ℕ → ℕ)
    (acknowledge : List ℕ → ℕ → Bool)
    (acks_ok : (acks : List ℕ) (n : ℕ) → acknowledge acks n ≡ true) where
  pub read_message_lem :
      (n : ℕ) (m : Message) (raw : RawMessage) (r r' : Reader) (bs rest : List ℕ)
      → read read_count acknowledge n r bs ≡ message (some raw) r' rest
      → parse frame_key frame_inter raw ≡ parsed m
      → read_message frame_key frame_inter read_count acknowledge n r bs ≡ got m (adopt m r') rest
  unfolding read_message settle
  read_message_lem n m raw r r' bs rest e p = rw (e, read_message, p) refl

  pub write_message_lem :
      (m : Message) (raw : RawMessage) (w w' : Writer)
      → marshal_message frame_key frame_inter m ≡ some raw
      → write written_count raw w ≡ ok w'
      → write_message frame_key frame_inter written_count m w ≡ some (ok (apply m w'))
  unfolding write_message
  write_message_lem m raw w w' e p = rw (e, write_message, p) refl

  -- The reading of a message whose bytes are given.
  abbrev pub ReadsMessage :
      ℕ → Message → RawMessage → Writer → Writer → List ℕ → Reader → List ℕ → Type 0
  ReadsMessage fuel m raw w w' bs r rest =
      (r' : Reader) × (read_message frame_key frame_inter read_count acknowledge fuel r (bs ++ rest)
        ≡ got m r' rest)
      × (is_steady (w.chunk_streams raw.chunk_stream_id) raw ≡ true → HasSize m → Agree w' r')

  -- From ends that agree, with acknowledgements that are sent and none awaited, a message that can be
  -- marshalled, whose fields fit what carries them, and whose raw message fits the chunk headers, is
  -- written, and reading the bytes that were added, at a reader that agrees with the writer, gives
  -- back the message and leaves the bytes after them, if the bound on rounds exceeds the body by two;
  -- and where the raw message is the first one of its chunk stream, or is of the message stream of the
  -- one before and not older, and the message sets no chunk size of 0, the ends agree again, on the
  -- new chunk size if it set one.
  pub read_message-write_message :
      (fuel : ℕ) (m : Message) (raw : RawMessage) (w : Writer) (r0 : Reader)
      → Agree w r0
      → IsValid m
      → marshal_message frame_key frame_inter m ≡ some raw
      → IsSendable raw
      → suc (suc (length raw.body)) ≤ fuel
      → (w' : Writer) × (bs : List ℕ) × (write_message frame_key frame_inter written_count m w
          ≡ some (ok w'))
        × (w'.written ≡ w.written ++ bs)
        × ((r : Reader) (rest : List ℕ) → Agree w r → ReadsMessage fuel m raw w w' bs r rest)
  read_message-write_message fuel m raw w r0 a v e s l =
      let (w', bs, wr, app, rd) =
        read_any-write written_count read_count acknowledge acks_ok w r0 raw a s in
      (
        apply m w',
        bs,
        write_message_lem m raw w w' e wr,
        apply-written m w' ∙ app,
        λ r rest b.
            let (r', g, ag) = rd r rest b in
            (
              adopt m r',
              read_message_lem fuel m raw r r' (bs ++ rest) rest
                  (read_more written_count read_count acknowledge acks_ok
                    (suc (suc (length raw.body))) fuel r (bs ++ rest) (some raw) r' rest g l)
                  (parse-marshal_message frame_key frame_inter k i d m raw v e),
              λ st h. adopt-Agree m w' r' h (ag st),
            ),
      )
