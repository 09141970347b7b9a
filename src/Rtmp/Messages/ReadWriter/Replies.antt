-- ===== src/Rtmp/Messages/ReadWriter/Replies.antt =====
-- What an end of a connection writes by itself, in internal/rtmp/message/readwriter.go: the
-- acknowledgements of a `Read`, and answers to pings.
use rtc_simple_server.Base.{
  Bool-cases, length, drop, take, ◌^◌, ◌≤◌, ◌<◌, ◌≡◌, ◌≢◌, refl, sym, ap, ◌∙◌, inl, inr, ℕ, zero,
  suc, Bool, true, Option, Option-cases, none, some, List, [], ◌∷◌, ◌++◌, arith,
}
use mathlib.Core.Path.{fun_ext}
use rtc_simple_server.Rtmp.Control.{marshal_acknowledge}
use rtc_simple_server.Rtmp.Control.{control as raw_control}
use rtc_simple_server.Rtmp.UserControl.{marshal_ping_response}
use rtc_simple_server.Rtmp.Message.{RawMessage}
use rtc_simple_server.Rtmp.Raw.Reader.{Reader}
use rtc_simple_server.Rtmp.Raw.Writer.{
  Writer, ok, write, write_rest, write_chunk, is_overdue, store, after_first, first_chunk,
  delta_since, set_acknowledge_value,
}
use rtc_simple_server.Rtmp.Raw.Writer as W
use rtc_simple_server.Rtmp.Raw.Start.{is_steady}
use rtc_simple_server.Rtmp.Raw.Messages.{IsSendable, Agree, store_same}
use rtc_simple_server.Rtmp.Messages.{
  pong, Message, control, marshal_message, marshal_control, IsValid,
}
use rtc_simple_server.Rtmp.Raw.Exchange.{read_any-write}
use rtc_simple_server.Rtmp.Messages.Exchange.{
  write_message_lem, apply, write_message, on_written, HasSize,
}
use rtc_simple_server.Rtmp.Messages.Sequence.{
  is_steady_message, write_messages, all_steady_messages, AreValid, read_messages-write_messages,
}
use rtc_simple_server.Rtmp.Messages.ReadWriter.{
  acknowledgement, write_acks, is_written, acknowledges,
}

-- The acknowledgements of one `Read`, in their order.
abbrev pub sent_acks : List ℕ → List Message
sent_acks [] = []
sent_acks (n ∷ ns) = sent_acks ns ++ (acknowledgement n ∷ [])

on_written-on_written :
    (f g : Writer → Option W.Result) (x : Option W.Result)
    → on_written f (on_written g x) ≡ on_written (λ w. on_written f (g w)) x
on_written-on_written f g none = refl
on_written-on_written f g (some (ok w)) = refl
on_written-on_written f g (some (W.no_acknowledge w)) = refl
on_written-on_written f g (some W.nil_pointer) = refl
on_written-on_written f g (some W.out_of_fuel) = refl

on_written-ok : (x : Option W.Result) → on_written (λ w. some (ok w)) x ≡ x
on_written-ok none = refl
on_written-ok (some (ok w)) = refl
on_written-ok (some (W.no_acknowledge w)) = refl
on_written-ok (some W.nil_pointer) = refl
on_written-ok (some W.out_of_fuel) = refl

module _ (frame_key frame_inter : ℕ) (count : List ℕ → ℕ) where
  pub write_messages-append :
      (ms : List Message) (m : Message) (w : Writer)
      → write_messages frame_key frame_inter count (ms ++ (m ∷ [])) w
        ≡ on_written
            (write_message frame_key frame_inter count m)
            (write_messages frame_key frame_inter count ms w)
  unfolding write_messages
  write_messages-append [] m w = on_written-ok (write_message frame_key frame_inter count m w)
  write_messages-append (m' ∷ ms) m w =
      ap (λ f. on_written f (write_message frame_key frame_inter count m' w))
        (fun_ext (write_messages-append ms m))
      ∙ sym (
          on_written-on_written (write_message frame_key frame_inter count m)
            (write_messages frame_key frame_inter count ms)
            (write_message frame_key frame_inter count m' w))

  pub write_acks-sent_acks :
      (ns : List ℕ) (w : Writer)
      → write_acks frame_key frame_inter count ns w
        ≡ write_messages frame_key frame_inter count (sent_acks ns) w
  unfolding write_acks write_messages
  write_acks-sent_acks [] w = refl
  write_acks-sent_acks (n ∷ ns) w =
      ap (on_written (write_message frame_key frame_inter count (acknowledgement n)))
        (write_acks-sent_acks ns w)
      ∙ sym (write_messages-append (sent_acks ns) (acknowledgement n) w)

  -- A raw message of the control messages leaves its chunk stream with what the next one needs.
  write_rest-chunk_streams :
      (n : ℕ) (msg : RawMessage) (body : List ℕ) (w w' : Writer)
      → write_rest count n msg body w ≡ ok w'
      → w'.chunk_streams ≡ w.chunk_streams
  unfolding write_rest write_chunk
  write_rest-chunk_streams zero msg body w w' e = cc e
  write_rest-chunk_streams (suc n) msg [] w w' e = cc e
  write_rest-chunk_streams (suc n) msg (b ∷ body) w w' e = elim (Bool-cases (is_overdue count w)) [
    | inl late ↦ cc (rw (write_rest, late) at e)
    | inr early ↦
        write_rest-chunk_streams n msg (drop w.chunk_size (b ∷ body)) _ w'
          (rw (write_rest, early) at e)
  ]

  write-chunk_streams :
      (msg : RawMessage) (w w' : Writer)
      → write count msg w ≡ ok w'
      → w'.chunk_streams msg.chunk_stream_id
        ≡ after_first
            (w.chunk_streams msg.chunk_stream_id)
            (delta_since (w.chunk_streams msg.chunk_stream_id).last_timestamp msg.timestamp)
            msg
  unfolding write write_chunk store
  write-chunk_streams msg w w' e =
      let wc = w.chunk_streams msg.chunk_stream_id in
      let delta = delta_since wc.last_timestamp msg.timestamp in
      elim (Option-cases (first_chunk wc delta msg (take w.chunk_size msg.body))) [
        | inl n ↦ cc (rw (write, n) at e)
        | inr (buf, f) ↦ elim (Bool-cases (is_overdue count w)) [
          | inl late ↦ cc (rw (write, f, late) at e)
          | inr early ↦
              let w1 : Writer =
                store msg.chunk_stream_id (after_first wc delta msg)
                  (record w { written = w.written ++ buf }) in
              ap (λ (streams : ℕ → W.WriterChunkStream). streams msg.chunk_stream_id)
                (write_rest-chunk_streams (suc (length msg.body)) msg (drop w.chunk_size msg.body)
                  w1 w' (rw (write, f, early) at e))
              ∙ store_same msg.chunk_stream_id (after_first wc delta msg)
                  (record w { written = w.written ++ buf })
        ]
      ]

-- Whether a control message would be the first one of a chunk stream, or follows one.
abbrev pub takes_control : W.WriterChunkStream → Bool
takes_control wc = is_steady wc (raw_control 0 [])

after_first-takes_control :
    (wc : W.WriterChunkStream) (d : Option ℕ) (type : ℕ) (body : List ℕ)
    → takes_control (after_first wc d (raw_control type body)) ≡ true
unfolding after_first delta_since
after_first-takes_control wc d type body = refl

-- A message that an end of a connection writes by itself.
abbrev pub IsReply : ℕ → ℕ → Message → Type 0
IsReply frame_key frame_inter m =
    IsValid m
    × HasSize m
    × ((w : Writer) → apply m w ≡ w)
    × ((type : ℕ) × (body : List ℕ) × (marshal_message frame_key frame_inter m
          ≡ some (raw_control type body))
        × (length body ≤ 6))

pub acknowledgement-IsReply : (k i n : ℕ) → IsReply k i (acknowledgement n)
unfolding IsValid HasSize apply marshal_message marshal_control marshal_acknowledge
acknowledgement-IsReply k i n = (omega arith, tt, λ w. refl, (_, _, refl, omega arith))

pub pong-IsReply :
    (k i t : ℕ) → t < 2 ^ 32 → IsReply k i (control (pong (record { server_time = t })))
unfolding IsValid HasSize apply marshal_message marshal_control marshal_ping_response
pong-IsReply k i t h = (h, tt, λ w. refl, (_, _, refl, omega arith))

module _ (frame_key frame_inter : ℕ) (k : frame_key < 8) (i : frame_inter < 8)
    (d : frame_key ≢ frame_inter) (written_count : List ℕ → ℕ) where
  abbrev pub AreReplies : List Message → Type 0
  AreReplies [] = Unit
  AreReplies (m ∷ ms) = IsReply frame_key frame_inter m × AreReplies ms

  pub AreReplies-append :
      (ms : List Message) (m : Message)
      → AreReplies ms
      → IsReply frame_key frame_inter m
      → AreReplies (ms ++ (m ∷ []))
  AreReplies-append [] m h f = (f, tt)
  AreReplies-append (m' ∷ ms) m (f', h) f = (f', AreReplies-append ms m h f)

  pub sent_acks-AreReplies : (ns : List ℕ) → AreReplies (sent_acks ns)
  sent_acks-AreReplies [] = tt
  sent_acks-AreReplies (n ∷ ns) =
      AreReplies-append (sent_acks ns) (acknowledgement n) (sent_acks-AreReplies ns)
        (acknowledgement-IsReply frame_key frame_inter n)

  pub control-IsSendable :
      (type : ℕ) (body : List ℕ) → length body ≤ 6 → IsSendable (raw_control type body)
  unfolding IsSendable
  control-IsSendable type body h = (omega arith, refl, omega arith, omega arith, omega arith)

  pub AreReplies-AreValid :
      (fuel : ℕ) (ms : List Message)
      → 8 ≤ fuel
      → AreReplies ms
      → AreValid frame_key frame_inter fuel ms
  unfolding AreValid
  AreReplies-AreValid fuel [] l h = tt
  AreReplies-AreValid fuel (m ∷ ms) l ((v, z, a, (type, body, e, b)), h) = (
    v,
    z,
    (raw_control type body, e, control-IsSendable type body b, omega (arith, l, b)),
    AreReplies-AreValid fuel ms l h,
  )

  -- A reply is written, and the ends agree on what comes next.
  write_reply :
      (m : Message) (w : Writer) (r : Reader)
      → Agree w r
      → takes_control (w.chunk_streams 2) ≡ true
      → IsReply frame_key frame_inter m
      → (w' : Writer) × (write_message frame_key frame_inter written_count m w ≡ some (ok w'))
        × (takes_control (w'.chunk_streams 2) ≡ true)
        × ((r' : Reader) × Agree w' r')
  write_reply m w r a t (v, z, same, (type, body, e, b)) =
      let raw = raw_control type body in
      let (w', bs, wr, app, rd) =
        read_any-write written_count written_count (λ acks n. true) (λ acks n. refl) w r raw a
          (control-IsSendable type body b) in
      let (r', g, ag) = rd r [] a in
      (
        w',
        write_message_lem frame_key frame_inter k i d written_count written_count (λ acks n. true)
              (λ acks n. refl) m raw w w' e wr
            ∙ ap (λ w. some (ok w)) (same w'),
        ap takes_control (write-chunk_streams frame_key frame_inter written_count raw w w' wr)
            ∙ after_first-takes_control (w.chunk_streams 2) _ type body,
        (r', ag t),
      )

  pub all_steady_replies :
      (ms : List Message) (w : Writer) (r : Reader)
      → Agree w r
      → takes_control (w.chunk_streams 2) ≡ true
      → AreReplies ms
      → all_steady_messages frame_key frame_inter written_count ms w ≡ true
  unfolding all_steady_messages
  all_steady_replies [] w r a t h = refl
  all_steady_replies (m ∷ ms) w r a t (f, h) =
      let (w', e, t', (r', a')) = write_reply m w r a t f in
      let (type, body, raw, b) = f.3 in
      rw (e, all_steady_messages, is_steady_message, raw, t) (all_steady_replies ms w' r' a' t' h)

  pub acknowledges_always :
      (w : Writer) (r : Reader)
      → Agree w r
      → takes_control (w.chunk_streams 2) ≡ true
      → (ns : List ℕ) (n : ℕ) → acknowledges frame_key frame_inter written_count w ns n ≡ true
  unfolding acknowledges
  acknowledges_always w r a t ns n =
      let ms = sent_acks (n ∷ ns) in
      let (w', bs, e, f, g) =
        read_messages-write_messages frame_key frame_inter k i d written_count written_count
          (λ acks n. true) (λ acks n. refl) 8 ms w r a
          (AreReplies-AreValid 8 ms (omega arith) (sent_acks-AreReplies (n ∷ ns)))
          (all_steady_replies ms w r a t (sent_acks-AreReplies (n ∷ ns))) in
      ap (is_written frame_key frame_inter written_count)
        (write_acks-sent_acks frame_key frame_inter written_count (n ∷ ns) w ∙ e)
