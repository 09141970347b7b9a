-- ===== src/Rtmp/Messages/ReadWriter/Ping.antt =====
-- How the reading of internal/rtmp/message/readwriter.go answers a ping.
use rtc_simple_server.Base.{
  length, ◌^◌, ◌≤◌, ◌<◌, ◌≡◌, ◌≢◌, refl, sym, ap, ◌∙◌, ℕ, Bool, true, Option, none, some, List, [],
  ◌∷◌, ◌++◌, arith,
}
use rtc_simple_server.Rtmp.Control.{control as raw_control}
use rtc_simple_server.Rtmp.UserControl.{marshal_ping_request}
use rtc_simple_server.Base.Bytes.{put16, put32}
use rtc_simple_server.Rtmp.Raw.Reader.{Reader}
use rtc_simple_server.Rtmp.Raw.Writer.{
  Writer, ok, write, write_rest, write_chunk, is_overdue, store, after_first, first_chunk,
  delta_since, set_acknowledge_value,
}
use rtc_simple_server.Rtmp.Raw.Writer as W
use rtc_simple_server.Rtmp.Raw.Messages.{Agree}
use rtc_simple_server.Rtmp.Messages.{
  ping, pong, Message, control, marshal_message, marshal_control, IsValid,
}
use rtc_simple_server.Rtmp.Messages.Exchange.{
  got, read_message, write_message, on_written, read_message-write_message,
}
use rtc_simple_server.Rtmp.Messages.Sequence.{read_messages, read_messages-write_messages}
use rtc_simple_server.Rtmp.Messages.ReadWriter.{
  ReadWriter, received, write_acks, acknowledges, after_write, answer, receive,
}
use rtc_simple_server.Rtmp.Messages.ReadWriter.Replies.{
  sent_acks, takes_control, write_messages-append, write_acks-sent_acks, pong-IsReply,
  AreReplies-append, sent_acks-AreReplies, control-IsSendable, AreReplies-AreValid,
  all_steady_replies, acknowledges_always,
}

abbrev pub ping_at : ℕ → Message
ping_at t = control (ping (record { server_time = t }))

abbrev pub pong_at : ℕ → Message
pong_at t = control (pong (record { server_time = t }))

ping-marshalled :
    (k i t : ℕ) → marshal_message k i (ping_at t) ≡ some (raw_control 4 (put16 6 (put32 t [])))
unfolding marshal_message marshal_control marshal_ping_request
ping-marshalled k i t = refl

ping-IsValid : (t : ℕ) → t < 2 ^ 32 → IsValid (ping_at t)
unfolding IsValid
ping-IsValid t h = h

forget-Agree : (w : Writer) (r : Reader) → Agree w r → Agree w (record r { acks = [] })
unfolding Agree
forget-Agree w r a = a

module _ (frame_key frame_inter : ℕ) (count : List ℕ → ℕ) where
  answer-ping :
      (t : ℕ) (x : Option W.Result) (w : Writer)
      → on_written (write_message frame_key frame_inter count (pong_at t)) x ≡ some (ok w)
      → answer frame_key frame_inter count (ping_at t) x ≡ some w
  unfolding answer
  answer-ping t none w e = cc e
  answer-ping t (some (ok w')) w e = ap (after_write frame_key frame_inter count) e
  answer-ping t (some (W.no_acknowledge w')) w e = cc e
  answer-ping t (some W.nil_pointer) w e = cc e
  answer-ping t (some W.out_of_fuel) w e = cc e

  receive_lem :
      (read_count : List ℕ → ℕ) (fuel : ℕ) (s : ReadWriter) (bs rest : List ℕ) (m : Message)
      (r : Reader) (w : Writer)
      → read_message frame_key frame_inter read_count
          (acknowledges frame_key frame_inter count s.writer)
          fuel
          (record s.reader { acks = [] })
          bs
        ≡ got m r rest
      → answer frame_key frame_inter count m
          (write_acks frame_key frame_inter count r.acks s.writer)
        ≡ some w
      → receive frame_key frame_inter count read_count fuel s bs
        ≡ received m (record { reader = r; writer = w }) rest
  unfolding receive
  receive_lem read_count fuel s bs rest m r w e f = rw (e, receive, f) refl

module _ (frame_key frame_inter : ℕ) (count' read_count read_count' : List ℕ → ℕ)
    (acknowledge : List ℕ → ℕ → Bool) where
  -- What comes back for a ping: acknowledgements, and the pong after them.
  abbrev pub Answered : ℕ → ℕ → ReadWriter → Reader → List ℕ → List ℕ → Type 0
  Answered fuel t s r bs rest =
      (s' : ReadWriter) × (ns : List ℕ) × (qs : List ℕ) × (receive frame_key frame_inter count'
          read_count' fuel s (bs ++ rest)
        ≡ received (ping_at t) s' rest)
      × (s'.writer.written ≡ s.writer.written ++ qs)
      × ((rest' : List ℕ)
          → read_messages frame_key frame_inter read_count acknowledge fuel
              (length (sent_acks ns ++ (pong_at t ∷ []))) r (qs ++ rest')
            ≡ some (sent_acks ns ++ (pong_at t ∷ []), rest'))

module _ (frame_key frame_inter : ℕ) (k : frame_key < 8) (i : frame_inter < 8)
    (d : frame_key ≢ frame_inter) (count count' read_count read_count' : List ℕ → ℕ)
    (acknowledge : List ℕ → ℕ → Bool)
    (acks_ok : (acks : List ℕ) (n : ℕ) → acknowledge acks n ≡ true) where
  answers :
      (fuel t : ℕ) (s : ReadWriter) (r r' : Reader) (bs rest : List ℕ)
      → Agree s.writer r
      → takes_control (s.writer.chunk_streams 2) ≡ true
      → t < 2 ^ 32
      → 8 ≤ fuel
      → read_message frame_key frame_inter read_count'
          (acknowledges frame_key frame_inter count' s.writer)
          fuel
          (record s.reader { acks = [] })
          (bs ++ rest)
        ≡ got (ping_at t) r' rest
      → Answered frame_key frame_inter count' read_count read_count' acknowledge fuel t s r bs rest
  answers fuel t s r r' bs rest a c h l g =
      let ns = r'.acks in
      let replies =
        AreReplies-append frame_key frame_inter k i d count' (sent_acks ns) (pong_at t)
          (sent_acks-AreReplies frame_key frame_inter k i d count' ns)
          (pong-IsReply frame_key frame_inter t h) in
      let ms = sent_acks ns ++ (pong_at t ∷ []) in
      let (w', qs, e, f, rd) =
        read_messages-write_messages frame_key frame_inter k i d count' read_count acknowledge
          acks_ok fuel ms s.writer r a
          (AreReplies-AreValid frame_key frame_inter k i d count' fuel ms l replies)
          (all_steady_replies frame_key frame_inter k i d count' ms s.writer r a c replies) in
      (
        record { reader = r'; writer = w' },
        ns,
        qs,
        receive_lem frame_key frame_inter count' read_count' fuel s (bs ++ rest) rest (ping_at t) r'
            w' g
            (answer-ping frame_key frame_inter count' t
              (write_acks frame_key frame_inter count' ns s.writer) w'
              (ap (on_written (write_message frame_key frame_inter count' (pong_at t)))
                  (write_acks-sent_acks frame_key frame_inter count' ns s.writer)
                ∙ sym (
                    write_messages-append frame_key frame_inter count' (sent_acks ns) (pong_at t)
                      s.writer)
                ∙ e)),
        f,
        rd,
      )

  -- Two ends agree, each writer with the reader at the other end, and none of them checks
  -- acknowledgements. A ping of 32 bits that is written at one end and received at the other, with a
  -- bound of 8 chunks at least, is answered: the other end writes the acknowledgements that its
  -- reading asked for and a pong with the same time after them, and these are what is read back where
  -- the ping came from. Messages before it on the chunk stream of the answers were control messages.
  pub ping_answered :
      (fuel t : ℕ) (w : Writer) (r : Reader) (s : ReadWriter)
      → Agree w s.reader
      → Agree s.writer r
      → takes_control (s.writer.chunk_streams 2) ≡ true
      → t < 2 ^ 32
      → 8 ≤ fuel
      → (w' : Writer) × (bs : List ℕ) × (write_message frame_key frame_inter count (ping_at t) w
          ≡ some (ok w'))
        × (w'.written ≡ w.written ++ bs)
        × ((rest : List ℕ)
            → Answered frame_key frame_inter count' read_count read_count' acknowledge fuel t s r bs
                rest)
  ping_answered fuel t w r s a a' c h l =
      let body = put16 6 (put32 t []) in
      let raw = raw_control 4 body in
      let always = acknowledges_always frame_key frame_inter k i d count' s.writer r a' c in
      let (w', bs, e, f, rd) =
        read_message-write_message frame_key frame_inter k i d count read_count'
          (acknowledges frame_key frame_inter count' s.writer) always fuel (ping_at t) raw w
          (record s.reader { acks = [] }) (forget-Agree w s.reader a) (ping-IsValid t h)
          (ping-marshalled frame_key frame_inter t)
          (control-IsSendable frame_key frame_inter k i d count 4 body (omega arith))
          (omega (arith, l)) in
      (
        w',
        bs,
        e,
        f,
        λ rest.
            let (r', g, ag) = rd (record s.reader { acks = [] }) rest (forget-Agree w s.reader a) in
            answers fuel t s r r' bs rest a' c h l g,
      )
