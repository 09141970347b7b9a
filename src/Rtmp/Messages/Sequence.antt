-- ===== src/Rtmp/Messages/Sequence.antt =====
-- Messages that internal/rtmp/message writes one after the other, read one after the other.
use mathlib.Core.List.{append-nil, append_assoc}
use rtc_simple_server.Base.{
  both_true, length, ℕ, zero, suc, ◌≤◌, ◌<◌, ◌≡◌, refl, sym, ap, ◌∙◌, ◌≢◌, Bool, true, false, ◌&&◌,
  Option, none, some, List, [], ◌∷◌, ◌++◌,
}
use rtc_simple_server.Rtmp.Message.{RawMessage}
use rtc_simple_server.Rtmp.Raw.Reader.{Reader}
use rtc_simple_server.Rtmp.Raw.Writer.{Writer, ok}
use rtc_simple_server.Rtmp.Raw.Writer as W
use rtc_simple_server.Rtmp.Raw.Start.{is_steady}
use rtc_simple_server.Rtmp.Raw.Messages.{IsSendable, Agree}
use rtc_simple_server.Rtmp.Messages.{Message, marshal_message, IsValid}
use rtc_simple_server.Rtmp.Messages.Exchange.{
  not_read, not_parsed, got, read_message, write_message, on_written, HasSize,
  read_message-write_message,
}

module _ (frame_key frame_inter : ℕ) (count : List ℕ → ℕ) where
  -- Messages that are written one after the other, up to an error.
  unfoldable pub write_messages : List Message → Writer → Option W.Result
  write_messages [] w = some (ok w)
  write_messages (m ∷ ms) w =
      on_written (write_messages ms) (write_message frame_key frame_inter count m w)

  -- As many messages as given, and the bytes that are left.
  unfoldable pub read_messages :
      (List ℕ → ℕ → Bool) → ℕ → ℕ → Reader → List ℕ → Option (List Message × List ℕ)
  read_messages acknowledge fuel zero r bs = some ([], bs)
  read_messages acknowledge fuel (suc n) r bs =
      elim (read_message frame_key frame_inter count acknowledge fuel r bs) [
        | not_read e ↦ none
        | not_parsed p ↦ none
        | got m r' rest ↦ elim (read_messages acknowledge fuel n r' rest) [
          | none ↦ none
          | some (ms, rest') ↦ some (m ∷ ms, rest')
        ]
      ]

  abbrev pub is_steady_message : Message → Writer → Bool
  is_steady_message m w = elim (marshal_message frame_key frame_inter m) [
    | none ↦ false
    | some raw ↦ is_steady (w.chunk_streams raw.chunk_stream_id) raw
  ]

  -- Each message, when it is its turn, is the first one of its chunk stream, or is of the message
  -- stream of the one before it there and not older.
  unfoldable pub all_steady_messages : List Message → Writer → Bool
  all_steady_messages [] w = true
  all_steady_messages (m ∷ ms) w =
      is_steady_message m w && elim (write_message frame_key frame_inter count m w) [
        | none ↦ false
        | some (ok w') ↦ all_steady_messages ms w'
        | some (W.no_acknowledge w') ↦ false
        | some W.nil_pointer ↦ false
        | some W.out_of_fuel ↦ false
      ]

module _ (frame_key frame_inter fuel : ℕ) where
  -- Messages that can be marshalled, with fields and raw messages that fit, none of which sets a chunk
  -- size of 0.
  unfoldable pub AreValid : List Message → Type 0
  AreValid [] = Unit
  AreValid (m ∷ ms) =
      IsValid m
      × HasSize m
      × ((raw : RawMessage) × (marshal_message frame_key frame_inter m ≡ some raw)
          × IsSendable raw
          × (suc (suc (length raw.body)) ≤ fuel))
      × AreValid ms

module _ (frame_key frame_inter : ℕ) (k : frame_key < 8) (i : frame_inter < 8)
    (d : frame_key ≢ frame_inter) (written_count read_count : List ℕ → ℕ)
    (acknowledge : List ℕ → ℕ → Bool)
    (acks_ok : (acks : List ℕ) (n : ℕ) → acknowledge acks n ≡ true) where
  write_messages_cons :
      (m : Message) (ms : List Message) (w w1 : Writer)
      → write_message frame_key frame_inter written_count m w ≡ some (ok w1)
      → write_messages frame_key frame_inter written_count (m ∷ ms) w
        ≡ write_messages frame_key frame_inter written_count ms w1
  unfolding write_messages
  write_messages_cons m ms w w1 e = rw (e, write_messages) refl

  all_steady_cons :
      (m : Message) (raw : RawMessage) (ms : List Message) (w w1 : Writer)
      → marshal_message frame_key frame_inter m ≡ some raw
      → write_message frame_key frame_inter written_count m w ≡ some (ok w1)
      → all_steady_messages frame_key frame_inter written_count (m ∷ ms) w ≡ true
      → (is_steady (w.chunk_streams raw.chunk_stream_id) raw ≡ true)
        × (all_steady_messages frame_key frame_inter written_count ms w1 ≡ true)
  unfolding all_steady_messages
  all_steady_cons m raw ms w w1 f e h =
      let h' : (is_steady (w.chunk_streams raw.chunk_stream_id) raw
            && all_steady_messages frame_key frame_inter written_count ms w1)
          ≡ true =
        rw (e, all_steady_messages, is_steady_message, f) at h in
      both_true (is_steady (w.chunk_streams raw.chunk_stream_id) raw)
        (all_steady_messages frame_key frame_inter written_count ms w1) h'

  read_messages_cons :
      (fuel n : ℕ) (m : Message) (ms : List Message) (r r' : Reader) (bs rest rest' : List ℕ)
      → read_message frame_key frame_inter read_count acknowledge fuel r bs ≡ got m r' rest'
      → read_messages frame_key frame_inter read_count acknowledge fuel n r' rest' ≡ some (ms, rest)
      → read_messages frame_key frame_inter read_count acknowledge fuel (suc n) r bs
        ≡ some (m ∷ ms, rest)
  unfolding read_messages
  read_messages_cons fuel n m ms r r' bs rest rest' e f = rw (e, read_messages, f) refl

  abbrev ReadsMessages : ℕ → List Message → List ℕ → Reader → List ℕ → Type 0
  ReadsMessages fuel ms bs r rest =
      read_messages frame_key frame_inter read_count acknowledge fuel (length ms) r (bs ++ rest)
      ≡ some (ms, rest)

  read_any_messages :
      (fuel : ℕ) (ms : List Message) (w : Writer) (r0 : Reader)
      → Agree w r0
      → AreValid frame_key frame_inter fuel ms
      → all_steady_messages frame_key frame_inter written_count ms w ≡ true
      → (w' : Writer) × (bs : List ℕ) × (write_messages frame_key frame_inter written_count ms w
          ≡ some (ok w'))
        × (w'.written ≡ w.written ++ bs)
        × ((r : Reader) (rest : List ℕ) → Agree w r → ReadsMessages fuel ms bs r rest)
  unfolding AreValid write_messages read_messages
  read_any_messages fuel [] w r0 a v h = (w, [], refl, sym (append-nil w.written), λ r rest b. refl)
  read_any_messages fuel (m ∷ ms) w r0 a (v, z, (raw, e, s, l), vs) h =
      let (w1, bs1, e1, f1, k1) =
        read_message-write_message frame_key frame_inter k i d written_count read_count acknowledge
          acks_ok fuel m raw w r0 a v e s l in
      let (st, h1) = all_steady_cons m raw ms w w1 e e1 h in
      let (r1, g1, a1) = k1 r0 [] a in
      let (w2, bs2, e2, f2, k2) = read_any_messages fuel ms w1 r1 (a1 st z) vs h1 in
      (
        w2,
        bs1 ++ bs2,
        write_messages_cons m ms w w1 e1 ∙ e2,
        f2 ∙ ap (λ l. l ++ bs2) f1 ∙ append_assoc w.written bs1 bs2,
        λ r rest b.
            let (r', g, a') = k1 r (bs2 ++ rest) b in
            read_messages_cons fuel (length ms) m ms r r' (bs1 ++ bs2 ++ rest) rest (bs2 ++ rest)
              (ap (read_message frame_key frame_inter read_count acknowledge fuel r)
                  (append_assoc bs1 bs2 rest)
                ∙ g)
              (k2 r' rest (a' st z)),
      )

  -- From ends that agree, with acknowledgements that are sent and none awaited, messages that can be
  -- marshalled, whose fields fit what carries them, whose raw messages fit the chunk headers, and of
  -- which none sets a chunk size of 0 and each is, on its chunk stream, the first one or of the message
  -- stream of the one before it and not older, are all written, and reading as many gives them back in
  -- their order and leaves the bytes after them, if the bound on rounds exceeds each body by two: a
  -- message that sets the chunk size is in force at both ends for those after it. The two frame types
  -- of flvio are different numbers below 8.
  pub read_messages-write_messages :
      (fuel : ℕ) (ms : List Message) (w : Writer) (r : Reader)
      → Agree w r
      → AreValid frame_key frame_inter fuel ms
      → all_steady_messages frame_key frame_inter written_count ms w ≡ true
      → (w' : Writer) × (bs : List ℕ) × (write_messages frame_key frame_inter written_count ms w
          ≡ some (ok w'))
        × (w'.written ≡ w.written ++ bs)
        × ((rest : List ℕ)
            → read_messages frame_key frame_inter read_count acknowledge fuel
                (length ms)
                r
                (bs ++ rest)
              ≡ some (ms, rest))
  read_messages-write_messages fuel ms w r a v h =
      let (w', bs, e, f, g) = read_any_messages fuel ms w r a v h in
      (w', bs, e, f, λ rest. g r rest a)
