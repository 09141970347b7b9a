-- ===== src/Rtmp/Raw/Sequence.antt =====
-- Messages that internal/rtmp/rawmessage writes one after the other, read one after the other.
use mathlib.Core.List.{append-nil, append_assoc}
use rtc_simple_server.Base.{
  both_true, length, ℕ, zero, suc, ◌≤◌, ◌≡◌, refl, sym, ap, ◌∙◌, Bool, true, false, ◌&&◌, Option,
  none, some, List, [], ◌∷◌, ◌++◌,
}
use rtc_simple_server.Rtmp.Message.{RawMessage}
use rtc_simple_server.Rtmp.Raw.Reader.{Reader, read, failure, message}
use rtc_simple_server.Rtmp.Raw.Writer.{Writer, and_then, ok, write}
use rtc_simple_server.Rtmp.Raw.Writer as W
use rtc_simple_server.Rtmp.Raw.Start.{is_steady}
use rtc_simple_server.Rtmp.Raw.Messages.{IsSendable, Agree, read_more}
use rtc_simple_server.Rtmp.Raw.Exchange.{read_any-write}

module _ (written_count : List ℕ → ℕ) where
  -- Messages that are written one after the other.
  unfoldable pub write_all : List RawMessage → Writer → W.Result
  write_all [] w = ok w
  write_all (msg ∷ msgs) w = and_then written_count (write_all msgs) (write written_count msg w)

  unfoldable pub all_steady : List RawMessage → Writer → Bool
  all_steady [] w = true
  all_steady (msg ∷ msgs) w =
      is_steady (w.chunk_streams msg.chunk_stream_id) msg && elim (write written_count msg w) [
        | ok w' ↦ all_steady msgs w'
        | W.no_acknowledge w' ↦ false
        | W.nil_pointer ↦ false
        | W.out_of_fuel ↦ false
      ]

module _ (read_count : List ℕ → ℕ) (acknowledge : List ℕ → ℕ → Bool) where
  -- As many messages as given, and the bytes that are left.
  unfoldable pub read_all : ℕ → ℕ → Reader → List ℕ → Option (List RawMessage × List ℕ)
  read_all fuel zero r bs = some ([], bs)
  read_all fuel (suc n) r bs = elim (read read_count acknowledge fuel r bs) [
    | failure e ↦ none
    | message none r' rest ↦ none
    | message (some m) r' rest ↦ elim (read_all fuel n r' rest) [
      | none ↦ none
      | some (ms, rest') ↦ some (m ∷ ms, rest')
    ]
  ]

unfoldable pub AreSendable : ℕ → List RawMessage → Type 0
AreSendable fuel [] = Unit
AreSendable fuel (msg ∷ msgs) =
    IsSendable msg × suc (suc (length msg.body)) ≤ fuel × AreSendable fuel msgs

module _ (written_count read_count : List ℕ → ℕ) (acknowledge : List ℕ → ℕ → Bool)
    (acks_ok : (acks : List ℕ) (n : ℕ) → acknowledge acks n ≡ true) where
  all_steady_cons :
      (msg : RawMessage) (msgs : List RawMessage) (w w1 : Writer)
      → write written_count msg w ≡ ok w1
      → all_steady written_count (msg ∷ msgs) w ≡ true
      → (is_steady (w.chunk_streams msg.chunk_stream_id) msg ≡ true)
        × (all_steady written_count msgs w1 ≡ true)
  unfolding all_steady
  all_steady_cons msg msgs w w1 e h =
      let k : (is_steady (w.chunk_streams msg.chunk_stream_id) msg
            && all_steady written_count msgs w1)
          ≡ true =
        rw e at h in
      both_true (is_steady (w.chunk_streams msg.chunk_stream_id) msg)
        (all_steady written_count msgs w1) k

  write_all_cons :
      (msg : RawMessage) (msgs : List RawMessage) (w w1 : Writer)
      → write written_count msg w ≡ ok w1
      → write_all written_count (msg ∷ msgs) w ≡ write_all written_count msgs w1
  unfolding write_all
  write_all_cons msg msgs w w1 e = rw e refl

  read_all_cons :
      (fuel n : ℕ) (m : RawMessage) (ms : List RawMessage) (r r' : Reader) (bs rest rest' : List ℕ)
      → read read_count acknowledge fuel r bs ≡ message (some m) r' rest'
      → read_all read_count acknowledge fuel n r' rest' ≡ some (ms, rest)
      → read_all read_count acknowledge fuel (suc n) r bs ≡ some (m ∷ ms, rest)
  unfolding read_all
  read_all_cons fuel n m ms r r' bs rest rest' e f = rw (e, read_all, f) refl

  read_all_any-write_all :
      (fuel : ℕ) (msgs : List RawMessage) (w : Writer) (r0 : Reader)
      → Agree w r0
      → AreSendable fuel msgs
      → all_steady written_count msgs w ≡ true
      → (w' : Writer) × (bs : List ℕ) × (write_all written_count msgs w ≡ ok w')
        × (w'.written ≡ w.written ++ bs)
        × ((r : Reader) (rest : List ℕ)
            → Agree w r
            → read_all read_count acknowledge fuel (length msgs) r (bs ++ rest) ≡ some (msgs, rest))
  unfolding AreSendable all_steady write_all read_all
  read_all_any-write_all fuel [] w r0 a s h =
      (w, [], refl, sym (append-nil w.written), λ r rest b. refl)
  read_all_any-write_all fuel (msg ∷ msgs) w r0 a (s, l, ss) h =
      let (w1, bs1, e1, f1, k1) =
        read_any-write written_count read_count acknowledge acks_ok w r0 msg a s in
      let (st, h1) = all_steady_cons msg msgs w w1 e1 h in
      let (r1, g1, a1) = k1 r0 [] a in
      let (w2, bs2, e2, f2, k2) = read_all_any-write_all fuel msgs w1 r1 (a1 st) ss h1 in
      (
        w2,
        bs1 ++ bs2,
        write_all_cons msg msgs w w1 e1 ∙ e2,
        f2 ∙ ap (λ l. l ++ bs2) f1 ∙ append_assoc w.written bs1 bs2,
        λ r rest b.
            let (r', g, a') = k1 r (bs2 ++ rest) b in
            let g' =
              read_more written_count read_count acknowledge acks_ok (suc (suc (length msg.body)))
                fuel r (bs1 ++ (bs2 ++ rest)) (some msg) r' (bs2 ++ rest) g l in
            read_all_cons fuel (length msgs) msg msgs r r' (bs1 ++ bs2 ++ rest) rest (bs2 ++ rest)
              (ap (read read_count acknowledge fuel r) (append_assoc bs1 bs2 rest) ∙ g')
              (k2 r' rest (a' st)),
      )

  -- From ends that agree, with acknowledgements that are sent and none awaited, messages that fit the
  -- chunk headers, of which each is the first one of its chunk stream or is of the message stream of
  -- the one before it there and not older, are all written, and reading as many gives them back in
  -- their order and leaves the bytes after them, if the bound on rounds exceeds each body by two.
  pub read_all-write_all :
      (fuel : ℕ) (msgs : List RawMessage) (w : Writer) (r : Reader)
      → Agree w r
      → AreSendable fuel msgs
      → all_steady written_count msgs w ≡ true
      → (w' : Writer) × (bs : List ℕ) × (write_all written_count msgs w ≡ ok w')
        × (w'.written ≡ w.written ++ bs)
        × ((rest : List ℕ)
            → read_all read_count acknowledge fuel (length msgs) r (bs ++ rest) ≡ some (msgs, rest))
  read_all-write_all fuel msgs w r a s h =
      let (w', bs, e, f, k) = read_all_any-write_all fuel msgs w r a s h in
      (w', bs, e, f, λ rest. k r rest a)
