-- ===== src/Rtmp/Raw/Messages.antt =====
-- Messages that internal/rtmp/rawmessage writes at one end of a connection and reads at the other.
use mathlib.Core.List.{append_assoc}
use rtc_simple_server.Base.{
  ==_refl, length, take, drop, take-append-drop, length-drop, ℕ, zero, suc, ◌*◌, ◌/◌, ◌≤◌, ◌<◌, ◌≡◌,
  refl, sym, ap, subst, ◌∙◌, ◌≢◌, Bool, true, false, Option, none, some, List, ◌++◌, arith,
}
use rtc_simple_server.Rtmp.Message.{RawMessage}
use rtc_simple_server.Rtmp.Raw.Reader.{Reader, Result, read_round, read, failure, message}
use rtc_simple_server.Rtmp.Raw.Writer.{
  Writer, WriterChunkStream, first_chunk, delta_since, differs, milliseconds, body_len_of,
  after_first, and_then, ok, write, write_rest, write_chunk,
}
use rtc_simple_server.Rtmp.Raw.Writer as W
use rtc_simple_server.Rtmp.Raw.Deliver.{stream_of, message_of, Delivers}
use rtc_simple_server.Rtmp.Raw.Pieces.{write_chunk_lem, Delivered}
use rtc_simple_server.Rtmp.Raw.Rest.{Delivers-rest, write_rest-Delivered}
use rtc_simple_server.Rtmp.Raw.First.{Synced}
use rtc_simple_server.Rtmp.Raw.Start.{is_steady, BeginsWith, begins}

-- A message that fits the chunk headers: its timestamp is in whole milliseconds.
unfoldable pub IsSendable : RawMessage → Type 0
IsSendable msg =
    msg.chunk_stream_id < 64
    × msg.timestamp / 1000000 * 1000000 ≡ msg.timestamp
    × msg.timestamp / 1000000 < 16777216
    × msg.message_stream_id < 4294967296
    × length msg.body < 16777216

-- The two ends of a connection agree, and the writer waits for no acknowledgement.
unfoldable pub Agree : Writer → Reader → Type 0
Agree w r =
    w.check_acknowledge ≡ false
    × 0 < w.chunk_size
    × r.chunk_size ≡ w.chunk_size
    × ((k : ℕ) → Synced (w.chunk_streams k) (r.chunk_streams k))

pub store_same :
    (id : ℕ) (wc : WriterChunkStream) (w : Writer) → (W.store id wc w).chunk_streams id ≡ wc
unfolding W.store
store_same id wc w = rw (==_refl id) refl

pub store_other :
    (id : ℕ) (wc : WriterChunkStream) (w : Writer) (k : ℕ)
    → k ≢ id
    → (W.store id wc w).chunk_streams k ≡ w.chunk_streams k
unfolding W.store
store_other id wc w k h = ground arith

module _ (written_count read_count : List ℕ → ℕ) (acknowledge : List ℕ → ℕ → Bool)
    (acks_ok : (acks : List ℕ) (n : ℕ) → acknowledge acks n ≡ true) where
  -- A round that ends the loop of `Read`, or goes on with it.
  after_round : ℕ → Result → Result
  after_round n (failure e) = failure e
  after_round n (message (some m) r' rest) = message (some m) r' rest
  after_round n (message none r' rest) = read read_count acknowledge n r' rest

  read_after :
      (n : ℕ) (r : Reader) (bs : List ℕ)
      → read read_count acknowledge (suc n) r bs
        ≡ after_round n (read_round read_count acknowledge r bs)
  unfolding read after_round
  read_after n r bs = elim (read_round read_count acknowledge r bs) [
    | failure e ↦ refl
    | message none r' rest ↦ refl
    | message (some m) r' rest ↦ refl
  ]

  more_after :
      (n n' : ℕ) (x : Result) (m : Option RawMessage) (r' : Reader) (rest : List ℕ)
      → ((r : Reader) (bs : List ℕ) (m : Option RawMessage) (r' : Reader) (rest : List ℕ)
          → read read_count acknowledge n r bs ≡ message m r' rest
          → n ≤ n'
          → read read_count acknowledge n' r bs ≡ message m r' rest)
      → after_round n x ≡ message m r' rest
      → n ≤ n'
      → after_round n' x ≡ message m r' rest
  unfolding after_round
  more_after n n' (failure e) m r' rest k p h = p
  more_after n n' (message (some m') r rest') m r' rest k p h = p
  more_after n n' (message none r rest') m r' rest k p h = k r rest' m r' rest p h

  pub read_more :
      (n n' : ℕ) (r : Reader) (bs : List ℕ) (m : Option RawMessage) (r' : Reader) (rest : List ℕ)
      → read read_count acknowledge n r bs ≡ message m r' rest
      → n ≤ n'
      → read read_count acknowledge n' r bs ≡ message m r' rest
  unfolding read
  read_more zero n' r bs m r' rest e h = cc e
  read_more (suc n) zero r bs m r' rest e h = absurd (omega (arith, h))
  read_more (suc n) (suc n') r bs m r' rest e h =
      read_after n' r bs
      ∙ more_after n n' (read_round read_count acknowledge r bs) m r' rest (read_more n n')
          (sym (read_after n r bs) ∙ e) (omega (arith, h))

  -- What the writer becomes, and what the reader makes of the bytes.
  abbrev pub written : Writer → RawMessage → List ℕ → Writer
  written w msg bs =
      let wc = w.chunk_streams msg.chunk_stream_id in
      W.store msg.chunk_stream_id (after_first wc (delta_since wc.last_timestamp msg.timestamp) msg)
        (record w { written = w.written ++ bs })

  pub write_lem :
      (w : Writer) (msg : RawMessage) (buf bs : List ℕ)
      → w.check_acknowledge ≡ false
      → first_chunk
          (w.chunk_streams msg.chunk_stream_id)
          (delta_since (w.chunk_streams msg.chunk_stream_id).last_timestamp msg.timestamp)
          msg
          (take w.chunk_size msg.body)
        ≡ some buf
      → write_rest written_count
          (suc (length msg.body))
          msg
          (drop w.chunk_size msg.body)
          (written w msg buf)
        ≡ ok (written w msg (buf ++ bs))
      → write written_count msg w ≡ ok (written w msg (buf ++ bs))
  unfolding write
  write_lem w msg buf bs c f e = rw (write, f, write_chunk_lem written_count buf w c) e

  pub write_begun-Delivered :
      (w : Writer) (r : Reader) (id t ty ms : ℕ) (body : List ℕ) (ih : id < 64) (th : t < 16777216)
      (mh : ms < 4294967296) (bh : length body < 16777216) (d : Option ℕ)
      → w.check_acknowledge ≡ false
      → 0 < w.chunk_size
      → r.chunk_size ≡ w.chunk_size
      → BeginsWith read_count acknowledge acks_ok id t ty ms body ih th mh bh
          (w.chunk_streams id)
          r
          d
      → (bs : List ℕ) × (write written_count (message_of id t ty ms body) w
          ≡ ok (written w (message_of id t ty ms body) bs))
        × ((rest : List ℕ)
            → Delivered written_count read_count acknowledge acks_ok
                (suc (suc (length body)))
                r
                (bs ++ rest)
                (message_of id t ty ms body)
                (stream_of t ty ms (length body) none d)
                rest)
  unfolding write W.store
  write_begun-Delivered w r id t ty ms body ih th mh bh d c s z ((buf, f, g), y) =
      let msg = message_of id t ty ms body in
      let w1 = written w msg buf in
      let l : length (drop w.chunk_size body) < suc (length body) =
        omega (arith, length-drop w.chunk_size body) in
      let (bs, e, n, q) =
        write_rest-Delivered written_count read_count acknowledge acks_ok (suc (length body))
          (drop w.chunk_size body) w1 id t ty ms d body l c s ih bh in
      (
        buf ++ bs,
        write_lem w msg buf bs c
            (subst
              (λ n.
                first_chunk (w.chunk_streams id)
                  (delta_since (w.chunk_streams id).last_timestamp (t * 1000000)) msg (take n body)
                ≡ some buf)
              z f)
            (e ∙ ap (λ l. ok (record w1 { written = l })) (append_assoc w.written buf bs)),
        λ rest.
            Delivers-rest written_count read_count acknowledge acks_ok (suc (length body)) r buf bs
              rest id t ty ms none d (take w.chunk_size body) (drop w.chunk_size body) body
              (subst
                (λ n.
                  Delivers read_count acknowledge acks_ok r (buf ++ (bs ++ rest)) id
                    (stream_of t ty ms (length body) none d) (take n body) (bs ++ rest))
                z (g (bs ++ rest)))
              (take-append-drop w.chunk_size body) n
              (λ r' p' g' f'.
                q r' (take w.chunk_size body) rest (p' ∙ z) (take-append-drop w.chunk_size body) g'
                  f'),
      )

  pub write-Delivered :
      (w : Writer) (r : Reader) (rest : List ℕ) (id t ty ms : ℕ) (body : List ℕ) (ih : id < 64)
      (th : t < 16777216) (mh : ms < 4294967296) (bh : length body < 16777216)
      → Agree w r
      → (bs : List ℕ) × (d : Option ℕ) × (write written_count (message_of id t ty ms body) w
          ≡ ok (written w (message_of id t ty ms body) bs))
        × Delivered written_count read_count acknowledge acks_ok
            (suc (suc (length body)))
            r
            (bs ++ rest)
            (message_of id t ty ms body)
            (stream_of t ty ms (length body) none d)
            rest
        × (is_steady (w.chunk_streams id) (message_of id t ty ms body) ≡ true
            → Synced
                (after_first
                  (w.chunk_streams id)
                  (delta_since (w.chunk_streams id).last_timestamp (t * 1000000))
                  (message_of id t ty ms body))
                (stream_of t ty ms (length body) none d))
  unfolding Agree
  write-Delivered w r rest id t ty ms body ih th mh bh (c, s, z, k) =
      let (d, b) =
        begins read_count acknowledge acks_ok id t ty ms body ih th mh bh (w.chunk_streams id)
          (r.chunk_streams id) (k id) r refl in
      let (bs, e, f) = write_begun-Delivered w r id t ty ms body ih th mh bh d c s z b in
      (bs, d, e, f rest, b.1)
