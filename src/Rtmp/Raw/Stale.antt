-- ===== src/Rtmp/Raw/Stale.antt =====
-- The timestamp delta that the writer of internal/rtmp/rawmessage keeps when it sends a type 0 chunk,
-- and that the reader forgets.
use mathlib.Core.List.{append_assoc}
use rtc_simple_server.Base.{
  leb, ◌==◌, le→leb, ==_refl, length, take, drop, length-drop, ℕ, suc, ◌+◌, ◌-◌, ◌*◌, ◌%◌, ◌≤◌, ◌<◌,
  ◌≡◌, refl, sym, ap, subst, ◌∙◌, Bool, true, false, Option, none, some, List, ◌++◌, arith,
}
use rtc_simple_server.Rtmp.Chunk.{Chunk3, marshal_chunk3}
use rtc_simple_server.Rtmp.Raw.Reader.{
  Reader, read_type_3, read_round, read, no_previous_chunk, failure, message,
}
use rtc_simple_server.Rtmp.Raw.Writer.{
  Writer, WriterChunkStream, first_chunk, delta_since, differs, after_first, and_then, ok, write,
  chunk_3,
}
use rtc_simple_server.Rtmp.Raw.Writer as W
use rtc_simple_server.Rtmp.Raw.Rounds.{round_3}
use rtc_simple_server.Rtmp.Raw.Deliver.{stream_of, message_of}
use rtc_simple_server.Rtmp.Raw.Rest.{write_rest-Delivered}
use rtc_simple_server.Rtmp.Raw.First.{sent, nanoseconds}
use rtc_simple_server.Rtmp.Raw.Start.{BeginsWith, BeginsWith-other_stream}
use rtc_simple_server.Rtmp.Raw.Messages.{store_same, written, write_lem, write_begun-Delivered}

-- A message like the one before it, after the same time again, is a type 3 chunk.
repeats :
    (id t d ty ms : ℕ) (body b : List ℕ) (wc : WriterChunkStream)
    → length body < 16777216
    → wc ≡ sent t ty ms (length body) (some (d * 1000000))
    → first_chunk wc
        (delta_since wc.last_timestamp ((t + d) * 1000000))
        (message_of id (t + d) ty ms body)
        b
      ≡ some (marshal_chunk3 (chunk_3 (message_of id (t + d) ty ms body) b))
unfolding first_chunk delta_since
repeats id t d ty ms body b wc h e =
    let le : leb (t * 1000000) ((t + d) * 1000000) ≡ true =
      le→leb (t * 1000000) ((t + d) * 1000000) (omega arith) in
    let dl : (t + d) * 1000000 - t * 1000000 ≡ d * 1000000 = omega arith in
    let q : length body % 4294967296 ≡ length body = omega (arith, h) in
    subst
      (λ wc.
        first_chunk wc (delta_since wc.last_timestamp ((t + d) * 1000000))
          (message_of id (t + d) ty ms body) b
        ≡ some (marshal_chunk3 (chunk_3 (message_of id (t + d) ty ms body) b)))
      (sym e)
      (rw (le, dl, q, ==_refl ms, ==_refl ty, ==_refl (length body), ==_refl (d * 1000000)) refl)

module _ (written_count read_count : List ℕ → ℕ) (acknowledge : List ℕ → ℕ → Bool)
    (acks_ok : (acks : List ℕ) (n : ℕ) → acknowledge acks n ≡ true) where
  refused :
      (n : ℕ) (c : Chunk3) (r : Reader) (rest : List ℕ) (t ty ms len : ℕ)
      → c.chunk_stream_id < 64
      → r.chunk_streams c.chunk_stream_id ≡ stream_of t ty ms len none none
      → read read_count acknowledge (suc n) r (marshal_chunk3 c ++ rest)
        ≡ failure (no_previous_chunk 3)
  unfolding read_type_3 read
  refused n c r rest t ty ms len h e =
      let p : read_round read_count acknowledge r (marshal_chunk3 c ++ rest)
          ≡ failure (no_previous_chunk 3) =
        round_3 read_count acknowledge acks_ok r c rest h
        ∙ ap
            (λ rc.
              read_type_3 read_count acknowledge c.chunk_stream_id rc r (marshal_chunk3 c ++ rest))
            e in
      rw (read, p) refl

  -- The writer after a message of another message stream.
  stale :
      (w : Writer) (id t0 ty0 ms0 len0 t ty ms : ℕ) (d0 : Option ℕ) (body bs : List ℕ)
      → w.chunk_streams id ≡ sent t0 ty0 ms0 len0 (nanoseconds d0)
      → t0 ≤ t
      → length body < 16777216
      → (written written_count read_count acknowledge acks_ok w
            (message_of id t ty ms body)
            bs).chunk_streams
          id
        ≡ sent t ty ms (length body) (some ((t - t0) * 1000000))
  unfolding after_first delta_since
  stale w id t0 ty0 ms0 len0 t ty ms d0 body bs e o h =
      let le : leb (t0 * 1000000) (t * 1000000) ≡ true =
        le→leb (t0 * 1000000) (t * 1000000) (omega (arith, o)) in
      let dl : t * 1000000 - t0 * 1000000 ≡ (t - t0) * 1000000 = omega (arith, o) in
      let q : length body % 4294967296 ≡ length body = omega (arith, h) in
      store_same id _ (record w { written = w.written ++ bs })
      ∙ ap
          (λ wc.
            after_first wc (delta_since wc.last_timestamp (t * 1000000))
              (message_of id t ty ms body))
          e
      ∙ rw (le, dl, q) refl

  -- After a message that is sent with a type 0 chunk only because its message stream is not that of
  -- the message before it, a message like it, later by the same time again, is written without an
  -- error, and reading it fails: the writer sends a type 3 chunk, which stands for a timestamp delta
  -- that the reader dropped at the type 0 chunk.
  pub read-write_repeated :
      (w : Writer) (r : Reader) (id t0 ty0 ms0 len0 t ty ms : ℕ) (d0 : Option ℕ)
      (body body' : List ℕ)
      → w.check_acknowledge ≡ false
      → 0 < w.chunk_size
      → r.chunk_size ≡ w.chunk_size
      → w.chunk_streams id ≡ sent t0 ty0 ms0 len0 (nanoseconds d0)
      → r.chunk_streams id ≡ stream_of t0 ty0 ms0 len0 none d0
      → t0 ≤ t
      → (ms0 == ms) ≡ false
      → id < 64
      → t0 < 16777216
      → t < 16777216
      → ms < 4294967296
      → length body < 16777216
      → length body' ≡ length body
      → (w1 : Writer) × (w2 : Writer) × (bs1 : List ℕ) × (bs2 : List ℕ) × (r1 : Reader) × (write
            written_count
            (message_of id t ty ms body)
            w
          ≡ ok w1)
        × (w1.written ≡ w.written ++ bs1)
        × (write written_count (message_of id (t + (t - t0)) ty ms body') w1 ≡ ok w2)
        × (w2.written ≡ w1.written ++ bs2)
        × (read read_count acknowledge (suc (suc (length body))) r (bs1 ++ bs2)
            ≡ message (some (message_of id t ty ms body)) r1 bs2)
        × ((n : ℕ) → read read_count acknowledge (suc n) r1 bs2 ≡ failure (no_previous_chunk 3))
  unfolding W.store
  read-write_repeated w r id t0 ty0 ms0 len0 t ty ms d0 body body' c s z we re o m ih t0h th mh bh
        l =
      let bw =
        BeginsWith-other_stream read_count acknowledge acks_ok id t ty ms body ih th mh bh t0 ty0
          ms0 len0 d0 t0h r re o m in
      let (bs1, e1, k1) =
        write_begun-Delivered written_count read_count acknowledge acks_ok w r id t ty ms body ih th
          mh bh none c s z
          (subst
            (λ wc. BeginsWith read_count acknowledge acks_ok id t ty ms body ih th mh bh wc r none)
            (sym we) bw) in
      let w1 =
        written written_count read_count acknowledge acks_ok w (message_of id t ty ms body) bs1 in
      let msg' = message_of id (t + (t - t0)) ty ms body' in
      let ch = chunk_3 msg' (take w.chunk_size body') in
      let st =
        stale w id t0 ty0 ms0 len0 t ty ms d0 body bs1 we o bh
        ∙ ap (λ n. sent t ty ms n (some ((t - t0) * 1000000))) (sym l) in
      let bh' : length body' < 16777216 = omega (arith, l, bh) in
      let f =
        repeats id t (t - t0) ty ms body' (take w.chunk_size body') (w1.chunk_streams id) bh' st in
      let lt : length (drop w.chunk_size body') < suc (length body') =
        omega (arith, length-drop w.chunk_size body') in
      let w2 = written written_count read_count acknowledge acks_ok w1 msg' (marshal_chunk3 ch) in
      let (bs2, e2, n2, q2) =
        write_rest-Delivered written_count read_count acknowledge acks_ok (suc (length body'))
          (drop w.chunk_size body') w2 id (t + (t - t0)) ty ms none body' lt c s ih bh' in
      let (r1, f1, (g1, h1, l1)) = k1 (marshal_chunk3 ch ++ bs2) in
      (
        w1,
        written written_count read_count acknowledge acks_ok w1 msg' (marshal_chunk3 ch ++ bs2),
        bs1,
        marshal_chunk3 ch ++ bs2,
        r1,
        e1,
        refl,
        write_lem written_count read_count acknowledge acks_ok w1 msg' (marshal_chunk3 ch) bs2 c f (
            e2
            ∙ ap (λ l. ok (record w2 { written = l }))
                (append_assoc w1.written (marshal_chunk3 ch) bs2)),
        refl,
        f1,
        λ n. refused n ch r1 bs2 t ty ms (length body) ih h1,
      )
