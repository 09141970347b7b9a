-- ===== src/Rtmp/Raw/Start.antt =====
-- Every message that `writeMessage` begins is one that the reader takes.
use rtc_simple_server.Base.{
  leb, ◌==◌, is_some, leb→le, ==_iff, Bool-cases, length, take, ℕ, ◌-◌, ◌*◌, ◌%◌, ◌≤◌, ◌<◌, ◌≡◌,
  refl, sym, ap, ◌∙◌, inl, inr, Bool, true, false, not, ◌&&◌, ◌||◌, Option, none, some, List, arith,
}
use rtc_simple_server.Rtmp.Chunk.{marshal_chunk0, marshal_chunk1, marshal_chunk2, marshal_chunk3}
use rtc_simple_server.Rtmp.Message.{RawMessage}
use rtc_simple_server.Rtmp.Raw.Reader.{ReaderChunkStream, new_chunk_stream, Reader}
use rtc_simple_server.Rtmp.Raw.Writer.{
  Writer, WriterChunkStream, first_chunk, delta_since, differs, milliseconds, body_len_of,
  after_first,
}
use rtc_simple_server.Rtmp.Raw.Writer as W
use rtc_simple_server.Rtmp.Raw.Deliver.{stream_of, message_of}
use rtc_simple_server.Rtmp.Raw.First.{
  sent, nanoseconds, Synced, Starts, Starts-0, delta_since_lem, Starts-1, Starts-2, Starts-3, fresh,
  after,
}

-- A message whose delta is sent: the first one, or one of the same message stream that is not older
-- than the one before it.
abbrev pub is_steady : WriterChunkStream → RawMessage → Bool
is_steady wc msg =
    not (is_some wc.last_timestamp)
    || (is_some (delta_since wc.last_timestamp msg.timestamp)
        && not (differs wc.last_message_stream_id msg.message_stream_id))

same_as : {a b : ℕ} → a ≡ b → (a == b) ≡ true
same_as {a} {b} e = (==_iff a b).1 e

module _ (count : List ℕ → ℕ) (acknowledge : List ℕ → ℕ → Bool)
    (acks_ok : (acks : List ℕ) (n : ℕ) → acknowledge acks n ≡ true) (id t ty ms : ℕ) (body : List ℕ)
    (ih : id < 64) (th : t < 16777216) (mh : ms < 4294967296) (bh : length body < 16777216) where
  abbrev pub BeginsWith : WriterChunkStream → Reader → Option ℕ → Type 0
  BeginsWith wc r d =
      Starts count acknowledge acks_ok id t ty ms body ih th mh bh r.chunk_size wc r d
      × (is_steady wc (message_of id t ty ms body) ≡ true
          → Synced
              (after_first wc (delta_since wc.last_timestamp (t * 1000000))
                (message_of id t ty ms body))
              (stream_of t ty ms (length body) none d))

  abbrev pub Begins : WriterChunkStream → Reader → Type 0
  Begins wc r = (d : Option ℕ) × BeginsWith wc r d

  body_len_lem : length body % 4294967296 ≡ length body
  body_len_lem = omega (arith, bh)

  Begins-fresh : (r : Reader) → r.chunk_streams id ≡ new_chunk_stream → Begins W.new_chunk_stream r
  unfolding first_chunk delta_since after_first
  Begins-fresh r e = (
    none,
    (
      Starts-0 count acknowledge acks_ok id t ty ms body ih th mh bh W.new_chunk_stream r
          (ap (λ rc. rc.cur_body) e) refl,
      λ h. rw body_len_lem (after t ty ms (length body) none th),
    ),
  )

  module _ (t0 ty0 ms0 len0 : ℕ) (d0 : Option ℕ) (t0h : t0 < 16777216) (r : Reader)
      (known : r.chunk_streams id ≡ stream_of t0 ty0 ms0 len0 none d0) where
    abbrev wc : WriterChunkStream
    wc = sent t0 ty0 ms0 len0 (nanoseconds d0)

    abbrev msg : RawMessage
    msg = message_of id t ty ms body

    abbrev sent_delta : Option ℕ
    sent_delta = delta_since (some (t0 * 1000000)) (t * 1000000)

    first_0_older :
        (size : ℕ)
        → t < t0
        → first_chunk wc sent_delta msg (take size body)
          ≡ some (marshal_chunk0 (W.first_0 msg (take size body)))
    unfolding first_chunk delta_since
    first_0_older size h =
        let l : t * 1000000 < t0 * 1000000 = omega (arith, h) in ground (arith, l)

    steady-order : t < t0 → is_steady wc msg ≡ false
    unfolding delta_since
    steady-order h = let l : t * 1000000 < t0 * 1000000 = omega (arith, h) in ground (arith, l)

    Begins-older : t < t0 → Begins wc r
    Begins-older h = (
      none,
      (
        Starts-0 count acknowledge acks_ok id t ty ms body ih th mh bh wc r
            (ap (λ rc. rc.cur_body) known) (first_0_older r.chunk_size h),
        λ s. cc (s, steady-order h),
      ),
    )

    -- The message is not older than the one before it.
    module _ (order : t0 ≤ t) where
      abbrev since : ℕ
      since = t * 1000000 - t0 * 1000000

      since_lem : sent_delta ≡ some since
      since_lem = delta_since_lem count acknowledge acks_ok id t ty ms body ih th mh bh t0 order r

      since_ns : since ≡ (t - t0) * 1000000
      since_ns = omega (arith, order)

      synced_after :
          Synced
            (after_first wc sent_delta msg)
            (stream_of t ty ms (length body) none (some (t - t0)))
      unfolding after_first
      synced_after =
          rw (since_lem, body_len_lem, since_ns) (after t ty ms (length body) (some (t - t0)) th)

      pub BeginsWith-other_stream : (ms0 == ms) ≡ false → BeginsWith wc r none
      unfolding first_chunk
      BeginsWith-other_stream h = (
        Starts-0 count acknowledge acks_ok id t ty ms body ih th mh bh wc r
            (ap (λ rc. rc.cur_body) known) (rw (since_lem, h) refl),
        λ s. ground (arith, s, since_lem, h),
      )

      Begins-1 :
          ms0 ≡ ms
          → first_chunk wc (some since) msg (take r.chunk_size body)
            ≡ some (marshal_chunk1 (W.first_1 msg since (take r.chunk_size body)))
          → Begins wc r
      Begins-1 p f = (
        some (t - t0),
        (
          Starts-1 count acknowledge acks_ok id t ty ms body ih th mh bh t0 order r ty0 len0 d0
              (known ∙ ap (λ m. stream_of t0 ty0 m len0 none d0) p) wc
              (ap (λ d. first_chunk wc d msg (take r.chunk_size body)) since_lem ∙ f),
          λ s. synced_after,
        ),
      )

      Begins-2 :
          ty0 ≡ ty
          → ms0 ≡ ms
          → len0 ≡ length body
          → first_chunk wc (some since) msg (take r.chunk_size body)
            ≡ some (marshal_chunk2 (W.first_2 msg since (take r.chunk_size body)))
          → Begins wc r
      Begins-2 o p q f = (
        some (t - t0),
        (
          Starts-2 count acknowledge acks_ok id t ty ms body ih th mh bh t0 order r d0
              (known ∙ λ i. stream_of t0 (o i) (p i) (q i) none d0) wc
              (ap (λ d. first_chunk wc d msg (take r.chunk_size body)) since_lem ∙ f),
          λ s. synced_after,
        ),
      )

      Begins-3 :
          ty0 ≡ ty
          → ms0 ≡ ms
          → len0 ≡ length body
          → d0 ≡ some (t - t0)
          → first_chunk wc (some since) msg (take r.chunk_size body)
            ≡ some (marshal_chunk3 (W.chunk_3 msg (take r.chunk_size body)))
          → Begins wc r
      Begins-3 o p q e f = (
        some (t - t0),
        (
          Starts-3 count acknowledge acks_ok id t ty ms body ih th mh bh t0 order r
              (known ∙ λ i. stream_of t0 (o i) (p i) (q i) none (e i)) wc
              (ap (λ d. first_chunk wc d msg (take r.chunk_size body)) since_lem ∙ f),
          λ s. synced_after,
        ),
      )

      -- Whether the delta is the one that was sent last.
      Begins-same : (d : Option ℕ) → d0 ≡ d → ty0 ≡ ty → ms0 ≡ ms → len0 ≡ length body → Begins wc r
      unfolding first_chunk
      Begins-same none e o p q =
          Begins-2 o p q (rw (same_as o, same_as p, same_as (q ∙ sym body_len_lem), e) refl)
      Begins-same (some d) e o p q = elim (Bool-cases (d * 1000000 == since)) [
        | inl h ↦
            let f : d ≡ t - t0 = omega (arith, (==_iff (d * 1000000) since).0 h, order) in
            Begins-3 o p q (e ∙ ap some f)
              (rw (same_as o, same_as p, same_as (q ∙ sym body_len_lem), e, h) refl)
        | inr h ↦
            Begins-2 o p q (rw (same_as o, same_as p, same_as (q ∙ sym body_len_lem), e, h) refl)
      ]

      Begins-same_stream : ms0 ≡ ms → Begins wc r
      unfolding first_chunk
      Begins-same_stream p = elim (Bool-cases (ty0 == ty)) [
        | inr h ↦ Begins-1 p (rw (same_as p, h) refl)
        | inl h ↦ elim (Bool-cases (len0 == length body % 4294967296)) [
          | inr k ↦ Begins-1 p (rw (same_as p, h, k) refl)
          | inl k ↦
              Begins-same d0 refl ((==_iff ty0 ty).0 h) p
                ((==_iff len0 (length body % 4294967296)).0 k ∙ body_len_lem)
        ]
      ]

      Begins-newer : Begins wc r
      Begins-newer = elim (Bool-cases (ms0 == ms)) [
        | inl h ↦ Begins-same_stream ((==_iff ms0 ms).0 h)
        | inr h ↦ (none, BeginsWith-other_stream h)
      ]

    Begins-after : Begins wc r
    Begins-after = elim (Bool-cases (leb t0 t)) [
      | inl h ↦ Begins-newer (leb→le t0 t h)
      | inr h ↦ Begins-older (ground (arith, h))
    ]

  -- From any state that both ends agree on.
  pub begins :
      (wc : WriterChunkStream) (rc : ReaderChunkStream)
      → Synced wc rc
      → (r : Reader) → r.chunk_streams id ≡ rc
      → Begins wc r
  begins _ _ fresh r e = Begins-fresh r e
  begins _ _ (after t0 ty0 ms0 len0 d0 h) r e = Begins-after t0 ty0 ms0 len0 d0 h r e
