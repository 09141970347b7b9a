-- ===== src/Rtmp/Raw/Pieces.antt =====
-- The type 3 chunks that internal/rtmp/rawmessage puts the rest of a body in, read again.
use rtc_simple_server.Base.{
  ==_refl, length, ℕ, suc, ◌<◌, ◌≡◌, refl, sym, ap, subst, ◌∙◌, ◌≢◌, Bool, true, false, Option,
  none, some, List, ◌++◌, arith,
}
use rtc_simple_server.Rtmp.Message.{RawMessage}
use rtc_simple_server.Rtmp.Raw.Reader.{ReaderChunkStream, Reader, store, deliver, read, message}
use rtc_simple_server.Rtmp.Raw.Writer.{Writer, write_chunk, is_overdue, ok}
use rtc_simple_server.Rtmp.Raw.Deliver.{
  stream_of, message_of, Delivers, deliver_complete, deliver_partial,
}

pub write_chunk_lem :
    (counted : List ℕ → ℕ) (buf : List ℕ) (w : Writer)
    → w.check_acknowledge ≡ false
    → write_chunk counted buf w ≡ ok (record w { written = w.written ++ buf })
unfolding write_chunk is_overdue
write_chunk_lem counted buf w h = rw h refl

store_same : (id : ℕ) (rc : ReaderChunkStream) (r : Reader) → (store id rc r).chunk_streams id ≡ rc
unfolding store
store_same id rc r = rw (==_refl id) refl

store_other :
    (id : ℕ) (rc : ReaderChunkStream) (r : Reader) (k : ℕ)
    → k ≢ id
    → (store id rc r).chunk_streams k ≡ r.chunk_streams k
unfolding store
store_other id rc r k h = ground arith

store-chunk_size :
    (id : ℕ) (rc : ReaderChunkStream) (r : Reader) → (store id rc r).chunk_size ≡ r.chunk_size
unfolding store
store-chunk_size id rc r = refl

module _ (written_count read_count : List ℕ → ℕ) (acknowledge : List ℕ → ℕ → Bool)
    (acks_ok : (acks : List ℕ) (n : ℕ) → acknowledge acks n ≡ true) where
  -- What is left to read after the message `m`.
  abbrev pub Delivered : ℕ → Reader → List ℕ → RawMessage → ReaderChunkStream → List ℕ → Type 0
  Delivered n r bs m rc rest =
      (r' : Reader) × (read read_count acknowledge n r bs ≡ message (some m) r' rest)
      × (r'.chunk_size ≡ r.chunk_size
          × r'.chunk_streams m.chunk_stream_id ≡ rc
          × ((k : ℕ) → k ≢ m.chunk_stream_id → r'.chunk_streams k ≡ r.chunk_streams k))

  -- One chunk that completes the body.
  pub Delivers-complete :
      (n : ℕ) (r : Reader) (bs : List ℕ) (id t ty ms len : ℕ) (b : Option (List ℕ)) (d : Option ℕ)
      (body rest : List ℕ)
      → Delivers read_count acknowledge acks_ok r bs id (stream_of t ty ms len b d) body rest
      → length body ≡ len
      → Delivered (suc n) r bs (message_of id t ty ms body) (stream_of t ty ms len none d) rest
  unfolding read
  Delivers-complete n r bs id t ty ms len b d body rest (r', e, (f, g)) h =
      let rc = stream_of t ty ms len none d in
      let q : deliver id (stream_of t ty ms len b d) body r' rest
          ≡ message (some (message_of id t ty ms body)) (store id rc r') rest =
        subst
          (λ len.
            deliver id (stream_of t ty ms len b d) body r' rest
            ≡ message (some (message_of id t ty ms body))
                (store id (stream_of t ty ms len none d) r') rest)
          h (deliver_complete id t ty ms b d body r' rest) in
      (
        store id rc r',
        rw (read, e, q) refl,
        (
          store-chunk_size id rc r' ∙ f,
          store_same id rc r',
          λ k n. store_other id rc r' k n ∙ ap (λ s. s k) g,
        ),
      )

  -- One chunk that does not, and what follows it.
  pub Delivers-partial :
      (n : ℕ) (r : Reader) (bs : List ℕ) (id t ty ms len : ℕ) (b : Option (List ℕ)) (d : Option ℕ)
      (body rest rest' : List ℕ) (m : RawMessage) (rc : ReaderChunkStream)
      → Delivers read_count acknowledge acks_ok r bs id (stream_of t ty ms len b d) body rest
      → length body < len
      → m.chunk_stream_id ≡ id
      → ((r' : Reader)
          → r'.chunk_size ≡ r.chunk_size
          → r'.chunk_streams id ≡ stream_of t ty ms len (some body) d
          → Delivered n r' rest m rc rest')
      → Delivered (suc n) r bs m rc rest'
  unfolding read
  Delivers-partial n r bs id t ty ms len b d body rest rest' m rc (r', e, (f, g)) h i k =
      let rc' = stream_of t ty ms len (some body) d in
      let s = store id rc' r' in
      let q : deliver id (stream_of t ty ms len b d) body r' rest
          ≡ message none (store id rc' r') rest =
        deliver_partial id t ty ms len b d body r' rest h in
      let (r'', e', (f', g', l')) = k s (store-chunk_size id rc' r' ∙ f) (store_same id rc' r') in
      (
        r'',
        rw (read, e, q) e',
        (
          f' ∙ store-chunk_size id rc' r' ∙ f,
          g',
          λ k n. l' k n ∙ store_other id rc' r' k (λ p. n (p ∙ sym i)) ∙ ap (λ s. s k) g,
        ),
      )
