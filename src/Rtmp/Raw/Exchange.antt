-- ===== src/Rtmp/Raw/Exchange.antt =====
-- A connection whose ends use internal/rtmp/rawmessage: what is written at one is read at the other.
use rtc_simple_server.Base.{
  ◌==◌, ==_iff, Bool-cases, length, drop, drop-append_length, ℕ, suc, ◌/◌, ◌<◌, ◌≡◌, refl, sym, ap,
  subst, ◌∙◌, ◌≢◌, inl, inr, Bool, true, some, List, [], ◌++◌, arith,
}
use rtc_simple_server.Rtmp.Message.{RawMessage}
use rtc_simple_server.Rtmp.Raw.Reader.{ReaderChunkStream, Reader, read, message}
use rtc_simple_server.Rtmp.Raw.Writer.{
  Writer, WriterChunkStream, delta_since, differs, after_first, and_then, ok, write,
}
use rtc_simple_server.Rtmp.Raw.Writer as W
use rtc_simple_server.Rtmp.Raw.Deliver.{message_of}
use rtc_simple_server.Rtmp.Raw.First.{Synced}
use rtc_simple_server.Rtmp.Raw.Start.{is_steady}
use rtc_simple_server.Rtmp.Raw.Messages.{
  IsSendable, Agree, store_same, store_other, written, write-Delivered,
}

abbrev writer_of : Writer → W.Result → Writer
writer_of w (ok w') = w'
writer_of w r = w

append_cancel : (xs ys zs : List ℕ) → xs ++ ys ≡ xs ++ zs → ys ≡ zs
append_cancel xs ys zs e =
    sym (drop-append_length xs ys) ∙ ap (drop (length xs)) e ∙ drop-append_length xs zs

synced_at :
    (id j : ℕ) (wc : WriterChunkStream) (rc : ReaderChunkStream) (w : Writer) (r r' : Reader)
    → Synced wc rc
    → r'.chunk_streams id ≡ rc
    → ((k : ℕ) → k ≢ id → r'.chunk_streams k ≡ r.chunk_streams k)
    → ((k : ℕ) → Synced (w.chunk_streams k) (r.chunk_streams k))
    → Synced ((W.store id wc w).chunk_streams j) (r'.chunk_streams j)
synced_at id j wc rc w r r' s e l k = elim (Bool-cases (j == id)) [
  | inl h ↦
      subst (λ j. Synced ((W.store id wc w).chunk_streams j) (r'.chunk_streams j))
        (sym ((==_iff j id).0 h)) (rw (store_same id wc w, e) s)
  | inr h ↦ let n : j ≢ id = ground (arith, h) in rw (store_other id wc w j n, l j n) (k j)
]

module _ (written_count read_count : List ℕ → ℕ) (acknowledge : List ℕ → ℕ → Bool)
    (acks_ok : (acks : List ℕ) (n : ℕ) → acknowledge acks n ≡ true) where
  -- The writer succeeds, and reading the bytes it adds gives the message, what follows them being left.
  abbrev Arrives : RawMessage → Writer → Reader → List ℕ → Type 0
  Arrives msg w r rest =
      (w' : Writer) × (r' : Reader) × (bs : List ℕ) × (write written_count msg w ≡ ok w')
      × (w'.written ≡ w.written ++ bs)
      × (read read_count acknowledge (suc (suc (length msg.body))) r (bs ++ rest)
          ≡ message (some msg) r' rest)
      × (is_steady (w.chunk_streams msg.chunk_stream_id) msg ≡ true → Agree w' r')

  arrives :
      (w : Writer) (r : Reader) (rest : List ℕ) (id t ty ms : ℕ) (body : List ℕ)
      → id < 64
      → t < 16777216
      → ms < 4294967296
      → length body < 16777216
      → Agree w r
      → Arrives (message_of id t ty ms body) w r rest
  unfolding Agree W.store
  arrives w r rest id t ty ms body ih th mh bh (c, s, z, k) =
      let (bs, d, e, (r', f, (g, h, l)), y) =
        write-Delivered written_count read_count acknowledge acks_ok w r rest id t ty ms body ih th
          mh bh (c, s, z, k) in
      (
        written written_count read_count acknowledge acks_ok w (message_of id t ty ms body) bs,
        r',
        bs,
        e,
        refl,
        f,
        λ st. (
          c,
          s,
          g ∙ z,
          λ j. synced_at id j _ _ (record w { written = w.written ++ bs }) r r' (y st) h l k,
        ),
      )

  read-write_at :
      (w : Writer) (r : Reader) (msg : RawMessage) (rest : List ℕ)
      → Agree w r
      → IsSendable msg
      → Arrives msg w r rest
  unfolding IsSendable
  read-write_at w r msg rest a (i, t, th, mh, bh) =
      subst
        (λ t.
          Arrives
            (record {
              chunk_stream_id = msg.chunk_stream_id;
              timestamp = t;
              type = msg.type;
              message_stream_id = msg.message_stream_id;
              body = msg.body;
            })
            w r rest)
        t
        (arrives w r rest msg.chunk_stream_id (msg.timestamp / 1000000) msg.type
          msg.message_stream_id msg.body i th mh bh a)

  -- The reading of a message whose bytes are given.
  abbrev pub Reads : RawMessage → Writer → Writer → List ℕ → Reader → List ℕ → Type 0
  Reads msg w w' bs r rest =
      (r' : Reader) × (read read_count acknowledge (suc (suc (length msg.body))) r (bs ++ rest)
        ≡ message (some msg) r' rest)
      × (is_steady (w.chunk_streams msg.chunk_stream_id) msg ≡ true → Agree w' r')

  pub read_any-write :
      (w : Writer) (r0 : Reader) (msg : RawMessage)
      → Agree w r0
      → IsSendable msg
      → (w' : Writer) × (bs : List ℕ) × (write written_count msg w ≡ ok w')
        × (w'.written ≡ w.written ++ bs)
        × ((r : Reader) (rest : List ℕ) → Agree w r → Reads msg w w' bs r rest)
  read_any-write w r0 msg a s =
      let (w0, x0, bs0, e0, f0, g0, k0) = read-write_at w r0 msg [] a s in
      (
        w0,
        bs0,
        e0,
        f0,
        λ r rest b.
            let (w1, r1, bs1, e1, f1, g1, k1) = read-write_at w r msg rest b s in
            let p : w1 ≡ w0 = ap (writer_of w0) (sym e1 ∙ e0) in
            let q : bs1 ≡ bs0 =
              append_cancel w.written bs1 bs0 (sym f1 ∙ ap (λ w. w.written) p ∙ f0) in
            (
              r1,
              ap (λ l. read read_count acknowledge (suc (suc (length msg.body))) r (l ++ rest))
                    (sym q)
                  ∙ g1,
              λ st. subst (λ w. Agree w r1) p (k1 st),
            ),
      )

  -- From ends that agree, with acknowledgements that are sent and none awaited, a message that fits
  -- the chunk headers is written, and reading the bytes that were added gives back the message and
  -- leaves the bytes after them; and where the message is the first one of its chunk stream, or is of
  -- the message stream of the one before and not older, the ends agree again.
  pub read-write :
      (w : Writer) (r : Reader) (msg : RawMessage)
      → Agree w r
      → IsSendable msg
      → (w' : Writer) × (bs : List ℕ) × (write written_count msg w ≡ ok w')
        × (w'.written ≡ w.written ++ bs)
        × ((rest : List ℕ) → Reads msg w w' bs r rest)
  read-write w r msg a s =
      let (w', bs, e, f, k) = read_any-write w r msg a s in (w', bs, e, f, λ rest. k r rest a)
