-- ===== src/Rtmp/Media.antt =====
-- The audio message of internal/rtmp/message.
use rtc_simple_server.Base.{
  ltb, ◌==◌, if◌then◌else◌, length, drop, ℕ, ◌+◌, ◌*◌, ◌/◌, ◌%◌, ◌≤◌, ◌<◌, ◌≡◌, refl, sym, subst,
  ◌⊎◌, inl, inr, ◌||◌, List, ◌∷◌, arith,
}
use rtc_simple_server.Base.Bytes.{agree_below, eq_of_agree, byte_at}
use Prim.Native.Nat.{bit_and, bit_or}
use rtc_simple_server.Rtmp.Message.{RawMessage}

pub record Audio : Type 0 where
  pub chunk_stream_id : ℕ
  pub dts : ℕ
  pub message_stream_id : ℕ
  pub codec : ℕ
  pub rate : ℕ
  pub depth : ℕ
  pub channels : ℕ
  pub aac_type : ℕ
  pub payload : List ℕ

pub data MediaError : Type 0 where
  invalid_body_size : MediaError
  unsupported_codec : ℕ → MediaError
  unsupported_type : ℕ → MediaError

pub data MediaResult {ℓ} (A : Type ℓ) : Type ℓ where
  err : MediaError → MediaResult A
  ok : A → MediaResult A

-- The message of a body with the payload from byte `n` on; the message comes new from the
-- allocation, so the AAC type is 0 where it is not read.
abbrev audio_of : RawMessage → ℕ → ℕ → Audio
audio_of raw aac_type n =
    let b = byte_at raw.body 0 in
    record {
      chunk_stream_id = raw.chunk_stream_id;
      dts = raw.timestamp;
      message_stream_id = raw.message_stream_id;
      codec = b / 16;
      rate = bit_and (b / 4) 0x03;
      depth = bit_and (b / 2) 0x01;
      channels = bit_and b 0x01;
      aac_type = aac_type;
      payload = drop n raw.body;
    }

unfoldable pub unmarshal_audio : RawMessage → MediaResult Audio
unmarshal_audio raw =
    let codec = byte_at raw.body 0 / 16 in
    let aac_type = byte_at raw.body 1 in
    if ltb (length raw.body) 2
    then err invalid_body_size
    else if codec == 2
    then ok (audio_of raw 0 1)
    else if codec == 10
    then (if aac_type == 0 || aac_type == 1
        then ok (audio_of raw aac_type 2)
        else err (unsupported_type aac_type))
    else err (unsupported_codec codec)

-- The first byte: shifts of a byte drop what leaves its eight bits.
unfoldable pub audio_head : ℕ → ℕ → ℕ → ℕ → ℕ
audio_head codec rate depth channels =
    bit_or (bit_or (bit_or (codec * 16 % 256) (rate * 4 % 256)) (depth * 2 % 256)) channels

unfoldable pub marshal_audio : Audio → RawMessage
unfolding audio_head
marshal_audio m =
    let head = audio_head m.codec m.rate m.depth m.channels in
    record {
      chunk_stream_id = m.chunk_stream_id;
      timestamp = m.dts;
      type = 8;
      message_stream_id = m.message_stream_id;
      body = if m.codec == 2 then head ∷ m.payload else head ∷ m.aac_type ∷ m.payload;
    }

unfoldable pub IsAudio : Audio → Type 0
IsAudio m =
    ((m.codec ≡ 2) × (m.aac_type ≡ 0) × (1 ≤ length m.payload) ⊎ (m.codec ≡ 10) × (m.aac_type < 2))
    × (m.rate < 4)
    × (m.depth < 2)
    × (m.channels < 2)

-- The fields as one number of four bits.
audio_head-packed :
    (codec i : ℕ)
    → (codec ≡ 2) ⊎ (codec ≡ 10)
    → i < 16
    → audio_head codec (i / 4) (i / 2 % 2) (i % 2) ≡ codec * 16 + i
unfolding audio_head agree_below
audio_head-packed codec i (inl e) h =
    subst (λ k. audio_head k (i / 4) (i / 2 % 2) (i % 2) ≡ k * 16 + i) (sym e)
      (eq_of_agree (λ i. audio_head 2 (i / 4) (i / 2 % 2) (i % 2)) (λ i. 32 + i) 16 refl i h)
audio_head-packed codec i (inr e) h =
    subst (λ k. audio_head k (i / 4) (i / 2 % 2) (i % 2) ≡ k * 16 + i) (sym e)
      (eq_of_agree (λ i. audio_head 10 (i / 4) (i / 2 % 2) (i % 2)) (λ i. 160 + i) 16 refl i h)

audio_head_sum :
    (codec rate depth channels : ℕ)
    → (codec ≡ 2) ⊎ (codec ≡ 10)
    → rate < 4
    → depth < 2
    → channels < 2
    → audio_head codec rate depth channels ≡ codec * 16 + (rate * 4 + depth * 2 + channels)
audio_head_sum codec rate depth channels k r d c =
    let i = rate * 4 + depth * 2 + channels in
    let e : i / 4 ≡ rate = omega arith in
    let f : i / 2 % 2 ≡ depth = omega arith in
    let g : i % 2 ≡ channels = omega arith in
    cc (audio_head-packed codec i k (omega arith), e, f, g)

two_bits : (b : ℕ) → b < 256 → bit_and b 0x03 ≡ b % 4
unfolding agree_below
two_bits = eq_of_agree _ _ 256 refl

one_bit : (b : ℕ) → b < 256 → bit_and b 0x01 ≡ b % 2
unfolding agree_below
one_bit = eq_of_agree _ _ 256 refl

-- An audio message is read back from the raw message that it marshals to, where its fields fit their
-- widths, and where it has a codec that is supported: MPEG-4 with an AAC type of 0 or 1, or MPEG-2 with
-- a payload that is not empty and no AAC type.
pub unmarshal_audio-marshal_audio :
    (m : Audio) → IsAudio m → unmarshal_audio (marshal_audio m) ≡ ok m
unfolding IsAudio unmarshal_audio marshal_audio
unmarshal_audio-marshal_audio m h =
    let h' = audio_head m.codec m.rate m.depth m.channels in
    let e =
      audio_head_sum m.codec m.rate m.depth m.channels (ground (arith, h)) (ground (arith, h))
        (ground (arith, h)) (ground (arith, h)) in
    ground (arith, h, e, two_bits (h' / 4) (omega (arith, e, h)), one_bit (h' / 2), one_bit h')
