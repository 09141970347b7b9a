-- ===== src/Conf/General/Power.antt =====
-- The numbers that have no digit in common with their predecessor: the test that the check of
-- `readBufferCount` in internal/conf/conf.go makes.
use Prim.Native.Nat.{bit_and, bit_and-bitwise, digits, two}
use native.Mathlib.Nat.{two-pow-succ}
use rtc_simple_server.Base.{
  ◌==◌, ==_iff, Bool-cases, ℕ, zero, suc, ◌+◌, ◌/◌, ◌%◌, ◌^◌, ◌≤◌, ◌<◌, min, ◌≡◌, refl, sym, ap,
  subst, ◌∙◌, inl, inr, Bool, true, false, ◌&&◌, arith,
}
use rtc_simple_server.Conf.General.{
  GeneralConf, RtspConf, Conf, is_strict, is_udp, is_multicast, any, exceeds, has_two_bits,
  fill_general, fill_rtsp,
}
use rtc_simple_server.Conf.General.Paths.{
  ConfError, ConfResult, ◌>>◌, refuse_if, check_general, check_rtsp_conf, resolve_all, sorted_names,
  check_paths, or_empty, check_conf, accepted,
}
use rtc_simple_server.Conf.Check.{Parsers}
use rtc_simple_server.Conf.General.Accepted.{inversion}

abbrev and_digits : ℕ → ℕ → ℕ → ℕ
and_digits = digits (λ b. zero) min

same_digits : (n a : ℕ) → a ≤ n → and_digits n a a ≡ 0 → a ≡ 0
same_digits n zero h e = refl
same_digits zero (suc a) h e = omega (arith, h)
same_digits (suc n) (suc a) h e =
    let q : suc a / 2 ≡ 0 = same_digits n (suc a / 2) (omega (arith, h)) (omega (arith, e)) in
    omega (arith, q, e)

power_of_digits : (n a : ℕ) → suc a ≤ n → and_digits n (suc a) a ≡ 0 → (k : ℕ) × (suc a ≡ 2 ^ k)
power_of_digits zero a h e = absurd (omega (arith, h))
power_of_digits (suc n) a h e = elim (Bool-cases (a % 2 == 0)) [
  | inl g ↦
      let c : suc a / 2 ≡ a / 2 = omega (arith, (==_iff (a % 2) 0).0 g) in
      let q : a / 2 ≡ 0 =
        same_digits n (a / 2) (omega (arith, h))
          (omega (arith, e, ap (λ b. and_digits n b (a / 2)) c)) in
      (0, omega (arith, q, (==_iff (a % 2) 0).0 g))
  | inr g ↦
      let o : a % 2 ≡ 1 = ground (arith, g) in
      let c : suc a / 2 ≡ suc (a / 2) = omega (arith, o) in
      let (k, q) =
        power_of_digits n (a / 2) (omega (arith, h, o))
          (omega (arith, e, ap (λ b. and_digits n b (a / 2)) c)) in
      (suc k, omega (arith, q, o, two-pow-succ k))
]

-- A word that passes the test, and is not 0, is a power of two.
power_of_two_bits :
    (x : ℕ) → 0 < x → x < 18446744073709551616 → has_two_bits x ≡ false → (k : ℕ) × (x ≡ 2 ^ k)
power_of_two_bits zero h l e = absurd (omega (arith, h))
power_of_two_bits (suc a) h l e =
    let w : (suc a + 18446744073709551615) % 18446744073709551616 ≡ a = omega (arith, l) in
    let z : bit_and (suc a) a ≡ 0 = ground (arith, ap (bit_and (suc a)) w, e) in
    power_of_digits (suc a) a (omega arith) (sym (λ i. bit_and-bitwise (suc a) a i) ∙ z)

refuse_inversion :
    {A : Type 0} (b : Bool) (err : ConfError) (m : ConfResult A) (a : A)
    → refuse_if b err >> m ≡ accepted a
    → (b ≡ false) × (m ≡ accepted a)
refuse_inversion true err m a e = absurd (ground (arith, e))
refuse_inversion false err m a e = (refl, e)

accepted_inj : {A : Type 0} (a b : A) → accepted a ≡ accepted b → a ≡ b
accepted_inj a b e = cc e

check_general_lem :
    (c d : GeneralConf)
    → check_general c ≡ accepted d
    → (fill_general c ≡ d)
      × (has_two_bits d.read_buffer_count ≡ false)
      × (exceeds 1472 d.udp_max_payload_size ≡ false)
unfolding check_general
check_general_lem c d e =
    let (p, e1) = refuse_inversion (has_two_bits (fill_general c).read_buffer_count) _ _ d e in
    let (q, e2) = refuse_inversion (exceeds 1472 (fill_general c).udp_max_payload_size) _ _ d e1 in
    let (r, e3) = refuse_inversion _ _ _ d e2 in
    let f : fill_general c ≡ d = accepted_inj (fill_general c) d e3 in
    (
      f,
      subst (λ c. has_two_bits c.read_buffer_count ≡ false) f p,
      subst (λ c. exceeds 1472 c.udp_max_payload_size ≡ false) f q,
    )

check_rtsp_conf_lem :
    (c d : RtspConf)
    → check_rtsp_conf c ≡ accepted d
    → ((is_strict d.encryption && any is_udp d.protocols) ≡ false)
      × ((is_strict d.encryption && any is_multicast d.protocols) ≡ false)
unfolding check_rtsp_conf
check_rtsp_conf_lem c d e =
    let (p, e1) =
      refuse_inversion (is_strict (fill_rtsp c).encryption && any is_udp (fill_rtsp c).protocols) _
        _ d e in
    let (q, e2) =
      refuse_inversion
        (is_strict (fill_rtsp c).encryption && any is_multicast (fill_rtsp c).protocols) _ _ d e1 in
    let f : fill_rtsp c ≡ d = accepted_inj (fill_rtsp c) d e2 in
    (
      subst (λ c. (is_strict c.encryption && any is_udp c.protocols) ≡ false) f p,
      subst (λ c. (is_strict c.encryption && any is_multicast c.protocols) ≡ false) f q,
    )

filled_count : (c : GeneralConf) → 0 < (fill_general c).read_buffer_count
unfolding fill_general
filled_count c = ground arith

-- An accepted configuration has a count of read buffers that is a power of two, as a word of 64 bits,
-- a payload size of 1472 at most, as a signed number, and, if it demands encryption, neither UDP nor
-- multicast among its protocols.
pub check_conf_general :
    (p : Parsers) (low_latency : ℕ) (c d : Conf)
    → check_conf p low_latency c ≡ accepted d
    → d.general.read_buffer_count < 18446744073709551616
    → ((k : ℕ) × (d.general.read_buffer_count ≡ 2 ^ k))
      × (exceeds 1472 d.general.udp_max_payload_size ≡ false)
      × ((is_strict d.rtsp.encryption && any is_udp d.rtsp.protocols) ≡ false)
      × ((is_strict d.rtsp.encryption && any is_multicast d.rtsp.protocols) ≡ false)
unfolding check_conf
check_conf_general p low_latency c d e l =
    let (general, eg, e1) = inversion (check_general c.general) _ d e in
    let (rtsp, er, e2) = inversion (check_rtsp_conf c.rtsp) _ d e1 in
    let (later, el, e3) =
      inversion
        (check_paths p general.external_authentication_url
          (sorted_names (resolve_all (or_empty c.paths))) (resolve_all (or_empty c.paths)))
        _ d e2 in
    let (f, two, payload) = check_general_lem c.general general eg in
    let (no_udp, no_multicast) = check_rtsp_conf_lem c.rtsp rtsp er in
    let g : general ≡ d.general = ground (arith, e3) in
    let r : rtsp ≡ d.rtsp = ground (arith, e3) in
    let pos = subst (λ c. 0 < c.read_buffer_count) (f ∙ g) (filled_count c.general) in
    (
      power_of_two_bits d.general.read_buffer_count pos l
          (subst (λ c. has_two_bits c.read_buffer_count ≡ false) g two),
      subst (λ c. exceeds 1472 c.udp_max_payload_size ≡ false) g payload,
      subst (λ c. (is_strict c.encryption && any is_udp c.protocols) ≡ false) r no_udp,
      subst (λ c. (is_strict c.encryption && any is_multicast c.protocols) ≡ false) r no_multicast,
    )
