-- ===== src/Conf/Values/Laws.antt =====
-- The values of internal/conf, written and read again.
use Prim.Native.String.{String}
use text.Mathlib.Text.{◌==◌ as str_eq}
use text.Mathlib.TextEquality.{eq_iff}
use rtc_simple_server.Base.{
  ℕ, ◌+◌, if◌then◌else◌, is_some, Bool-cases, Option-cases, ◌≡◌, refl, sym, ap, ◌∙◌, inl, inr, Bool,
  true, false, ◌&&◌, ◌||◌, Option, none, some, List, [], ◌∷◌, ◌++◌, map, arith,
}
use rtc_simple_server.Conf.General.{
  Protocol, Encryption, no_encryption, optional, strict, LogDestination, udp, udp_multicast, tcp,
  stdout, file, syslog, any,
}
use rtc_simple_server.Conf.General.Paths.{insert_sorted}
use rtc_simple_server.Conf.Values.{
  HlsVariant, LogLevel, marshal_encryption, unmarshal_encryption, marshal_hls_variant,
  unmarshal_hls_variant, marshal_log_level, unmarshal_log_level, protocol_text, protocol_of,
  marshal_source_protocol, unmarshal_source_protocol, sort, same_protocol, marshal_protocols,
  add_protocols, unmarshal_protocols, destination_text, destination_of, same_destination,
  unmarshal_log_destinations, mpegts, fmp4, low_latency, debug, info, warn, error,
}

protocol_of-text : (p : Protocol) → protocol_of (protocol_text p) ≡ some p
unfolding protocol_of
protocol_of-text udp = refl
protocol_of-text udp_multicast = refl
protocol_of-text tcp = refl

destination_of-text : (d : LogDestination) → destination_of (destination_text d) ≡ some d
unfolding destination_of
destination_of-text stdout = refl
destination_of-text file = refl
destination_of-text syslog = refl

-- A protocol is in a set that is written as texts.
abbrev names : Protocol → List String → Bool
names p ts = any (λ t. str_eq t (protocol_text p)) ts

abbrev are_protocols : List String → Bool
are_protocols [] = true
are_protocols (t ∷ ts) = is_some (protocol_of t) && are_protocols ts

any-insert :
    (f : String → Bool) (t : String) (ts : List String)
    → any f (insert_sorted t ts) ≡ (f t || any f ts)
unfolding insert_sorted
any-insert f t [] = refl
any-insert f t (u ∷ us) = ground (arith, any-insert f t us)

any-sort : (f : String → Bool) (ts : List String) → any f (sort ts) ≡ any f ts
unfolding sort
any-sort f [] = refl
any-sort f (t ∷ ts) = any-insert f t (sort ts) ∙ ap (λ b. f t || b) (any-sort f ts)

are_protocols-insert :
    (t : String) (ts : List String)
    → are_protocols (insert_sorted t ts) ≡ (is_some (protocol_of t) && are_protocols ts)
unfolding insert_sorted
are_protocols-insert t [] = refl
are_protocols-insert t (u ∷ us) = ground (arith, are_protocols-insert t us)

text_of : (t : String) (p : Protocol) → protocol_of t ≡ some p → t ≡ protocol_text p
unfolding protocol_of
text_of t udp e = ground (arith, e, eq_iff t "udp")
text_of t udp_multicast e = ground (arith, e, eq_iff t "multicast")
text_of t tcp e = ground (arith, e, eq_iff t "tcp")

-- How many texts are as the test says.
abbrev pub count : (String → Bool) → List String → ℕ
count f [] = 0
count f (t ∷ ts) = (if f t then 1 else 0) + count f ts

count-insert :
    (f : String → Bool) (t : String) (ts : List String)
    → count f (insert_sorted t ts) ≡ (if f t then 1 else 0) + count f ts
unfolding insert_sorted
count-insert f t [] = refl
count-insert f t (u ∷ us) = ground (arith, count-insert f t us)

pub count-sort : (f : String → Bool) (ts : List String) → count f (sort ts) ≡ count f ts
unfolding sort
count-sort f [] = refl
count-sort f (t ∷ ts) = ground (arith, count-insert f t (sort ts), count-sort f ts)

are_protocols-sort : (ts : List String) → are_protocols ts ≡ true → are_protocols (sort ts) ≡ true
unfolding sort
are_protocols-sort [] h = h
are_protocols-sort (t ∷ ts) h =
    let k : are_protocols ts ≡ true = ground (arith, h) in
    are_protocols-insert t (sort ts) ∙ ground (arith, h, are_protocols-sort ts k)

are_protocols-text : (ps : List Protocol) → are_protocols (map protocol_text ps) ≡ true
are_protocols-text [] = refl
are_protocols-text (p ∷ ps) = rw (protocol_of-text p) (are_protocols-text ps)

same_text : (p q : Protocol) → str_eq (protocol_text q) (protocol_text p) ≡ same_protocol p q
same_text udp udp = refl
same_text udp udp_multicast = refl
same_text udp tcp = refl
same_text udp_multicast udp = refl
same_text udp_multicast udp_multicast = refl
same_text udp_multicast tcp = refl
same_text tcp udp = refl
same_text tcp udp_multicast = refl
same_text tcp tcp = refl

same_self : (p : Protocol) → same_protocol p p ≡ true
same_self udp = refl
same_self udp_multicast = refl
same_self tcp = refl

names-text :
    (p : Protocol) (ps : List Protocol) → names p (map protocol_text ps) ≡ any (same_protocol p) ps
names-text p [] = refl
names-text p (q ∷ qs) = λ i. same_text p q i || names-text p qs i

same_eq : (p q : Protocol) → same_protocol p q ≡ true → p ≡ q
same_eq udp udp h = refl
same_eq udp udp_multicast h = absurd (ground (arith, h))
same_eq udp tcp h = absurd (ground (arith, h))
same_eq udp_multicast udp h = absurd (ground (arith, h))
same_eq udp_multicast udp_multicast h = refl
same_eq udp_multicast tcp h = absurd (ground (arith, h))
same_eq tcp udp h = absurd (ground (arith, h))
same_eq tcp udp_multicast h = absurd (ground (arith, h))
same_eq tcp tcp h = refl

-- Adding a protocol that may be in the set.
any-add :
    (p q : Protocol) (ps : List Protocol)
    → any (same_protocol p) (if any (same_protocol q) ps then ps else q ∷ ps)
      ≡ (same_protocol p q || any (same_protocol p) ps)
any-add p q ps = elim (Bool-cases (any (same_protocol q) ps)) [
  | inr h ↦ rw h refl
  | inl h ↦ elim (Bool-cases (same_protocol p q)) [
    | inr g ↦ rw (h, g) refl
    | inl g ↦
        let k : any (same_protocol p) ps ≡ true =
          ap (λ r. any (same_protocol r) ps) (same_eq p q g) ∙ h in
        rw (h, g, k) refl
  ]
]

or_swap : (a b c : Bool) → (a || b || c) ≡ (b || (a || c))
or_swap true true c = refl
or_swap true false c = refl
or_swap false true c = refl
or_swap false false c = refl

add_protocols_lem :
    (ps : List Protocol) (ts : List String)
    → are_protocols ts ≡ true
    → (qs : List Protocol) × (add_protocols ps ts ≡ some qs)
      × ((p : Protocol) → any (same_protocol p) qs ≡ (any (same_protocol p) ps || names p ts))
unfolding add_protocols
add_protocols_lem ps [] h = (ps, refl, λ p. ground arith)
add_protocols_lem ps (t ∷ ts) h = elim (Option-cases (protocol_of t)) [
  | inl e ↦ absurd (ground (arith, e, h))
  | inr (q, e) ↦
      let (qs, f, k) =
        add_protocols_lem (if any (same_protocol q) ps then ps else q ∷ ps) ts
          (ground (arith, h)) in
      (
        qs,
        rw (add_protocols, e) f,
        λ p.
            k p
            ∙ ap (λ b. b || names p ts) (any-add p q ps)
            ∙ or_swap (same_protocol p q) (any (same_protocol p) ps) (names p ts)
            ∙ ap (λ a. any (same_protocol p) ps || (a || names p ts))
                (sym (ap (λ t. str_eq t (protocol_text p)) (text_of t q e) ∙ same_text p q)),
      )
]

-- A set of protocols is read back from the texts that it is written as: the same protocols are in it.
pub unmarshal_protocols-marshal_protocols :
    (ps : List Protocol)
    → (qs : List Protocol) × (unmarshal_protocols (marshal_protocols ps) ≡ some qs)
      × ((p : Protocol) → any (same_protocol p) qs ≡ any (same_protocol p) ps)
unfolding unmarshal_protocols marshal_protocols
unmarshal_protocols-marshal_protocols ps =
    let ts = map protocol_text ps in
    let (qs, e, k) =
      add_protocols_lem [] (sort ts) (are_protocols-sort ts (are_protocols-text ps)) in
    (qs, e, λ p. k p ∙ any-sort (λ t. str_eq t (protocol_text p)) ts ∙ names-text p ps)

any-append :
    {A : Type 0} (f : A → Bool) (xs ys : List A) → any f xs ≡ true → any f (xs ++ ys) ≡ true
any-append f [] ys h = absurd (ground (arith, h))
any-append f (x ∷ xs) ys h = elim (Bool-cases (f x)) [
  | inl e ↦ rw e refl
  | inr e ↦ rw e (any-append f xs ys (rw e at h))
]

-- A text of a destination that is not in a list is not that of one that is.
other_text :
    (t : String) (d d' : LogDestination) (ds : List LogDestination)
    → destination_of t ≡ some d'
    → any (same_destination d) ds ≡ true
    → any (same_destination d') ds ≡ false
    → str_eq t (destination_text d) ≡ false
other_text t d d' ds e h g = elim (Bool-cases (str_eq t (destination_text d))) [
  | inr k ↦ k
  | inl k ↦
      let q : t ≡ destination_text d = (eq_iff t (destination_text d)).0 k in
      let s : some d ≡ some d' = sym (destination_of-text d) ∙ ap destination_of (sym q) ∙ e in
      let r : d ≡ d' = cc s in
      absurd (ground (arith, sym h ∙ ap (λ d. any (same_destination d) ds) r ∙ g))
]

-- Destinations of the log that are there already are not replaced: texts of which one names such a
-- destination are refused.
pub unmarshal_log_destinations_twice :
    (ds : List LogDestination) (ts : List String) (d : LogDestination)
    → any (same_destination d) ds ≡ true
    → any (λ t. str_eq t (destination_text d)) ts ≡ true
    → unmarshal_log_destinations ds ts ≡ none
unfolding unmarshal_log_destinations
unmarshal_log_destinations_twice ds [] d h k = absurd (ground (arith, k))
unmarshal_log_destinations_twice ds (t ∷ ts) d h k = elim (Option-cases (destination_of t)) [
  | inl e ↦ rw (unmarshal_log_destinations, e) refl
  | inr (d', e) ↦ elim (Bool-cases (any (same_destination d') ds)) [
    | inl g ↦ rw (unmarshal_log_destinations, e, g) refl
    | inr g ↦
        let differs : str_eq t (destination_text d) ≡ false = other_text t d d' ds e h g in
        let k' : any (λ t. str_eq t (destination_text d)) ts ≡ true = ground (arith, k, differs) in
        rw (unmarshal_log_destinations, e, g)
          (unmarshal_log_destinations_twice (ds ++ (d' ∷ [])) ts d
            (any-append (same_destination d) ds (d' ∷ []) h) k')
  ]
]

-- The values that are one text each.
unmarshal_encryption-marshal_encryption :
    (e : Encryption) → unmarshal_encryption (marshal_encryption e) ≡ some e
unfolding unmarshal_encryption marshal_encryption
unmarshal_encryption-marshal_encryption no_encryption = refl
unmarshal_encryption-marshal_encryption optional = refl
unmarshal_encryption-marshal_encryption strict = refl

unmarshal_hls_variant-marshal_hls_variant :
    (v : HlsVariant) → unmarshal_hls_variant (marshal_hls_variant v) ≡ some v
unfolding unmarshal_hls_variant marshal_hls_variant
unmarshal_hls_variant-marshal_hls_variant mpegts = refl
unmarshal_hls_variant-marshal_hls_variant fmp4 = refl
unmarshal_hls_variant-marshal_hls_variant low_latency = refl

unmarshal_log_level-marshal_log_level :
    (l : LogLevel) → unmarshal_log_level (marshal_log_level l) ≡ some l
unfolding unmarshal_log_level marshal_log_level
unmarshal_log_level-marshal_log_level debug = refl
unmarshal_log_level-marshal_log_level info = refl
unmarshal_log_level-marshal_log_level warn = refl
unmarshal_log_level-marshal_log_level error = refl

unmarshal_source_protocol-marshal_source_protocol :
    (p : Option Protocol) → unmarshal_source_protocol (marshal_source_protocol p) ≡ some p
unfolding unmarshal_source_protocol marshal_source_protocol protocol_of
unmarshal_source_protocol-marshal_source_protocol none = refl
unmarshal_source_protocol-marshal_source_protocol (some udp) = refl
unmarshal_source_protocol-marshal_source_protocol (some udp_multicast) = refl
unmarshal_source_protocol-marshal_source_protocol (some tcp) = refl
