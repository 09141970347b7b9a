-- ===== src/Conf/Values.antt =====
-- internal/conf: single values, between their texts and what they mean. The JSON around the texts is
-- left to encoding/json; a value that is none of its type's constants is left out.
use Prim.Native.Char.{code}
use Prim.Native.String.{String}
use text.Mathlib.Text.{◌==◌ as str_eq, starts_with}
use rtc_simple_server.Base.{
  leb, ◌==◌, if◌then◌else◌, ℕ, Bool, true, false, not, ◌&&◌, ◌||◌, Option, none, some, List, [],
  ◌∷◌, ◌++◌, map,
}
use rtc_simple_server.Conf.PathConf.{Credentials}
use rtc_simple_server.Conf.General.{
  Protocol, Encryption, AuthMethod, LogDestination, udp, udp_multicast, tcp, no_encryption,
  optional, strict, basic, digest, stdout, file, syslog, any,
}
use rtc_simple_server.Conf.General.Paths.{insert_sorted}
pub mod Laws
mod Tests

pub data HlsVariant : Type 0 where
  mpegts : HlsVariant
  fmp4 : HlsVariant
  low_latency : HlsVariant

pub data LogLevel : Type 0 where
  debug : LogLevel
  info : LogLevel
  warn : LogLevel
  error : LogLevel

unfoldable pub marshal_encryption : Encryption → String
marshal_encryption no_encryption = "no"
marshal_encryption optional = "optional"
marshal_encryption strict = "strict"

unfoldable pub unmarshal_encryption : String → Option Encryption
unmarshal_encryption t =
    if str_eq t "no" || str_eq t "false"
    then some no_encryption
    else if str_eq t "optional"
    then some optional
    else if str_eq t "strict" || str_eq t "yes" || str_eq t "true"
    then some strict
    else none

unfoldable pub marshal_hls_variant : HlsVariant → String
marshal_hls_variant mpegts = "mpegts"
marshal_hls_variant fmp4 = "fmp4"
marshal_hls_variant low_latency = "lowLatency"

unfoldable pub unmarshal_hls_variant : String → Option HlsVariant
unmarshal_hls_variant t =
    if str_eq t "mpegts"
    then some mpegts
    else if str_eq t "fmp4"
    then some fmp4
    else if str_eq t "lowLatency"
    then some low_latency
    else none

unfoldable pub marshal_log_level : LogLevel → String
marshal_log_level debug = "debug"
marshal_log_level info = "info"
marshal_log_level warn = "warn"
marshal_log_level error = "error"

unfoldable pub unmarshal_log_level : String → Option LogLevel
unmarshal_log_level t =
    if str_eq t "error"
    then some error
    else if str_eq t "warn"
    then some warn
    else if str_eq t "info"
    then some info
    else if str_eq t "debug"
    then some debug
    else none

abbrev pub protocol_text : Protocol → String
protocol_text udp = "udp"
protocol_text udp_multicast = "multicast"
protocol_text tcp = "tcp"

unfoldable pub protocol_of : String → Option Protocol
protocol_of t =
    if str_eq t "udp"
    then some udp
    else if str_eq t "multicast"
    then some udp_multicast
    else if str_eq t "tcp"
    then some tcp
    else none

-- A transport that is a nil pointer is `none`.
unfoldable pub marshal_source_protocol : Option Protocol → String
marshal_source_protocol none = "automatic"
marshal_source_protocol (some p) = protocol_text p

unfoldable pub unmarshal_source_protocol : String → Option (Option Protocol)
unmarshal_source_protocol t =
    if str_eq t "automatic"
    then some none
    else elim (protocol_of t) [ none ↦ none | some p ↦ some (some p) ]

-- `sort.Strings`
unfoldable pub sort : List String → List String
unfolding insert_sorted
sort [] = []
sort (t ∷ ts) = insert_sorted t (sort ts)

abbrev pub same_protocol : Protocol → Protocol → Bool
same_protocol udp udp = true
same_protocol udp_multicast udp_multicast = true
same_protocol tcp tcp = true
same_protocol p q = false

-- A set of protocols is the list of its members, in the order of an iteration.
unfoldable pub marshal_protocols : List Protocol → List String
unfolding sort
marshal_protocols ps = sort (map protocol_text ps)

-- The loop of `UnmarshalJSON`, from the set so far.
unfoldable pub add_protocols : List Protocol → List String → Option (List Protocol)
add_protocols ps [] = some ps
add_protocols ps (t ∷ ts) = elim (protocol_of t) [
  | none ↦ none
  | some p ↦ add_protocols (if any (same_protocol p) ps then ps else p ∷ ps) ts
]

unfoldable pub unmarshal_protocols : List String → Option (List Protocol)
unfolding add_protocols
unmarshal_protocols ts = add_protocols [] ts

abbrev pub auth_method_text : AuthMethod → String
auth_method_text basic = "basic"
auth_method_text digest = "digest"

unfoldable pub auth_method_of : String → Option AuthMethod
auth_method_of t =
    if str_eq t "basic" then some basic else if str_eq t "digest" then some digest else none

unfoldable pub marshal_auth_methods : List AuthMethod → List String
unfolding sort
marshal_auth_methods ms = sort (map auth_method_text ms)

-- The value that is there is kept, and the new ones come after it.
unfoldable pub unmarshal_auth_methods : List AuthMethod → List String → Option (List AuthMethod)
unmarshal_auth_methods ms [] = some ms
unmarshal_auth_methods ms (t ∷ ts) = elim (auth_method_of t) [
  | none ↦ none
  | some m ↦ unmarshal_auth_methods (ms ++ (m ∷ [])) ts
]

-- What `Clone` makes of the credentials, through JSON: `IPsOrCIDRs.MarshalJSON` sorts the texts.
unfoldable pub clone_credentials : Credentials → Credentials
unfolding sort
clone_credentials c = record c { ips = sort c.ips }

-- `AuthMethods` through JSON, which sorts the texts. Reading fails on none of them.
unfoldable pub clone_auth_methods : List AuthMethod → List AuthMethod
unfolding marshal_auth_methods unmarshal_auth_methods
clone_auth_methods ms = elim (unmarshal_auth_methods [] (marshal_auth_methods ms)) [
  | none ↦ ms
  | some read ↦ read
]

abbrev pub destination_text : LogDestination → String
destination_text stdout = "stdout"
destination_text file = "file"
destination_text syslog = "syslog"

unfoldable pub destination_of : String → Option LogDestination
destination_of t =
    if str_eq t "stdout"
    then some stdout
    else if str_eq t "file"
    then some file
    else if str_eq t "syslog"
    then some syslog
    else none

abbrev pub same_destination : LogDestination → LogDestination → Bool
same_destination stdout stdout = true
same_destination file file = true
same_destination syslog syslog = true
same_destination d e = false

unfoldable pub marshal_log_destinations : List LogDestination → List String
marshal_log_destinations ds = map destination_text ds

unfoldable pub unmarshal_log_destinations :
    List LogDestination → List String → Option (List LogDestination)
unmarshal_log_destinations ds [] = some ds
unmarshal_log_destinations ds (t ∷ ts) = elim (destination_of t) [
  | none ↦ none
  | some d ↦
      if any (same_destination d) ds then none else unmarshal_log_destinations (ds ++ (d ∷ [])) ts
]

-- The class `[a-zA-Z0-9!\$\(\)\*\+\.;<=>\[\]\^_\-\{\}@#&]`.
unfoldable pub is_credential_char : ℕ → Bool
is_credential_char c =
    leb b'a' c && leb c b'z'
    || leb b'A' c && leb c b'Z'
    || leb b'0' c && leb c b'9'
    || any (λ d. c == d)
        (b'!' ∷ b'$' ∷ b'(' ∷ b')' ∷ b'*' ∷ b'+' ∷ b'.' ∷ b';' ∷ b'<' ∷ b'=' ∷ b'>' ∷ b'[' ∷ b']'
          ∷ b'^' ∷ b'_' ∷ b'-' ∷ b'{' ∷ b'}' ∷ b'@' ∷ b'#' ∷ b'&' ∷ [])

abbrev pub all_credential_chars : String → Bool
all_credential_chars String.[] = true
all_credential_chars (String.◌∷◌ first others) =
    is_credential_char (code first) && all_credential_chars others

unfoldable pub unmarshal_credential : String → Option String
unfolding is_credential_char
unmarshal_credential t =
    if not (str_eq t "") && not (starts_with t "sha256:") && not (all_credential_chars t)
    then none
    else some t

-- An IP or a CIDR, as the two functions of the package net make it.
pub data Address : Type 0 where
  cidr : ℕ → Address
  ip : ℕ → Address

-- `parse_cidr` and `parse_ip` stand for the functions of the package net.
module _ (parse_cidr parse_ip : String → Option ℕ) where
  unfoldable pub unmarshal_addresses : List Address → List String → Option (List Address)
  unmarshal_addresses known [] = some known
  unmarshal_addresses known (t ∷ ts) = elim (parse_cidr t) [
    | some n ↦ unmarshal_addresses (known ++ (cidr n ∷ [])) ts
    | none ↦ elim (parse_ip t) [
      | some n ↦ unmarshal_addresses (known ++ (ip n ∷ [])) ts
      | none ↦ none
    ]
  ]
