-- ===== src/Rtmp/H264Conf.antt =====
-- internal/rtmp/h264conf: the H264 configuration record, parsed and marshalled.
use rtc_simple_server.Base.{
  ltb, ◌==◌, if◌then◌else◌, length, take, drop, length-append, length-take, length-drop,
  take-append_length, drop-append_length, length-take, length-drop, ℕ, ◌+◌, ◌-◌, ◌≤◌, ◌<◌, ◌≡◌,
  refl, ap, false, not, Option, none, some, List, [], ◌∷◌, ◌++◌, arith,
}
use rtc_simple_server.Base.Bytes.{byte_at, be16, put16, be16-put16}
use Prim.Native.Nat.{bit_and, bit_or}
use mathlib.Core.Option

pub record Conf : Type 0 where
  pub sps : List ℕ
  pub pps : List ℕ

pub data ConfError : Type 0 where
  invalid_size_1 : ConfError
  sps_count_unsupported : ConfError
  invalid_size_2 : ConfError
  invalid_size_3 : ConfError
  pps_count_unsupported : ConfError
  invalid_size : ConfError

pub data ConfResult : Type 0 where
  err : ConfError → ConfResult
  ok : Conf → ConfResult

-- What follows the SPS, which has been read: `buf` is what is left of the buffer.
abbrev unmarshal_pps : List ℕ → List ℕ → ConfResult
unmarshal_pps sps buf =
    if ltb (length buf) 3
    then err invalid_size_3
    else if not (byte_at buf 0 == 1)
    then err pps_count_unsupported
    else if ltb (length buf - 3) (be16 buf 1)
    then err invalid_size
    else ok (record { sps = sps; pps = take (be16 buf 1) (drop 3 buf) })

unfoldable pub unmarshal : List ℕ → ConfResult
unmarshal buf =
    if ltb (length buf) 8
    then err invalid_size_1
    else if not (bit_and (byte_at buf 5) 0x1F == 1)
    then err sps_count_unsupported
    else if ltb (length buf - 8) (be16 buf 6)
    then err invalid_size_2
    else unmarshal_pps (take (be16 buf 6) (drop 8 buf)) (drop (be16 buf 6) (drop 8 buf))

-- Bytes 1 to 3 of the SPS are copied into the header; an SPS shorter than that panics.
unfoldable pub marshal : Conf → Option (List ℕ)
marshal c =
    if ltb (length c.sps) 4
    then none
    else some (
        1
        ∷ byte_at c.sps 1
        ∷ byte_at c.sps 2
        ∷ byte_at c.sps 3
        ∷ bit_or 3 0xFC
        ∷ bit_or 1 0xE0
        ∷ put16 (length c.sps) (c.sps ++ 1 ∷ put16 (length c.pps) c.pps))

not_short : (xs : List ℕ) → 4 ≤ length xs → ltb (length xs) 4 ≡ false
not_short xs h = ground arith

take_all : (xs : List ℕ) → take (length xs) xs ≡ xs
take_all [] = refl
take_all (x ∷ xs) = ap (◌∷◌ x) (take_all xs)

-- Unmarshalling the record that a configuration marshals to gives the configuration back, where
-- the SPS has the four bytes at least that marshalling reads and both lengths fit 16 bits.
pub unmarshal-marshal :
    (c : Conf)
    → 4 ≤ length c.sps
    → length c.sps < 65536
    → length c.pps < 65536
    → Option.map unmarshal (marshal c) ≡ some (ok c)
unfolding unmarshal marshal
unmarshal-marshal c h hs hp =
    let tail = 1 ∷ put16 (length c.pps) c.pps in
    rw
      (
        not_short c.sps h,
        be16-put16 (length c.sps) (c.sps ++ tail) hs,
        length-append c.sps tail,
        take-append_length c.sps tail,
        drop-append_length c.sps tail,
        be16-put16 (length c.pps) c.pps hp,
        take_all c.pps,
      )
      (ground arith)

-- Where unmarshalling succeeds, the two parameter sets and the eleven bytes around them lie within
-- the buffer.
pub length-unmarshal :
    (buf : List ℕ) (c : Conf) → unmarshal buf ≡ ok c → 11 + length c.sps + length c.pps ≤ length buf
unfolding unmarshal
length-unmarshal buf c e = ground (
  arith,
  length-take (be16 buf 6) (drop 8 buf),
  length-drop 8 buf,
  length-drop (be16 buf 6) (drop 8 buf),
  length-take (be16 (drop (be16 buf 6) (drop 8 buf)) 1) (drop 3 (drop (be16 buf 6) (drop 8 buf))),
  length-drop 3 (drop (be16 buf 6) (drop 8 buf)),
)
