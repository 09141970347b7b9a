-- ===== src/Rtmp/Reader.antt =====
-- An `io.Reader` over the bytes that are still to come, up to the end of the stream.
use rtc_simple_server.Base.{
  ltb, if◌then◌else◌, length, take, drop, is_empty, length-append, take-append_length,
  drop-append_length, ℕ, ◌≡◌, List, ◌++◌, arith,
}

pub data ReadError : Type 0 where
  eof : ReadError
  unexpected_eof : ReadError

-- What a read returns: an error, or a value and the bytes after it.
pub data Read {ℓ} (A : Type ℓ) : Type ℓ where
  failed : ReadError → Read A
  got : A → List ℕ → Read A

abbrev pub and_then {ℓ κ} : {A : Type ℓ} {B : Type κ} → (A → List ℕ → Read B) → Read A → Read B
and_then f (failed e) = failed e
and_then f (got a rest) = f a rest

infixl 5 ◌>>=◌
abbrev pub ◌>>=◌ {ℓ κ} :
    {A : Type ℓ} {B : Type κ} → (List ℕ → Read A) → (A → List ℕ → Read B) → List ℕ → Read B
(m >>= f) bs = and_then f (m bs)

abbrev pub pure {ℓ} : {A : Type ℓ} → A → List ℕ → Read A
pure a bs = got a bs

-- `io.ReadFull` into a buffer of `n` bytes: nothing read is the end of the stream, a part of the
-- buffer an unexpected one.
unfoldable pub read_full : ℕ → List ℕ → Read (List ℕ)
read_full n bs =
    if ltb (length bs) n
    then failed (if is_empty bs then eof else unexpected_eof)
    else got (take n bs) (drop n bs)

pub read_full-append : (xs ys : List ℕ) → read_full (length xs) (xs ++ ys) ≡ got xs ys
unfolding read_full
read_full-append xs ys =
    ground (arith, length-append xs ys, take-append_length xs ys, drop-append_length xs ys)
