-- ===== src/Base/Bytes.antt =====
-- Bytes, and unsigned integers as big-endian bytes.
use Prim.Native.Nat.{ℕ, zero, suc, ◌+◌, ◌*◌, ◌/◌, ◌%◌, ◌<◌, bit_and, bit_or}
use mathlib.Core.Path.{◌≡◌, refl}
use mathlib.Core.Bool.{Bool, true, false}
use mathlib.Core.List.{List, [], ◌∷◌}
use native.Mathlib.Omega.{arith}
use rtc_simple_server.Base.Tests.{◌==◌, if◌then◌else◌}

-- The byte at an index; only lists whose length has been tested are indexed.
abbrev pub byte_at : List ℕ → ℕ → ℕ
byte_at [] i = 0
byte_at (b ∷ bs) zero = b
byte_at (b ∷ bs) (suc i) = byte_at bs i

-- The integers that the bytes from index `i` on make up.
abbrev pub be16 : List ℕ → ℕ → ℕ
be16 bs i = byte_at bs i * 256 + byte_at bs (suc i)

abbrev pub be24 : List ℕ → ℕ → ℕ
be24 bs i = byte_at bs i * 65536 + be16 bs (suc i)

abbrev pub be32 : List ℕ → ℕ → ℕ
be32 bs i = byte_at bs i * 16777216 + be24 bs (suc i)

-- Their bytes, followed by others.
abbrev pub put16 : ℕ → List ℕ → List ℕ
put16 x bs = x / 256 % 256 ∷ x % 256 ∷ bs

abbrev pub put24 : ℕ → List ℕ → List ℕ
put24 x bs = x / 65536 % 256 ∷ put16 x bs

abbrev pub put32 : ℕ → List ℕ → List ℕ
put32 x bs = x / 16777216 % 256 ∷ put24 x bs

pub be16-put16 : (x : ℕ) (bs : List ℕ) → x < 65536 → be16 (put16 x bs) 0 ≡ x
be16-put16 x bs h = omega arith

pub be24-put24 : (x : ℕ) (bs : List ℕ) → x < 16777216 → be24 (put24 x bs) 0 ≡ x
be24-put24 x bs h = omega arith

pub be32-put32 : (x : ℕ) (bs : List ℕ) → x < 4294967296 → be32 (put32 x bs) 0 ≡ x
be32-put32 x bs h = omega arith

module _ (f g : ℕ → ℕ) where
  unfoldable pub agree_below : ℕ → Bool
  agree_below zero = true
  agree_below (suc n) = if f n == g n then agree_below n else false

  pub eq_of_agree : (n : ℕ) → agree_below n ≡ true → (i : ℕ) → i < n → f i ≡ g i
  unfolding agree_below
  eq_of_agree zero e i h = absurd (omega arith)
  eq_of_agree (suc n) e i h = ground (arith, eq_of_agree n (ground arith) i)

-- The low six bits of a byte.
pub low_bits : (b : ℕ) → b < 256 → bit_and b 0x3F ≡ b % 64
unfolding agree_below
low_bits = eq_of_agree _ _ 256 refl

pub or_64 : (b : ℕ) → b < 64 → bit_or 64 b ≡ 64 + b
unfolding agree_below
or_64 = eq_of_agree _ _ 64 refl

pub or_128 : (b : ℕ) → b < 64 → bit_or 128 b ≡ 128 + b
unfolding agree_below
or_128 = eq_of_agree _ _ 64 refl

pub or_192 : (b : ℕ) → b < 64 → bit_or 192 b ≡ 192 + b
unfolding agree_below
or_192 = eq_of_agree _ _ 64 refl
