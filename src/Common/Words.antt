-- ===== src/Common/Words.antt =====
-- `s_uint32_t` (base/config.hpp) as numbers below 2 ^ 32 whose wrap-around is written out, and the
-- bytes of such a word in the memory of a little-endian host.
use Prim.Native.Nat.{ℕ, ◌+◌, ◌-◌, ◌*◌, ◌/◌, ◌%◌, ◌^◌, ◌<◌}
use mathlib.Core.Path.{◌≡◌, refl}
use mathlib.Core.List.{List, [], ◌∷◌}
use native.Mathlib.Omega.{arith}
use netlib.Common.Lists.{length}

abbrev pub u32_mod : ℕ
u32_mod = 2 ^ 32

abbrev pub add32 : ℕ → ℕ → ℕ
add32 a b = (a + b) % u32_mod

-- `-` on ℕ stops at 0, so the modulus is added first.
abbrev pub sub32 : ℕ → ℕ → ℕ
sub32 a b = (a + u32_mod - b) % u32_mod

-- The object representation of a word: least significant byte first.
unfoldable pub le_bytes : ℕ → List ℕ
le_bytes v = (v % 256) ∷ (v / 256 % 256) ∷ (v / 2 ^ 16 % 256) ∷ (v / 2 ^ 24 % 256) ∷ []

unfoldable pub le_value : List ℕ → ℕ
le_value [] = 0
le_value (b ∷ bs) = b + 256 * le_value bs

-- `htonl` and `ntohl` on a little-endian host: the bytes of the word in reverse.
unfoldable pub bswap : ℕ → ℕ
bswap v = v % 256 * 2 ^ 24 + v / 256 % 256 * 2 ^ 16 + v / 2 ^ 16 % 256 * 256 + v / 2 ^ 24 % 256

pub length-le_bytes : (v : ℕ) → length (le_bytes v) ≡ 4
unfolding le_bytes
length-le_bytes v = refl

pub le_value-le_bytes : (v : ℕ) → v < 2 ^ 32 → le_value (le_bytes v) ≡ v
unfolding le_bytes le_value
le_value-le_bytes v h = omega arith

pub bswap-bswap : (v : ℕ) → v < 2 ^ 32 → bswap (bswap v) ≡ v
unfolding bswap
bswap-bswap v h = omega arith

pub bswap-lt : (v : ℕ) → bswap v < 2 ^ 32
unfolding bswap
bswap-lt v = omega arith
