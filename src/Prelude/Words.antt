-- ===== src/Prelude/Words.antt =====
-- Machine integers: a 64-bit word is a number below 2 ^ 64, signed ones in two's complement.
use Prim.Native.Nat.{ℕ, zero, suc, ◌+◌, ◌-◌, ◌*◌, ◌/◌, ◌%◌, ◌^◌, ◌<◌}
use mathlib.Core.Path.{◌≡◌, refl}
use mathlib.Core.Bool.{Bool}
use mathlib.Core.List.{[], ◌∷◌, ◌++◌}
use native.Mathlib.Omega.{arith}
use native.Mathlib.Nat.{pow-suc}
use fluent_agent_hydra.Prelude.Tests.{ltb}
use fluent_agent_hydra.Prelude.Lists.{length, length-append, All, All-append}
use fluent_agent_hydra.Prelude.Text.{Bytes, IsByte}

abbrev pub u32_mod : ℕ
u32_mod = 2 ^ 32

abbrev pub u64_mod : ℕ
u64_mod = 2 ^ 64

abbrev pub i64_limit : ℕ
i64_limit = 2 ^ 63

-- Wrapping `a + b` and `a - b` on int64.
abbrev pub add64 : ℕ → ℕ → ℕ
add64 a b = (a + b) % u64_mod

abbrev pub sub64 : ℕ → ℕ → ℕ
sub64 a b = (a + u64_mod - b) % u64_mod

-- Signed `a < b` on int64.
abbrev pub lt64 : ℕ → ℕ → Bool
lt64 a b = ltb ((a + i64_limit) % u64_mod) ((b + i64_limit) % u64_mod)

-- `binary.BigEndian` of the given number of bytes.
unfoldable pub big_endian : ℕ → ℕ → Bytes
big_endian zero v = []
big_endian (suc n) v = big_endian n (v / 256) ++ (v % 256 ∷ [])

unfoldable pub from_big_endian : ℕ → Bytes → ℕ
from_big_endian acc [] = acc
from_big_endian acc (b ∷ bs) = from_big_endian (acc * 256 + b) bs

from_big_endian-append :
    (acc : ℕ) (xs : Bytes) (b : ℕ)
    → from_big_endian acc (xs ++ (b ∷ [])) ≡ from_big_endian acc xs * 256 + b
unfolding from_big_endian
from_big_endian-append acc [] b = refl
from_big_endian-append acc (x ∷ xs) b = from_big_endian-append (acc * 256 + x) xs b

-- Reading back what was written, for a value that fits.
pub from-big_endian : (n v : ℕ) → v < 256 ^ n → from_big_endian 0 (big_endian n v) ≡ v
unfolding big_endian
from-big_endian zero v h = unfold from_big_endian in omega arith
from-big_endian (suc n) v h = omega (
  arith,
  from_big_endian-append 0 (big_endian n (v / 256)) (v % 256),
  from-big_endian n (v / 256) (omega (arith, pow-suc 256 n)),
)

pub length-big_endian : (n v : ℕ) → length (big_endian n v) ≡ n
unfolding big_endian
length-big_endian zero v = refl
length-big_endian (suc n) v =
    omega
      (arith, length-append (big_endian n (v / 256)) (v % 256 ∷ []), length-big_endian n (v / 256))

pub big_endian-IsByte : (n v : ℕ) → All IsByte (big_endian n v)
unfolding big_endian
big_endian-IsByte zero v = tt
big_endian-IsByte (suc n) v =
    All-append IsByte (big_endian n (v / 256)) _ (big_endian-IsByte n (v / 256)) (omega arith)
