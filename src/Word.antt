-- ===== src/Word.antt =====
-- The fixed-width unsigned arithmetic and the big-endian byte codecs of the Rust sources:
-- `u32` operators with their wrap-around, and `to_be_bytes` and `from_be_bytes` of `u32` and `u64`.
use native.Mathlib.Nat.{pow-suc}
use moros.Prelude.{
  ℕ, zero, suc, ◌+◌, ◌-◌, ◌*◌, ◌/◌, ◌%◌, ◌^◌, ◌<◌, ◌≡◌, refl, ◌∙◌, Bool, true, ◌&&◌, List, [], ◌∷◌,
  ◌++◌, arith, length, length-append, ◌==◌, ==_iff, if◌then◌else◌,
}

abbrev pub u32_mod : ℕ
u32_mod = 4294967296

abbrev pub add32 : ℕ → ℕ → ℕ
add32 a b = (a + b) % u32_mod

abbrev pub sub32 : ℕ → ℕ → ℕ
sub32 a b = (a + u32_mod - b) % u32_mod

abbrev pub mul32 : ℕ → ℕ → ℕ
mul32 a b = a * b % u32_mod

-- The `k` bytes of a number, the most significant one first.
unfoldable pub to_be_bytes : ℕ → ℕ → List ℕ
to_be_bytes zero n = []
to_be_bytes (suc k) n = to_be_bytes k (n / 256) ++ n % 256 ∷ []

abbrev from_be_loop : ℕ → List ℕ → ℕ
from_be_loop acc [] = acc
from_be_loop acc (b ∷ bs) = from_be_loop (acc * 256 + b) bs

unfoldable pub from_be_bytes : List ℕ → ℕ
from_be_bytes bs = from_be_loop 0 bs

pub length-to_be_bytes : (k n : ℕ) → length (to_be_bytes k n) ≡ k
unfolding to_be_bytes
length-to_be_bytes zero n = refl
length-to_be_bytes (suc k) n =
    omega (
      arith,
      length-append (to_be_bytes k (n / 256)) (n % 256 ∷ []),
      length-to_be_bytes k (n / 256),
    )

from_be_loop-append :
    (acc : ℕ) (xs : List ℕ) (b : ℕ)
    → from_be_loop acc (xs ++ b ∷ []) ≡ from_be_loop acc xs * 256 + b
from_be_loop-append acc [] b = refl
from_be_loop-append acc (x ∷ xs) b = from_be_loop-append (acc * 256 + x) xs b

-- A number that fits into `k` bytes is read back.
pub from_be_bytes-to_be_bytes : (k n : ℕ) → n < 256 ^ k → from_be_bytes (to_be_bytes k n) ≡ n
unfolding from_be_bytes to_be_bytes
from_be_bytes-to_be_bytes zero n h = omega arith
from_be_bytes-to_be_bytes (suc k) n h =
    from_be_loop-append 0 (to_be_bytes k (n / 256)) (n % 256)
    ∙ omega (arith, from_be_bytes-to_be_bytes k (n / 256) (smaller h))
  where
    smaller : n < 256 ^ suc k → n / 256 < 256 ^ k
    smaller p = omega (arith, pow-suc 256 k)

-- A test of every number below `n`, for facts about a small range.
unfoldable pub all_below : ℕ → (ℕ → Bool) → Bool
all_below zero p = true
all_below (suc n) p = p n && all_below n p

pub all_below_lem : (n : ℕ) (p : ℕ → Bool) (x : ℕ) → all_below n p ≡ true → x < n → p x ≡ true
unfolding all_below
all_below_lem zero p x h lt = absurd (omega arith)
all_below_lem (suc n) p x h lt = ground (arith, all_below_lem n p x)

-- `u32::trailing_zeros`, by the bits that are left to look at.
abbrev tz_loop : ℕ → ℕ → ℕ
tz_loop zero n = 0
tz_loop (suc left) n = if n % 2 == 0 then suc (tz_loop left (n / 2)) else 0

unfoldable pub trailing_zeros : ℕ → ℕ
trailing_zeros n = tz_loop 32 n

trailing_zeros_table : all_below 32 (λ k. trailing_zeros (2 ^ k) == k) ≡ true
unfolding all_below trailing_zeros
trailing_zeros_table = refl

pub trailing_zeros-pow : (k : ℕ) → k < 32 → trailing_zeros (2 ^ k) ≡ k
trailing_zeros-pow k h = (==_iff _ k).0 (all_below_lem 32 _ k trailing_zeros_table h)
