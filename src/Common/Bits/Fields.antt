-- ===== src/Common/Bits/Fields.antt =====
-- `|` of fields that do not overlap, and `&` with a mask, as arithmetic.
use Prim.Native.Nat.{ℕ, zero, suc, ◌+◌, ◌*◌, ◌/◌, ◌%◌, ◌^◌, ◌≤◌, ◌<◌, bit_and, bit_or}
use mathlib.Core.Path.{◌≡◌, refl, ap, ◌∙◌}
use mathlib.Core.Bool.{Bool, true, ◌&&◌}
use native.Mathlib.Nat.{pow-suc, one-le-pow, div-add-mod, mod-lt}
use native.Mathlib.Omega.{arith}
use vfrs.Common.Bits.Digit.{bit_and_step, bit_or_step}

-- Over a small range every value is checked by evaluation.
unfoldable pub all_below : ℕ → (ℕ → Bool) → Bool
all_below zero test = true
all_below (suc limit) test = all_below limit test && test limit

pub all_below_sound :
    (limit : ℕ) (test : ℕ → Bool) (value : ℕ)
    → all_below limit test ≡ true
    → value < limit
    → test value ≡ true
unfolding all_below
all_below_sound (suc limit) test value ok small = ground (arith, all_below_sound limit test value)
all_below_sound zero test value ok small = absurd (omega arith)

or-zero_bounded : (n a : ℕ) → a ≤ n → bit_or a 0 ≡ a
or-zero_bounded n zero h = refl
or-zero_bounded zero (suc a) h = absurd (omega arith)
or-zero_bounded (suc n) (suc a) h =
    omega (arith, bit_or_step (suc a) 0, or-zero_bounded n (suc a / 2) (omega arith))

pub bit_or-zero : (a : ℕ) → bit_or a 0 ≡ a
bit_or-zero a = or-zero_bounded a a (omega arith)

and-zero_bounded : (n a : ℕ) → a ≤ n → bit_and a 0 ≡ 0
and-zero_bounded n zero h = refl
and-zero_bounded zero (suc a) h = absurd (omega arith)
and-zero_bounded (suc n) (suc a) h =
    omega (arith, bit_and_step (suc a) 0, and-zero_bounded n (suc a / 2) (omega arith))

pub bit_and-zero : (a : ℕ) → bit_and a 0 ≡ 0
bit_and-zero a = and-zero_bounded a a (omega arith)

or_comm_bounded : (n a b : ℕ) → a ≤ n → b ≤ n → bit_or a b ≡ bit_or b a
or_comm_bounded zero zero zero h k = refl
or_comm_bounded zero (suc a) b h k = absurd (omega arith)
or_comm_bounded zero zero (suc b) h k = absurd (omega arith)
or_comm_bounded (suc n) a b h k = omega (
  arith,
  bit_or_step a b,
  bit_or_step b a,
  or_comm_bounded n (a / 2) (b / 2) (omega arith) (omega arith),
)

pub bit_or_comm : (a b : ℕ) → bit_or a b ≡ bit_or b a
bit_or_comm a b = or_comm_bounded (a + b) a b (omega arith) (omega arith)

double-mul : (q k : ℕ) → q * 2 ^ suc k ≡ 2 * (q * 2 ^ k)
double-mul q k = omega (arith, ap (λ (t : ℕ). q * t) (pow-suc 2 k))

-- The field `b` of `k` bits fills the zeros below `q << k`.
pub bit_or_shifted : (k q b : ℕ) → b < 2 ^ k → bit_or (q * 2 ^ k) b ≡ q * 2 ^ k + b
bit_or_shifted zero q b h = ground (arith, bit_or-zero q)
bit_or_shifted (suc k) q b h =
    ground (
      arith,
      bit_or_step (q * 2 ^ suc k) b,
      double-mul q k,
      bit_or_shifted k q (b / 2) (omega arith),
    )

-- The same, for any number that is known to be a multiple.
pub bit_or-add : (k a b : ℕ) → a % 2 ^ k ≡ 0 → b < 2 ^ k → bit_or a b ≡ a + b
bit_or-add k a b h l =
    let e : a ≡ a / 2 ^ k * 2 ^ k = grind (arith, div-add-mod a (2 ^ k)) in
    rw e (bit_or_shifted k (a / 2 ^ k) b l)

low_field : (k q r m : ℕ) → suc m ≡ 2 ^ k → r < 2 ^ k → bit_and (q * 2 ^ k + r) m ≡ r
low_field zero q r m h l =
    let e : m ≡ 0 = omega arith in rw (e, bit_and-zero (q * 2 ^ 0 + r)) (omega arith)
low_field (suc k) q r m h l =
    let p : (q * 2 ^ suc k + r) / 2 ≡ q * 2 ^ k + r / 2 = omega (arith, double-mul q k) in
    omega (
      arith,
      bit_and_step (q * 2 ^ suc k + r) m,
      ap (λ t. bit_and t (m / 2)) p,
      low_field k q (r / 2) (m / 2) (omega (arith, pow-suc 2 k, one-le-pow k 2))
          (omega (arith, pow-suc 2 k)),
      double-mul q k,
      pow-suc 2 k,
      one-le-pow k 2,
    )

-- `x & (2^k - 1)` is a remainder.
pub bit_and_mask : (k a m : ℕ) → suc m ≡ 2 ^ k → bit_and a m ≡ a % 2 ^ k
bit_and_mask k a m h =
    let e : a ≡ a / 2 ^ k * 2 ^ k + a % 2 ^ k = grind (arith, div-add-mod a (2 ^ k)) in
    ap (λ t. bit_and t m) e
    ∙ low_field k (a / 2 ^ k) (a % 2 ^ k) m h (mod-lt a (omega (arith, one-le-pow k 2)))
