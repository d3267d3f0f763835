-- ===== src/Common/Bits/Xor.antt =====
-- `^` is a commutative group of exponent two, and goes through shifts.
use Prim.Native.Nat.{ℕ, zero, suc, ◌+◌, ◌*◌, ◌/◌, ◌%◌, ◌^◌, ◌≤◌, ◌<◌, bit_xor, bit_xor-bitwise}
use mathlib.Core.Path.{◌≡◌, refl, ap, ap₂, sym, ◌∙◌}
use native.Mathlib.Nat.{pow-suc}
use native.Mathlib.Omega.{arith}
use vfrs.Common.Bits.Digit.{bit_xor_step}

pub zero-xor : (b : ℕ) → bit_xor 0 b ≡ b
zero-xor b = simp bit_xor-bitwise

comm_bounded : (n a b : ℕ) → a ≤ n → b ≤ n → bit_xor a b ≡ bit_xor b a
comm_bounded zero zero zero h k = refl
comm_bounded zero (suc a) b h k = absurd (omega arith)
comm_bounded zero zero (suc b) h k = absurd (omega arith)
comm_bounded (suc n) a b h k = omega (
  arith,
  bit_xor_step a b,
  bit_xor_step b a,
  comm_bounded n (a / 2) (b / 2) (omega arith) (omega arith),
)

pub xor_comm : (a b : ℕ) → bit_xor a b ≡ bit_xor b a
xor_comm a b = comm_bounded (a + b) a b (omega arith) (omega arith)

pub xor-zero : (a : ℕ) → bit_xor a 0 ≡ a
xor-zero a = xor_comm a 0 ∙ zero-xor a

-- The lowest digit and the rest of a `^`.
pub xor-div-two : (a b : ℕ) → bit_xor a b / 2 ≡ bit_xor (a / 2) (b / 2)
xor-div-two a b = omega (arith, bit_xor_step a b)

pub xor-mod-two : (a b : ℕ) → bit_xor a b % 2 ≡ (a % 2 + b % 2) % 2
xor-mod-two a b = omega (arith, bit_xor_step a b)

assoc_bounded :
    (n a b c : ℕ) → a ≤ n → b ≤ n → c ≤ n → bit_xor (bit_xor a b) c ≡ bit_xor a (bit_xor b c)
assoc_bounded zero zero b c h k l = simp zero-xor
assoc_bounded zero (suc a) b c h k l = absurd (omega arith)
assoc_bounded (suc n) a b c h k l = omega (
  arith,
  bit_xor_step (bit_xor a b) c,
  bit_xor_step a (bit_xor b c),
  xor-mod-two a b,
  xor-mod-two b c,
  ap (λ t. bit_xor t (c / 2)) (xor-div-two a b),
  ap (λ t. bit_xor (a / 2) t) (xor-div-two b c),
  assoc_bounded n (a / 2) (b / 2) (c / 2) (omega arith) (omega arith) (omega arith),
)

pub xor_assoc : (a b c : ℕ) → bit_xor (bit_xor a b) c ≡ bit_xor a (bit_xor b c)
xor_assoc a b c = assoc_bounded (a + b + c) a b c (omega arith) (omega arith) (omega arith)

pub xor_left_comm : (a b c : ℕ) → bit_xor a (bit_xor b c) ≡ bit_xor b (bit_xor a c)
xor_left_comm a b c = sym (xor_assoc a b c) ∙ ap (λ t. bit_xor t c) (xor_comm a b) ∙ xor_assoc b a c

self_bounded : (n a : ℕ) → a ≤ n → bit_xor a a ≡ 0
self_bounded zero zero h = refl
self_bounded zero (suc a) h = absurd (omega arith)
self_bounded (suc n) a h = omega (arith, bit_xor_step a a, self_bounded n (a / 2) (omega arith))

pub xor_self : (a : ℕ) → bit_xor a a ≡ 0
xor_self a = self_bounded a a (omega arith)

pub xor-lt : (k a b : ℕ) → a < 2 ^ k → b < 2 ^ k → bit_xor a b < 2 ^ k
xor-lt zero a b h l =
    let e : a ≡ 0 = omega arith in let e' : b ≡ 0 = omega arith in rw (e, e') (omega arith)
xor-lt (suc k) a b h l = omega (
  arith,
  bit_xor_step a b,
  pow-suc 2 k,
  xor-lt k (a / 2) (b / 2) (omega (arith, pow-suc 2 k)) (omega (arith, pow-suc 2 k)),
)

double-mul : (q k : ℕ) → q * 2 ^ suc k ≡ 2 * (q * 2 ^ k)
double-mul q k = omega (arith, ap (λ (t : ℕ). q * t) (pow-suc 2 k))

-- `^` goes field by field, cut at any place.
pub xor_split :
    (k a b c d : ℕ)
    → b < 2 ^ k
    → d < 2 ^ k
    → bit_xor (a * 2 ^ k + b) (c * 2 ^ k + d) ≡ bit_xor a c * 2 ^ k + bit_xor b d
xor_split zero a b c d h l =
    let e : b ≡ 0 = omega arith in
    let e' : d ≡ 0 = omega arith in
    let p : a * 2 ^ 0 + 0 ≡ a = omega arith in
    let q : c * 2 ^ 0 + 0 ≡ c = omega arith in rw (e, e', p, q) (omega arith)
xor_split (suc k) a b c d h l =
    let p : (a * 2 ^ suc k + b) / 2 ≡ a * 2 ^ k + b / 2 = omega (arith, double-mul a k) in
    let q : (c * 2 ^ suc k + d) / 2 ≡ c * 2 ^ k + d / 2 = omega (arith, double-mul c k) in
    omega (
      arith,
      bit_xor_step (a * 2 ^ suc k + b) (c * 2 ^ suc k + d),
      ap₂ bit_xor p q,
      xor_split k a (b / 2) c (d / 2) (omega (arith, pow-suc 2 k)) (omega (arith, pow-suc 2 k)),
      bit_xor_step b d,
      double-mul a k,
      double-mul c k,
      double-mul (bit_xor a c) k,
    )
