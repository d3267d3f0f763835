-- ===== src/Common/Bits/Halves.antt =====
-- Powers of two by halves: the lowest bit, and the rest.
use Prim.Native.Nat.{ℕ, zero, suc, ◌+◌, ◌-◌, ◌*◌, ◌/◌, ◌%◌, ◌^◌, ◌<◌}
use mathlib.Core.Path.{◌≡◌, sym, ap, ◌∙◌}
use native.Mathlib.Nat.{pow-succ', div-div-eq-div-mul, mod_def, mul-div-le}
use native.Mathlib.Omega.{arith}

pub halve-shift : (n h : ℕ) → h / 2 ^ suc n ≡ h / 2 / 2 ^ n
halve-shift n h = ap (λ t. h / t) (pow-succ' 2 n) ∙ sym (div-div-eq-div-mul h 2 (2 ^ n))

pub halve-mod : (n h : ℕ) → h % 2 ^ suc n ≡ h % 2 + 2 * (h / 2 % 2 ^ n)
halve-mod n h =
    let k = 2 ^ n in
    let t = k * (h / 2 / k) in
    let whole : h % 2 ^ suc n ≡ h - 2 * t =
      mod_def h (2 ^ suc n)
      ∙ ap (λ s. h - 2 ^ suc n * s) (halve-shift n h)
      ∙ ap (λ s. h - s * (h / 2 / k)) (pow-succ' 2 n)
      ∙ omega arith in
    omega (arith, whole, mod_def (h / 2) k, mul-div-le (h / 2) k)

-- Bit `m` of the low `n` bits.
pub low_bit : (n m h : ℕ) → m < n → h % 2 ^ n / 2 ^ m % 2 ≡ h / 2 ^ m % 2
low_bit (suc n) zero h l = rw (halve-mod n h) (omega arith)
low_bit (suc n) (suc m) h l =
    let half : h % 2 ^ suc n / 2 ≡ h / 2 % 2 ^ n = omega (arith, halve-mod n h) in
    ap (λ s. s % 2) (halve-shift m (h % 2 ^ suc n) ∙ ap (λ s. s / 2 ^ m) half)
    ∙ low_bit n m (h / 2) (omega arith)
    ∙ ap (λ s. s % 2) (sym (halve-shift m h))
low_bit zero m h l = omega arith
