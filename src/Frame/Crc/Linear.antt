-- ===== src/Frame/Crc/Linear.antt =====
-- One bit of the reflected shift register, which the tables stand for: a linear map for `^`.
use vfrs.Common.{
  ℕ, zero, suc, ◌+◌, ◌*◌, ◌/◌, ◌%◌, ◌^◌, ◌<◌, ◌≡◌, refl, ap, ap₂, sym, ◌∙◌, true, ◌==◌, ==_iff,
  if◌then◌else◌, bit_xor, get_or, arith,
}
use native.Mathlib.Nat.{pow-suc}
use vfrs.Common.Bits.{all_below, all_below_sound}
use vfrs.Common.Bits.Xor.{
  zero-xor, xor-zero, xor_assoc, xor_left_comm, xor_self, xor-lt, xor_split, xor-div-two,
  xor-mod-two,
}
use vfrs.Frame.Crc.{crc16_table}

-- What the register feeds back for its lowest bit.
abbrev pub feedback : ℕ → ℕ
feedback y = if y % 2 == 0 then 0 else 0x8408

unfoldable pub shift : ℕ → ℕ
shift y = bit_xor (y / 2) (feedback y)

unfoldable pub shifts : ℕ → ℕ → ℕ
unfolding shift
shifts zero y = y
shifts (suc n) y = shifts n (shift y)

pub xor_interchange :
    (a b c d : ℕ) → bit_xor (bit_xor a b) (bit_xor c d) ≡ bit_xor (bit_xor a c) (bit_xor b d)
xor_interchange a b c d =
    xor_assoc a b (bit_xor c d)
    ∙ ap (bit_xor a) (xor_left_comm b c d)
    ∙ sym (xor_assoc a c (bit_xor b d))

feedback-xor : (a b : ℕ) → feedback (bit_xor a b) ≡ bit_xor (feedback a) (feedback b)
feedback-xor a b =
    ground (arith, xor-mod-two a b, zero-xor 0, zero-xor 0x8408, xor-zero 0x8408, xor_self 0x8408)

pub shift-xor : (a b : ℕ) → shift (bit_xor a b) ≡ bit_xor (shift a) (shift b)
unfolding shift
shift-xor a b =
    ap₂ bit_xor (xor-div-two a b) (feedback-xor a b)
    ∙ xor_interchange (a / 2) (b / 2) (feedback a) (feedback b)

pub shifts-xor : (n a b : ℕ) → shifts n (bit_xor a b) ≡ bit_xor (shifts n a) (shifts n b)
unfolding shifts
shifts-xor zero a b = refl
shifts-xor (suc n) a b = ap (shifts n) (shift-xor a b) ∙ shifts-xor n (shift a) (shift b)

pub shifts-add : (m n y : ℕ) → shifts n (shifts m y) ≡ shifts (m + n) y
unfolding shifts
shifts-add zero n y = let e : n ≡ 0 + n = omega arith in ap (λ k. shifts k y) e
shifts-add (suc m) n y =
    let e : suc (m + n) ≡ suc m + n = omega arith in
    shifts-add m n (shift y) ∙ ap (λ k. shifts k y) e

pub shift-lt : (y : ℕ) → y < 2 ^ 16 → shift y < 2 ^ 16
unfolding shift
shift-lt y h = xor-lt 16 (y / 2) (feedback y) (omega arith) (ground arith)

pub shifts-lt : (n y : ℕ) → y < 2 ^ 16 → shifts n y < 2 ^ 16
unfolding shifts
shifts-lt zero y h = h
shifts-lt (suc n) y h = shifts-lt n (shift y) (shift-lt y h)

shift_double : (t : ℕ) → shift (2 * t) ≡ t
unfolding shift
shift_double t =
    let e : feedback (2 * t) ≡ 0 = ground arith in
    let q : 2 * t / 2 ≡ t = omega arith in rw (e, q) (xor-zero t)

-- A field above the bits that are shifted out comes down as it is.
pub shifts_field : (n t : ℕ) → shifts n (2 ^ n * t) ≡ t
unfolding shifts
shifts_field zero t = omega arith
shifts_field (suc n) t =
    let e : 2 ^ suc n * t ≡ 2 * (2 ^ n * t) = grind (arith, pow-suc 2 n) in
    ap (λ y. shifts n (shift y)) e ∙ ap (shifts n) (shift_double (2 ^ n * t)) ∙ shifts_field n t

-- The two octets of a 16-bit word.
pub xor_octets : (h l : ℕ) → l < 256 → bit_xor (256 * h) l ≡ 256 * h + l
xor_octets h l hl =
    let p : 256 * h ≡ h * 2 ^ 8 + 0 = omega arith in
    let q : l ≡ 0 * 2 ^ 8 + l = omega arith in
    ap₂ bit_xor p q ∙ xor_split 8 h 0 0 l (omega arith) hl ∙ omega (arith, xor-zero h, zero-xor l)

table_checked : all_below 256 (λ n. get_or crc16_table n 0 == shifts 8 n) ≡ true
unfolding all_below crc16_table shifts
table_checked = refl

-- Every entry of `crc16_table` is the register after eight bits of its index.
pub crc16_table_lem : (n : ℕ) → n < 256 → get_or crc16_table n 0 ≡ shifts 8 n
crc16_table_lem n h = (==_iff _ _).0 (all_below_sound 256 _ n table_checked h)
