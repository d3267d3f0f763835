-- ===== src/Frame/Addr/Octets.antt =====
-- The bit expressions of the address field as arithmetic on octets.
use vfrs.Common.{
  ℕ, suc, ◌+◌, ◌*◌, ◌/◌, ◌%◌, ◌^◌, ◌<◌, ◌≡◌, refl, ap, ◌∙◌, bit_and, bit_or, ◌==◌, if◌then◌else◌,
  ==_iff, ◌>>>◌, ◌<<<◌, u8, arith, true,
}
use native.Mathlib.Nat.{pow-suc, one-le-pow}
use vfrs.Common.Bits.{all_below, all_below_sound, bit_and_mask, bit_or-add}
use vfrs.Frame.Addr.{flag_bit, first_octet, second_octet, last_octet}

-- The masks of the decoders, over an octet.
masks_table :
    (all_below 256 (λ b. bit_and b 0xFC / 4 == b / 4) ≡ true)
    × (all_below 256 (λ b. bit_and b 0xF0 / 16 == b / 16) ≡ true)
    × (all_below 256 (λ b. bit_and b 0xFE / 2 == b / 2) ≡ true)
    × (all_below 256 (λ b. bit_and b 0x08 / 8 == b / 8 % 2) ≡ true)
    × (all_below 256 (λ b. bit_and b 0x04 / 4 == b / 4 % 2) ≡ true)
    × (all_below 256 (λ b. bit_and b 0x02 / 2 == b / 2 % 2) ≡ true)
    × (all_below 256 (λ b. bit_and b 0x02 == b / 2 % 2 * 2) ≡ true)
unfolding all_below
masks_table = (refl, refl, refl, refl, refl, refl, refl)

pub mask_fc : (b : ℕ) → b < 256 → bit_and b 0xFC / 4 ≡ b / 4
mask_fc b h = (==_iff _ _).0 (all_below_sound 256 _ b masks_table.0 h)

pub mask_f0 : (b : ℕ) → b < 256 → bit_and b 0xF0 / 16 ≡ b / 16
mask_f0 b h = (==_iff _ _).0 (all_below_sound 256 _ b masks_table.1 h)

pub mask_fe : (b : ℕ) → b < 256 → bit_and b 0xFE / 2 ≡ b / 2
mask_fe b h = (==_iff _ _).0 (all_below_sound 256 _ b masks_table.2 h)

pub mask_08 : (b : ℕ) → b < 256 → bit_and b 0x08 / 8 ≡ b / 8 % 2
mask_08 b h = (==_iff _ _).0 (all_below_sound 256 _ b masks_table.3 h)

pub mask_04 : (b : ℕ) → b < 256 → bit_and b 0x04 / 4 ≡ b / 4 % 2
mask_04 b h = (==_iff _ _).0 (all_below_sound 256 _ b masks_table.4 h)

pub mask_02 : (b : ℕ) → b < 256 → bit_and b 0x02 / 2 ≡ b / 2 % 2
mask_02 b h = (==_iff _ _).0 (all_below_sound 256 _ b masks_table.5 h)

pub and_02 : (b : ℕ) → b < 256 → bit_and b 0x02 ≡ b / 2 % 2 * 2
and_02 b h = (==_iff _ _).0 (all_below_sound 256 _ b masks_table.6 h)

pub low_1 : (a : ℕ) → bit_and a 1 ≡ a % 2
low_1 a = bit_and_mask 1 a 1 refl

pub low_4 : (a : ℕ) → bit_and a 0x0F ≡ a % 16
low_4 a = bit_and_mask 4 a 0x0F refl

pub low_6 : (a : ℕ) → bit_and a 0x3F ≡ a % 64
low_6 a = bit_and_mask 6 a 0x3F refl

pub low_7 : (a : ℕ) → bit_and a 0x7F ≡ a % 128
low_7 a = bit_and_mask 7 a 0x7F refl

pub low_8 : (a : ℕ) → bit_and a 0xFF ≡ a % 256
low_8 a = bit_and_mask 8 a 0xFF refl

-- A flag as the bit that it becomes.
abbrev pub bit : ℕ → ℕ
bit flag = if flag == 0 then 0 else 1

pub first_octet_lem : (dlci k cr : ℕ) → first_octet dlci k cr ≡ (dlci >>> k) % 64 * 4 + cr % 2 * 2
first_octet_lem dlci k cr =
    rw (low_6 (dlci >>> k), low_1 cr)
      (omega (
        arith,
        bit_or-add 2 ((dlci >>> k) % 64 * 4 % 256) (cr % 2 * 2) (omega arith) (omega arith),
      ))

-- One flag more, in a place that is still zero.
or_flag :
    (k a flag : ℕ) → a % 2 ^ suc k ≡ 0 → bit_or a (flag_bit flag (2 ^ k)) ≡ a + 2 ^ k * bit flag
or_flag k a flag h =
    let e : flag_bit flag (2 ^ k) ≡ 2 ^ k * bit flag = ground arith in
    let l : 2 ^ k * bit flag < 2 ^ suc k = ground (arith, pow-suc 2 k, one-le-pow k 2) in
    ap (bit_or a) e ∙ bit_or-add (suc k) a (2 ^ k * bit flag) h l

pub bit-lt : (flag : ℕ) → bit flag < 2
bit-lt flag = ground arith

pub three_flags :
    (a fecn becn de : ℕ)
    → a % 16 ≡ 0
    → bit_or (bit_or (bit_or a (flag_bit fecn 0x08)) (flag_bit becn 0x04)) (flag_bit de 0x02)
      ≡ a + 8 * bit fecn + 4 * bit becn + 2 * bit de
three_flags a fecn becn de h = rw (
  or_flag 3 a fecn h,
  or_flag 2 (a + 8 * bit fecn) becn (omega arith),
  or_flag 1 (a + 8 * bit fecn + 4 * bit becn) de (omega arith),
)

pub second_octet_lem :
    (dlci k fecn becn de : ℕ)
    → second_octet dlci k fecn becn de
      ≡ (dlci >>> k) % 16 * 16 + 8 * bit fecn + 4 * bit becn + 2 * bit de
second_octet_lem dlci k fecn becn de =
    rw (low_4 (dlci >>> k), three_flags ((dlci >>> k) % 16 * 16 % 256) fecn becn de (omega arith))
      (omega (arith, bit-lt fecn, bit-lt becn, bit-lt de))

pub last_octet_lem : (dlci : ℕ) → last_octet dlci ≡ dlci % 64 * 4 + 1
last_octet_lem dlci =
    rw (low_6 dlci, bit_or-add 2 (dlci % 64 * 4) 1 (omega arith) (omega arith)) (omega arith)

-- The last octet of the two-octet format.
pub flagged_last_octet_lem :
    (dlci fecn becn de : ℕ)
    → u8 (
        bit_or
          (bit_or
            (bit_or (bit_or (bit_and dlci 0x0F <<< 4) (flag_bit fecn 0x08)) (flag_bit becn 0x04))
            (flag_bit de 0x02))
          0x01)
      ≡ dlci % 16 * 16 + 8 * bit fecn + 4 * bit becn + 2 * bit de + 1
flagged_last_octet_lem dlci fecn becn de =
    let flags : ℕ = dlci % 16 * 16 + 8 * bit fecn + 4 * bit becn + 2 * bit de in
    rw
      (
        low_4 dlci,
        three_flags (dlci % 16 * 16) fecn becn de (omega arith),
        bit_or-add 1 flags 1 (omega arith) (omega arith),
      )
      (omega (arith, bit-lt fecn, bit-lt becn, bit-lt de))
