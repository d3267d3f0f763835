-- ===== src/Frame/Crc/Reference.antt =====
-- The slice-by-eight routine computes the bit-by-bit remainder.
use vfrs.Common.{
  ℕ, zero, suc, ◌+◌, ◌*◌, ◌/◌, ◌%◌, ◌^◌, ◌<◌, ◌≡◌, refl, ap, ap₂, sym, ◌∙◌, List, [], ◌∷◌, bit_xor,
  get_or, arith,
}
use vfrs.Common.Bits.{bit_and_mask}
use vfrs.Common.Bits.Xor.{xor-zero, xor_comm, xor-lt, xor_split}
use vfrs.Frame.Crc.{crc16_table, crc16_table_slice8, crc_octet}
use vfrs.Frame.Crc.Linear.{
  shifts, shifts-xor, shifts-add, shifts-lt, shifts_field, xor_octets, crc16_table_lem,
}

-- The remainder by the polynomial, one bit at a time: the reference of X.36 §9.2.4.
unfoldable pub remainder : ℕ → List ℕ → ℕ
remainder fcs [] = fcs
remainder fcs (b ∷ bs) = remainder (shifts 8 (bit_xor fcs b)) bs

-- Eight shifts of a word, by the table.
pub shifts_by_table :
    (y : ℕ) → y < 2 ^ 16 → bit_xor (get_or crc16_table (y % 256) 0) (y / 256) ≡ shifts 8 y
shifts_by_table y h =
    let e : y ≡ bit_xor (2 ^ 8 * (y / 256)) (y % 256) =
      omega (arith, xor_octets (y / 256) (y % 256) (omega arith)) in
    ap₂ bit_xor (crc16_table_lem (y % 256) (omega arith)) (sym (shifts_field 8 (y / 256)))
    ∙ xor_comm (shifts 8 (y % 256)) (shifts 8 (2 ^ 8 * (y / 256)))
    ∙ sym (shifts-xor 8 (2 ^ 8 * (y / 256)) (y % 256))
    ∙ ap (shifts 8) (sym e)

-- Table `k` holds the register after `8 * (k + 1)` bits of its index.
pub slice8_lem : (k n : ℕ) → n < 256 → crc16_table_slice8 k n ≡ shifts (8 * suc k) n
unfolding crc16_table_slice8
slice8_lem zero n h = crc16_table_lem n h
slice8_lem (suc k) n h =
    let ih = slice8_lem k n h in
    let bound : shifts (8 * suc k) n < 2 ^ 16 = shifts-lt (8 * suc k) n (omega arith) in
    let e : 8 * suc k + 8 ≡ 8 * suc (suc k) = omega arith in
    rw (ih, bit_and_mask 8 (shifts (8 * suc k) n) 0xFF refl)
      (shifts_by_table (shifts (8 * suc k) n) bound
        ∙ shifts-add (8 * suc k) 8 n
        ∙ ap (λ t. shifts t n) e)

-- One octet of the table-driven loop.
pub crc_octet_lem :
    (fcs b : ℕ) → fcs < 2 ^ 16 → b < 256 → crc_octet fcs b ≡ shifts 8 (bit_xor fcs b)
unfolding crc_octet
crc_octet_lem fcs b hf hb =
    let y = bit_xor fcs b in
    let hy : y < 2 ^ 16 = xor-lt 16 fcs b hf (omega arith) in
    let p : fcs ≡ fcs / 256 * 2 ^ 8 + fcs % 256 = omega arith in
    let q : b ≡ 0 * 2 ^ 8 + b = omega arith in
    let s : y ≡ bit_xor (fcs / 256) 0 * 2 ^ 8 + bit_xor (fcs % 256) b =
      ap₂ bit_xor p q ∙ xor_split 8 (fcs / 256) (fcs % 256) 0 b (omega arith) hb in
    let l : bit_xor (fcs % 256) b < 2 ^ 8 = xor-lt 8 (fcs % 256) b (omega arith) hb in
    let hi : y / 256 ≡ fcs / 256 = omega (arith, s, xor-zero (fcs / 256), l) in
    rw (bit_and_mask 8 y 0xFF refl, ← hi)
      (xor_comm (y / 256) (crc16_table_slice8 0 (y % 256))
        ∙ ap (λ t. bit_xor t (y / 256))
            (slice8_lem 0 (y % 256) (omega arith) ∙ sym (crc16_table_lem (y % 256) (omega arith)))
        ∙ shifts_by_table y hy)
