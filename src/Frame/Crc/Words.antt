-- ===== src/Frame/Crc/Words.antt =====
-- One round of the fast loop takes in eight octets at once.
use vfrs.Common.{
  ℕ, ◌+◌, ◌*◌, ◌/◌, ◌%◌, ◌^◌, ◌<◌, ◌≡◌, refl, ap, ap₂, sym, ◌∙◌, [], ◌∷◌, bit_xor, bit_and, ◌>>>◌,
  u32, arith,
}
use vfrs.Common.Bits.{bit_and_mask}
use vfrs.Common.Bits.Xor.{xor-zero, xor_assoc, xor_comm, xor-lt, xor_split}
use vfrs.Frame.Crc.{load64, crc_word}
use vfrs.Frame.Crc.Linear.{shifts, shifts-xor, shifts-add, shifts_field, xor_octets}
use vfrs.Frame.Crc.Reference.{remainder, slice8_lem}

regroup : (h l x y : ℕ) → bit_xor (bit_xor (bit_xor h l) x) y ≡ bit_xor (bit_xor x l) (bit_xor y h)
regroup h l x y =
    ap (λ t. bit_xor t y) (xor_assoc h l x ∙ xor_comm h (bit_xor l x))
    ∙ xor_assoc (bit_xor l x) h y
    ∙ ap₂ bit_xor (xor_comm l x) (xor_comm h y)

-- The remainder of eight octets, as the sum of what each contributes.
remainder_8 :
    (fcs b0 b1 b2 b3 b4 b5 b6 b7 : ℕ)
    → remainder fcs (b0 ∷ b1 ∷ b2 ∷ b3 ∷ b4 ∷ b5 ∷ b6 ∷ b7 ∷ [])
      ≡ bit_xor
          (bit_xor
            (bit_xor
              (bit_xor
                (bit_xor
                  (bit_xor
                    (bit_xor (bit_xor (shifts 64 fcs) (shifts 64 b0)) (shifts 56 b1))
                    (shifts 48 b2))
                  (shifts 40 b3))
                (shifts 32 b4))
              (shifts 24 b5))
            (shifts 16 b6))
          (shifts 8 b7)
unfolding remainder
remainder_8 fcs b0 b1 b2 b3 b4 b5 b6 b7 = simp (shifts-xor, shifts-add)

module _ (fcs b0 b1 b2 b3 b4 b5 b6 b7 : ℕ) (hf : fcs < 2 ^ 16) (h0 : b0 < 256) (h1 : b1 < 256)
    (h2 : b2 < 256) (h3 : b3 < 256) (h4 : b4 < 256) (h5 : b5 < 256) (h6 : b6 < 256)
    (h7 : b7 < 256) where
  abbrev lo : ℕ
  lo = fcs % 256

  abbrev hi : ℕ
  hi = fcs / 256

  abbrev word : ℕ
  word = load64 b0 b1 b2 b3 b4 b5 b6 b7

  -- The rest of the word above its first two octets.
  abbrev above : ℕ
  above = b2 + b3 * 2 ^ 8 + b4 * 2 ^ 16 + b5 * 2 ^ 24 + b6 * 2 ^ 32 + b7 * 2 ^ 40

  word_xor : bit_xor word fcs ≡ above * 2 ^ 16 + (bit_xor b1 hi * 2 ^ 8 + bit_xor b0 lo)
  word_xor =
      let p : word ≡ above * 2 ^ 16 + (b1 * 2 ^ 8 + b0) = omega arith in
      let q : fcs ≡ 0 * 2 ^ 16 + (hi * 2 ^ 8 + lo) = omega arith in
      ap₂ bit_xor p q
      ∙ xor_split 16 above (b1 * 2 ^ 8 + b0) 0 (hi * 2 ^ 8 + lo) (omega arith) (omega arith)
      ∙ omega (arith, xor-zero above, xor_split 8 b1 b0 hi lo h0 (omega arith))

  x0_lt : bit_xor b0 lo < 2 ^ 8
  x0_lt = xor-lt 8 b0 lo h0 (omega arith)

  x1_lt : bit_xor b1 hi < 2 ^ 8
  x1_lt = xor-lt 8 b1 hi h1 (omega arith)

  index_0 : bit_and (u32 (bit_xor word fcs)) 0xFF ≡ bit_xor b0 lo
  index_0 = bit_and_mask 8 _ 0xFF refl ∙ omega (arith, word_xor, x0_lt, x1_lt)

  index_1 : bit_and (u32 (bit_xor word fcs) >>> 8) 0xFF ≡ bit_xor b1 hi
  index_1 = bit_and_mask 8 _ 0xFF refl ∙ omega (arith, word_xor, x0_lt, x1_lt)

  index_2 : bit_and (word >>> 16) 0xFF ≡ b2
  index_2 = bit_and_mask 8 _ 0xFF refl ∙ omega arith

  index_3 : bit_and (word >>> 24) 0xFF ≡ b3
  index_3 = bit_and_mask 8 _ 0xFF refl ∙ omega arith

  index_4 : bit_and (word >>> 32) 0xFF ≡ b4
  index_4 = bit_and_mask 8 _ 0xFF refl ∙ omega arith

  index_5 : bit_and (word >>> 40) 0xFF ≡ b5
  index_5 = bit_and_mask 8 _ 0xFF refl ∙ omega arith

  index_6 : bit_and (word >>> 48) 0xFF ≡ b6
  index_6 = bit_and_mask 8 _ 0xFF refl ∙ omega arith

  index_7 : word >>> 56 ≡ b7
  index_7 = omega arith

  -- The old sum enters with the first two octets.
  first_two :
      bit_xor (bit_xor (shifts 64 fcs) (shifts 64 b0)) (shifts 56 b1)
      ≡ bit_xor (shifts 64 (bit_xor b0 lo)) (shifts 56 (bit_xor b1 hi))
  first_two =
      let s : fcs ≡ bit_xor (2 ^ 8 * hi) lo = omega (arith, xor_octets hi lo (omega arith)) in
      let d : shifts 64 fcs ≡ bit_xor (shifts 56 hi) (shifts 64 lo) =
        ap (shifts 64) s
        ∙ shifts-xor 64 (2 ^ 8 * hi) lo
        ∙ ap (λ t. bit_xor t (shifts 64 lo))
            (sym (shifts-add 8 56 (2 ^ 8 * hi)) ∙ ap (shifts 56) (shifts_field 8 hi)) in
      ap (λ t. bit_xor (bit_xor t (shifts 64 b0)) (shifts 56 b1)) d
      ∙ regroup (shifts 56 hi) (shifts 64 lo) (shifts 64 b0) (shifts 56 b1)
      ∙ sym (ap₂ bit_xor (shifts-xor 64 b0 lo) (shifts-xor 56 b1 hi))

  pub crc_word_lem : crc_word fcs word ≡ remainder fcs (b0 ∷ b1 ∷ b2 ∷ b3 ∷ b4 ∷ b5 ∷ b6 ∷ b7 ∷ [])
  unfolding crc_word
  crc_word_lem =
      rw
        (
          index_0,
          index_1,
          index_2,
          index_3,
          index_4,
          index_5,
          index_6,
          index_7,
          slice8_lem 7 (bit_xor b0 lo) x0_lt,
          slice8_lem 6 (bit_xor b1 hi) x1_lt,
          slice8_lem 5 b2 h2,
          slice8_lem 4 b3 h3,
          slice8_lem 3 b4 h4,
          slice8_lem 2 b5 h5,
          slice8_lem 1 b6 h6,
          slice8_lem 0 b7 h7,
          ← first_two,
        )
        (sym (remainder_8 fcs b0 b1 b2 b3 b4 b5 b6 b7))
