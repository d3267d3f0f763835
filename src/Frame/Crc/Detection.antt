-- ===== src/Frame/Crc/Detection.antt =====
-- What the frame check sequence detects.
use vfrs.Common.{
  ℕ, zero, suc, ◌+◌, ◌*◌, ◌/◌, ◌^◌, ◌<◌, ◌≤◌, ◌≡◌, ◌≢◌, refl, ap, ap₂, sym, ◌∙◌, inl, inr, true,
  false, Bool-cases, List, [], ◌∷◌, ◌++◌, if◌then◌else◌, ltb, bit_xor, arith, Bytes, IsByte,
  All-append,
}
use vfrs.Common.Bits.Xor.{zero-xor, xor-zero, xor_assoc, xor_comm, xor_self, xor-lt, xor_split}
use vfrs.Frame.Crc.{crc16_fcs, crc16_check}
use vfrs.Frame.Crc.Linear.{
  shift, shifts, shift-lt, shifts-lt, shifts-xor, shifts-add, shifts_field, xor_octets,
}
use vfrs.Frame.Crc.Reference.{remainder}
use vfrs.Frame.Crc.Speed.{remainder-append, remainder-lt, crc16_fcs-eq-remainder, crc16_check_iff}

xor_cancel : (a b c : ℕ) → bit_xor a c ≡ bit_xor b c → a ≡ b
xor_cancel a b c e = sym (undo a) ∙ ap (λ t. bit_xor t c) e ∙ undo b
  where
    undo : (x : ℕ) → bit_xor (bit_xor x c) c ≡ x
    undo x = xor_assoc x c c ∙ ap (bit_xor x) (xor_self c) ∙ xor-zero x

-- The register can be run backwards, since the polynomial feeds the top bit.
unshift : ℕ → ℕ
unshift w = if ltb w (2 ^ 15) then 2 * w else 2 * bit_xor w 0x8408 + 1

fed_back : (t : ℕ) → t < 2 ^ 15 → 2 ^ 15 ≤ bit_xor t 0x8408
fed_back t h =
    let p : t ≡ 0 * 2 ^ 15 + t = omega arith in
    let s : bit_xor t 0x8408 ≡ bit_xor 0 1 * 2 ^ 15 + bit_xor t 0x408 =
      ap (λ u. bit_xor u 0x8408) p ∙ xor_split 15 0 t 1 0x408 h (omega arith) in
    omega (arith, s, zero-xor 1)

unshift-shift : (y : ℕ) → y < 2 ^ 16 → unshift (shift y) ≡ y
unfolding unshift shift
unshift-shift y h =
    let back : bit_xor (bit_xor (y / 2) 0x8408) 0x8408 ≡ y / 2 =
      xor_assoc (y / 2) 0x8408 0x8408 ∙ ap (bit_xor (y / 2)) (xor_self 0x8408) ∙ xor-zero (y / 2) in
    ground (arith, fed_back (y / 2), xor-zero (y / 2), back)

shift-injective : (y z : ℕ) → y < 2 ^ 16 → z < 2 ^ 16 → shift y ≡ shift z → y ≡ z
shift-injective y z hy hz e = sym (unshift-shift y hy) ∙ ap unshift e ∙ unshift-shift z hz

shifts-injective : (n y z : ℕ) → y < 2 ^ 16 → z < 2 ^ 16 → shifts n y ≡ shifts n z → y ≡ z
unfolding shifts
shifts-injective zero y z hy hz e = e
shifts-injective (suc n) y z hy hz e =
    shift-injective y z hy hz
      (shifts-injective n (shift y) (shift z) (shift-lt y hy) (shift-lt z hz) e)

remainder-injective :
    (f g : ℕ) (bs : List ℕ)
    → f < 2 ^ 16
    → g < 2 ^ 16
    → Bytes bs
    → remainder f bs ≡ remainder g bs
    → f ≡ g
unfolding remainder
remainder-injective f g [] hf hg k e = e
remainder-injective f g (b ∷ bs) hf hg k e =
    let p : bit_xor f b < 2 ^ 16 = xor-lt 16 f b hf (omega (arith, k.0)) in
    let q : bit_xor g b < 2 ^ 16 = xor-lt 16 g b hg (omega (arith, k.0)) in
    xor_cancel f g b (
      shifts-injective 8 (bit_xor f b) (bit_xor g b) p q (
        remainder-injective (shifts 8 (bit_xor f b)) (shifts 8 (bit_xor g b)) bs
          (shifts-lt 8 (bit_xor f b) p) (shifts-lt 8 (bit_xor g b) q) k.1 e))

module _ (xs ys : List ℕ) (b b' : ℕ) (kx : Bytes xs) (ky : Bytes ys) (hb : b < 256)
    (hb' : b' < 256) where
  remainder_differs :
      b ≢ b' → remainder 0xFFFF (xs ++ (b ∷ ys)) ≢ remainder 0xFFFF (xs ++ (b' ∷ ys))
  unfolding remainder
  remainder_differs ne e =
      let r = remainder 0xFFFF xs in
      let hr : r < 2 ^ 16 = remainder-lt 0xFFFF xs (omega arith) kx in
      let p : bit_xor r b < 2 ^ 16 = xor-lt 16 r b hr (omega arith) in
      let q : bit_xor r b' < 2 ^ 16 = xor-lt 16 r b' hr (omega arith) in
      let same : remainder (shifts 8 (bit_xor r b)) ys ≡ remainder (shifts 8 (bit_xor r b')) ys =
        sym (remainder-append 0xFFFF xs (b ∷ ys)) ∙ e ∙ remainder-append 0xFFFF xs (b' ∷ ys) in
      let eq : bit_xor r b ≡ bit_xor r b' =
        shifts-injective 8 (bit_xor r b) (bit_xor r b') p q
          (remainder-injective _ _ ys (shifts-lt 8 _ p) (shifts-lt 8 _ q) ky same) in
      ne (xor_cancel b b' r (xor_comm b r ∙ eq ∙ xor_comm r b'))

  -- A frame that passes the check fails it once any one octet before the check sequence is changed.
  pub crc16_check_detects :
      (next low high : ℕ)
      → low < 256
      → high < 256
      → b ≢ b'
      → crc16_check next ((xs ++ (b ∷ ys)) ++ (low ∷ high ∷ [])) ≡ true
      → crc16_check next ((xs ++ (b' ∷ ys)) ++ (low ∷ high ∷ [])) ≡ false
  crc16_check_detects next low high hl hh ne good =
      elim (Bool-cases (crc16_check next ((xs ++ (b' ∷ ys)) ++ (low ∷ high ∷ [])))) [
        | inr bad ↦ bad
        | inl also ↦ absurd (
            remainder_differs ne (
              xor_cancel (remainder 0xFFFF (xs ++ (b ∷ ys))) (remainder 0xFFFF (xs ++ (b' ∷ ys)))
                0xFFFF
                (sym (crc16_fcs-eq-remainder next (xs ++ (b ∷ ys)) k)
                  ∙ (crc16_check_iff next (xs ++ (b ∷ ys)) low high k hl hh).0 good
                  ∙ sym ((crc16_check_iff next (xs ++ (b' ∷ ys)) low high k' hl hh).0 also)
                  ∙ crc16_fcs-eq-remainder next (xs ++ (b' ∷ ys)) k')))
      ]
    where
      k : Bytes (xs ++ (b ∷ ys))
      k = All-append IsByte xs (b ∷ ys) kx (hb, ky)

      k' : Bytes (xs ++ (b' ∷ ys))
      k' = All-append IsByte xs (b' ∷ ys) kx (hb', ky)

residue_constant : shifts 16 0xFFFF ≡ 0xF0B8
unfolding shifts
residue_constant = refl

-- The remainder over a frame with its own check sequence, low octet first, is the constant 0xF0B8
-- that the source names CRC16_GOOD.
pub crc16_residue :
    (next : ℕ) (buf : List ℕ) (low high : ℕ)
    → Bytes buf
    → low < 256
    → high < 256
    → crc16_fcs next buf ≡ low + high * 256
    → remainder 0xFFFF (buf ++ (low ∷ high ∷ [])) ≡ 0xF0B8
unfolding remainder
crc16_residue next buf low high k hl hh e =
    let r = remainder 0xFFFF buf in
    let fcs : bit_xor r 0xFFFF ≡ bit_xor (256 * high) low =
      sym (crc16_fcs-eq-remainder next buf k) ∙ e ∙ omega (arith, xor_octets high low hl) in
    let sum : bit_xor (bit_xor r low) (2 ^ 8 * high) ≡ 0xFFFF =
      xor_assoc r low (2 ^ 8 * high)
      ∙ ap (bit_xor r) (xor_comm low (2 ^ 8 * high) ∙ sym fcs)
      ∙ sym (xor_assoc r r 0xFFFF)
      ∙ ap (λ t. bit_xor t 0xFFFF) (xor_self r)
      ∙ zero-xor 0xFFFF in
    remainder-append 0xFFFF buf (low ∷ high ∷ [])
    ∙ shifts-xor 8 (shifts 8 (bit_xor r low)) high
    ∙ ap₂ bit_xor (shifts-add 8 8 (bit_xor r low))
        (ap (shifts 8) (sym (shifts_field 8 high)) ∙ shifts-add 8 8 (2 ^ 8 * high))
    ∙ sym (shifts-xor 16 (bit_xor r low) (2 ^ 8 * high))
    ∙ ap (shifts 16) sum
    ∙ residue_constant
