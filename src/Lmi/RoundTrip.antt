-- ===== src/Lmi/RoundTrip.antt =====
-- The PVC status that the builders write is what the parser reads.
use vfrs.Common.{
  ℕ, ◌+◌, ◌*◌, ◌/◌, ◌%◌, ◌^◌, ◌≤◌, ◌<◌, ◌≡◌, ◌∙◌, ap, refl, true, false, ◌||◌, some, List, [], ◌∷◌,
  bit_and, bit_or, ltb, ◌==◌, ==_refl, le→not-ltb, length, ◌>>>◌, ◌<<<◌, arith, Bool-cases, inl,
  inr,
}
use vfrs.Common.Bits.{bit_or-add, bit_or_comm, bit_and_mask, bit_and_step}
use vfrs.Frame.Addr.Octets.{low_6, low_7, low_4}
use vfrs.Lmi.{LmiType}
use vfrs.Lmi.Elements.{ie_pvc_status, pvc_status_ie, parse_pvc_status_ie}

-- The extension bit above seven bits.
with_ext : (x : ℕ) → x < 128 → bit_or x 0x80 ≡ x + 128
with_ext x h = bit_or_comm x 128 ∙ bit_or-add 7 128 x refl h ∙ omega arith

mask_78 : (x : ℕ) → bit_and x 0x78 / 8 ≡ x / 8 % 16
mask_78 x = omega (
  arith,
  bit_and_step x 0x78,
  bit_and_step (x / 2) 0x3C,
  bit_and_step (x / 2 / 2) 0x1E,
  bit_and_mask 4 (x / 2 / 2 / 2) 0x0F refl,
)

mask_7e : (x : ℕ) → bit_and x 0x7E / 2 ≡ x / 2 % 64
mask_7e x = omega (arith, bit_and_step x 0x7E, bit_and_mask 6 (x / 2) 0x3F refl)

-- The octets as arithmetic.
abbrev long_octets : LmiType → ℕ → ℕ → List ℕ
long_octets type dlci status =
    ie_pvc_status type
    ∷ 5
    ∷ (dlci / 131072 % 64)
    ∷ (dlci / 8192 % 16 * 8)
    ∷ (dlci / 64 % 128)
    ∷ (dlci % 64 * 2 + 128)
    ∷ bit_or status 0x80
    ∷ []

abbrev short_octets : LmiType → ℕ → ℕ → List ℕ
short_octets type dlci status =
    ie_pvc_status type ∷ 3 ∷ (dlci / 16 % 64) ∷ (dlci % 16 * 8 + 128) ∷ bit_or status 0x80 ∷ []

long_shape :
    (type : LmiType) (max_len dlci status dlci_len : ℕ)
    → 7 ≤ max_len
    → (dlci_len == 4 || ltb 1023 dlci) ≡ true
    → pvc_status_ie type max_len dlci status dlci_len ≡ long_octets type dlci status
unfolding pvc_status_ie
long_shape type max_len dlci status dlci_len m h =
    rw
      (
        h,
        le→not-ltb max_len 7 m,
        low_6 (dlci >>> 17),
        low_4 (dlci >>> 13),
        low_7 (dlci >>> 6),
        low_6 dlci,
        with_ext (dlci % 64 * 2) (omega arith),
      )
      (ground arith)

long_dlci :
    (dlci : ℕ)
    → dlci < 2 ^ 23
    → bit_or
        (bit_or
          (bit_or
            (bit_and (dlci / 131072 % 64) 63 <<< 17)
            (bit_and (dlci / 8192 % 16 * 8) 120 >>> 3 <<< 13))
          (bit_and (dlci / 64 % 128) 127 <<< 6))
        (bit_and (dlci % 64 * 2 + 128) 126 >>> 1)
      ≡ dlci
long_dlci dlci h =
    let a = dlci / 131072 % 64 in
    let b = dlci / 8192 % 16 * 8 in
    let c = dlci / 64 % 128 in
    let d = dlci % 64 * 2 + 128 in
    rw
      (
        low_6 a,
        mask_78 b,
        low_7 c,
        mask_7e d,
        bit_or-add 17 (a % 64 * 2 ^ 17) (b / 8 % 16 * 2 ^ 13) (omega arith) (omega arith),
        bit_or-add 13 (a % 64 * 2 ^ 17 + b / 8 % 16 * 2 ^ 13) (c % 128 * 2 ^ 6) (omega arith)
            (omega arith),
        bit_or-add 6 (a % 64 * 2 ^ 17 + b / 8 % 16 * 2 ^ 13 + c % 128 * 2 ^ 6) (d / 2 % 64)
            (omega arith) (omega arith),
      )
      (omega arith)

short_dlci :
    (dlci : ℕ)
    → dlci < 1024
    → bit_or (bit_and (dlci / 16 % 64) 63 <<< 4) (bit_and (dlci % 16 * 8 + 128) 120 >>> 3) ≡ dlci
short_dlci dlci h =
    let a = dlci / 16 % 64 in
    let b = dlci % 16 * 8 + 128 in
    rw (low_6 a, mask_78 b, bit_or-add 4 (a % 64 * 2 ^ 4) (b / 8 % 16) (omega arith) (omega arith))
      (omega arith)

parse_long :
    (type : LmiType) (dlci status : ℕ)
    → dlci < 2 ^ 23
    → parse_pvc_status_ie type (long_octets type dlci status) 7 ≡ some (dlci, bit_or status 0x80)
unfolding parse_pvc_status_ie
parse_long type dlci status h =
    rw (==_refl (ie_pvc_status type))
      (ap (λ (d : ℕ). some (d, bit_or status 0x80)) (long_dlci dlci h))

short_shape :
    (type : LmiType) (max_len dlci status dlci_len : ℕ)
    → 7 ≤ max_len
    → (dlci_len == 4 || ltb 1023 dlci) ≡ false
    → pvc_status_ie type max_len dlci status dlci_len ≡ short_octets type dlci status
unfolding pvc_status_ie
short_shape type max_len dlci status dlci_len m h =
    rw
      (
        h,
        le→not-ltb max_len 5 (omega arith),
        low_6 (dlci >>> 4),
        low_4 dlci,
        with_ext (dlci % 16 * 8) (omega arith),
      )
      (ground arith)

parse_short :
    (type : LmiType) (dlci status : ℕ)
    → dlci < 1024
    → parse_pvc_status_ie type (short_octets type dlci status) 5 ≡ some (dlci, bit_or status 0x80)
unfolding parse_pvc_status_ie
parse_short type dlci status h =
    rw (==_refl (ie_pvc_status type))
      (ap (λ (d : ℕ). some (d, bit_or status 0x80)) (short_dlci dlci h))

-- With the codes of any type, the parser reads from the PVC status that the builder writes the DLCI and the status
-- with the extension bit set, in the formats of two and of four octets, for every DLCI of 23 bits and
-- every buffer that has room for the longer format.
pub parse_pvc_status_ie-pvc_status_ie :
    (type : LmiType) (max_len dlci status dlci_len : ℕ)
    → 7 ≤ max_len
    → dlci < 2 ^ 23
    → let ie = pvc_status_ie type max_len dlci status dlci_len in
      parse_pvc_status_ie type ie (length ie) ≡ some (dlci, bit_or status 0x80)
parse_pvc_status_ie-pvc_status_ie type max_len dlci status dlci_len m h =
    elim (Bool-cases (dlci_len == 4 || ltb 1023 dlci)) [
      | inl e ↦
          rw (long_shape type max_len dlci status dlci_len m e) (parse_long type dlci status h)
      | inr e ↦
          rw (short_shape type max_len dlci status dlci_len m e)
            (parse_short type dlci status (ground arith))
    ]
