-- ===== src/Frame/Hdlc/Laws.antt =====
-- Stuffing and unstuffing undo one another, and a stuffed text holds no flag.
use vfrs.Common.{
  ℕ, suc, ◌+◌, ◌*◌, ◌≤◌, ◌<◌, ◌≡◌, ◌≢◌, refl, ap, ◌∙◌, ◌⊎◌, inl, inr, true, Bool-cases, List, [],
  ◌∷◌, ◌++◌, bit_xor, ltb, lt→not-leb, ◌==◌, ==_iff, if◌then◌else◌, length, take, All, arith,
}
use native.Mathlib.Decide.{dec_le}
use vfrs.Common.Bits.Xor.{xor_assoc, xor_self, xor-zero}
use vfrs.Frame.Hdlc.{
  hdlc_flag, hdlc_escape, hdlc_esc_mask, escapes, stuff_from, hdlc_stuff, unstuff_from,
  hdlc_unstuff,
}

-- The octets that one octet is sent as.
abbrev pub stuffed_one : ℕ → List ℕ
stuffed_one byte = if escapes byte then hdlc_escape ∷ bit_xor byte hdlc_esc_mask ∷ [] else byte ∷ []

-- The stuffed text where nothing limits it.
pub stuffed : List ℕ → List ℕ
stuffed [] = []
stuffed (byte ∷ bytes) = stuffed_one byte ++ stuffed bytes

-- With room for the whole text the limit plays no part.
pub stuff_from_room :
    (bytes : List ℕ) (out_max j : ℕ)
    → j + length (stuffed bytes) ≤ out_max
    → stuff_from out_max j bytes ≡ stuffed bytes
unfolding stuff_from stuffed
stuff_from_room [] out_max j h = refl
stuff_from_room (byte ∷ bytes) out_max j h =
    ground (arith, stuff_from_room bytes out_max (j + 2), stuff_from_room bytes out_max (j + 1))

pub length-stuffed :
    (bytes : List ℕ)
    → (length bytes ≤ length (stuffed bytes)) × (length (stuffed bytes) ≤ 2 * length bytes)
unfolding stuffed
length-stuffed [] = omega arith
length-stuffed (byte ∷ bytes) = ground (arith, length-stuffed bytes)

-- What an escaped octet is sent as.
escaped_value :
    (byte : ℕ)
    → escapes byte ≡ true
    → (bit_xor byte hdlc_esc_mask ≡ 0x5E) ⊎ (bit_xor byte hdlc_esc_mask ≡ 0x5D)
escaped_value byte h = elim (Bool-cases (byte == hdlc_flag)) [
  | inl e ↦ inl (ap (λ t. bit_xor t hdlc_esc_mask) ((==_iff byte hdlc_flag).0 e))
  | inr n ↦ let e : byte ≡ hdlc_escape = ground arith in inr (ap (λ t. bit_xor t hdlc_esc_mask) e)
]

no_flag_from :
    (bytes : List ℕ) (out_max j : ℕ) → All (λ c. c ≢ hdlc_flag) (stuff_from out_max j bytes)
unfolding stuff_from
no_flag_from [] out_max j = tt
no_flag_from (byte ∷ bytes) out_max j = elim (Bool-cases (escapes byte)) [
  | inl e ↦ elim (Bool-cases (ltb out_max (j + 2))) [
    | inl full ↦ rw (e, full) tt
    | inr room ↦
        rw (e, room)
          (
            (omega arith),
            ((omega (arith, escaped_value byte e)), no_flag_from bytes out_max (j + 2)),
          )
  ]
  | inr e ↦ elim (Bool-cases (ltb out_max (j + 1))) [
    | inl full ↦ rw (e, full) tt
    | inr room ↦ rw (e, room) ((λ q. ground arith), no_flag_from bytes out_max (j + 1))
  ]
]

length-stuff_from :
    (bytes : List ℕ) (out_max j : ℕ)
    → j ≤ out_max
    → j + length (stuff_from out_max j bytes) ≤ out_max
unfolding stuff_from
length-stuff_from [] out_max j h = omega arith
length-stuff_from (byte ∷ bytes) out_max j h =
    ground (arith, length-stuff_from bytes out_max (j + 2), length-stuff_from bytes out_max (j + 1))

-- Whatever is stuffed, and wherever the limit cuts it, the output holds no flag octet and is no
-- longer than the limit.
pub hdlc_stuff_safe :
    (bytes : List ℕ) (out_max : ℕ)
    → All (λ c. c ≢ hdlc_flag) (hdlc_stuff bytes out_max)
      × (length (hdlc_stuff bytes out_max) ≤ out_max)
unfolding hdlc_stuff
hdlc_stuff_safe bytes out_max =
    (no_flag_from bytes out_max 0, omega (arith, length-stuff_from bytes out_max 0 (omega arith)))

unescape : (byte : ℕ) → bit_xor (bit_xor byte hdlc_esc_mask) hdlc_esc_mask ≡ byte
unescape byte =
    xor_assoc byte hdlc_esc_mask hdlc_esc_mask
    ∙ ap (bit_xor byte) (xor_self hdlc_esc_mask)
    ∙ xor-zero byte

unstuff_plain :
    (out_max j byte : ℕ) (rest : List ℕ)
    → j < out_max
    → byte ≢ hdlc_escape
    → unstuff_from out_max j (byte ∷ rest) ≡ byte ∷ unstuff_from out_max (j + 1) rest
unfolding unstuff_from
unstuff_plain out_max j byte [] h n = ground arith
unstuff_plain out_max j byte (next ∷ rest) h n = ground arith

unstuff_escaped :
    (out_max j byte : ℕ) (rest : List ℕ)
    → j < out_max
    → unstuff_from out_max j (hdlc_escape ∷ byte ∷ rest)
      ≡ bit_xor byte hdlc_esc_mask ∷ unstuff_from out_max (j + 1) rest
unfolding unstuff_from
unstuff_escaped out_max j byte rest h = rw (lt→not-leb out_max j h)

pub unstuff_from-stuffed :
    (bytes : List ℕ) (out_max j : ℕ)
    → j + length bytes ≤ out_max
    → unstuff_from out_max j (stuffed bytes) ≡ bytes
unfolding stuffed unstuff_from
unstuff_from-stuffed [] out_max j h = refl
unstuff_from-stuffed (byte ∷ bytes) out_max j h = elim (Bool-cases (escapes byte)) [
  | inl e ↦
      rw
        (
          e,
          unstuff_escaped out_max j (bit_xor byte hdlc_esc_mask) (stuffed bytes) (omega arith),
          unescape byte,
        )
        (ap (λ t. byte ∷ t) (unstuff_from-stuffed bytes out_max (j + 1) (omega arith)))
  | inr e ↦
      rw (e, unstuff_plain out_max j byte (stuffed bytes) (omega arith) (ground arith))
        (ap (λ t. byte ∷ t) (unstuff_from-stuffed bytes out_max (j + 1) (omega arith)))
]

-- Stuffing with room for twice the octets and unstuffing with room for them gives them back.
pub hdlc_unstuff-hdlc_stuff :
    (bytes : List ℕ) (out_max in_max : ℕ)
    → 2 * length bytes ≤ out_max
    → length bytes ≤ in_max
    → hdlc_unstuff (hdlc_stuff bytes out_max) in_max ≡ bytes
unfolding hdlc_unstuff hdlc_stuff
hdlc_unstuff-hdlc_stuff bytes out_max in_max h k =
    ap (unstuff_from in_max 0)
      (stuff_from_room bytes out_max 0 (omega (arith, length-stuffed bytes)))
    ∙ unstuff_from-stuffed bytes in_max 0 (omega arith)

-- How many octets are taken in: one more would not fit.
record Longest (out_max j : ℕ) (bytes : List ℕ) : Type 0 where
  count : ℕ
  within : count ≤ length bytes
  written : stuff_from out_max j bytes ≡ stuffed (take count bytes)
  no_more : count < length bytes → out_max < j + length (stuffed (take (suc count) bytes))

longest_step :
    (out_max j byte : ℕ) (bytes : List ℕ)
    → j + length (stuffed_one byte) ≤ out_max
    → Longest out_max (j + length (stuffed_one byte)) bytes
    → Longest out_max j (byte ∷ bytes)
unfolding stuffed stuff_from
longest_step out_max j byte bytes h l = record {
  count = suc l.count;
  within = omega (arith, l.within);
  written = ground (arith, l.written);
  no_more = λ more. ground (arith, l.no_more (omega arith));
}

longest_stop :
    (out_max j byte : ℕ) (bytes : List ℕ)
    → out_max < j + length (stuffed_one byte)
    → Longest out_max j (byte ∷ bytes)
unfolding stuffed stuff_from
longest_stop out_max j byte bytes h = record {
  count = 0;
  within = omega arith;
  written = ground arith;
  no_more = λ more. ground arith;
}

longest : (out_max j : ℕ) (bytes : List ℕ) → Longest out_max j bytes
unfolding stuff_from stuffed
longest out_max j [] = record {
  count = 0;
  within = omega arith;
  written = refl;
  no_more = λ h. absurd (omega arith);
}
longest out_max j (byte ∷ bytes) = elim (dec_le (j + length (stuffed_one byte)) out_max) [
  | yes fits ↦
      longest_step out_max j byte bytes fits (longest out_max (j + length (stuffed_one byte)) bytes)
  | no full ↦ longest_stop out_max j byte bytes (omega arith)
]

-- Where the limit is too small, what is written is the stuffing of the longest prefix that fits: no
-- escape sequence is cut in two.
pub hdlc_stuff_longest :
    (bytes : List ℕ) (out_max : ℕ)
    → (n : ℕ) × (n ≤ length bytes)
      × (hdlc_stuff bytes out_max ≡ stuffed (take n bytes))
      × ((n ≡ length bytes) ⊎ (out_max < length (stuffed (take (suc n) bytes))))
unfolding hdlc_stuff
hdlc_stuff_longest bytes out_max =
    let l = longest out_max 0 bytes in
    (
      l.count,
      l.within,
      l.written,
      elim (dec_le (length bytes) l.count) [
        | yes all ↦ inl (omega (arith, l.within))
        | no some_left ↦ inr (omega (arith, l.no_more (omega arith)))
      ],
    )

unstuff_bounds :
    (bytes : List ℕ) (out_max j : ℕ)
    → j ≤ out_max
    → (length (unstuff_from out_max j bytes) ≤ length bytes)
      × (j + length (unstuff_from out_max j bytes) ≤ out_max)
unfolding unstuff_from
unstuff_bounds [] out_max j h = omega arith
unstuff_bounds (byte ∷ []) out_max j h = ground arith
unstuff_bounds (byte ∷ next ∷ bytes) out_max j h =
    ground
      (arith, unstuff_bounds bytes out_max (j + 1), unstuff_bounds (next ∷ bytes) out_max (j + 1))

pub hdlc_unstuff_bounds :
    (bytes : List ℕ) (out_max : ℕ)
    → (length (hdlc_unstuff bytes out_max) ≤ length bytes)
      × (length (hdlc_unstuff bytes out_max) ≤ out_max)
unfolding hdlc_unstuff
hdlc_unstuff_bounds bytes out_max = omega (arith, unstuff_bounds bytes out_max 0 (omega arith))

pub hdlc_stuff_room :
    (bytes : List ℕ) (out_max : ℕ)
    → 2 * length bytes ≤ out_max
    → hdlc_stuff bytes out_max ≡ stuffed bytes
unfolding hdlc_stuff
hdlc_stuff_room bytes out_max h =
    stuff_from_room bytes out_max 0 (omega (arith, length-stuffed bytes))

pub hdlc_unstuff-stuffed :
    (bytes : List ℕ) (out_max : ℕ)
    → length bytes ≤ out_max
    → hdlc_unstuff (stuffed bytes) out_max ≡ bytes
unfolding hdlc_unstuff
hdlc_unstuff-stuffed bytes out_max h = unstuff_from-stuffed bytes out_max 0 (omega arith)
