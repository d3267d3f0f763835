-- ===== src/Fragment/Header.antt =====
-- The header of a fragment, read back by the code that reassembles.
use vfrs.Common.{
  ℕ, ◌+◌, ◌%◌, ◌<◌, ◌≡◌, refl, sym, ap, ◌∙◌, Bool, true, false, not, ◌&&◌, List, ◌∷◌, bit_and,
  bit_or, ◌==◌, ==_iff, if◌then◌else◌, length, length-append, take, drop, drop-append, take-append,
  drop-drop, get_or-append, ◌>>>◌, u8, arith,
}
use vfrs.Common.Bits.{all_below, all_below_sound, bit_and_mask, bit_or_shifted}
use vfrs.Frame.Addr.{octet}
use vfrs.Fragment.{write_fragment, flag_b, flag_e, seq_of, frf12_hdr_len, next_seq}

-- The first octet of the header, for the high four bits of a sequence number.
abbrev hdr0 : Bool → Bool → ℕ → ℕ
hdr0 b e h =
    let first : ℕ = if b then 0x80 else 0 in
    let flags : ℕ = if e then bit_or first 0x40 else first in u8 (bit_or flags h)

abbrev same_test : Bool → Bool → Bool
same_test true b = b
same_test false b = not b

abbrev reads_back : Bool → Bool → ℕ → Bool
reads_back b e h =
    same_test b (not (bit_and (hdr0 b e h) 0x80 == 0))
    && (same_test e (not (bit_and (hdr0 b e h) 0x40 == 0)) && (bit_and (hdr0 b e h) 0x0F == h))

hdr0_table : (b e : Bool) → all_below 16 (reads_back b e) ≡ true
unfolding all_below
hdr0_table true true = refl
hdr0_table true false = refl
hdr0_table false true = refl
hdr0_table false false = refl

same : (b c : Bool) → same_test b c ≡ true → c ≡ b
same true c h = h
same false true h = sym h
same false false h = refl

and-split : (b c : Bool) → (b && c) ≡ true → (b ≡ true) × (c ≡ true)
and-split true c h = (refl, h)
and-split false c h = absurd (ground arith)

hdr0_lem :
    (b e : Bool) (h : ℕ)
    → h < 16
    → (not (bit_and (hdr0 b e h) 0x80 == 0) ≡ b)
      × (not (bit_and (hdr0 b e h) 0x40 == 0) ≡ e)
      × (bit_and (hdr0 b e h) 0x0F ≡ h)
hdr0_lem b e h lt =
    let all = all_below_sound 16 (reads_back b e) h (hdr0_table b e) lt in
    let (p, rest) = and-split _ _ all in
    let (q, r) = and-split _ _ rest in (same b _ p, same e _ q, (==_iff _ _).0 r)

module _ (address : List ℕ) (b e : Bool) (seq : ℕ) (payload : List ℕ) where
  abbrev written : List ℕ
  written = write_fragment address b e seq payload

  pub take-written : take (length address) written ≡ address
  unfolding write_fragment
  take-written = take-append address _

  pub length-written : length written ≡ length address + 2 + length payload
  unfolding write_fragment
  length-written = omega (
    arith,
    length-append address (hdr0 b e (bit_and (seq >>> 8) 0x0F) ∷ u8 (bit_and seq 0xFF) ∷ payload),
  )

  pub drop-written : drop (length address + frf12_hdr_len) written ≡ payload
  unfolding write_fragment
  drop-written =
      sym (drop-drop 2 (length address) written)
      ∙ ap (drop 2) (
          drop-append address
            (hdr0 b e (bit_and (seq >>> 8) 0x0F) ∷ u8 (bit_and seq 0xFF) ∷ payload))

  octet_0 : octet written (length address) ≡ hdr0 b e (bit_and (seq >>> 8) 0x0F)
  unfolding write_fragment
  octet_0 =
      let z : length address ≡ length address + 0 = omega arith in
      ap (octet written) z ∙ get_or-append address _ 0 0

  octet_1 : octet written (length address + 1) ≡ u8 (bit_and seq 0xFF)
  unfolding write_fragment
  octet_1 = get_or-append address _ 1 0

  pub flag_b-written : seq < 4096 → flag_b written (length address) ≡ b
  flag_b-written h =
      let l : bit_and (seq >>> 8) 0x0F < 16 = omega (arith, bit_and_mask 4 (seq >>> 8) 0x0F refl) in
      rw octet_0 (hdr0_lem b e (bit_and (seq >>> 8) 0x0F) l).0

  pub flag_e-written : seq < 4096 → flag_e written (length address) ≡ e
  flag_e-written h =
      let l : bit_and (seq >>> 8) 0x0F < 16 = omega (arith, bit_and_mask 4 (seq >>> 8) 0x0F refl) in
      rw octet_0 (hdr0_lem b e (bit_and (seq >>> 8) 0x0F) l).1

  pub seq_of-written : seq < 4096 → seq_of written (length address) ≡ seq
  seq_of-written h =
      let l : bit_and (seq >>> 8) 0x0F < 16 = omega (arith, bit_and_mask 4 (seq >>> 8) 0x0F refl) in
      rw (octet_0, octet_1, (hdr0_lem b e (bit_and (seq >>> 8) 0x0F) l).2)
        (omega (
          arith,
          bit_and_mask 4 (seq >>> 8) 0x0F refl,
          bit_and_mask 8 seq 0xFF refl,
          bit_or_shifted 8 (bit_and (seq >>> 8) 0x0F) (u8 (bit_and seq 0xFF)) (omega arith),
        ))

pub next_seq_lem : (seq : ℕ) → next_seq seq ≡ (seq + 1) % 4096
next_seq_lem seq = bit_and_mask 12 (seq + 1) 0x0FFF refl
