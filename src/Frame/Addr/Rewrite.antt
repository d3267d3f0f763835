-- ===== src/Frame/Addr/Rewrite.antt =====
-- `fr_rewrite_dlci` puts a new DLCI into the address field of a frame.
use vfrs.Common.{
  ℕ, ◌^◌, ◌<◌, ◌≡◌, refl, ap, sym, ◌∙◌, List, [], ◌∷◌, ◌++◌, ltb, if◌then◌else◌, length, drop,
  drop-append, arith, Bytes, zero, suc,
}
use vfrs.Frame.Addr.{Addr, octet, decode_addr, encode_dlci_with_flags, rewrite_dlci}
use vfrs.Frame.Addr.Octets.{mask_08, mask_04, mask_02, bit}
use vfrs.Frame.Addr.RoundTrip.{Addr_path, decode_addr-encode_dlci_with_flags}

octet-byte : (frame : List ℕ) (i : ℕ) → Bytes frame → octet frame i < 256
octet-byte [] i h = omega arith
octet-byte (x ∷ xs) zero h = h.0
octet-byte (x ∷ xs) (suc i) h = octet-byte xs i h.1

-- The flags that are decoded are bits.
pub record AreBits (a : Addr) : Type 0 where
  pub cr_bit : a.cr < 2
  pub fecn_bit : a.fecn < 2
  pub becn_bit : a.becn < 2
  pub de_bit : a.de < 2

pub decode_addr-AreBits : (frame : List ℕ) → Bytes frame → AreBits (decode_addr frame)
unfolding decode_addr
decode_addr-AreBits frame h =
    let a = octet-byte frame 0 h in
    let b = octet-byte frame 1 h in
    ground (
      arith,
      mask_02 (octet frame 0) a,
      mask_08 (octet frame 1) b,
      mask_04 (octet frame 1) b,
      mask_02 (octet frame 1) b,
    )

bit-of_bit : (x : ℕ) → x < 2 → bit x ≡ x
bit-of_bit x h = ground arith

-- The width that `fr_rewrite_dlci` gives a DLCI.
abbrev pub width_of : ℕ → ℕ
width_of dlci = if ltb 63487 dlci then 4 else if ltb 1023 dlci then 3 else 2

length-encode-width_of :
    (dlci fecn becn de cr : ℕ)
    → length (encode_dlci_with_flags dlci fecn becn de cr (width_of dlci)) ≡ width_of dlci
unfolding encode_dlci_with_flags
length-encode-width_of dlci fecn becn de cr = ground arith

-- After the rewrite of a frame of octets to a DLCI below 2^23 the address decodes to the new DLCI
-- with the C/R, FECN, BECN and DE bits of the old address, and the octets from the width of the new
-- DLCI on are those of the old frame.
pub rewrite_dlci_lem :
    (frame : List ℕ) (new_dlci : ℕ)
    → Bytes frame
    → new_dlci < 2 ^ 23
    → (decode_addr (rewrite_dlci frame new_dlci)
        ≡ record (decode_addr frame) { dlci = new_dlci; ea = 1 })
      × (drop (width_of new_dlci) (rewrite_dlci frame new_dlci) ≡ drop (width_of new_dlci) frame)
unfolding rewrite_dlci
rewrite_dlci_lem frame new_dlci h l = (address, payload)
  where
    old : Addr
    old = decode_addr frame

    written : List ℕ
    written = encode_dlci_with_flags new_dlci old.fecn old.becn old.de old.cr (width_of new_dlci)

    wide : length written ≡ width_of new_dlci
    wide = length-encode-width_of new_dlci old.fecn old.becn old.de old.cr

    bits : AreBits old
    bits = decode_addr-AreBits frame h

    address :
        decode_addr (written ++ drop (length written) frame)
        ≡ record old { dlci = new_dlci; ea = 1 }
    address =
        decode_addr-encode_dlci_with_flags new_dlci old.fecn old.becn old.de old.cr
          (width_of new_dlci) (drop (length written) frame) l
        ∙ Addr_path (
          refl,
          omega (arith, bits.cr_bit),
          bit-of_bit old.fecn bits.fecn_bit,
          bit-of_bit old.becn bits.becn_bit,
          bit-of_bit old.de bits.de_bit,
          refl,
        )

    payload :
        drop (width_of new_dlci) (written ++ drop (length written) frame)
        ≡ drop (width_of new_dlci) frame
    payload =
        ap (λ k. drop k (written ++ drop (length written) frame)) (sym wide)
        ∙ drop-append written (drop (length written) frame)
        ∙ ap (λ k. drop k frame) wide
