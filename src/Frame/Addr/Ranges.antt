-- ===== src/Frame/Addr/Ranges.antt =====
-- Which DLCIs are valid for user traffic, by address width, and how wide the encoder writes them.
use vfrs.Common.{ℕ, ◌^◌, ◌≤◌, ◌≡◌, ◌↔◌, ◌⊎◌, true, not, ◌&&◌, length, ltb, arith}
use vfrs.Frame.Addr.{encode_dlci_with_flags, dlci_reserved, dlci_valid, dlci_valid_for_width}

-- The ranges of ITU-T X.36 Table 9-2 as orders.
abbrev pub IsUserDlci : ℕ → Type 0
IsUserDlci dlci = ((16 ≤ dlci) × (dlci ≤ 991)) ⊎ ((1024 ≤ dlci) × (dlci ≤ 8388607))

-- `fr_dlci_valid` accepts exactly 16 to 991 and 1024 to 8388607, which is what `fr_dlci_reserved`
-- does not reserve of the numbers below 2^23.
pub dlci_valid_iff :
    (dlci : ℕ)
    → ((dlci_valid dlci ≡ true) ↔ IsUserDlci dlci)
      × (dlci_valid dlci ≡ (not (dlci_reserved dlci) && ltb dlci (2 ^ 23)))
unfolding dlci_valid dlci_reserved
dlci_valid_iff dlci = (((λ e. ground arith), (λ u. ground arith)), ground arith)

-- A DLCI that is valid for a width of 2, 3 or 4 octets is a valid user DLCI, and the encoder asked
-- for that width writes exactly that many octets.
pub valid_width :
    (dlci width fecn becn de cr : ℕ)
    → (width ≡ 2) ⊎ ((width ≡ 3) ⊎ (width ≡ 4))
    → dlci_valid_for_width dlci width ≡ true
    → (dlci_valid dlci ≡ true)
      × (length (encode_dlci_with_flags dlci fecn becn de cr width) ≡ width)
unfolding dlci_valid_for_width dlci_valid encode_dlci_with_flags
valid_width dlci width fecn becn de cr w v = (ground arith, ground arith)
