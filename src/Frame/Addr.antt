-- ===== src/Frame/Addr.antt =====
-- The Q.922 address field: the encoders and decoders of include/vfr/switching.h and
-- src/switching/fr_frame.c. A pointer `addr` is the list of the octets from there on; an encoder
-- gives the octets that it writes from `addr[0]` on.
pub mod Octets
pub mod RoundTrip
pub mod Length
pub mod Ranges
pub mod Rewrite
use vfrs.Common.{
  ℕ, ◌+◌, ◌<◌, Bool, true, false, not, ◌&&◌, ◌||◌, List, [], ◌∷◌, bit_and, bit_or, ltb, leb, ◌==◌,
  if◌then◌else◌, get_or, overwrite, ◌>>>◌, ◌<<<◌, u8,
}

-- `fr_addr_t`. Each flag is a one-bit field.
pub record Addr : Type 0 where
  pub dlci : ℕ
  pub cr : ℕ
  pub fecn : ℕ
  pub becn : ℕ
  pub de : ℕ
  pub ea : ℕ

-- `addr[i]`. A read past the end has no meaning in the source; here it gives 0.
abbrev pub octet : List ℕ → ℕ → ℕ
octet addr i = get_or addr i 0

-- `(addr[i] & mask) >> k`
abbrev pub field : List ℕ → ℕ → ℕ → ℕ → ℕ
field addr i mask k = bit_and (octet addr i) mask >>> k

-- `(addr[i] & 0x01) == 0`: the address goes on after octet `i`.
abbrev pub extended : List ℕ → ℕ → Bool
extended addr i = bit_and (octet addr i) 0x01 == 0

unfoldable pub get_addr_len : List ℕ → ℕ → ℕ
get_addr_len addr max_len =
    if ltb max_len 1
    then 0
    else if not (extended addr 0)
    then 1
    else if ltb max_len 2
    then 1
    else if not (extended addr 1)
    then 2
    else if ltb max_len 3
    then 2
    else if not (extended addr 2)
    then 3
    else if ltb max_len 4
    then 3
    else 4

-- The DLCI of the three address formats.
abbrev pub dlci_2 : List ℕ → ℕ
dlci_2 addr = bit_or (field addr 0 0xFC 2 <<< 4) (field addr 1 0xF0 4)

abbrev pub dlci_3 : List ℕ → ℕ
dlci_3 addr =
    bit_or (bit_or (field addr 0 0xFC 2 <<< 10) (field addr 1 0xF0 4 <<< 6)) (field addr 2 0xFC 2)

abbrev pub dlci_4 : List ℕ → ℕ
dlci_4 addr =
    bit_or
      (bit_or (bit_or (field addr 0 0xFC 2 <<< 17) (field addr 1 0xF0 4 <<< 13))
        (field addr 2 0xFE 1 <<< 6))
      (field addr 3 0xFC 2)

unfoldable pub decode_dlci : List ℕ → ℕ
decode_dlci addr =
    if extended addr 0 && extended addr 1
    then if extended addr 2
      then dlci_4 addr
      else if bit_and (octet addr 2 >>> 1) 0x01 == 0
      then dlci_3 addr
      else dlci_2 addr
    else dlci_2 addr

-- The length that `fr_decode_addr` finds from the EA bits.
unfoldable pub decode_addr_len : List ℕ → ℕ
decode_addr_len addr =
    if extended addr 0 then if extended addr 1 then if extended addr 2 then 4 else 3 else 2 else 2

abbrev with_flags : List ℕ → ℕ → ℕ → Addr
with_flags addr dlci last = record {
  dlci = dlci;
  cr = field addr 0 0x02 1;
  fecn = field addr 1 0x08 3;
  becn = field addr 1 0x04 2;
  de = field addr 1 0x02 1;
  ea = bit_and (octet addr last) 0x01;
}

unfoldable pub decode_addr : List ℕ → Addr
unfolding decode_addr_len
decode_addr addr =
    let addr_len = decode_addr_len addr in
    if addr_len == 4
    then with_flags addr (dlci_4 addr) 3
    else if addr_len == 3
    then with_flags addr (dlci_3 addr) 2
    else with_flags addr (decode_dlci addr) 1

-- `flag ? mask : 0`
abbrev pub flag_bit : ℕ → ℕ → ℕ
flag_bit flag mask = if flag == 0 then 0 else mask

-- `(u8)(((dlci >> k) & 0x3F) << 2) | ((cr & 1) << 1)`
abbrev first_octet : ℕ → ℕ → ℕ → ℕ
first_octet dlci k cr = u8 (bit_or (u8 (bit_and (dlci >>> k) 0x3F <<< 2)) (bit_and cr 1 <<< 1))

-- `(u8)(((dlci >> k) & 0x0F) << 4) | (fecn ? 0x08 : 0) | (becn ? 0x04 : 0) | (de ? 0x02 : 0)`
abbrev second_octet : ℕ → ℕ → ℕ → ℕ → ℕ → ℕ
second_octet dlci k fecn becn de = u8 (
    bit_or
      (bit_or (bit_or (u8 (bit_and (dlci >>> k) 0x0F <<< 4)) (flag_bit fecn 0x08))
        (flag_bit becn 0x04))
      (flag_bit de 0x02))

-- `(u8)(((dlci & 0x3F) << 2) | 0x01)`
abbrev last_octet : ℕ → ℕ
last_octet dlci = u8 (bit_or (bit_and dlci 0x3F <<< 2) 0x01)

unfoldable pub encode_dlci_with_flags : ℕ → ℕ → ℕ → ℕ → ℕ → ℕ → List ℕ
encode_dlci_with_flags dlci fecn becn de cr dlci_len =
    if dlci_len == 4 || ltb 63487 dlci
    then first_octet dlci 17 cr
      ∷ second_octet dlci 13 fecn becn de
      ∷ u8 (bit_and (dlci >>> 6) 0x7F <<< 1)
      ∷ last_octet dlci
      ∷ []
    else if dlci_len == 3 || ltb 1023 dlci && leb dlci 63487
    then first_octet dlci 10 cr ∷ second_octet dlci 6 fecn becn de ∷ last_octet dlci ∷ []
    else first_octet dlci 4 cr
      ∷ u8 (
          bit_or
            (bit_or
              (bit_or (bit_or (bit_and dlci 0x0F <<< 4) (flag_bit fecn 0x08)) (flag_bit becn 0x04))
              (flag_bit de 0x02))
            0x01)
      ∷ []

unfoldable pub encode_dlci : ℕ → ℕ → List ℕ
encode_dlci dlci dlci_len =
    if dlci_len == 4 || ltb 1023 dlci
    then u8 (bit_and (dlci >>> 17) 0x3F <<< 2)
      ∷ u8 (bit_and (dlci >>> 13) 0x0F <<< 4)
      ∷ u8 (bit_and (dlci >>> 6) 0x7F <<< 1)
      ∷ last_octet dlci
      ∷ []
    else if dlci_len == 3
    then u8 (bit_and (dlci >>> 10) 0x3F <<< 2)
      ∷ u8 (bit_and (dlci >>> 6) 0x0F <<< 4)
      ∷ last_octet dlci
      ∷ []
    else u8 (bit_and (dlci >>> 4) 0x3F <<< 2) ∷ u8 (bit_or (u8 (bit_and dlci 0x0F <<< 4)) 0x01) ∷ []

unfoldable pub rewrite_dlci : List ℕ → ℕ → List ℕ
unfolding decode_addr encode_dlci_with_flags
rewrite_dlci frame new_dlci =
    let old_addr = decode_addr frame in
    let dlci_len : ℕ = if ltb 63487 new_dlci then 4 else if ltb 1023 new_dlci then 3 else 2 in
    overwrite
      (encode_dlci_with_flags new_dlci old_addr.fecn old_addr.becn old_addr.de old_addr.cr dlci_len)
      frame

-- Which DLCIs are for management, and which may carry user traffic.
unfoldable pub dlci_reserved : ℕ → Bool
dlci_reserved dlci =
    dlci == 0
    || leb 1 dlci && leb dlci 15
    || leb 992 dlci && leb dlci 1007
    || leb 1008 dlci && leb dlci 1022
    || dlci == 1023

unfoldable pub dlci_valid : ℕ → Bool
dlci_valid dlci =
    if ltb dlci 16
    then false
    else if leb dlci 991
    then true
    else if leb dlci 1022
    then false
    else if dlci == 1023
    then false
    else leb dlci 8388607

unfoldable pub dlci_valid_for_width : ℕ → ℕ → Bool
dlci_valid_for_width dlci addr_len =
    if addr_len == 2
    then leb 16 dlci && leb dlci 991
    else if addr_len == 3
    then leb 1024 dlci && leb dlci 63487
    else if addr_len == 4
    then leb 16 dlci && leb dlci 991 || leb 1024 dlci && leb dlci 8388607
    else dlci_valid dlci
