-- ===== src/Cllm.antt =====
-- CLLM messages: cllm_build_xid and cllm_parse_xid of src/congestion/cgst_cllm.c.
-- A builder gives the octets that it writes, none for the return value 0.
pub mod Params
pub mod RoundTrip
pub mod Tests
use vfrs.Common.{
  ℕ, zero, suc, ◌+◌, ◌-◌, ◌*◌, Bool, true, false, not, ◌&&◌, ◌||◌, Option, none, some, List, [],
  ◌∷◌, ◌++◌, bit_and, bit_or, ltb, leb, ◌==◌, if◌then◌else◌, length, take, drop, get_or, ◌>>>◌,
  ◌<<<◌, u8, u16,
}
use vfrs.Frame.Addr.{octet, get_addr_len, dlci_2, dlci_4}

abbrev pub cllm_dlci : ℕ
cllm_dlci = 1007

abbrev pub cllm_xid_ctrl : ℕ
cllm_xid_ctrl = 0xAF

abbrev pub cllm_fi : ℕ
cllm_fi = 0x82

abbrev pub cllm_gi : ℕ
cllm_gi = 0x0F

-- The address field, with the C/R bit set.
unfoldable pub cllm_address : ℕ → List ℕ
cllm_address dlci_len =
    if dlci_len == 4
    then bit_or (u8 (bit_and (cllm_dlci >>> 17) 0x3F <<< 2)) 0x02
      ∷ u8 (bit_and (cllm_dlci >>> 13) 0x0F <<< 4)
      ∷ u8 (bit_and (cllm_dlci >>> 6) 0x7F <<< 1)
      ∷ u8 (bit_or (bit_and cllm_dlci 0x3F <<< 2) 0x01)
      ∷ []
    else bit_or (u8 (bit_and (cllm_dlci >>> 4) 0x3F <<< 2)) 0x02
      ∷ bit_or (u8 (bit_and cllm_dlci 0x0F <<< 4)) 0x01
      ∷ []

-- One DLCI of the list.
pub list_entry : ℕ → ℕ → List ℕ
list_entry dlci_len dlci =
    if dlci_len == 4
    then u8 (bit_and (dlci >>> 17) 0x3F <<< 2)
      ∷ u8 (bit_and (dlci >>> 13) 0x0F <<< 4)
      ∷ u8 (bit_and (dlci >>> 6) 0x7F <<< 1)
      ∷ u8 (bit_and dlci 0x3F <<< 2)
      ∷ []
    else u8 (bit_and (dlci >>> 4) 0x3F <<< 2) ∷ u8 (bit_and dlci 0x0F <<< 4) ∷ []

-- The loop over the list from `pos` on; it stops where no further entry fits.
pub list_entries : ℕ → ℕ → ℕ → List ℕ → List ℕ
unfolding list_entry
list_entries max_len dlci_len pos [] = []
list_entries max_len dlci_len pos (dlci ∷ dlcis) =
    let e = list_entry dlci_len dlci in
    let rest = list_entries max_len dlci_len (pos + length e) dlcis in
    if ltb max_len (pos + dlci_len) then [] else e ++ rest

-- The group value.
pub group_value : ℕ → ℕ → ℕ → ℕ → List ℕ → List ℕ
unfolding list_entries
group_value max_len pos congestion_level dlci_len dlcis =
    0x00
    ∷ 0x04
    ∷ 0x49
    ∷ 0x31
    ∷ 0x32
    ∷ 0x32
    ∷ 0x02
    ∷ 0x01
    ∷ congestion_level
    ∷ 0x03
    ∷ u8 (dlci_len * length dlcis)
    ∷ list_entries max_len dlci_len (pos + 11) dlcis

-- The tests of the room are made at each step: after the address and the control octet, after FI, GI
-- and the two octets of GL, and after each header of a parameter.
pub build_xid : ℕ → ℕ → List ℕ → ℕ → Option (List ℕ)
unfolding group_value
build_xid max_len congestion_level dlcis dlci_len =
    let address = cllm_address dlci_len in
    let a = length address in
    let value = group_value max_len (a + 5) congestion_level dlci_len dlcis in
    let gl = u16 (length value) in
    if ltb max_len a
    then none
    else if ltb max_len (a + 1)
    then none
    else if ltb max_len (a + 2)
    then none
    else if ltb max_len (a + 3)
    then none
    else if ltb max_len (a + 5)
    then none
    else if ltb max_len (a + 11)
    then none
    else if ltb max_len (a + 14)
    then none
    else if ltb max_len (a + 16)
    then none
    else some (
        address ++ cllm_xid_ctrl ∷ cllm_fi ∷ cllm_gi ∷ u8 (gl >>> 8) ∷ u8 (bit_and gl 0xFF) ∷ value)

-- What the parser has read: the level, if any, and the DLCIs.
pub record Notice : Type 0 where
  pub congestion_level : Option ℕ
  pub dlci_list : List ℕ

-- The DLCIs of a list parameter, at most `room` of them.
pub read_2 : ℕ → List ℕ → List ℕ
read_2 zero value = []
read_2 (suc room) [] = []
read_2 (suc room) (a ∷ []) = []
read_2 (suc room) (a ∷ b ∷ rest) = dlci_2 (a ∷ b ∷ []) ∷ read_2 room rest

pub read_4 : ℕ → List ℕ → List ℕ
read_4 (suc room) (a ∷ b ∷ c ∷ d ∷ rest) = dlci_4 (a ∷ b ∷ c ∷ d ∷ []) ∷ read_4 room rest
read_4 room value = []

abbrev pub read_list : ℕ → ℕ → List ℕ → List ℕ
read_list addr_len room value = if addr_len == 4 then read_4 room value else read_2 room value

-- `memcmp(&buf[pos], "I122", 4) != 0`, and the test of the length before it
abbrev pub is_param_set : List ℕ → Bool
is_param_set value =
    length value == 4
    && (get_or value 0 0 == 0x49
        && (get_or value 1 0 == 0x31 && (get_or value 2 0 == 0x32 && get_or value 3 0 == 0x32)))

-- One parameter.
pub parse_param : ℕ → ℕ → Notice → ℕ → List ℕ → Option Notice
unfolding read_2 read_4
parse_param addr_len max_dlcis notice pi value =
    if pi == 0x00
    then if is_param_set value then some notice else none
    else if pi == 0x02
    then some (
        if leb 1 (length value)
        then record notice { congestion_level = some (get_or value 0 0) }
        else notice)
    else if pi == 0x03
    then some (record notice {
      dlci_list =
          notice.dlci_list ++ read_list addr_len (max_dlcis - length notice.dlci_list) value;
    })
    else some notice

-- How the loop over the parameters ends: `out_of_fuel` is no end of the source's loop.
pub data Ending : Type 0 where
  out_of_fuel : Ending
  malformed : Ending
  parsed : Notice → Ending

-- The loop over the octets of the group that are left. It tests that octets are left before each
-- round, and a round takes two at least.
pub parse_params : ℕ → ℕ → ℕ → Notice → List ℕ → Ending
unfolding parse_param
parse_params fuel addr_len max_dlcis notice [] = parsed notice
parse_params zero addr_len max_dlcis notice (pi ∷ group) = out_of_fuel
parse_params (suc fuel) addr_len max_dlcis notice (pi ∷ []) = malformed
parse_params (suc fuel) addr_len max_dlcis notice (pi ∷ pl ∷ rest) = elim (ltb (length rest) pl) [
  | true ↦ malformed
  | false ↦ elim (parse_param addr_len max_dlcis notice pi (take pl rest)) [
    | none ↦ malformed
    | some notice' ↦ parse_params fuel addr_len max_dlcis notice' (drop pl rest)
  ]
]

-- What the loop returns; it does not run out of fuel here.
pub returned : Ending → Option Notice
returned out_of_fuel = none
returned malformed = none
returned (parsed notice) = some notice

pub parse_xid : List ℕ → ℕ → Option Notice
unfolding parse_params returned
parse_xid buf max_dlcis =
    let len = length buf in
    let addr_len = get_addr_len buf len in
    let gl = u16 (bit_or (octet buf (addr_len + 3) <<< 8) (octet buf (addr_len + 4))) in
    let group = take gl (drop (addr_len + 5) buf) in
    if ltb len 8
    then none
    else if ltb addr_len 2 || ltb 4 addr_len
    then none
    else if ltb len (addr_len + 5)
    then none
    else if not (bit_and (octet buf addr_len) 0xEF == cllm_xid_ctrl)
    then none
    else if not (octet buf (addr_len + 1) == cllm_fi)
    then none
    else if not (octet buf (addr_len + 2) == cllm_gi)
    then none
    else if ltb len (addr_len + 5 + gl)
    then none
    else returned (
        parse_params gl addr_len max_dlcis (record { congestion_level = none; dlci_list = [] })
          group)
