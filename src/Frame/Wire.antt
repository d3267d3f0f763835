-- ===== src/Frame/Wire.antt =====
-- Whole frames: fr_parse_frame, fr_get_control, fr_build_ui_frame and the size functions of
-- src/switching/fr_frame.c. A buffer of `len` octets is a list of that length.
pub mod Build
pub mod Parse
pub mod Kinds
use vfrs.Common.{
  overwrite, ℕ, zero, suc, ◌+◌, ◌-◌, ◌*◌, ◌%◌, ◌^◌, Bool, true, false, not, ◌&&◌, ◌||◌, Option,
  none, some, List, [], ◌∷◌, ◌++◌, bit_and, ltb, leb, ◌==◌, if◌then◌else◌, length, take, drop,
  ◌>>>◌, u8,
}
use vfrs.Frame.Addr.{Addr, octet, get_addr_len, decode_addr, encode_dlci, encode_dlci_with_flags}
use vfrs.Frame.Crc.{crc16_fcs}
use vfrs.Frame.Hdlc.{hdlc_flag, hdlc_stuff, hdlc_unstuff}

-- N203, the longest information field.
abbrev pub fr_max_framesz : ℕ
fr_max_framesz = 1600

-- What `fr_parse_frame` leaves in its out parameters: the buffer, the address and `*frame_len`.
pub record Parsed : Type 0 where
  pub frame : List ℕ
  pub addr : Addr
  pub frame_len : ℕ

-- Where the stuffed octets lie between the flags.
unfoldable pub start_of : List ℕ → ℕ
start_of frame = if octet frame 0 == hdlc_flag then 1 else 0

unfoldable pub end_of : List ℕ → ℕ
end_of frame =
    let len = length frame in
    if octet frame 0 == hdlc_flag && (ltb 1 len && octet frame (len - 1) == hdlc_flag)
    then len - 1
    else len

-- The serial half: the buffer after destuffing, and `*frame_len`.
unfoldable pub destuff : List ℕ → Option (List ℕ × ℕ)
destuff frame =
    let start = start_of frame in
    let end = end_of frame in
    let stuffed_len : ℕ = end - start in
    let work = hdlc_unstuff (take stuffed_len (drop start frame)) (fr_max_framesz + 16) in
    let unstuffed_len = length work in
    if leb end start
    then none
    else if ltb (fr_max_framesz + 16) stuffed_len
    then none
    else if ltb unstuffed_len 4
    then none
    else some (overwrite work frame, unstuffed_len - 2)

-- The checks of X.36 §9.4.5 on a destuffed frame, and its address.
unfoldable pub check_frame : List ℕ → ℕ → Option Parsed
check_frame frame frame_len =
    let addr_len = get_addr_len frame frame_len in
    let parsed : Parsed = record {
      frame = frame;
      addr = decode_addr frame;
      frame_len = frame_len;
    } in
    if not (bit_and (octet frame 0) 0x01 == 0)
    then none
    else if ltb addr_len 2 || (ltb 4 addr_len || bit_and (octet frame (addr_len - 1)) 0x01 == 0)
    then none
    else if ltb frame_len addr_len
    then none
    else if addr_len == 4 && not (bit_and (octet frame 3) 0x02 == 0)
    then none
    else if addr_len == 3 && not (bit_and (octet frame 2) 0x02 == 0)
    then none
    else if ltb addr_len frame_len && ltb fr_max_framesz (frame_len - addr_len)
    then none
    else some parsed

-- `none` is the return value -1.
unfoldable pub parse_frame : List ℕ → Bool → Option Parsed
parse_frame frame is_serial =
    if ltb (length frame) 3
    then none
    else if is_serial
    then elim (destuff frame) [
      | none ↦ none
      | some (destuffed, frame_len) ↦ check_frame destuffed frame_len
    ]
    else check_frame frame (length frame)

abbrev pub fr_ctrl_ui : ℕ
fr_ctrl_ui = 0x03

-- The address that `fr_build_ui_frame` writes; `flags` is its pointer, which may be null.
unfoldable pub build_address : ℕ → Option Addr → List ℕ
build_address dlci flags =
    let addr_sz : ℕ = if ltb 1023 dlci then 4 else 2 in
    elim flags [
      | some f ↦ encode_dlci_with_flags dlci f.fecn f.becn f.de f.cr addr_sz
      | none ↦ encode_dlci dlci addr_sz
    ]

-- `next` is the address of the local buffer that the check sequence is computed over. `none` is the
-- return value 0: the frame does not fit.
unfoldable pub build_ui_frame : ℕ → ℕ → ℕ → List ℕ → Option Addr → Option (List ℕ)
build_ui_frame next max_len dlci bytes flags =
    let raw_max : ℕ = fr_max_framesz + 16 in
    let address = build_address dlci flags in
    let body = address ++ (fr_ctrl_ui ∷ bytes) in
    let fcs = crc16_fcs next body in
    let raw = body ++ (u8 (bit_and fcs 0xFF) ∷ u8 (fcs >>> 8) ∷ []) in
    let stuffed = hdlc_stuff raw (fr_max_framesz * 2 + 16) in
    if ltb raw_max (length address)
    then none
    else if ltb raw_max (length address + 1)
    then none
    else if ltb 0 (length bytes) && ltb raw_max (length address + 1 + length bytes)
    then none
    else if ltb raw_max (length body + 2)
    then none
    else if ltb max_len (length stuffed + 2)
    then none
    else some (hdlc_flag ∷ (stuffed ++ (hdlc_flag ∷ [])))

-- Size calculations.
pub max_info_size : ℕ → ℕ
max_info_size frame_size = if leb frame_size 8 then 0 else frame_size - 8

pub calc_frame_size : ℕ → ℕ
calc_frame_size info_size = (info_size + 8) % 2 ^ 64

-- What `fr_get_control` returns and leaves in `*pf`, `*nr` and `*ns`; `none` is an out parameter
-- that it does not write.
pub record Control : Type 0 where
  pub kind : ℕ
  pub pf : ℕ
  pub nr : Option ℕ
  pub ns : Option ℕ

-- `none` is the return value -1. `frame[3]` is read whether or not `len` reaches it.
unfoldable pub get_control : List ℕ → Option Control
get_control frame =
    let ctrl = octet frame 2 in
    let class = bit_and ctrl 0x03 in
    let pf = bit_and (ctrl >>> 4) 0x01 in
    let nr = bit_and (octet frame 3 >>> 1) 0x07 in
    if ltb (length frame) 3
    then none
    else if class == 0x00
    then if ltb (length frame) 4
      then none
      else some (record { kind = 0; pf = pf; nr = some nr; ns = some (bit_and (ctrl >>> 1) 0x07) })
    else if class == 0x01
    then some (record { kind = 1; pf = pf; nr = some nr; ns = none })
    else if class == 0x03
    then some (record { kind = 2; pf = pf; nr = none; ns = none })
    else none
