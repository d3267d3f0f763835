-- ===== src/Frame/Hdlc.antt =====
-- Octet stuffing for asynchronous HDLC: hdlc_stuff and hdlc_unstuff of src/switching/fr_frame.c.
-- A routine gives the octets that it writes; `j` is the number written so far.
pub mod Laws
use vfrs.Common.{ℕ, suc, ◌+◌, Bool, ◌||◌, List, [], ◌∷◌, bit_xor, ltb, leb, ◌==◌, if◌then◌else◌}

abbrev pub hdlc_flag : ℕ
hdlc_flag = 0x7E

abbrev pub hdlc_escape : ℕ
hdlc_escape = 0x7D

abbrev pub hdlc_esc_mask : ℕ
hdlc_esc_mask = 0x20

abbrev pub escapes : ℕ → Bool
escapes byte = byte == hdlc_flag || byte == hdlc_escape

unfoldable pub stuff_from : ℕ → ℕ → List ℕ → List ℕ
stuff_from out_max j [] = []
stuff_from out_max j (byte ∷ bytes) =
    let escaped = hdlc_escape ∷ bit_xor byte hdlc_esc_mask ∷ stuff_from out_max (j + 2) bytes in
    let plain = byte ∷ stuff_from out_max (j + 1) bytes in
    if escapes byte
    then if ltb out_max (j + 2) then [] else escaped
    else if ltb out_max (j + 1)
    then []
    else plain

unfoldable pub hdlc_stuff : List ℕ → ℕ → List ℕ
unfolding stuff_from
hdlc_stuff bytes out_max = stuff_from out_max 0 bytes

unfoldable pub unstuff_from : ℕ → ℕ → List ℕ → List ℕ
unstuff_from out_max j [] = []
unstuff_from out_max j (byte ∷ []) =
    if leb out_max j then [] else if byte == hdlc_escape then [] else byte ∷ []
unstuff_from out_max j (byte ∷ next ∷ bytes) =
    let escaped = bit_xor next hdlc_esc_mask ∷ unstuff_from out_max (j + 1) bytes in
    let plain = byte ∷ unstuff_from out_max (j + 1) (next ∷ bytes) in
    if leb out_max j then [] else if byte == hdlc_escape then escaped else plain

unfoldable pub hdlc_unstuff : List ℕ → ℕ → List ℕ
unfolding unstuff_from
hdlc_unstuff bytes out_max = unstuff_from out_max 0 bytes
