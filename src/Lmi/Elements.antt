-- ===== src/Lmi/Elements.antt =====
-- The information elements and the messages of LMI that src/pvc/pvc_lmi_ansi.c,
-- src/pvc/pvc_lmi_q933a.c, src/pvc/pvc_lmi_gof.c and src/pvc/pvc_lmi_common.c build, and the parser of
-- the PVC status. A builder gives the octets that it writes.
use vfrs.Common.{
  ℕ, ◌+◌, ◌-◌, Bool, true, false, not, ◌&&◌, ◌||◌, Option, none, some, List, [], ◌∷◌, ◌++◌, bit_and,
  bit_or, ltb, leb, ◌==◌, if◌then◌else◌, length, get_or, u8, ◌>>>◌, ◌<<<◌,
}
use vfrs.Lmi.{LmiType, no_lmi, ansi, q933a, cisco, LmiPort, lmi_port_dlci_len}

-- The codes `LMI_IE_*_ANSI` and `LMI_IE_*_Q933A`. Cisco's are those of ANSI.
abbrev pub ie_report_type : LmiType → ℕ
ie_report_type q933a = 0x51
ie_report_type _ = 0x01

abbrev pub ie_link_integrity : LmiType → ℕ
ie_link_integrity q933a = 0x53
ie_link_integrity _ = 0x03

abbrev pub ie_pvc_status : LmiType → ℕ
ie_pvc_status q933a = 0x57
ie_pvc_status _ = 0x07

unfoldable pub report_type_ie : LmiType → ℕ → ℕ → List ℕ
report_type_ie type max_len report_type =
    if ltb max_len 3 then [] else (ie_report_type type ∷ 0x01 ∷ report_type ∷ [])

unfoldable pub link_integrity_ie : LmiType → ℕ → ℕ → ℕ → List ℕ
link_integrity_ie type max_len send_seq recv_seq =
    if ltb max_len 4 then [] else (ie_link_integrity type ∷ 0x02 ∷ send_seq ∷ recv_seq ∷ [])

-- `lmi_ansi_build_pvc_status_ie` and `lmi_q933a_build_pvc_status_ie`
unfoldable pub pvc_status_ie : LmiType → ℕ → ℕ → ℕ → ℕ → List ℕ
pvc_status_ie type max_len dlci status dlci_len =
    if dlci_len == 4 || ltb 1023 dlci
    then if ltb max_len 7
      then []
      else (ie_pvc_status type
          ∷ 0x05
          ∷ u8 (bit_and (dlci >>> 17) 0x3F)
          ∷ u8 (bit_and (dlci >>> 13) 0x0F <<< 3)
          ∷ u8 (bit_and (dlci >>> 6) 0x7F)
          ∷ u8 (bit_or (bit_and dlci 0x3F <<< 1) 0x80)
          ∷ bit_or status 0x80
          ∷ [])
    else if ltb max_len 5
    then []
    else (ie_pvc_status type
        ∷ 0x03
        ∷ u8 (bit_and (dlci >>> 4) 0x3F)
        ∷ u8 (bit_or (bit_and dlci 0x0F <<< 3) 0x80)
        ∷ bit_or status 0x80
        ∷ [])

-- `lmi_gof_build_pvc_status_ie`, which has no format of four octets.
unfoldable pub gof_pvc_status_ie : ℕ → ℕ → ℕ → List ℕ
gof_pvc_status_ie max_len dlci status =
    if ltb max_len 5
    then []
    else (0x07
        ∷ 0x03
        ∷ u8 (bit_and (dlci >>> 4) 0x3F)
        ∷ u8 (bit_or (bit_and dlci 0x0F <<< 3) 0x80)
        ∷ bit_or status 0x80
        ∷ [])

-- The DLCI and the status. `len` is the length that the caller passes; an octet outside the list is
-- read as 0, and is not reached when `len` is its length.
unfoldable pub parse_pvc_status_ie : LmiType → List ℕ → ℕ → Option (ℕ × ℕ)
parse_pvc_status_ie type buf len =
    let at : ℕ → ℕ = λ i. get_or buf i 0 in
    if ltb len 2
    then none
    else if not (at 0 == ie_pvc_status type)
    then none
    else if ltb len (at 1 + 2)
    then none
    else if at 1 == 3
    then some (bit_or (bit_and (at 2) 0x3F <<< 4) (bit_and (at 3) 0x78 >>> 3), at 4)
    else if at 1 == 5
    then some (
      bit_or
          (bit_or (bit_or (bit_and (at 2) 0x3F <<< 17) ((bit_and (at 3) 0x78 >>> 3) <<< 13))
            (bit_and (at 4) 0x7F <<< 6))
          (bit_and (at 5) 0x7E >>> 1),
      at 6,
    )
    else none

-- DLCI 1023 for Cisco, DLCI 0 otherwise.
abbrev pub short_address : LmiType → List ℕ
short_address cisco = 0xFC ∷ 0xF1 ∷ []
short_address _ = 0x00 ∷ 0x01 ∷ []

-- The address, UI, protocol discriminator and call reference; empty when the buffer is too small.
unfoldable pub lmi_build_header : LmiPort → ℕ → ℕ → List ℕ
lmi_build_header p max_len protocol_disc =
    let address : List ℕ =
      if lmi_port_dlci_len p == 4 then (0 ∷ 0 ∷ 0 ∷ 1 ∷ []) else short_address p.lmi.type in
    if ltb max_len (length address + 3)
    then []
    else address ++ (0x03 ∷ u8 protocol_disc ∷ 0x00 ∷ [])

abbrev pub protocol_disc_of : LmiType → ℕ
protocol_disc_of cisco = 0x09
protocol_disc_of _ = 0x08

-- What stands between the header and the report type: STATUS or STATUS ENQUIRY, and the shift to
-- codeset 5 of ANSI.
abbrev pub message_octets : LmiType → ℕ → List ℕ
message_octets ansi message = message ∷ 0x95 ∷ []
message_octets _ message = message ∷ []

abbrev pub segmented : LmiType → Bool
segmented ansi = true
segmented q933a = true
segmented _ = false

-- `last_report_type == 0x04` asks for the rest of a segmented report; Cisco's has none.
unfoldable pub enquiry_report_type : LmiPort → ℕ
enquiry_report_type p =
    if segmented p.lmi.type && (p.lmi.last_report_type == 0x04)
    then 0x04
    else if leb p.lmi.n391 p.lmi.polls_since_full
    then 0x00
    else 0x01

abbrev pub has_lmi : LmiType → Bool
has_lmi no_lmi = false
has_lmi _ = true

-- `lmi_ansi_build_enquiry`, `lmi_q933a_build_enquiry` and `lmi_cisco_build_enquiry`, which differ by
-- their codes; a port of no type has no message.
unfoldable pub build_enquiry : LmiPort → ℕ → List ℕ
unfolding lmi_build_header report_type_ie link_integrity_ie enquiry_report_type
build_enquiry p max_len =
    let type = p.lmi.type in
    let head = lmi_build_header p max_len (protocol_disc_of type) ++ message_octets type 0x75 in
    let asked = head ++ report_type_ie type (max_len - length head) (enquiry_report_type p) in
    if has_lmi type && leb (length head) max_len
    then asked
      ++ link_integrity_ie type (max_len - length asked) p.lmi.dte_seq_send p.lmi.dte_dce_seq_recv
    else []
