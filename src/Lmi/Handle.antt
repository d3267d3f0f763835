-- ===== src/Lmi/Handle.antt =====
-- lmi_ansi_handle_frame and lmi_q933a_handle_frame of src/pvc/pvc_lmi_ansi.c and pvc_lmi_q933a.c, which
-- differ by their codes and in one test, and lmi_gof_handle_frame of src/pvc/pvc_lmi_gof.c. A frame
-- starts at the protocol discriminator.
use vfrs.Common.{
  ℕ, suc, zero, ◌+◌, Bool, true, false, not, ◌&&◌, ◌||◌, Option, none, some, List, [], ◌∷◌, bit_and,
  ltb, leb, ◌==◌, if◌then◌else◌, length, drop, get_or, u16, ◌>>>◌, ◌<<<◌,
}
use vfrs.Numbering.Register.{same_text}
use vfrs.Lapf.{timer_set}
use vfrs.Lmi.{LmiType, q933a, Lmi, LmiPort, Pvc, DlciEntry}
use vfrs.Lmi.Elements.{
  ie_report_type, ie_link_integrity, ie_pvc_status, parse_pvc_status_ie, protocol_disc_of,
}

-- The return values -1, 0, 1 and 2.
pub data Answer : Type 0 where
  refused nothing reply continued : Answer

-- `port_lookup_dlci`. A port of ten bits has no entry above 1023.
unfoldable pub find_entry : ℕ → List DlciEntry → Option DlciEntry
find_entry dlci [] = none
find_entry dlci (e ∷ entries) = if e.dlci_in == dlci then some e else find_entry dlci entries

-- `entry->active = active` for the entry that the look-up gives.
unfoldable pub set_active : ℕ → Bool → List DlciEntry → List DlciEntry
set_active dlci active [] = []
set_active dlci active (e ∷ entries) =
    if e.dlci_in == dlci
    then (record e { active = active } ∷ entries)
    else (e ∷ set_active dlci active entries)

-- `pvc->active = active; pvc->lmi_reported = 1` at a place of the table.
unfoldable pub report_at : ℕ → Bool → List Pvc → List Pvc
report_at i active [] = []
report_at zero active (pvc ∷ pvcs) = record pvc { active = active; lmi_reported = true } ∷ pvcs
report_at (suc i) active (pvc ∷ pvcs) = pvc ∷ report_at i active pvcs

-- `status & LMI_PVC_ACTIVE`
abbrev pub says_active : ℕ → Bool
says_active status = not (bit_and status 0x02 == 0)

unfoldable pub report_pvc : ℕ → ℕ → LmiPort → LmiPort
unfolding find_entry set_active report_at
report_pvc dlci status p =
    let active = says_active status in
    elim (find_entry dlci p.entries) [
      | none ↦ p
      | some e ↦
          let marked = record p { entries = set_active dlci active p.entries } in
          elim e.detail [
            | none ↦ marked
            | some i ↦ record marked { pvcs = report_at i active p.pvcs }
          ]
    ]

-- The variables of the loop over the elements, with the port.
pub record Reading : Type 0 where
  pub send_seq : ℕ
  pub recv_seq : ℕ
  pub liv_present : Bool
  pub msg_max_dlci : ℕ
  pub port : LmiPort

abbrev pub read_report_type : ℕ → List ℕ → Reading → Reading
read_report_type ie_len contents r =
    let p = r.port in
    if leb 1 ie_len
    then record r {
      port = record p { lmi = record p.lmi { last_report_type = get_or contents 0 0 } };
    }
    else r

abbrev pub read_link_integrity : ℕ → List ℕ → Reading → Reading
read_link_integrity ie_len contents r =
    if leb 2 ie_len
    then record r {
      send_seq = get_or contents 0 0;
      recv_seq = get_or contents 1 0;
      liv_present = true;
    }
    else r

-- The parser is given `ie_len + 2` octets from the element on, whether or not the frame has them.
unfoldable pub read_pvc_status : LmiType → List ℕ → ℕ → Reading → Reading
unfolding parse_pvc_status_ie report_pvc
read_pvc_status type ie len r = elim (parse_pvc_status_ie type ie len) [
  | none ↦ r
  | some found ↦ record r {
    msg_max_dlci = if ltb r.msg_max_dlci found.0 then found.0 else r.msg_max_dlci;
    port = report_pvc found.0 found.1 r.port;
  }
]

-- One element, by its identifier. An octet beyond the frame is read as 0.
unfoldable pub read_ie : LmiType → ℕ → ℕ → List ℕ → Reading → Reading
unfolding read_pvc_status
read_ie type ie_id ie_len contents r =
    if ie_id == ie_report_type type
    then read_report_type ie_len contents r
    else if ie_id == ie_link_integrity type
    then read_link_integrity ie_len contents r
    else if ie_id == ie_pvc_status type
    then read_pvc_status type (ie_id ∷ ie_len ∷ contents) (ie_len + 2) r
    else r

-- Cisco's status has one format, which is read in place.
unfoldable pub gof_read_ie : ℕ → ℕ → List ℕ → Reading → Reading
unfolding report_pvc
gof_read_ie ie_id ie_len contents r =
    let at : ℕ → ℕ = λ i. get_or contents i 0 in
    if ie_id == 0x01
    then read_report_type ie_len contents r
    else if ie_id == 0x03
    then read_link_integrity ie_len contents r
    else if (ie_id == 0x07) && leb 3 ie_len
    then record r {
      port =
          report_pvc (u16 ((bit_and (at 0) 0x3F <<< 4) + (bit_and (at 1) 0x78 >>> 3))) (at 2)
            r.port;
    }
    else r

-- The loop over the elements, as long as two octets are left. Each round takes two octets at least, so
-- that as much fuel as there are octets is enough.
unfoldable pub read_ies : (ℕ → ℕ → List ℕ → Reading → Reading) → ℕ → List ℕ → Reading → Reading
read_ies step zero octets r = r
read_ies step (suc fuel) [] r = r
read_ies step (suc fuel) (ie_id ∷ []) r = r
read_ies step (suc fuel) (ie_id ∷ ie_len ∷ rest) r =
    read_ies step fuel (drop ie_len rest) (step ie_id ie_len rest r)

-- A circuit that the report has left out, up to the last DLCI that a segment names.
abbrev pub is_omitted : List ℕ → Bool → ℕ → Pvc → Bool
is_omitted name segment msg_max_dlci pvc =
    same_text pvc.port_in name
    && not pvc.lmi_reported
    && (if segment then leb pvc.dlci_in msg_max_dlci else true)
    && pvc.active

-- The walk over the table: the omitted circuits become inactive, with their entries.
unfoldable pub omit : (Pvc → Bool) → List Pvc → List DlciEntry → List Pvc × List DlciEntry
unfolding set_active
omit omitted [] entries = ([], entries)
omit omitted (pvc ∷ pvcs) entries =
    let entries' = if omitted pvc then set_active pvc.dlci_in false entries else entries in
    let rest = omit omitted pvcs entries' in
    ((if omitted pvc then record pvc { active = false } else pvc) ∷ rest.0, rest.1)

unfoldable pub mark_omitted : Bool → ℕ → LmiPort → LmiPort
unfolding omit
mark_omitted segment msg_max_dlci p =
    let done = omit (is_omitted p.name segment msg_max_dlci) p.pvcs p.entries in
    record p { pvcs = done.0; entries = done.1 }

-- A STATUS that is valid.
abbrev pub accept_status : ℕ → LmiPort → LmiPort
accept_status send_seq p = record p {
  lmi = record p.lmi { dte_dce_seq_recv = send_seq; dte_status_received = true };
}

-- STATUS ENQUIRY, for the network side.
abbrev pub on_enquiry : Reading → Answer × LmiPort
on_enquiry r =
    let p = r.port in
    (
      reply,
      record p { lmi = record p.lmi { dte_seq_recv = r.send_seq; dce_seq_recv = r.recv_seq } },
    )

abbrev pub is_q933a : LmiType → Bool
is_q933a q933a = true
is_q933a _ = false

-- `recv_seq` 0 is valid only while the link is down.
abbrev pub seq_valid : ℕ → Lmi → Bool
seq_valid recv_seq l = (recv_seq == l.dte_seq_send) || (l.dte_link_down && (recv_seq == 0))

unfoldable pub accept_report : ℕ → Reading → Answer × LmiPort
unfolding mark_omitted
accept_report now r =
    let report = r.port.lmi.last_report_type in
    let accepted = accept_status r.send_seq r.port in
    let marked =
      if (report == 0x00) || (report == 0x04)
      then mark_omitted (report == 0x04) r.msg_max_dlci accepted
      else accepted in
    if report == 0x04
    then (continued, record marked { lmi = record marked.lmi { t391_timer = timer_set now 1 } })
    else (nothing, marked)

-- STATUS, for the user side.
unfoldable pub on_status : LmiType → ℕ → Reading → Answer × LmiPort
unfolding accept_report
on_status type now r =
    let l = r.port.lmi in
    if l.last_report_type == 0x02
    then (nothing, r.port)
    else if is_q933a type && not r.liv_present
    then (nothing, r.port)
    else if l.dte_last_request_was_full && (l.last_report_type == 0x01)
    then (nothing, r.port)
    else if seq_valid r.recv_seq l
    then accept_report now r
    else (nothing, r.port)

-- Cisco's: no asynchronous and no segmented report.
unfoldable pub gof_on_status : Reading → Answer × LmiPort
unfolding mark_omitted
gof_on_status r =
    let l = r.port.lmi in
    let accepted = accept_status r.send_seq r.port in
    if l.dte_last_request_was_full && (l.last_report_type == 0x01)
    then (nothing, r.port)
    else if (r.recv_seq == 0) || (r.recv_seq == l.dte_seq_send)
    then (nothing, if l.last_report_type == 0x00 then mark_omitted false 0 accepted else accepted)
    else (nothing, r.port)

abbrev pub start_reading : LmiPort → Reading
start_reading p = record {
  send_seq = 0;
  recv_seq = 0;
  liv_present = false;
  msg_max_dlci = 0;
  port = p;
}

-- The locking shift to codeset 5, if it is there.
abbrev pub skip_shift : List ℕ → List ℕ
skip_shift (b ∷ octets) = if b == 0x95 then octets else (b ∷ octets)
skip_shift [] = []

-- By the message type.
abbrev pub by_message : ℕ → Answer × LmiPort → Answer × LmiPort → LmiPort → Answer × LmiPort
by_message msg_type enquiry status p =
    if msg_type == 0x75 then enquiry else if msg_type == 0x7D then status else (refused, p)

-- The frame's first octets, or nothing of it is read.
abbrev pub has_header : ℕ → List ℕ → Bool
has_header protocol_disc frame =
    leb 4 (length frame) && (get_or frame 0 0 == protocol_disc) && (get_or frame 1 0 == 0x00)

unfoldable pub handle_frame : LmiType → ℕ → List ℕ → LmiPort → Answer × LmiPort
unfolding read_ie read_ies on_status
handle_frame type now frame p =
    let body = skip_shift (drop 3 frame) in
    let r = read_ies (read_ie type) (length body) body (start_reading p) in
    if has_header (protocol_disc_of type) frame
    then by_message (get_or frame 2 0) (on_enquiry r) (on_status type now r) r.port
    else (refused, p)

unfoldable pub gof_handle_frame : List ℕ → LmiPort → Answer × LmiPort
unfolding gof_read_ie read_ies gof_on_status
gof_handle_frame frame p =
    let body = drop 3 frame in
    let r = read_ies gof_read_ie (length body) body (start_reading p) in
    if has_header 0x09 frame
    then by_message (get_or frame 2 0) (on_enquiry r) (gof_on_status r) r.port
    else (refused, p)
