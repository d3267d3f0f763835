-- ===== src/Lmi/Continue.antt =====
-- lmi_ansi_init, lmi_q933a_init, lmi_gof_init and lmi_cisco_build_status of src/pvc, and how
-- src/switching/fr_switch.c tells the stack of a message and goes on with a segmented report.
use vfrs.Common.{
  ℕ, ◌+◌, ◌-◌, ◌*◌, Bool, true, ◌&&◌, List, [], ◌∷◌, ◌++◌, ltb, leb, ◌==◌, if◌then◌else◌, length,
  get_or, u8, u16,
}
use vfrs.Lapf.{timer_set}
use vfrs.Lmi.{LmiType, no_lmi, ansi, q933a, cisco, Lmi, LmiPort, lmi_init_state, lmi_inc_seq}
use vfrs.Lmi.Elements.{lmi_build_header, report_type_ie, link_integrity_ie, gof_pvc_status_ie}
use vfrs.Lmi.Poll.{send_enquiry}
use vfrs.Lmi.Handle.{Answer, continued, handle_frame, gof_handle_frame}
use vfrs.Lmi.Status.{Item, item_status, next_numbers}

-- The context of a port, of the given stack; parameters of 0 keep the defaults.
unfoldable pub lmi_init : LmiType → ℕ → ℕ → ℕ → ℕ → Lmi
unfolding lmi_init_state
lmi_init type now t392 n392 n393 =
    let l = lmi_init_state now type in
    record l {
      t392 = if ltb 0 t392 then u16 t392 else l.t392;
      n392 = if ltb 0 n392 then u8 n392 else l.n392;
      n393 = if ltb 0 n393 then u8 n393 else l.n393;
    }

-- The loop of Cisco's builder over the items: it stops, without a segment, when there is no room.
unfoldable pub gof_list_items : ℕ → ℕ → ℕ → List Item → List ℕ × List Item
unfolding gof_pvc_status_ie
gof_list_items max_len txsn pos [] = ([], [])
gof_list_items max_len txsn pos (item ∷ items) =
    let sent = if item.is_new then record item { new_txsn = txsn } else item in
    let ie = gof_pvc_status_ie (max_len - pos) item.dlci (item_status item) in
    let rest = gof_list_items max_len txsn (pos + length ie) items in
    if leb (pos + 5) max_len then (ie ++ rest.0, sent ∷ rest.1) else ([], item ∷ items)

-- `lmi_cisco_build_status`
unfoldable pub gof_build_status : ℕ → Bool → List Item → LmiPort → List ℕ × List Item × LmiPort
unfolding lmi_build_header report_type_ie link_integrity_ie gof_list_items lmi_inc_seq
gof_build_status max_len full_status items p =
    let noted = record p.lmi { dce_last_was_full = full_status } in
    let head = lmi_build_header p max_len 0x09 ++ (0x7D ∷ []) in
    let asked =
      head ++ report_type_ie cisco (max_len - length head) (if full_status then 0x00 else 0x01) in
    let l = next_numbers max_len (length asked) noted in
    let liv =
      asked ++ link_integrity_ie cisco (max_len - length asked) l.dce_seq_send l.dte_seq_recv in
    let listed = gof_list_items max_len l.dce_seq_send (length liv) items in
    if ltb max_len (length head)
    then ([], items, record p { lmi = noted })
    else if full_status
    then (liv ++ listed.0, listed.1, record p { lmi = l })
    else (liv, items, record p { lmi = l })

-- The stack that a message on DLCI `dlci` is taken for, whose information field starts at the
-- protocol discriminator. `0xA3` is an enquiry of Q.933.
unfoldable pub detected_type : ℕ → List ℕ → LmiPort → LmiType
detected_type dlci message p =
    if get_or message 2 0 == 0xA3
    then q933a
    else if dlci == 1023
    then cisco
    else if dlci == 0
    then if leb 4 (length message) && (get_or message 3 0 == 0x95) then ansi else q933a
    else p.lmi.type

-- The handler by the stack; ANSI's is the default.
unfoldable pub by_stack : LmiType → ℕ → List ℕ → LmiPort → Answer × LmiPort
unfolding handle_frame gof_handle_frame
by_stack q933a now message p = handle_frame q933a now message p
by_stack cisco now message p = gof_handle_frame message p
by_stack ansi now message p = handle_frame ansi now message p
by_stack no_lmi now message p = handle_frame ansi now message p

-- After a report that is to be continued the next enquiry is sent at once, and T391 starts again.
unfoldable pub continue_report : ℕ → LmiPort → LmiPort
unfolding send_enquiry lmi_inc_seq
continue_report now p =
    let asked = send_enquiry (record p {
      lmi = record p.lmi {
        dte_seq_send = lmi_inc_seq p.lmi.dte_seq_send;
        dte_last_request_was_full = true;
      };
    }) in
    record asked { lmi = record asked.lmi { t391_timer = timer_set now (asked.lmi.t391 * 1000) } }

-- A STATUS in the switch; the stack that is detected is the port's.
unfoldable pub switch_status : ℕ → ℕ → List ℕ → LmiPort → LmiPort
unfolding detected_type by_stack continue_report
switch_status now dlci message p =
    let done = by_stack (detected_type dlci message p) now message p in
    elim done.0 [ continued ↦ continue_report now done.1 | _ ↦ done.1 ]
