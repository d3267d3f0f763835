-- ===== src/Lmi/Status.antt =====
-- lmi_ansi_build_status and lmi_q933a_build_status of src/pvc/pvc_lmi_ansi.c and pvc_lmi_q933a.c, and
-- how the network side answers an enquiry, in send_lmi_status_response of src/switching/fr_switch.c.
-- The items that the builder collects and sorts are an argument.
use vfrs.Common.{
  ℕ, suc, ◌+◌, ◌-◌, ◌*◌, ◌^◌, Bool, true, false, not, ◌&&◌, ◌||◌, Option, none, some, List, [], ◌∷◌,
  ◌++◌, bit_and, bit_or, ltb, leb, ◌==◌, if◌then◌else◌, length, drop, take, u8, u16,
}
use vfrs.Lapf.{timer_set}
use vfrs.Lmi.{LmiType, Lmi, LmiPort, lmi_inc_seq, lmi_port_dlci_len}
use vfrs.Lmi.Elements.{
  lmi_build_header, protocol_disc_of, message_octets, report_type_ie, link_integrity_ie,
  pvc_status_ie,
}
use vfrs.Lmi.Poll.{shift_in, count_errors, propagate}

-- `lmi_status_item_t`, with the octet that `new_txsn_ptr` points to.
pub record Item : Type 0 where
  pub dlci : ℕ
  pub status : ℕ
  pub is_new : Bool
  pub new_txsn : ℕ

-- What the loop over the items gives: the octets, the items, and the place to go on from.
pub record Listing : Type 0 where
  pub octets : List ℕ
  pub items : List Item
  pub next : Option ℕ

abbrev pub item_status : Item → ℕ
item_status item = if item.is_new then bit_or item.status 0x08 else item.status

-- The loop, at `pos` of a buffer of `max_len` octets, of which the last two are kept free.
unfoldable pub list_items : LmiType → ℕ → ℕ → ℕ → ℕ → ℕ → List Item → Listing
unfolding pvc_status_ie
list_items type max_len dlci_len txsn pos i [] = record { octets = []; items = []; next = none }
list_items type max_len dlci_len txsn pos i (item ∷ items) =
    let sent = if item.is_new then record item { new_txsn = txsn } else item in
    let ie_sz : ℕ = if dlci_len == 4 || ltb 1023 item.dlci then 7 else 5 in
    let mtu : ℕ = if ltb 2 max_len then max_len - 2 else max_len in
    let ie = pvc_status_ie type (max_len - pos) item.dlci (item_status item) dlci_len in
    let rest = list_items type max_len dlci_len txsn (pos + length ie) (suc i) items in
    if ltb mtu (pos + ie_sz)
    then record { octets = []; items = sent ∷ items; next = some i }
    else record { octets = ie ++ rest.octets; items = sent ∷ rest.items; next = rest.next }

-- The sequence number is incremented before it is placed, if the element has room.
abbrev pub next_numbers : ℕ → ℕ → Lmi → Lmi
next_numbers max_len pos l =
    if leb 4 (max_len - pos) then record l { dce_seq_send = lmi_inc_seq l.dce_seq_send } else l

-- The state of segmentation after the loop.
abbrev pub segment : Option ℕ → Lmi → Lmi
segment none l = record l { segment_active = false; pvc_send_index = 0 }
segment (some i) l = record l { segment_active = true; pvc_send_index = i }

abbrev pub is_some : Option ℕ → Bool
is_some none = false
is_some (some i) = true

-- The items from the place where the last segment ended.
abbrev pub resume_at : Lmi → ℕ
resume_at l = if l.segment_active then l.pvc_send_index else 0

-- The report type is written first, and becomes 4 when more is to come.
unfoldable pub build_status : ℕ → Bool → List Item → LmiPort → List ℕ × List Item × LmiPort
unfolding lmi_build_header report_type_ie link_integrity_ie list_items lmi_inc_seq
build_status max_len full_status items p =
    let type = p.lmi.type in
    let noted = record p.lmi { dce_last_was_full = full_status } in
    let head = lmi_build_header p max_len (protocol_disc_of type) ++ message_octets type 0x7D in
    let integrity = length (head ++ report_type_ie type (max_len - length head) 0x01) in
    let l = next_numbers max_len integrity noted in
    let liv = link_integrity_ie type (max_len - integrity) l.dce_seq_send l.dte_seq_recv in
    let start = resume_at l in
    let listed =
      list_items type max_len (lmi_port_dlci_len p) l.dce_seq_send (integrity + length liv) start
        (drop start items) in
    let report : ℕ → List ℕ =
      λ report_type. head ++ report_type_ie type (max_len - length head) report_type ++ liv in
    if ltb max_len (length head)
    then ([], items, record p { lmi = noted })
    else if full_status
    then (
      report (if is_some listed.next then 0x04 else 0x00) ++ listed.octets,
      take start items ++ listed.items,
      record p { lmi = segment listed.next l },
    )
    else (report 0x01, items, record p { lmi = l })

-- What `send_lmi_status_response` does to the monitoring of the network side, of which
-- `is_error` is the event.
abbrev pub dce_error : Lmi → Bool
dce_error l =
    not (l.dce_seq_recv == l.dce_seq_send) && not (l.dce_link_down && (l.dce_seq_recv == 0))

unfoldable pub dce_condition : LmiPort → LmiPort
unfolding count_errors
dce_condition p =
    let l = p.lmi in
    if leb l.n392 (count_errors l.n393 l.dce_history)
    then if l.dce_link_down
      then p
      else propagate (record p { lmi = record l { dce_link_down = true } })
    else if (bit_and l.dce_history (u16 (2 ^ l.n392 - 1)) == 0) && l.dce_link_down
    then propagate (record p { lmi = record l { dce_link_down = false } })
    else p

-- The event of an enquiry.
unfoldable pub dce_event : LmiPort → LmiPort
unfolding shift_in dce_condition
dce_event p =
    let l = p.lmi in
    let error = dce_error l in
    dce_condition (record p {
      lmi = record l {
        dce_errors = if error then u8 (l.dce_errors + 1) else l.dce_errors;
        dce_events = u8 (l.dce_events + 1);
        dce_history = shift_in l.n393 error l.dce_history;
      };
    })

-- A full status is due when the enquiry asks for it, or when the last one was lost.
abbrev pub full_status_due : LmiPort → Bool
full_status_due p =
    let l = p.lmi in
    (l.last_report_type == 0x00)
    || (l.last_report_type == 0x04)
    || (dce_error l && l.dce_last_was_full)

-- A fresh request for a full status starts the segments anew.
abbrev pub fresh_segments : Lmi → Lmi
fresh_segments l =
    if l.last_report_type == 0x00
    then record l { segment_active = false; pvc_send_index = 0 }
    else l

-- The port of the enquiry after its event, from which the answer is built; the acknowledgement of the
-- New bits is left out. `full` says whether a full status is due.
unfoldable pub before_status : ℕ → LmiPort → LmiPort
unfolding dce_event
before_status now p =
    let judged = dce_event p in
    let l =
      fresh_segments (record judged.lmi { t392_timer = timer_set now (judged.lmi.t392 * 1000) }) in
    record judged { lmi = if full_status_due p then l else record l { dce_last_was_full = false } }

-- The answer to an enquiry, in a buffer of 512 octets.
unfoldable pub answer_enquiry : ℕ → List Item → LmiPort → List ℕ × List Item × LmiPort
unfolding before_status build_status
answer_enquiry now items p = build_status 512 (full_status_due p) items (before_status now p)
