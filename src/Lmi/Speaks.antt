-- ===== src/Lmi/Speaks.antt =====
-- The messages of ANSI and Q.933 that carry the sequence numbers alone, and how the handlers take them.
use vfrs.Common.{
  ℕ, ◌+◌, ◌≡◌, ◌⊎◌, refl, true, false, List, [], ◌∷◌, ==_refl, length, drop, arith, inl, inr,
}
use vfrs.Frame.Addr.{get_addr_len}
use vfrs.Lmi.{LmiType, ansi, q933a, LmiPort, lmi_port_dlci_len, lmi_inc_seq}
use vfrs.Lmi.Elements.{
  build_enquiry, enquiry_report_type, lmi_build_header, report_type_ie, link_integrity_ie,
}
use vfrs.Lmi.Handle.{nothing, reply, handle_frame, read_ies, read_ie, on_status, accept_report}
use vfrs.Lmi.Status.{Item, build_status}

-- The message after the address and the control octet, as `fr_switch_input_processed` and
-- `send_lmi_status_response` find it.
unfoldable pub message_in : List ℕ → List ℕ
unfolding get_addr_len
message_in octets = drop (get_addr_len octets (length octets) + 1) octets

-- A message of a report type with sequence numbers, with the codes of ANSI.
abbrev ansi_message : ℕ → ℕ → ℕ → ℕ → List ℕ
ansi_message message report send_seq recv_seq =
    0x08 ∷ 0x00 ∷ message ∷ 0x95 ∷ 0x01 ∷ 0x01 ∷ report ∷ 0x03 ∷ 0x02 ∷ send_seq ∷ recv_seq ∷ []

abbrev q933a_message : ℕ → ℕ → ℕ → ℕ → List ℕ
q933a_message message report send_seq recv_seq =
    0x08 ∷ 0x00 ∷ message ∷ 0x51 ∷ 0x01 ∷ report ∷ 0x53 ∷ 0x02 ∷ send_seq ∷ recv_seq ∷ []

width-cases : (p : LmiPort) → (lmi_port_dlci_len p ≡ 4) ⊎ (lmi_port_dlci_len p ≡ 2)
unfolding lmi_port_dlci_len
width-cases p = ground arith

ansi_enquiry :
    (p : LmiPort)
    → p.lmi.type ≡ ansi
    → message_in (build_enquiry p 254)
      ≡ ansi_message 0x75 (enquiry_report_type p) p.lmi.dte_seq_send p.lmi.dte_dce_seq_recv
unfolding message_in get_addr_len build_enquiry lmi_build_header report_type_ie link_integrity_ie
ansi_enquiry p t = elim (width-cases p) [ inl w ↦ rw (w, t) refl | inr w ↦ rw (w, t) refl ]

q933a_enquiry :
    (p : LmiPort)
    → p.lmi.type ≡ q933a
    → message_in (build_enquiry p 254)
      ≡ q933a_message 0x75 (enquiry_report_type p) p.lmi.dte_seq_send p.lmi.dte_dce_seq_recv
unfolding message_in get_addr_len build_enquiry lmi_build_header report_type_ie link_integrity_ie
q933a_enquiry p t = elim (width-cases p) [ inl w ↦ rw (w, t) refl | inr w ↦ rw (w, t) refl ]

ansi_status :
    (items : List Item) (q : LmiPort)
    → q.lmi.type ≡ ansi
    → message_in (build_status 512 false items q).0
      ≡ ansi_message 0x7D 0x01 (lmi_inc_seq q.lmi.dce_seq_send) q.lmi.dte_seq_recv
unfolding message_in get_addr_len build_status lmi_build_header report_type_ie link_integrity_ie
ansi_status items q t = elim (width-cases q) [ inl w ↦ rw (w, t) refl | inr w ↦ rw (w, t) refl ]

q933a_status :
    (items : List Item) (q : LmiPort)
    → q.lmi.type ≡ q933a
    → message_in (build_status 512 false items q).0
      ≡ q933a_message 0x7D 0x01 (lmi_inc_seq q.lmi.dce_seq_send) q.lmi.dte_seq_recv
unfolding message_in get_addr_len build_status lmi_build_header report_type_ie link_integrity_ie
q933a_status items q t = elim (width-cases q) [ inl w ↦ rw (w, t) refl | inr w ↦ rw (w, t) refl ]

-- The network side after an enquiry, and the user side after its answer.
abbrev pub enquired : ℕ → ℕ → ℕ → LmiPort → LmiPort
enquired report send_seq recv_seq q = record q {
  lmi = record q.lmi {
    last_report_type = report;
    dte_seq_recv = send_seq;
    dce_seq_recv = recv_seq;
  };
}

abbrev pub heard : ℕ → LmiPort → LmiPort
heard send_seq p = record p {
  lmi = record p.lmi {
    last_report_type = 0x01;
    dte_dce_seq_recv = send_seq;
    dte_status_received = true;
  };
}

ansi_enquired :
    (now report send_seq recv_seq : ℕ) (q : LmiPort)
    → handle_frame ansi now (ansi_message 0x75 report send_seq recv_seq) q
      ≡ (reply, enquired report send_seq recv_seq q)
unfolding handle_frame read_ies read_ie
ansi_enquired now report send_seq recv_seq q = refl

q933a_enquired :
    (now report send_seq recv_seq : ℕ) (q : LmiPort)
    → handle_frame q933a now (q933a_message 0x75 report send_seq recv_seq) q
      ≡ (reply, enquired report send_seq recv_seq q)
unfolding handle_frame read_ies read_ie
q933a_enquired now report send_seq recv_seq q = refl

ansi_heard :
    (now send_seq : ℕ) (p : LmiPort)
    → p.lmi.dte_last_request_was_full ≡ false
    → handle_frame ansi now (ansi_message 0x7D 0x01 send_seq p.lmi.dte_seq_send) p
      ≡ (nothing, heard send_seq p)
unfolding handle_frame read_ies read_ie on_status accept_report
ansi_heard now send_seq p f = simp (f, ==_refl p.lmi.dte_seq_send)

q933a_heard :
    (now send_seq : ℕ) (p : LmiPort)
    → p.lmi.dte_last_request_was_full ≡ false
    → handle_frame q933a now (q933a_message 0x7D 0x01 send_seq p.lmi.dte_seq_send) p
      ≡ (nothing, heard send_seq p)
unfolding handle_frame read_ies read_ie on_status accept_report
q933a_heard now send_seq p f = simp (f, ==_refl p.lmi.dte_seq_send)

ansi_status-seq :
    (items : List Item) (q : LmiPort)
    → q.lmi.type ≡ ansi
    → (build_status 512 false items q).2.lmi.dce_seq_send ≡ lmi_inc_seq q.lmi.dce_seq_send
unfolding build_status lmi_build_header report_type_ie
ansi_status-seq items q t = elim (width-cases q) [ inl w ↦ rw (w, t) refl | inr w ↦ rw (w, t) refl ]

q933a_status-seq :
    (items : List Item) (q : LmiPort)
    → q.lmi.type ≡ q933a
    → (build_status 512 false items q).2.lmi.dce_seq_send ≡ lmi_inc_seq q.lmi.dce_seq_send
unfolding build_status lmi_build_header report_type_ie
q933a_status-seq items q t = elim (width-cases q) [
  | inl w ↦ rw (w, t) refl
  | inr w ↦ rw (w, t) refl
]

-- What a stack's messages are, and how its handler takes them.
pub record Speaks (type : LmiType) : Type 0 where
  pub message : ℕ → ℕ → ℕ → ℕ → List ℕ
  pub enquiry :
      (p : LmiPort)
      → p.lmi.type ≡ type
      → message_in (build_enquiry p 254)
        ≡ message 0x75 (enquiry_report_type p) p.lmi.dte_seq_send p.lmi.dte_dce_seq_recv
  pub status :
      (items : List Item) (q : LmiPort)
      → q.lmi.type ≡ type
      → message_in (build_status 512 false items q).0
        ≡ message 0x7D 0x01 (lmi_inc_seq q.lmi.dce_seq_send) q.lmi.dte_seq_recv
  pub status_seq :
      (items : List Item) (q : LmiPort)
      → q.lmi.type ≡ type
      → (build_status 512 false items q).2.lmi.dce_seq_send ≡ lmi_inc_seq q.lmi.dce_seq_send
  pub takes_enquiry :
      (now report send_seq recv_seq : ℕ) (q : LmiPort)
      → handle_frame type now (message 0x75 report send_seq recv_seq) q
        ≡ (reply, enquired report send_seq recv_seq q)
  pub takes_status :
      (now send_seq : ℕ) (p : LmiPort)
      → p.lmi.dte_last_request_was_full ≡ false
      → handle_frame type now (message 0x7D 0x01 send_seq p.lmi.dte_seq_send) p
        ≡ (nothing, heard send_seq p)

pub ansi-Speaks : Speaks ansi
ansi-Speaks = record {
  message = ansi_message;
  enquiry = ansi_enquiry;
  status = ansi_status;
  status_seq = ansi_status-seq;
  takes_enquiry = ansi_enquired;
  takes_status = ansi_heard;
}

pub q933a-Speaks : Speaks q933a
q933a-Speaks = record {
  message = q933a_message;
  enquiry = q933a_enquiry;
  status = q933a_status;
  status_seq = q933a_status-seq;
  takes_enquiry = q933a_enquired;
  takes_status = q933a_heard;
}
