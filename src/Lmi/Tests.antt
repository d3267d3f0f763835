-- ===== src/Lmi/Tests.antt =====
-- Runs of the status exchange, and the theorems at concrete ports.
use vfrs.Common.{ℕ, ◌≡◌, refl, inl, true, false, none, some, List, [], ◌∷◌, length, arith}
use vfrs.Numbering.Register.{same_text}
use vfrs.Lapf.{Line, failed}
use vfrs.Lmi.{
  ansi, q933a, cisco, Lmi, LmiPort, Pvc, DlciEntry, lmi_init_state, lmi_dte_enable,
  lmi_port_dlci_len, any_long,
}
use vfrs.Lmi.Elements.{pvc_status_ie, gof_pvc_status_ie, parse_pvc_status_ie, enquiry_report_type}
use vfrs.Lmi.Poll.{t392_expired, dte_event, lmi_poll_timer, lmi_send_async_status}
use vfrs.Lmi.Status.{Item}
use vfrs.Lmi.Continue.{lmi_init, gof_build_status, switch_status}
use vfrs.Lmi.Handle.{handle_frame, gof_handle_frame}
use vfrs.Lmi.Monitor.{errors_in, history_of}
use vfrs.Lmi.Links.{t392_expired_lem, dte_event_lem}
use vfrs.Lmi.Recovery.{answered_polls, answered_polls-recover}
use vfrs.Lmi.Sequence.{advance, lmi_inc_seq_cycle}
use vfrs.Lmi.Exchange.{InStep, exchange, exchange-InStep}
use vfrs.Lmi.RoundTrip.{parse_pvc_status_ie-pvc_status_ie}

abbrev packets : Line
packets = record {
  dlcibit = 10;
  is_serial = false;
  cgst_ctx = none;
  buffer = 0;
  driver = some (λ sent octets. some (length octets));
  sent = [];
  tx_frames = 0;
  tx_bytes = 0;
}

abbrev circuit : Pvc
circuit = record { port_in = 117 ∷ 48 ∷ []; dlci_in = 100; active = true; lmi_reported = false }

abbrev entry : DlciEntry
entry = record { dlci_in = 100; active = true; detail = some 0 }

abbrev port_with : Lmi → LmiPort
port_with l = record {
  name = 117 ∷ 48 ∷ [];
  lmi = l;
  line = packets;
  entries = entry ∷ [];
  pvcs = circuit ∷ [];
  trigger_propagate = false;
  propagated = 0;
}

-- A port at the start, a user side that has polled twice with T391 running, and a network side whose
-- channel is up after two errors in a row.
abbrev fresh : Lmi → LmiPort
fresh l = port_with l

abbrev polling : Lmi → LmiPort
polling l = port_with (record l {
  dte_events = 2;
  dte_history = 15;
  polls_since_full = 1;
  dte_seq_send = 9;
  dte_dce_seq_recv = 40;
})

abbrev failing : Lmi → LmiPort
failing l = port_with (record l { dce_link_down = false; dce_history = 3; dce_seq_send = 40 })

-- The long format of a circuit of 23 bits, and the short one.
long_format : pvc_status_ie q933a 64 5000000 2 2 ≡ 0x57 ∷ 0x05 ∷ 38 ∷ 16 ∷ 45 ∷ 128 ∷ 0x82 ∷ []
unfolding pvc_status_ie
long_format = refl

short_format : gof_pvc_status_ie 64 100 2 ≡ 0x07 ∷ 0x03 ∷ 6 ∷ 160 ∷ 0x82 ∷ []
unfolding gof_pvc_status_ie
short_format = refl

-- The first poll asks for the full status.
first_poll :
    (lmi_poll_timer 10000 (fresh (lmi_dte_enable 0 0 10 0 0 (lmi_init_state 0 ansi)))).line.sent
    ≡ (0 ∷ 1 ∷ 3 ∷ 8 ∷ 0 ∷ 0x75 ∷ 0x95 ∷ 1 ∷ 1 ∷ 0 ∷ 3 ∷ 2 ∷ 1 ∷ 0 ∷ []) ∷ []
unfolding lmi_poll_timer lmi_dte_enable lmi_init_state lmi_port_dlci_len any_long same_text
first_poll = refl

-- A circuit that becomes inactive is told of at once, where the channel is up.
async_told :
    (lmi_send_async_status 100 0 (failing (lmi_init_state 0 q933a))).1.line.sent
    ≡ (0 ∷ 1 ∷ 3 ∷ 8 ∷ 0 ∷ 0x7D ∷ 0x51 ∷ 1 ∷ 2 ∷ 0x57 ∷ 3 ∷ 6 ∷ 160 ∷ 0x80 ∷ []) ∷ []
unfolding lmi_send_async_status lmi_init_state lmi_port_dlci_len any_long same_text
async_told = refl

async_refused : (lmi_send_async_status 100 0 (fresh (lmi_init_state 0 ansi))).0 ≡ failed
unfolding lmi_send_async_status lmi_init_state
async_refused = refl

-- A full status that leaves the circuit out makes it inactive, and so does one that says so.
omitted_goes_down :
    let p' =
      (gof_handle_frame
        (9 ∷ 0 ∷ 0x7D ∷ 1 ∷ 1 ∷ 0 ∷ 3 ∷ 2 ∷ 5 ∷ 9 ∷ [])
        (polling (lmi_init_state 0 cisco))).1 in
    (p'.pvcs ≡ record circuit { active = false } ∷ [])
    × (p'.entries ≡ record entry { active = false } ∷ [])
unfolding gof_handle_frame lmi_init_state same_text
omitted_goes_down = (refl, refl)

reported_stays_up :
    let frame : List ℕ =
      8 ∷ 0 ∷ 0x7D ∷ 0x51 ∷ 1 ∷ 0 ∷ 0x53 ∷ 2 ∷ 5 ∷ 9 ∷ 0x57 ∷ 3 ∷ 6 ∷ 160 ∷ 0x82 ∷ [] in
    (handle_frame q933a 0 frame (polling (lmi_init_state 0 q933a))).1.pvcs
    ≡ record circuit { lmi_reported = true } ∷ []
unfolding handle_frame lmi_init_state same_text
reported_stays_up = refl

-- A report that is to be continued is asked for again at once, with report type 4.
continues :
    let frame : List ℕ = 8 ∷ 0 ∷ 0x7D ∷ 0x51 ∷ 1 ∷ 4 ∷ 0x53 ∷ 2 ∷ 5 ∷ 9 ∷ [] in
    (switch_status 0 0 frame (polling (lmi_init_state 0 q933a))).line.sent
    ≡ (0 ∷ 1 ∷ 3 ∷ 8 ∷ 0 ∷ 0x75 ∷ 0x51 ∷ 1 ∷ 4 ∷ 0x53 ∷ 2 ∷ 10 ∷ 5 ∷ []) ∷ []
unfolding switch_status lmi_init_state lmi_port_dlci_len any_long same_text
continues = refl

-- Cisco's full status of one circuit.
cisco_full :
    let item : Item = record { dlci = 100; status = 2; is_new = true; new_txsn = 0 } in
    let built = gof_build_status 512 true (item ∷ []) (polling (lmi_init cisco 0 0 0 5)) in
    (built.0
      ≡ 0xFC ∷ 0xF1 ∷ 3 ∷ 9 ∷ 0 ∷ 0x7D ∷ 1 ∷ 1 ∷ 0 ∷ 3 ∷ 2 ∷ 1 ∷ 0 ∷ 7 ∷ 3 ∷ 6 ∷ 160 ∷ 0x8A ∷ [])
    × (built.1 ≡ record item { new_txsn = 1 } ∷ [])
unfolding gof_build_status lmi_init lmi_port_dlci_len any_long same_text
cisco_full = (refl, refl)

parse_pvc_status_ie-pvc_status_ie_example :
    parse_pvc_status_ie ansi
      (pvc_status_ie ansi 64 100000 2 2)
      (length (pvc_status_ie ansi 64 100000 2 2))
    ≡ some (100000, 0x82)
parse_pvc_status_ie-pvc_status_ie_example =
    parse_pvc_status_ie-pvc_status_ie ansi 64 100000 2 2 (omega arith) (omega arith)

lmi_inc_seq_cycle_example : advance 255 7 ≡ 7
lmi_inc_seq_cycle_example = lmi_inc_seq_cycle 255 7 (omega arith) (omega arith)

t392_expired_lem_example :
    let p' = t392_expired 15000 (failing (lmi_init_state 0 ansi)) in
    (p'.lmi.dce_link_down ≡ true) × (p'.trigger_propagate ≡ true) × (p'.lmi.dce_history ≡ 0xFFFF)
unfolding lmi_init_state history_of errors_in
t392_expired_lem_example =
    t392_expired_lem 15000 (failing (lmi_init_state 0 ansi)) (true ∷ true ∷ false ∷ false ∷ [])
      (omega arith) refl

dte_event_lem_example :
    let p' = dte_event (polling (lmi_init_state 0 ansi)) in
    (p'.lmi.dte_history ≡ 15) × (p'.lmi.dte_link_down ≡ true)
unfolding lmi_init_state history_of errors_in
dte_event_lem_example =
    dte_event_lem (polling (lmi_init_state 0 ansi)) (true ∷ []) (omega arith) (omega arith)
      (omega arith) refl

answered_polls-recover_example :
    (answered_polls (10 ∷ 20 ∷ 30 ∷ []) (polling (lmi_init_state 0 q933a))).lmi.dte_link_down
    ≡ false
unfolding lmi_init_state history_of
answered_polls-recover_example =
    answered_polls-recover 10 (20 ∷ 30 ∷ []) (polling (lmi_init_state 0 q933a)) (true ∷ [])
      (omega arith) (omega arith) (omega arith) (omega arith) (omega arith) refl refl

exchange-InStep_example :
    InStep
      (polling (lmi_init_state 0 ansi))
      (exchange ansi 1 2 [] (polling (lmi_init_state 0 ansi)) (failing (lmi_init_state 0 ansi)))
unfolding lmi_init_state enquiry_report_type
exchange-InStep_example =
    exchange-InStep ansi 1 2 [] (polling (lmi_init_state 0 ansi)) (failing (lmi_init_state 0 ansi))
      (inl refl) refl refl refl refl refl
