-- ===== src/Lapf/Tests.antt =====
-- Runs of a link, and the theorems at concrete links and frames.
use vfrs.Common.{
  ◌⊎◌, ℕ, ◌+◌, ◌*◌, ◌%◌, ◌≤◌, ◌≡◌, refl, ◌⊎◌, true, false, none, some, List, [], ◌∷◌, length, drop,
  ◌==◌, if◌then◌else◌, arith, ◌>>>◌,
}
use vfrs.Frame.Addr.{get_addr_len, decode_addr, decode_dlci}
use vfrs.Lapf.{
  timer_set, failed, default_k_for_rate, tei_assigned, established, timer_recovery, ctrl_i, Lapf,
  Line, Link, outstanding, timer_cancel, seq_in_range,
}
use vfrs.Lapf.Frames.{
  send_built, control_frame, build_frame, send_unit_data, send_xid, send_control, i_frame,
  process_backlog,
}
use vfrs.Lapf.Xid.{handle_xid, xid_payload}
use vfrs.Lapf.Unnumbered.{on_sabme, Received, ctrl1, ctrl2, ctrl_type_of, pf_of}
use vfrs.Lapf.Numbered.{retransmit}
use vfrs.Lapf.Handle.{received, handle_payload, accept, handle_in_context}
use vfrs.Lapf.Calls.{poll_timer, release_link, Event, frame, gives, tick, step, run}
use vfrs.Lapf.Table.{
  cleared, LapfPort, poll_buckets, poll_nodes, get_lapf_ctx, find_node, free_dlci, lapf_free,
  register, register_ui_handler, register_xid_handler, register_l3_handler, in_context,
  port_establish_link, port_release_link, port_send_l3, set_event_cb, lapf_poll_timer,
}
use vfrs.Lapf.Window.{InWindow}
use vfrs.Lapf.Window.Steps.{run-InWindow}
use vfrs.Lapf.Delivery.{
  arrive, deliveries, after, messages, Carries, Sent, Hears, deliveries-messages,
}
use vfrs.Lapf.Delivery.Progress.{Good, arrive-heard}
use vfrs.Lapf.Backlog.{waiting, send_waiting, Leaves, process_backlog-Leaves}
use vfrs.Lapf.Resend.{resend, retransmit-eq-resend}
use vfrs.Lapf.Silence.{Due, silence, asks, resets, Renews, silence-Renews}
use vfrs.Lapf.Recovery.{recovery_resends_nothing}
use vfrs.Lapf.States.{Establishes, step-Establishes}
use vfrs.Lapf.Encoding.{Reads, supervisory, rej, code, control_frame-Reads, i_frame-Reads}
use vfrs.Lapf.Negotiation.{handle_xid-response}
use vfrs.Lapf.Table.Laws.{IsMap, occurrences, get-free_dlci}

abbrev packets : Line
packets = record {
  dlcibit = 10;
  is_serial = false;
  cgst_ctx = none;
  buffer = 0;
  driver = some (λ sent octets. some (length octets));
  sent = [];
  tx_frames = 0;
  tx_bytes = 0;
}

abbrev up : Lapf
up = record cleared {
  dlci = 100;
  state = established;
  k = 7;
  v_k = 7;
  n_w = 5;
  n200 = 3;
  n201 = 1598;
  t200 = 1500;
  t203 = 30000;
}

abbrev link_with : Lapf → Link
link_with l = record {
  lapf = l;
  line = packets;
  errors = [];
  deferred = [];
  sent_supervisory = false;
}

abbrev link : Link
link = link_with up

-- Message `i` is the octet `i`; the I-frame that carries it on DLCI 100.
abbrev source : ℕ → List ℕ
source i = i ∷ []

abbrev i_octets : ℕ → List ℕ
i_octets i = 0x18 ∷ 0x41 ∷ (i * 2) ∷ 0 ∷ 8 ∷ i ∷ []

first-Carries : Carries source 0 (i_octets 0)
unfolding received get_addr_len
first-Carries = record { numbered = refl; holds = refl }

second-Carries : Carries source 1 (i_octets 1)
unfolding received get_addr_len
second-Carries = record { numbered = refl; holds = refl }

third-Carries : Carries source 2 (i_octets 2)
unfolding received get_addr_len
third-Carries = record { numbered = refl; holds = refl }

first-Sent : (now : ℕ) → Sent source 0 (now, i_octets 0)
first-Sent now = record {
  index = 0;
  not_before = omega arith;
  not_after = omega arith;
  carries = first-Carries;
}

second-Sent : (now : ℕ) → Sent source 0 (now, i_octets 1)
second-Sent now = record {
  index = 1;
  not_before = omega arith;
  not_after = omega arith;
  carries = second-Carries;
}

third-Sent : (now : ℕ) → Sent source 0 (now, i_octets 2)
third-Sent now = record {
  index = 2;
  not_before = omega arith;
  not_after = omega arith;
  carries = third-Carries;
}

-- The first frame comes twice, and the third before the second.
abbrev arrivals : List (ℕ × List ℕ)
arrivals = (1000, i_octets 0) ∷ (1100, i_octets 0) ∷ (1200, i_octets 2) ∷ (1300, i_octets 1) ∷ []

deliveries-messages_example :
    (q : ℕ) × (deliveries arrivals link ≡ messages source 0 q)
    × ((after arrivals link).lapf.v_r ≡ (0 + q) % 128)
deliveries-messages_example =
    deliveries-messages source 0 0 arrivals link
      (first-Sent 1000, (first-Sent 1100, (third-Sent 1200, (second-Sent 1300, tt)))) refl
      (omega arith) (omega arith)

up-InWindow : (v_s : ℕ) → v_s ≤ 7 → InWindow 7 (record up { v_s = v_s })
up-InWindow v_s h = record {
  send_seq = omega arith;
  receive_seq = omega arith;
  ack_seq = omega arith;
  head = omega arith;
  tail = omega arith;
  slots = refl;
  places = refl;
  some_room = omega arith;
  narrowed = omega arith;
  agreed = omega arith;
  in_flight = ground arith;
}

abbrev history : List (ℕ × Event)
history = (1000, frame (i_octets 0) false) ∷ (1500, gives (8 ∷ 1 ∷ [])) ∷ (4000, tick) ∷ []

run-InWindow_example : InWindow 7 (run history link).lapf
run-InWindow_example =
    run-InWindow 7 history link (omega arith) (omega arith, (tt, (tt, tt)))
      (up-InWindow 0 (omega arith))

-- Two frames wait, and the window has room.
abbrev holding : Link
holding = link_with (record up {
  tx_backlog = (8 ∷ 1 ∷ []) ∷ (8 ∷ 2 ∷ []) ∷ drop 2 up.tx_backlog;
  backlog_tail = 2;
})

process_backlog-Leaves_example :
    (process_backlog 1000 holding ≡ send_waiting 1000 (waiting holding.lapf) holding)
    × Leaves 1000 holding (process_backlog 1000 holding)
process_backlog-Leaves_example =
    process_backlog-Leaves 1000 holding (omega arith) (omega arith) refl

abbrev closed_window : Link
closed_window = link_with (record up { v_s = 7 })

-- Three frames are outstanding.
abbrev outstanding_3 : Link
outstanding_3 = link_with (record up { v_a = 126; v_s = 1 })

retransmit-eq-resend_example :
    retransmit 128 126 outstanding_3 ≡ resend (outstanding 1 126) 126 outstanding_3
retransmit-eq-resend_example =
    retransmit-eq-resend 128 126 outstanding_3 (omega arith) (omega arith) (omega arith)

abbrev recovering : Link
recovering =
    link_with
      (record up { state = timer_recovery; v_a = 126; v_s = 1; t200_timer = timer_set 0 1500 })

-- Three expiries of T200 are left.
silence-Renews_example :
    (ask : List ℕ) × (reset : List ℕ) × (asks recovering ≡ some ask)
    × (resets recovering ≡ some reset)
    × Renews 1500
        (3000 ∷ 4600 ∷ [])
        ask
        reset
        recovering
        (silence (1500 ∷ 3000 ∷ 4600 ∷ []) recovering)
unfolding Due
silence-Renews_example =
    silence-Renews 1500 (3000 ∷ 4600 ∷ []) recovering (λ sent octets. some (length octets)) refl
      (omega arith) refl (omega arith) (omega arith)
      (
        omega arith,
        omega arith,
        (omega arith, omega arith, (omega arith, omega arith, omega arith)),
      )
      refl refl

abbrev answer : Received
answer = record {
  frame = 0x1A ∷ 0x41 ∷ 1 ∷ 253 ∷ [];
  payload = 1 ∷ 253 ∷ [];
  is_response = true;
  ui_handler = false;
}

recovery_resends_nothing_example :
    let w' = (handle_payload 2000 answer recovering).1 in
    (w'.lapf.state ≡ established)
    × (w'.lapf.t200_timer ≡ timer_cancel)
    × (w'.lapf.v_a ≡ 126)
    × (w'.lapf.v_s ≡ 1)
    × (w'.line.sent ≡ [])
recovery_resends_nothing_example =
    recovery_resends_nothing 2000 answer recovering refl refl (omega arith) (omega arith) refl refl

first-Good : Good (received (i_octets 0) false) link
unfolding received get_addr_len seq_in_range
first-Good = record { expected = refl; small = omega arith; acknowledges = refl; connected = refl }

arrive-heard_example : Hears source 0 link (arrive (1000, i_octets 0) link)
arrive-heard_example = arrive-heard source 0 (1000, i_octets 0) link first-Carries refl first-Good

-- SABME with P = 1 for a link that is down.
abbrev sabme_octets : List ℕ
sabme_octets = 0x18 ∷ 0x41 ∷ 0x7F ∷ []

abbrev down : Link
down = link_with (record up { state = tei_assigned })

comes_up : (step 1000 (frame sabme_octets false) down).lapf.state ≡ established
unfolding step handle_in_context handle_payload accept received get_addr_len decode_addr
    ctrl_type_of pf_of on_sabme send_control
comes_up = refl

step-Establishes_example :
    (tei_assigned ≡ established) ⊎ Establishes (frame sabme_octets false) tei_assigned
step-Establishes_example = step-Establishes 1000 (frame sabme_octets false) down comes_up

control_frame-Reads_example :
    (octets : List ℕ) × (control_frame packets 100 (code rej) 127 true false ≡ some octets)
    × Reads octets false 100 (code rej) true false
    × ((supervisory rej ≡ false) ⊎ (ctrl2 (received octets false).payload >>> 1 ≡ 127))
control_frame-Reads_example =
    control_frame-Reads packets 100 rej 127 true false false refl (omega arith) (omega arith)

i_frame-Reads_example :
    (octets : List ℕ) × (i_frame packets 100 3 127 false false (8 ∷ 77 ∷ []) ≡ some octets)
    × Reads octets false 100 ctrl_i false false
    × (ctrl1 (received octets false).payload >>> 1 ≡ 3)
    × (ctrl2 (received octets false).payload >>> 1 ≡ 127)
    × (drop 2 (received octets false).payload ≡ 8 ∷ 77 ∷ [])
i_frame-Reads_example =
    i_frame-Reads packets 100 3 127 false false false (8 ∷ 77 ∷ []) refl (omega arith) (omega arith)
      (omega arith) (omega arith)

abbrev peer : Lapf
peer = record up { k = 5; n201 = 900; t200 = 2000 }

handle_xid-response_example :
    let l' = (handle_xid [] (xid_payload peer) true true link).lapf in
    (l'.k ≡ 5) × (l'.n201 ≡ 900) × (l'.t200 ≡ 2000)
handle_xid-response_example = handle_xid-response peer (omega arith) (omega arith) [] true link

-- Two contexts share a bucket, 100 and 164.
abbrev two : LapfPort
two = record {
  buckets = λ i. if i == 36 then (100, up) ∷ (164, record up { dlci = 164 }) ∷ [] else [];
  lapf_count = 2;
  sap_list = [];
  line = packets;
  errors = [];
  called = [];
}

two-IsMap : IsMap two
unfolding occurrences
two-IsMap d = ground arith

get-free_dlci_example :
    get_lapf_ctx 164 (free_dlci 100 two) ≡ (if 164 == 100 then none else get_lapf_ctx 164 two)
get-free_dlci_example = get-free_dlci 164 100 two two-IsMap

dlci_100 : (decode_addr (i_octets 0)).dlci ≡ 100
unfolding decode_addr decode_dlci
dlci_100 = refl

-- The calls by DLCI.
freed : get_lapf_ctx 100 (lapf_free two) ≡ none
unfolding lapf_free get_lapf_ctx find_node
freed = refl

all_handlers :
    (register_l3_handler 7 true
      (register_xid_handler 7 true (register_ui_handler 7 true two))).sap_list
    ≡ record { dlci = 7; ui_cb = true; xid_cb = true; l3_cb = true } ∷ []
unfolding register_l3_handler register_xid_handler register_ui_handler register
all_handlers = refl

no_context :
    ((port_establish_link 0 5 two).0 ≡ failed)
    × ((port_release_link 0 5 two).0 ≡ failed)
    × ((port_send_l3 0 5 (1 ∷ []) two).0 ≡ failed)
    × ((set_event_cb 5 true two).0 ≡ failed)
unfolding port_establish_link port_release_link port_send_l3 set_event_cb in_context get_lapf_ctx
    find_node
no_context = (refl, refl, refl, refl)

asks_for_release : length (port_release_link 0 100 two).1.line.sent ≡ 1
unfolding port_release_link in_context get_lapf_ctx find_node release_link send_control send_built
    control_frame build_frame
asks_for_release = refl

nothing_expires : (lapf_poll_timer 0 two).line.sent ≡ []
unfolding lapf_poll_timer poll_buckets poll_nodes get_lapf_ctx find_node poll_timer
nothing_expires = refl

unnumbered_sent :
    (length (send_unit_data 100 (1 ∷ 2 ∷ []) 0 0 0 0 packets).1.sent ≡ 1)
    × (length (send_xid 100 (1 ∷ 2 ∷ []) false packets).1.sent ≡ 1)
unfolding send_unit_data send_xid send_built build_frame
unnumbered_sent = (refl, refl)

default_windows : (default_k_for_rate 16000 ≡ 3) × (default_k_for_rate 2048000 ≡ 40)
unfolding default_k_for_rate
default_windows = (refl, refl)
