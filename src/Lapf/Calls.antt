-- ===== src/Lapf/Calls.antt =====
-- The calls of LAPF on one context: lapf_establish_link, lapf_release_link, lapf_send_l3 and, for one
-- context, lapf_poll_timer of src/ports/lapf/port_lapf.c. A call holds the port's mutex throughout,
-- so that it is one step.
use vfrs.Common.{
  ℕ, ◌+◌, ◌%◌, Bool, true, false, not, ◌||◌, List, [], ◌∷◌, ltb, leb, ◌==◌, if◌then◌else◌, length,
  set, u8, u64,
}
use vfrs.Lapf.{
  LinkState, awaiting_establishment, awaiting_release, established, timer_recovery, error_g,
  error_h, error_i, ctrl_rr, ctrl_sabme, ctrl_disc, Link, Status, ok, failed, outstanding,
  mdl_error, timer_set, timer_is_expired, run_t200, is_connected,
}
use vfrs.Lapf.Frames.{send_control, transmit}
use vfrs.Lapf.Unnumbered.{re_establish}
use vfrs.Lapf.Numbered.{cut_window}
use vfrs.Lapf.Handle.{handle_in_context}

unfoldable pub establish_link : ℕ → Link → Link
establish_link now w = re_establish now w

unfoldable pub release_link : ℕ → Link → Link
release_link now w =
    let waiting = record w {
      lapf = record w.lapf { state = awaiting_release; retransmission_count = 0 };
    } in
    let asked = send_control ctrl_disc 0 true false waiting in
    record asked { lapf = run_t200 now asked.lapf }

-- A frame at the tail of the backlog; -1 where it is full.
unfoldable pub enqueue : List ℕ → Link → Status × Link
enqueue octets w =
    let tail = w.lapf.backlog_tail in
    let next_tail = (tail + 1) % 64 in
    if next_tail == w.lapf.backlog_head then (failed, w) else (
      ok,
      record w {
        lapf = record w.lapf {
          tx_backlog = set w.lapf.tx_backlog tail octets;
          backlog_tail = next_tail;
        };
      },
    )

unfoldable pub send_l3 : ℕ → List ℕ → Link → Status × Link
send_l3 now octets w =
    if not (is_connected w.lapf.state)
    then (failed, w)
    else if ltb w.lapf.n201 (length octets)
    then (failed, w)
    else if leb w.lapf.v_k (outstanding w.lapf.v_s w.lapf.v_a) || w.lapf.peer_receiver_busy
    then enqueue octets w
    else (ok, transmit now octets w)

-- RR with P = 1, and T200.
unfoldable pub poll_peer : ℕ → Link → Link
poll_peer now w =
    let polled = send_control ctrl_rr w.lapf.v_r true false w in
    record polled { lapf = record polled.lapf { t200_timer = timer_set now polled.lapf.t200 } }

-- SABME or DISC once more, and T200.
unfoldable pub ask_again : ℕ → ℕ → Link → Link
ask_again now ctrl_type w =
    let asked = send_control ctrl_type 0 true false w in
    record asked { lapf = record asked.lapf { t200_timer = timer_set now asked.lapf.t200 } }

-- The error of N200 expiries.
abbrev pub give_up : LinkState → Link → Link
give_up awaiting_establishment w = mdl_error error_g w
give_up awaiting_release w = mdl_error error_h w
give_up timer_recovery w = mdl_error error_i w
give_up _ w = w

-- What an expiry below N200 does.
abbrev pub again : LinkState → ℕ → Link → Link
again awaiting_establishment now w = ask_again now ctrl_sabme w
again awaiting_release now w = ask_again now ctrl_disc w
again established now w =
    poll_peer now
      (record w { lapf = record w.lapf { state = timer_recovery; retransmission_count = 0 } })
again _ now w = poll_peer now w

-- T200. `retransmission_count` is an octet.
unfoldable pub t200_expired : ℕ → Link → Link
t200_expired now w0 =
    let stats = w0.lapf.stats in
    let count = u8 (w0.lapf.retransmission_count + 1) in
    let w = record w0 {
      lapf = record (cut_window w0.lapf) {
        retransmission_count = count;
        stats = record stats { t200_expires = u64 (stats.t200_expires + 1) };
      };
    } in
    if leb w.lapf.n200 count
    then re_establish now (give_up w.lapf.state w)
    else again w.lapf.state now w

-- T203: the peer is polled, whatever the state is.
unfoldable pub t203_expired : ℕ → Link → Link
t203_expired now w0 =
    let stats = w0.lapf.stats in
    let w = record w0 {
      lapf = record w0.lapf {
        state = timer_recovery;
        retransmission_count = 0;
        stats = record stats { t203_expires = u64 (stats.t203_expires + 1) };
      };
    } in
    let polled = send_control ctrl_rr w.lapf.v_r true false w in
    record polled { lapf = run_t200 now polled.lapf }

-- One context of `lapf_poll_timer`.
unfoldable pub poll_t200 : ℕ → Link → Link
poll_t200 now w = if timer_is_expired now w.lapf.t200_timer then t200_expired now w else w

unfoldable pub poll_timer : ℕ → Link → Link
unfolding poll_t200
poll_timer now w =
    let w' = poll_t200 now w in
    if timer_is_expired now w'.lapf.t203_timer then t203_expired now w' else w'

-- What can happen to a context, and the run of a sequence of it.
pub data Event : Type 0 where
  establish : Event
  release : Event
  gives : List ℕ → Event
  frame : List ℕ → Bool → Event
  tick : Event

unfoldable pub step : ℕ → Event → Link → Link
step now establish w = establish_link now w
step now release w = release_link now w
step now (gives octets) w = (send_l3 now octets w).1
step now (frame octets ui_handler) w = (handle_in_context now octets ui_handler w).1
step now tick w = poll_timer now w

unfoldable pub run : List (ℕ × Event) → Link → Link
unfolding step
run [] w = w
run ((now, e) ∷ es) w = run es (step now e w)
