-- ===== src/Lapf/Unnumbered.antt =====
-- The decoding of a received frame and the unnumbered frames, by the state of the link: parts of
-- lapf_handle_frame of src/ports/lapf/port_lapf.c. One call sees one time `now`.
use vfrs.Common.{
  ℕ, ◌+◌, Bool, true, false, not, ◌&&◌, ◌||◌, List, [], ◌∷◌, ◌++◌, bit_and, ltb, ◌==◌,
  if◌then◌else◌, length, drop, u64,
}
use vfrs.Frame.Addr.{octet}
use vfrs.Lapf.{
  LinkState, tei_assigned, awaiting_establishment, established, timer_recovery, error_b, error_c,
  error_d, error_e, error_f, error_n, ctrl_i, ctrl_rr, ctrl_rnr, ctrl_rej, ctrl_sabme, ctrl_dm,
  ctrl_ui, ctrl_disc, ctrl_ua, ctrl_frmr, ctrl_xid, LapfStats, l3_data, link_established,
  link_released, ui_data, Link, mdl_error, defer, timer_cancel, run_t200, run_t203, is_connected,
}
use vfrs.Lapf.Frames.{send_control, send_frmr, process_backlog}

-- A received frame: the whole of it, what follows the address, and what the decoding finds.
pub record Received : Type 0 where
  pub frame : List ℕ
  pub payload : List ℕ
  pub is_response : Bool
  pub ui_handler : Bool

abbrev pub ctrl1 : List ℕ → ℕ
ctrl1 payload = octet payload 0

-- 0 where the frame has one octet.
abbrev pub ctrl2 : List ℕ → ℕ
ctrl2 payload = octet payload 1

-- `ctrl_type`; it starts as 0xFF.
unfoldable pub ctrl_type_of : ℕ → ℕ
ctrl_type_of c =
    if bit_and c 0x01 == 0
    then ctrl_i
    else if bit_and c 0x03 == 0x01
    then c
    else if bit_and c 0x03 == 0x03
    then bit_and c 0xEF
    else 0xFF

-- `pf`
unfoldable pub pf_of : List ℕ → Bool
pf_of payload =
    if bit_and (ctrl1 payload) 0x03 == 0x03
    then not (bit_and (ctrl1 payload) 0x10 == 0)
    else not (bit_and (ctrl2 payload) 0x01 == 0)

-- The reset of a link, as in each of its places: SABME with P = 1, and T200.
unfoldable pub re_establish : ℕ → Link → Link
re_establish now w =
    let waiting = record w {
      lapf = record w.lapf { state = awaiting_establishment; retransmission_count = 0 };
    } in
    let asked = send_control ctrl_sabme 0 true false waiting in
    record asked { lapf = run_t200 now asked.lapf }

-- A frame of wrong size: MDL-ERROR(N), and with a connected link FRMR (X and W) and the reset.
unfoldable pub wrong_size : ℕ → Received → Link → Link
wrong_size now rx w =
    let told = mdl_error error_n w in
    if is_connected w.lapf.state
    then re_establish now (send_frmr (ctrl1 rx.payload) 0 rx.is_response 0x03 told)
    else told

-- Which frames are of wrong size.
abbrev pub is_i : ℕ → Bool
is_i c = bit_and c 0x01 == 0

abbrev pub is_s : ℕ → Bool
is_s c = bit_and c 0x03 == 0x01

abbrev pub is_u : ℕ → Bool
is_u c = bit_and c 0x03 == 0x03

abbrev pub has_information : ℕ → Bool
has_information t = t == ctrl_ui || (t == ctrl_xid || t == ctrl_frmr)

unfoldable pub count_rx : ℕ → LapfStats → LapfStats
count_rx t s =
    if t == ctrl_i
    then record s { i_rx = u64 (s.i_rx + 1) }
    else if t == ctrl_rr
    then record s { rr_rx = u64 (s.rr_rx + 1) }
    else if t == ctrl_rnr
    then record s { rnr_rx = u64 (s.rnr_rx + 1) }
    else if t == ctrl_rej
    then record s { rej_rx = u64 (s.rej_rx + 1) }
    else if t == ctrl_sabme
    then record s { sabme_rx = u64 (s.sabme_rx + 1) }
    else if t == ctrl_disc
    then record s { disc_rx = u64 (s.disc_rx + 1) }
    else if t == ctrl_ua
    then record s { ua_rx = u64 (s.ua_rx + 1) }
    else if t == ctrl_dm
    then record s { dm_rx = u64 (s.dm_rx + 1) }
    else if t == ctrl_frmr
    then record s { frmr_rx = u64 (s.frmr_rx + 1) }
    else if t == ctrl_ui
    then record s { ui_rx = u64 (s.ui_rx + 1) }
    else s

-- UI: the handler of the service access point, or the payload for layer 3. With a handler it is
-- called at once.
unfoldable pub on_ui : Received → Link → Link
on_ui rx w =
    if rx.ui_handler
    then record w { deferred = w.deferred ++ (ui_data (drop 1 rx.payload) ∷ []) }
    else if ltb 1 (length rx.payload) && octet rx.payload 1 == 0x08
    then record w { deferred = defer (l3_data (drop 1 rx.payload)) w.deferred }
    else w

unfoldable pub on_sabme : ℕ → Bool → Link → Link
on_sabme now pf w =
    let told = if is_connected w.lapf.state then mdl_error error_f w else w in
    let reset = record told {
      lapf = record w.lapf {
        v_s = 0;
        v_r = 0;
        v_a = 0;
        peer_receiver_busy = false;
        own_receiver_busy = false;
        acknowledgement_pending = false;
        rej_exception = false;
        backlog_head = 0;
        backlog_tail = 0;
        state = established;
      };
    } in
    let answered = send_control ctrl_ua 0 pf true reset in
    record answered {
      lapf = run_t203 now answered.lapf;
      deferred = defer (link_established w.lapf.dlci) w.deferred;
    }

-- The answer to DISC: DM where the link was not up, UA and the release elsewhere.
abbrev pub answer_disc : LinkState → Bool → Link → Link
answer_disc tei_assigned pf w = send_control ctrl_dm 0 pf true w
answer_disc _ pf w =
    send_control ctrl_ua 0 pf true (record w { lapf = record w.lapf { state = tei_assigned } })

unfoldable pub on_disc : Bool → Link → Link
on_disc pf w =
    let told = record w {
      deferred =
          if is_connected w.lapf.state
          then defer (link_released w.lapf.dlci) w.deferred
          else w.deferred;
    } in
    let answered = answer_disc w.lapf.state pf told in
    record answered {
      lapf = record answered.lapf { t200_timer = timer_cancel; t203_timer = timer_cancel };
    }

-- Unsolicited UA.
abbrev pub unsolicited_ua : Bool → Link → Link
unsolicited_ua pf w = if pf then mdl_error error_c w else mdl_error error_d w

-- TEI_ASSIGNED
unfoldable pub in_tei_assigned : ℕ → ℕ → Bool → Bool → Link → Link
in_tei_assigned now t pf is_response w =
    if t == ctrl_ua
    then unsolicited_ua pf w
    else if t == ctrl_dm
    then if pf then w else re_establish now w
    else if is_response
    then w
    else send_control ctrl_dm 0 pf true w

-- UA with F = 1 while the establishment is awaited.
unfoldable pub confirm : ℕ → Link → Link
confirm now w =
    let reset = record w {
      lapf =
          run_t203 now (record w.lapf {
            state = established;
            v_s = 0;
            v_r = 0;
            v_a = 0;
            rej_exception = false;
          });
    } in
    let going = process_backlog now reset in
    record going { deferred = defer (link_established w.lapf.dlci) going.deferred }

abbrev pub stop_waiting : Link → Link
stop_waiting w = record w {
  lapf = record w.lapf { state = tei_assigned; t200_timer = timer_cancel };
}

-- AWAITING_ESTABLISHMENT
unfoldable pub in_awaiting_establishment : ℕ → ℕ → Bool → Link → Link
in_awaiting_establishment now t pf w =
    if t == ctrl_ua
    then if pf then confirm now w else mdl_error error_d w
    else if t == ctrl_dm && pf
    then stop_waiting w
    else w

-- AWAITING_RELEASE
unfoldable pub in_awaiting_release : ℕ → Bool → Link → Link
in_awaiting_release t pf w =
    if t == ctrl_ua
    then if pf then stop_waiting w else mdl_error error_d w
    else if t == ctrl_dm && pf
    then stop_waiting w
    else w

-- DM with a connected link.
unfoldable pub on_dm : ℕ → Bool → Link → Link
on_dm now pf w =
    if pf
    then elim w.lapf.state [
      | timer_recovery ↦ re_establish now (mdl_error error_b w)
      | _ ↦ mdl_error error_b w
    ]
    else re_establish now (mdl_error error_e w)
