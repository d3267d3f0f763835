-- ===== src/Lapf/Handle.antt =====
-- The handling of a received frame as a whole: lapf_handle_frame of src/ports/lapf/port_lapf.c, from
-- the address on. `goto flush_and_return` gives the link without the steps of `finish`.
use vfrs.Common.{
  ℕ, ◌*◌, ◌/◌, Bool, true, false, not, ◌&&◌, List, [], ltb, ◌==◌, if◌then◌else◌, length, drop, u8,
  bit_and,
}
use vfrs.Frame.Addr.{octet, get_addr_len, decode_addr}
use vfrs.Lapf.{
  LinkState, tei_assigned, awaiting_establishment, awaiting_release, established, timer_recovery,
  error_k, error_l, error_n, ctrl_rr, ctrl_sabme, ctrl_dm, ctrl_ui, ctrl_disc, ctrl_ua, ctrl_frmr,
  ctrl_xid, Lapf, Link, Status, ok, failed, mdl_error, timer_set, is_connected,
}
use vfrs.Lapf.Frames.{send_control, send_frmr}
use vfrs.Lapf.Xid.{handle_xid}
use vfrs.Lapf.Unnumbered.{
  Received, ctrl1, ctrl2, ctrl_type_of, pf_of, re_establish, wrong_size, is_i, is_s, is_u,
  has_information, count_rx, on_ui, on_sabme, on_disc, unsolicited_ua, in_tei_assigned,
  in_awaiting_establishment, in_awaiting_release, on_dm,
}
use vfrs.Lapf.Numbered.{on_numbered}

-- ESTABLISHED and TIMER_RECOVERY
unfoldable pub in_connected : ℕ → ℕ → Bool → Received → Link → Link
in_connected now t pf rx w =
    if t == ctrl_ua
    then unsolicited_ua pf w
    else if t == ctrl_dm
    then on_dm now pf w
    else if t == ctrl_xid
    then handle_xid rx.frame (drop 1 rx.payload) pf rx.is_response w
    else if t == ctrl_frmr
    then re_establish now (mdl_error error_k w)
    else if is_u (ctrl1 rx.payload)
    then w
    else on_numbered now t pf rx w

-- The switch on the state.
unfoldable pub by_state : ℕ → ℕ → Bool → Received → Link → Link
by_state now t pf rx w = elim w.lapf.state [
  | tei_assigned ↦ in_tei_assigned now t pf rx.is_response w
  | awaiting_establishment ↦ in_awaiting_establishment now t pf w
  | awaiting_release ↦ in_awaiting_release t pf w
  | established ↦ in_connected now t pf rx w
  | timer_recovery ↦ in_connected now t pf rx w
]

-- `lapf->state == LAPF_STATE_ESTABLISHED`
abbrev pub is_established : LinkState → Bool
is_established established = true
is_established _ = false

-- The restart of T203.
abbrev pub idle : ℕ → Lapf → Lapf
idle now l = record l {
  t203_timer =
      if is_established l.state && l.t200_timer.expire == 0
      then timer_set now l.t203
      else l.t203_timer;
}

-- T203, and the delayed acknowledgement.
unfoldable pub finish : ℕ → Link → Link
finish now w0 =
    let w = record w0 { lapf = idle now w0.lapf } in
    let sent = send_control ctrl_rr w.lapf.v_r false true w in
    if w.lapf.acknowledgement_pending && (not w.sent_supervisory && is_connected w.lapf.state)
    then record sent { lapf = record sent.lapf { acknowledgement_pending = false } }
    else w

-- A frame of the right size.
unfoldable pub accept : ℕ → Received → Link → Status × Link
accept now rx w0 =
    let t = ctrl_type_of (ctrl1 rx.payload) in
    let pf = pf_of rx.payload in
    let w = record w0 { lapf = record w0.lapf { stats = count_rx t w0.lapf.stats } } in
    if t == 0xFF && is_connected w.lapf.state
    then (
      failed,
      re_establish now (
          send_frmr (ctrl1 rx.payload) (ctrl2 rx.payload) rx.is_response 0x01
            (mdl_error error_l w)),
    )
    else if t == ctrl_ui
    then (ok, on_ui rx w)
    else if t == ctrl_sabme
    then (ok, on_sabme now pf w)
    else if t == ctrl_disc
    then (ok, on_disc pf w)
    else (ok, finish now (by_state now t pf rx w))

-- BECN cuts the working window.
abbrev pub on_becn : ℕ → Lapf → Lapf
on_becn becn l =
    let scaled = u8 (l.v_k * 5 / 8) in
    if becn == 0 then l else record l { v_k = if ltb 0 scaled then scaled else 1 }

-- The test of the size by the kind of frame.
unfoldable pub handle_payload : ℕ → Received → Link → Status × Link
handle_payload now rx w =
    let c = ctrl1 rx.payload in
    let len = length rx.payload in
    if len == 0
    then (failed, w)
    else if is_i c
    then if ltb len 2 then (failed, mdl_error error_n w) else accept now rx w
    else if is_s c
    then if ltb len 2 then (failed, wrong_size now rx w) else accept now rx w
    else if not (has_information (ctrl_type_of c)) && not (len == 1)
    then (failed, wrong_size now rx w)
    else accept now rx w

-- What a frame is to its context. `ui_handler` says whether a handler for UI frames is registered
-- for the context's DLCI.
unfoldable pub received : List ℕ → Bool → Received
received frame ui_handler = record {
  frame = frame;
  payload = drop (get_addr_len frame (length frame)) frame;
  is_response = not (bit_and (octet frame 0) 0x02 == 0);
  ui_handler = ui_handler;
}

-- The context's part: BECN, and the rest.
unfoldable pub handle_in_context : ℕ → List ℕ → Bool → Link → Status × Link
unfolding received
handle_in_context now frame ui_handler w0 =
    let w = record w0 {
      lapf = on_becn (decode_addr frame).becn w0.lapf;
      deferred = [];
      sent_supervisory = false;
    } in
    handle_payload now (received frame ui_handler) w
