-- ===== src/Lapf/Window/Steps.antt =====
-- Every step of a context keeps the window, and so does every sequence of steps.
use vfrs.Common.{
  ℕ, zero, suc, ◌<◌, ◌≡◌, Bool, true, false, inl, inr, List, [], ◌∷◌, All, length, length-set,
  arith, Bool-cases, drop, All-drop, ◌>>>◌, IsByte, Bytes,
}
use vfrs.Frame.Addr.{octet, get_addr_len}
use vfrs.Lapf.{error_j, error_k, error_l, error_o, Link, seq_in_range, mdl_error}
use vfrs.Lapf.Frames.{send_control, send_frmr}
use vfrs.Lapf.Xid.{handle_xid, negotiated, answer_xid, call_cllm}
use vfrs.Lapf.Unnumbered.{
  Received, ctrl1, ctrl2, ctrl_type_of, pf_of, re_establish, count_rx, on_ui,
}
use vfrs.Lapf.Numbered.{acknowledge, on_i, by_type, on_numbered}
use vfrs.Lapf.Handle.{
  in_connected, by_state, finish, accept, handle_payload, received, handle_in_context,
}
use vfrs.Lapf.Calls.{
  establish_link, release_link, enqueue, send_l3, poll_peer, ask_again, t200_expired, t203_expired,
  poll_t200, poll_timer, Event, establish, release, gives, frame, tick, step, run,
}
use vfrs.Lapf.Window.{
  InWindow, re_establish-InWindow, transmit-InWindow, wrong_size-InWindow, on_sabme-InWindow,
  on_disc-InWindow, in_tei_assigned-InWindow, in_awaiting_establishment-InWindow,
  in_awaiting_release-InWindow, on_dm-InWindow,
}
use vfrs.Lapf.Window.Numbered.{
  acknowledge-v_a, acknowledge-InWindow, on_ready-InWindow, on_rej-InWindow, in_sequence-InWindow,
  out_of_sequence-InWindow,
}

-- The frames that come are octets.
abbrev pub Wellformed : ℕ × Event → Type 0
Wellformed (now, frame octets ui_handler) = Bytes octets
Wellformed (now, _) = Unit

octet-lt : (bs : List ℕ) (i : ℕ) → Bytes bs → octet bs i < 256
octet-lt [] i h = omega arith
octet-lt (b ∷ bs) zero h = omega arith
octet-lt (b ∷ bs) (suc i) h = octet-lt bs i h.1

module _ (limit : ℕ) (small : limit < 256) where
  frmr-InWindow :
      (now c1 c2 bits : ℕ) (resp : Bool) (w : Link)
      → InWindow limit w.lapf
      → InWindow limit (re_establish now (send_frmr c1 c2 resp bits w)).lapf
  unfolding send_frmr re_establish send_control
  frmr-InWindow now c1 c2 bits resp w h = ground arith

  on_i-InWindow :
      (now nr : ℕ) (pf : Bool) (rx : Received) (w : Link)
      → w.lapf.v_a ≡ nr
      → InWindow limit w.lapf
      → InWindow limit (on_i now nr pf rx w).lapf
  unfolding on_i
  on_i-InWindow now nr pf rx w e h = ground (
    arith,
    frmr-InWindow now (ctrl1 rx.payload) (ctrl2 rx.payload) 0x04 rx.is_response
        (mdl_error error_o w) h,
    in_sequence-InWindow limit small now nr pf rx w e h,
    out_of_sequence-InWindow limit small pf rx.is_response w h,
  )

  by_type-InWindow :
      (now t nr : ℕ) (pf : Bool) (rx : Received) (w : Link)
      → w.lapf.v_a ≡ nr
      → InWindow limit w.lapf
      → InWindow limit (by_type now t nr pf rx w).lapf
  unfolding by_type
  by_type-InWindow now t nr pf rx w e h = ground (
    arith,
    on_ready-InWindow limit small now false pf rx.is_response w h,
    on_ready-InWindow limit small now true pf rx.is_response w h,
    on_rej-InWindow limit small now nr pf rx.is_response w h,
    on_i-InWindow now nr pf rx w e h,
  )

  on_numbered-InWindow :
      (now t : ℕ) (pf : Bool) (rx : Received) (w : Link)
      → Bytes rx.payload
      → InWindow limit w.lapf
      → InWindow limit (on_numbered now t pf rx w).lapf
  unfolding on_numbered
  on_numbered-InWindow now t pf rx w k h =
      let nr = ctrl2 rx.payload >>> 1 in
      let lt : nr < 128 = omega (arith, octet-lt rx.payload 1 k) in
      elim (Bool-cases (seq_in_range nr w.lapf.v_a w.lapf.v_s)) [
        | inl inside ↦ rw inside (
            by_type-InWindow now t nr pf rx (acknowledge now nr w) (acknowledge-v_a now nr w)
              (acknowledge-InWindow limit small now nr w lt inside h))
        | inr outside ↦ rw outside (
            frmr-InWindow now (ctrl1 rx.payload) (ctrl2 rx.payload) 0x08 rx.is_response
              (mdl_error error_j w) h)
      ]

  handle_xid-InWindow :
      (octets payload : List ℕ) (pf resp : Bool) (w : Link)
      → InWindow limit w.lapf
      → InWindow limit (handle_xid octets payload pf resp w).lapf
  unfolding handle_xid negotiated answer_xid call_cllm
  handle_xid-InWindow octets payload pf resp w h = ground arith

  in_connected-InWindow :
      (now t : ℕ) (pf : Bool) (rx : Received) (w : Link)
      → Bytes rx.payload
      → InWindow limit w.lapf
      → InWindow limit (in_connected now t pf rx w).lapf
  unfolding in_connected
  in_connected-InWindow now t pf rx w k h = ground (
    arith,
    on_dm-InWindow limit now pf w h,
    handle_xid-InWindow rx.frame (drop 1 rx.payload) pf rx.is_response w h,
    re_establish-InWindow limit now (mdl_error error_k w) h,
    on_numbered-InWindow now t pf rx w k h,
  )

  by_state-InWindow :
      (now t : ℕ) (pf : Bool) (rx : Received) (w : Link)
      → Bytes rx.payload
      → InWindow limit w.lapf
      → InWindow limit (by_state now t pf rx w).lapf
  unfolding by_state
  by_state-InWindow now t pf rx w k h = ground (
    arith,
    in_tei_assigned-InWindow limit now t pf rx.is_response w h,
    in_awaiting_establishment-InWindow limit now t pf w h,
    in_awaiting_release-InWindow limit t pf w h,
    in_connected-InWindow now t pf rx w k h,
  )

  finish-InWindow :
      (now : ℕ) (w : Link) → InWindow limit w.lapf → InWindow limit (finish now w).lapf
  unfolding finish send_control
  finish-InWindow now w h = ground arith

  accept-InWindow :
      (now : ℕ) (rx : Received) (w : Link)
      → Bytes rx.payload
      → InWindow limit w.lapf
      → InWindow limit (accept now rx w).1.lapf
  unfolding accept on_ui
  accept-InWindow now rx w0 k h =
      let t = ctrl_type_of (ctrl1 rx.payload) in
      let pf = pf_of rx.payload in
      let w = record w0 { lapf = record w0.lapf { stats = count_rx t w0.lapf.stats } } in
      let kept : InWindow limit w.lapf = ground arith in
      ground (
        arith,
        frmr-InWindow now (ctrl1 rx.payload) (ctrl2 rx.payload) 0x01 rx.is_response
            (mdl_error error_l w) kept,
        on_sabme-InWindow limit now pf w kept,
        on_disc-InWindow limit pf w kept,
        finish-InWindow now (by_state now t pf rx w) (by_state-InWindow now t pf rx w k kept),
      )

  handle_payload-InWindow :
      (now : ℕ) (rx : Received) (w : Link)
      → Bytes rx.payload
      → InWindow limit w.lapf
      → InWindow limit (handle_payload now rx w).1.lapf
  unfolding handle_payload
  handle_payload-InWindow now rx w k h =
      ground (arith, wrong_size-InWindow limit now rx w h, accept-InWindow now rx w k h)

  handle_in_context-InWindow :
      (now : ℕ) (octets : List ℕ) (ui_handler : Bool) (w : Link)
      → Bytes octets
      → InWindow limit w.lapf
      → InWindow limit (handle_in_context now octets ui_handler w).1.lapf
  unfolding handle_in_context
  handle_in_context-InWindow now octets ui_handler w k h =
      handle_payload-InWindow now (received octets ui_handler) _
        (All-drop IsByte (get_addr_len octets (length octets)) octets k) (ground arith)

  send_l3-InWindow :
      (now : ℕ) (octets : List ℕ) (w : Link)
      → InWindow limit w.lapf
      → InWindow limit (send_l3 now octets w).1.lapf
  unfolding send_l3 enqueue
  send_l3-InWindow now octets w h = ground (
    arith,
    transmit-InWindow limit now octets w h,
    length-set w.lapf.tx_backlog w.lapf.backlog_tail octets,
  )

  t200_expired-InWindow :
      (now : ℕ) (w : Link) → InWindow limit w.lapf → InWindow limit (t200_expired now w).lapf
  unfolding t200_expired poll_peer ask_again re_establish send_control
  t200_expired-InWindow now w h = ground arith

  t203_expired-InWindow :
      (now : ℕ) (w : Link) → InWindow limit w.lapf → InWindow limit (t203_expired now w).lapf
  unfolding t203_expired send_control
  t203_expired-InWindow now w h = ground arith

  poll_timer-InWindow :
      (now : ℕ) (w : Link) → InWindow limit w.lapf → InWindow limit (poll_timer now w).lapf
  unfolding poll_timer poll_t200
  poll_timer-InWindow now w h =
      let first : InWindow limit (poll_t200 now w).lapf =
        ground (arith, t200_expired-InWindow now w h) in
      ground (arith, t203_expired-InWindow now (poll_t200 now w) first)

  release_link-InWindow :
      (now : ℕ) (w : Link) → InWindow limit w.lapf → InWindow limit (release_link now w).lapf
  unfolding release_link send_control
  release_link-InWindow now w h = ground arith

  step-InWindow :
      (now : ℕ) (e : Event) (w : Link)
      → Wellformed (now, e)
      → InWindow limit w.lapf
      → InWindow limit (step now e w).lapf
  unfolding step establish_link
  step-InWindow now establish w k h = re_establish-InWindow limit now w h
  step-InWindow now release w k h = release_link-InWindow now w h
  step-InWindow now (gives octets) w k h = send_l3-InWindow now octets w h
  step-InWindow now (frame octets ui_handler) w k h =
      handle_in_context-InWindow now octets ui_handler w k h
  step-InWindow now tick w k h = poll_timer-InWindow now w h

-- Whatever frames a peer sends and whatever timers expire, and however the link is used, the sequence
-- variables stay modulo 128, the ring of the backlog stays in its 64 slots, the working window stays
-- between 1 and the window that the context was configured with, and no more frames than that window
-- are outstanding. The frames that come are lists of octets and the window is an octet.
pub run-InWindow :
    (limit : ℕ) (es : List (ℕ × Event)) (w : Link)
    → limit < 256
    → All Wellformed es
    → InWindow limit w.lapf
    → InWindow limit (run es w).lapf
unfolding run
run-InWindow limit [] w small k h = h
run-InWindow limit ((now, e) ∷ es) w small k h =
    run-InWindow limit es (step now e w) small k.1 (step-InWindow limit small now e w k.0 h)
