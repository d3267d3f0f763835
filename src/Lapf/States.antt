-- ===== src/Lapf/States.antt =====
-- The states of a link: what can bring a link up, and what the codings of a control octet are.
use vfrs.Common.{
  ℕ, zero, suc, ◌+◌, ◌-◌, ◌/◌, ◌%◌, ◌<◌, ◌≡◌, refl, ◌⊎◌, ◌≢◌, Bool, true, false, not, ◌&&◌, [], ltb,
  ◌==◌, if◌then◌else◌, arith, get_or, u8, u16, ◌>>>◌,
}
use vfrs.Common.Bits.{all_below, all_below_sound}
use vfrs.Frame.Addr.{decode_addr}
use vfrs.Lapf.{
  LinkState, tei_assigned, awaiting_establishment, established, timer_recovery, ctrl_sabme, ctrl_ua,
  error_l, error_n, Lapf, Link, outstanding, mdl_error,
}
use vfrs.Lapf.Frames.{
  send_control, send_frmr, send_i_frame, transmit, dequeue, drain, process_backlog,
}
use vfrs.Lapf.Xid.{negotiated, answer_xid, call_cllm, handle_xid}
use vfrs.Lapf.Unnumbered.{
  Received, ctrl1, ctrl2, ctrl_type_of, pf_of, re_establish, wrong_size, count_rx, on_ui, on_disc,
  in_tei_assigned, in_awaiting_establishment, in_awaiting_release, on_dm,
}
use vfrs.Lapf.Numbered.{
  open_window, note_ack, acknowledge, on_final, answer_poll, on_ready, retransmit, on_rej, deliver,
  acknowledge_i, final_i, in_sequence, out_of_sequence, on_i, by_type, on_numbered,
}
use vfrs.Lapf.Handle.{
  in_connected, by_state, finish, accept, handle_payload, received, on_becn, handle_in_context,
}
use vfrs.Lapf.Calls.{
  establish_link, release_link, enqueue, send_l3, poll_peer, ask_again, t200_expired, t203_expired,
  poll_t200, poll_timer, Event, establish, release, gives, frame, tick, step,
}

-- The loops leave the state alone.
drain-state : (fuel now : ℕ) (w : Link) → (drain fuel now w).lapf.state ≡ w.lapf.state
unfolding drain dequeue transmit send_i_frame
drain-state zero now w = refl
drain-state (suc fuel) now w = ground (arith, drain-state fuel now (dequeue now w))

open_window-state : (fuel : ℕ) (l : Lapf) → (open_window fuel l).state ≡ l.state
unfolding open_window
open_window-state zero l = refl
open_window-state (suc fuel) l = ground (
  arith,
  open_window-state fuel
      (record l { v_k = if ltb l.v_k l.k then u8 (l.v_k + 1) else l.v_k; ia_ct = l.ia_ct - l.n_w }),
)

acknowledge-state : (now nr : ℕ) (w : Link) → (acknowledge now nr w).lapf.state ≡ w.lapf.state
unfolding acknowledge note_ack process_backlog
acknowledge-state now nr w =
    let ia_ct = u16 (w.lapf.ia_ct + outstanding nr w.lapf.v_a) in
    ground (
      arith,
      drain-state 64 now (record w { lapf = note_ack nr w.lapf }),
      open_window-state (suc ia_ct) (record w.lapf { v_a = nr; ia_ct = ia_ct }),
    )

retransmit-state : (fuel seq : ℕ) (w : Link) → (retransmit fuel seq w).lapf.state ≡ w.lapf.state
unfolding retransmit send_i_frame
retransmit-state zero seq w = refl
retransmit-state (suc fuel) seq w = ground (
  arith,
  retransmit-state fuel ((seq + 1) % 128)
      (send_i_frame seq w.lapf.v_r false false (get_or w.lapf.tx_window seq []) w),
)

-- A numbered frame leaves the state, waits for a new establishment, or ends timer recovery, the last
-- by a response with F = 1 only.
abbrev Recovers : Bool → Bool → Link → Link → Type 0
Recovers pf resp w w' =
    (w'.lapf.state ≡ w.lapf.state)
    ⊎ (w'.lapf.state ≡ awaiting_establishment)
    ⊎ ((w.lapf.state ≡ timer_recovery) × (pf ≡ true) × (resp ≡ true))

module _ (now nr : ℕ) where
  on_ready-Recovers :
      (busy pf resp : Bool) (w : Link) → Recovers pf resp w (on_ready now busy pf resp w)
  unfolding on_ready on_final answer_poll send_control
  on_ready-Recovers busy pf resp w = ground arith

  on_rej-Recovers : (pf resp : Bool) (w : Link) → Recovers pf resp w (on_rej now nr pf resp w)
  unfolding on_rej on_final
  on_rej-Recovers pf resp w =
      let l = record w.lapf {
        v_k = if ltb 4 w.lapf.v_k then w.lapf.v_k / 4 else 1;
        ia_ct = 0;
        peer_receiver_busy = false;
      } in
      let narrow = record w { lapf = l } in
      let seen = if pf && resp then on_final now narrow else narrow in
      ground (arith, retransmit-state 128 nr seen)

  on_i-Recovers :
      (pf : Bool) (rx : Received) (w : Link) → Recovers pf rx.is_response w (on_i now nr pf rx w)
  unfolding on_i re_establish send_frmr send_control in_sequence deliver acknowledge_i answer_poll
      final_i dequeue transmit send_i_frame out_of_sequence
  on_i-Recovers pf rx w = ground arith

  by_type-Recovers :
      (t : ℕ) (pf : Bool) (rx : Received) (w : Link)
      → Recovers pf rx.is_response w (by_type now t nr pf rx w)
  unfolding by_type
  by_type-Recovers t pf rx w = ground (
    arith,
    on_ready-Recovers false pf rx.is_response w,
    on_ready-Recovers true pf rx.is_response w,
    on_rej-Recovers pf rx.is_response w,
    on_i-Recovers pf rx w,
  )

on_numbered-Recovers :
    (now t : ℕ) (pf : Bool) (rx : Received) (w : Link)
    → Recovers pf rx.is_response w (on_numbered now t pf rx w)
unfolding on_numbered re_establish send_frmr send_control
on_numbered-Recovers now t pf rx w =
    let nr = ctrl2 rx.payload >>> 1 in
    let acked = acknowledge now nr w in
    ground (arith, acknowledge-state now nr w, by_type-Recovers now nr t pf rx acked)

finish-state : (now : ℕ) (w : Link) → (finish now w).lapf.state ≡ w.lapf.state
unfolding finish send_control
finish-state now w = ground arith

on_disc-state : (pf : Bool) (w : Link) → (on_disc pf w).lapf.state ≡ tei_assigned
unfolding on_disc send_control
on_disc-state pf w = ground arith

on_ui-state : (rx : Received) (w : Link) → (on_ui rx w).lapf.state ≡ w.lapf.state
unfolding on_ui
on_ui-state rx w = ground arith

frmr-state :
    (now c1 c2 bits : ℕ) (resp : Bool) (w : Link)
    → (re_establish now (send_frmr c1 c2 resp bits w)).lapf.state ≡ awaiting_establishment
unfolding re_establish send_frmr send_control
frmr-state now c1 c2 bits resp w = refl

-- What of an event can bring a link up.
abbrev pub Establishes : Event → LinkState → Type 0
Establishes (frame octets ui) s =
    let rx = received octets ui in
    let t = ctrl_type_of (ctrl1 rx.payload) in
    (t ≡ ctrl_sabme)
    ⊎ ((s ≡ awaiting_establishment) × (t ≡ ctrl_ua) × (pf_of rx.payload ≡ true))
    ⊎ ((s ≡ timer_recovery) × (pf_of rx.payload ≡ true) × (rx.is_response ≡ true))
Establishes _ s = ⊥

module _ (now : ℕ) (rx : Received) where
  abbrev Up : ℕ → Link → Type 0
  Up t w =
      (w.lapf.state ≡ established)
      ⊎ (t ≡ ctrl_sabme)
      ⊎ ((w.lapf.state ≡ awaiting_establishment) × (t ≡ ctrl_ua) × (pf_of rx.payload ≡ true))
      ⊎ ((w.lapf.state ≡ timer_recovery) × (pf_of rx.payload ≡ true) × (rx.is_response ≡ true))

  in_connected-Up :
      (t : ℕ) (w : Link)
      → (w.lapf.state ≡ established) ⊎ (w.lapf.state ≡ timer_recovery)
      → (in_connected now t (pf_of rx.payload) rx w).lapf.state ≡ established
      → Up t w
  unfolding in_connected on_dm re_establish send_control handle_xid negotiated answer_xid call_cllm
  in_connected-Up t w c e = ground (arith, on_numbered-Recovers now t (pf_of rx.payload) rx w)

  by_state-Up :
      (t : ℕ) (w : Link)
      → (by_state now t (pf_of rx.payload) rx w).lapf.state ≡ established
      → Up t w
  unfolding by_state in_tei_assigned re_establish send_control in_awaiting_establishment
      in_awaiting_release
  by_state-Up t w e = ground (arith, in_connected-Up t w)

  accept-Up :
      (w : Link)
      → (accept now rx w).1.lapf.state ≡ established
      → Up (ctrl_type_of (ctrl1 rx.payload)) w
  unfolding accept
  accept-Up w e =
      let t = ctrl_type_of (ctrl1 rx.payload) in
      let pf = pf_of rx.payload in
      let counted = record w { lapf = record w.lapf { stats = count_rx t w.lapf.stats } } in
      let reported = mdl_error error_l counted in
      ground (
        arith,
        by_state-Up t counted,
        finish-state now (by_state now t pf rx counted),
        on_disc-state pf counted,
        on_ui-state rx counted,
        frmr-state now (ctrl1 rx.payload) (ctrl2 rx.payload) 0x01 rx.is_response reported,
      )

  handle_payload-Up :
      (w : Link)
      → (handle_payload now rx w).1.lapf.state ≡ established
      → Up (ctrl_type_of (ctrl1 rx.payload)) w
  unfolding handle_payload wrong_size
  handle_payload-Up w e =
      let reported = mdl_error error_n w in
      ground (arith, accept-Up w, frmr-state now (ctrl1 rx.payload) 0 0x03 rx.is_response reported)

-- A step brings a link to ESTABLISHED only if it was there, or by a SABME, by a UA with F = 1 while
-- the establishment is awaited, or by a response with F = 1 in timer recovery; no timer and no call of
-- a user does.
pub step-Establishes :
    (now : ℕ) (e : Event) (w : Link)
    → (step now e w).lapf.state ≡ established
    → (w.lapf.state ≡ established) ⊎ Establishes e w.lapf.state
unfolding step establish_link re_establish release_link send_l3 enqueue transmit send_i_frame
    send_control handle_in_context poll_timer poll_t200 t200_expired t203_expired poll_peer
    ask_again
step-Establishes now establish w e = ground arith
step-Establishes now release w e = ground arith
step-Establishes now (gives octets) w e = ground arith
step-Establishes now (frame octets ui) w e =
    let l = on_becn (decode_addr octets).becn w.lapf in
    let w0 = record w { lapf = l; deferred = []; sent_supervisory = false } in
    let up = handle_payload-Up now (received octets ui) w0 e in ground arith
step-Establishes now tick w e = ground arith

-- Every octet is the control octet of an I-, S- or U-frame, and its type is never the value 0xFF by
-- which the handler would tell an undefined one.
pub ctrl_type_of_defined : (c : ℕ) → c < 256 → ctrl_type_of c ≢ 0xFF
unfolding ctrl_type_of
ctrl_type_of_defined c h e =
    let table : all_below 256 (λ c. not (ctrl_type_of c == 0xFF)) ≡ true =
      unfold all_below in refl in
    ground (arith, all_below_sound 256 (λ c. not (ctrl_type_of c == 0xFF)) c table h)
