-- ===== src/Lapf/Window.antt =====
-- The sequence numbers, the working window and the ring of the backlog stay in their ranges, whatever
-- a peer, a timer or a user of the link does.
pub mod Numbered
pub mod Steps
use vfrs.Common.{
  ℕ, zero, suc, ◌+◌, ◌-◌, ◌*◌, ◌/◌, ◌%◌, ◌^◌, ◌≤◌, ◌<◌, ◌≡◌, refl, Bool, true, false, inl, inr,
  List, [], ◌∷◌, length, length-set, ltb, leb, ◌==◌, if◌then◌else◌, arith, Bool-cases, not-leb→lt,
  get_or, u8, u16,
}
use vfrs.Lapf.{
  LinkState, tei_assigned, awaiting_establishment, awaiting_release, established, timer_recovery,
  Lapf, Link, Status, outstanding, seq_in_range, is_connected,
}
use vfrs.Lapf.Frames.{
  send_control, send_frmr, send_i_frame, transmit, dequeue, drain, process_backlog,
}
use vfrs.Lapf.Unnumbered.{
  Received, re_establish, wrong_size, on_ui, on_sabme, on_disc, in_tei_assigned, confirm,
  in_awaiting_establishment, in_awaiting_release, on_dm,
}

-- `limit` is the window that the context was configured with.
pub record InWindow (limit : ℕ) (l : Lapf) : Type 0 where
  pub send_seq : l.v_s < 128
  pub receive_seq : l.v_r < 128
  pub ack_seq : l.v_a < 128
  pub head : l.backlog_head < 64
  pub tail : l.backlog_tail < 64
  pub slots : length l.tx_window ≡ 128
  pub places : length l.tx_backlog ≡ 64
  pub some_room : 0 < l.v_k
  pub narrowed : l.v_k ≤ limit
  pub agreed : l.k ≤ limit
  pub in_flight : outstanding l.v_s l.v_a ≤ limit

module _ (limit : ℕ) where
  pub send_control-InWindow :
      (t nr : ℕ) (pf resp : Bool) (w : Link)
      → InWindow limit w.lapf
      → InWindow limit (send_control t nr pf resp w).lapf
  unfolding send_control
  send_control-InWindow t nr pf resp w h = ground arith

  pub re_establish-InWindow :
      (now : ℕ) (w : Link) → InWindow limit w.lapf → InWindow limit (re_establish now w).lapf
  unfolding re_establish send_control
  re_establish-InWindow now w h = ground arith

  pub transmit-InWindow :
      (now : ℕ) (octets : List ℕ) (w : Link)
      → InWindow limit w.lapf
      → outstanding w.lapf.v_s w.lapf.v_a < w.lapf.v_k
      → InWindow limit (transmit now octets w).lapf
  unfolding transmit send_i_frame
  transmit-InWindow now octets w h room =
      ground (arith, length-set w.lapf.tx_window w.lapf.v_s octets)

  pub dequeue-InWindow :
      (now : ℕ) (w : Link)
      → InWindow limit w.lapf
      → outstanding w.lapf.v_s w.lapf.v_a < w.lapf.v_k
      → InWindow limit (dequeue now w).lapf
  unfolding dequeue transmit send_i_frame
  dequeue-InWindow now w h room = ground (
    arith,
    length-set w.lapf.tx_window w.lapf.v_s (get_or w.lapf.tx_backlog w.lapf.backlog_head []),
  )

  drain-InWindow :
      (fuel now : ℕ) (w : Link) → InWindow limit w.lapf → InWindow limit (drain fuel now w).lapf
  unfolding drain
  drain-InWindow zero now w h = h
  drain-InWindow (suc fuel) now w h =
      ground (arith, dequeue-InWindow now w h, drain-InWindow fuel now (dequeue now w))

  pub process_backlog-InWindow :
      (now : ℕ) (w : Link) → InWindow limit w.lapf → InWindow limit (process_backlog now w).lapf
  unfolding process_backlog
  process_backlog-InWindow now w h = ground (arith, drain-InWindow 64 now w h)

  -- What the unnumbered frames do.
  pub wrong_size-InWindow :
      (now : ℕ) (rx : Received) (w : Link)
      → InWindow limit w.lapf
      → InWindow limit (wrong_size now rx w).lapf
  unfolding wrong_size send_frmr re_establish send_control
  wrong_size-InWindow now rx w h = ground arith

  pub on_sabme-InWindow :
      (now : ℕ) (pf : Bool) (w : Link)
      → InWindow limit w.lapf
      → InWindow limit (on_sabme now pf w).lapf
  unfolding on_sabme send_control
  on_sabme-InWindow now pf w h = ground arith

  pub on_disc-InWindow :
      (pf : Bool) (w : Link) → InWindow limit w.lapf → InWindow limit (on_disc pf w).lapf
  unfolding on_disc send_control
  on_disc-InWindow pf w h = ground arith

  pub in_tei_assigned-InWindow :
      (now t : ℕ) (pf resp : Bool) (w : Link)
      → InWindow limit w.lapf
      → InWindow limit (in_tei_assigned now t pf resp w).lapf
  unfolding in_tei_assigned send_control
  in_tei_assigned-InWindow now t pf resp w h = ground (arith, re_establish-InWindow now w h)

  confirm-InWindow :
      (now : ℕ) (w : Link) → InWindow limit w.lapf → InWindow limit (confirm now w).lapf
  unfolding confirm
  confirm-InWindow now w h = process_backlog-InWindow now _ (ground arith)

  pub in_awaiting_establishment-InWindow :
      (now t : ℕ) (pf : Bool) (w : Link)
      → InWindow limit w.lapf
      → InWindow limit (in_awaiting_establishment now t pf w).lapf
  unfolding in_awaiting_establishment
  in_awaiting_establishment-InWindow now t pf w h = ground (arith, confirm-InWindow now w h)

  pub in_awaiting_release-InWindow :
      (t : ℕ) (pf : Bool) (w : Link)
      → InWindow limit w.lapf
      → InWindow limit (in_awaiting_release t pf w).lapf
  unfolding in_awaiting_release
  in_awaiting_release-InWindow t pf w h = ground arith

  pub on_dm-InWindow :
      (now : ℕ) (pf : Bool) (w : Link)
      → InWindow limit w.lapf
      → InWindow limit (on_dm now pf w).lapf
  unfolding on_dm re_establish send_control
  on_dm-InWindow now pf w h = ground arith
