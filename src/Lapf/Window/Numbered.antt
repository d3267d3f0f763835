-- ===== src/Lapf/Window/Numbered.antt =====
-- The numbered frames keep the window, whatever N(R) and N(S) they carry.
use vfrs.Common.{
  ℕ, zero, suc, ◌+◌, ◌-◌, ◌%◌, ◌<◌, ◌≡◌, refl, Bool, true, false, ◌&&◌, [], ltb, if◌then◌else◌,
  arith, get_or, u8, u16,
}
use vfrs.Lapf.{Lapf, Link, outstanding, seq_in_range}
use vfrs.Lapf.Frames.{send_control, send_i_frame, transmit, dequeue, drain, process_backlog}
use vfrs.Lapf.Unnumbered.{Received}
use vfrs.Lapf.Numbered.{
  open_window, note_ack, acknowledge, recovered, on_final, answer_poll, on_ready, retransmit,
  cut_window, on_rej, deliver, acknowledge_i, final_i, in_sequence, out_of_sequence,
}
use vfrs.Lapf.Window.{InWindow, dequeue-InWindow, process_backlog-InWindow}

-- What a step leaves alone.
open_window-acks :
    (fuel : ℕ) (l : Lapf) → ((open_window fuel l).v_a ≡ l.v_a) × ((open_window fuel l).v_s ≡ l.v_s)
unfolding open_window
open_window-acks zero l = (refl, refl)
open_window-acks (suc fuel) l = ground (
  arith,
  open_window-acks fuel
      (record l { v_k = if ltb l.v_k l.k then u8 (l.v_k + 1) else l.v_k; ia_ct = l.ia_ct - l.n_w }),
)

drain-acks : (fuel now : ℕ) (w : Link) → (drain fuel now w).lapf.v_a ≡ w.lapf.v_a
unfolding drain dequeue transmit send_i_frame
drain-acks zero now w = refl
drain-acks (suc fuel) now w = ground (arith, drain-acks fuel now (dequeue now w))

process_backlog-acks : (now : ℕ) (w : Link) → (process_backlog now w).lapf.v_a ≡ w.lapf.v_a
unfolding process_backlog
process_backlog-acks now w = ground (arith, drain-acks 64 now w)

-- After a frame is taken, V(A) is its N(R).
pub acknowledge-v_a : (now nr : ℕ) (w : Link) → (acknowledge now nr w).lapf.v_a ≡ nr
unfolding acknowledge note_ack
acknowledge-v_a now nr w =
    let ia_ct = u16 (w.lapf.ia_ct + outstanding nr w.lapf.v_a) in
    ground (
      arith,
      process_backlog-acks now (record w { lapf = note_ack nr w.lapf }),
      open_window-acks (suc ia_ct) (record w.lapf { v_a = nr; ia_ct = ia_ct }),
    )

module _ (limit : ℕ) (octet : limit < 256) where
  open_window-InWindow :
      (fuel : ℕ) (l : Lapf) → InWindow limit l → InWindow limit (open_window fuel l)
  unfolding open_window
  open_window-InWindow zero l h = h
  open_window-InWindow (suc fuel) l h = ground (
    arith,
    open_window-InWindow fuel (record l {
      v_k = if ltb l.v_k l.k then u8 (l.v_k + 1) else l.v_k;
      ia_ct = l.ia_ct - l.n_w;
    }),
  )

  note_ack-InWindow :
      (nr : ℕ) (l : Lapf)
      → nr < 128
      → seq_in_range nr l.v_a l.v_s ≡ true
      → InWindow limit l
      → InWindow limit (note_ack nr l)
  unfolding note_ack seq_in_range
  note_ack-InWindow nr l small inside h =
      open_window-InWindow (suc (u16 (l.ia_ct + outstanding nr l.v_a)))
        (record l { v_a = nr; ia_ct = u16 (l.ia_ct + outstanding nr l.v_a) }) (ground arith)

  pub acknowledge-InWindow :
      (now nr : ℕ) (w : Link)
      → nr < 128
      → seq_in_range nr w.lapf.v_a w.lapf.v_s ≡ true
      → InWindow limit w.lapf
      → InWindow limit (acknowledge now nr w).lapf
  unfolding acknowledge
  acknowledge-InWindow now nr w small inside h = ground (
    arith,
    process_backlog-InWindow limit now (record w { lapf = note_ack nr w.lapf })
        (note_ack-InWindow nr w.lapf small inside h),
  )

  pub on_ready-InWindow :
      (now : ℕ) (busy pf resp : Bool) (w : Link)
      → InWindow limit w.lapf
      → InWindow limit (on_ready now busy pf resp w).lapf
  unfolding on_ready on_final answer_poll send_control
  on_ready-InWindow now busy pf resp w h = ground arith

  retransmit-InWindow :
      (fuel seq : ℕ) (w : Link)
      → InWindow limit w.lapf
      → InWindow limit (retransmit fuel seq w).lapf
  unfolding retransmit send_i_frame
  retransmit-InWindow zero seq w h = h
  retransmit-InWindow (suc fuel) seq w h = ground (
    arith,
    retransmit-InWindow fuel ((seq + 1) % 128)
        (send_i_frame seq w.lapf.v_r false false (get_or w.lapf.tx_window seq []) w),
  )

  cut_window-InWindow : (l : Lapf) → InWindow limit l → InWindow limit (cut_window l)
  cut_window-InWindow l h = ground arith

  pub on_rej-InWindow :
      (now nr : ℕ) (pf resp : Bool) (w : Link)
      → InWindow limit w.lapf
      → InWindow limit (on_rej now nr pf resp w).lapf
  unfolding on_rej on_final
  on_rej-InWindow now nr pf resp w h =
      let l = record (cut_window w.lapf) { peer_receiver_busy = false } in
      let narrow = record w { lapf = l } in
      let seen = if pf && resp then on_final now narrow else narrow in
      let kept : InWindow limit seen.lapf = ground arith in
      let sent : InWindow limit (retransmit 128 nr seen).lapf =
        retransmit-InWindow 128 nr seen kept in
      ground arith

  acknowledge_i-InWindow :
      (pf : Bool) (w : Link) → InWindow limit w.lapf → InWindow limit (acknowledge_i pf w).lapf
  unfolding acknowledge_i answer_poll send_control
  acknowledge_i-InWindow pf w h = ground arith

  -- The frame that goes out finds an empty window, since V(S) has been set to V(A).
  final_i-InWindow :
      (now nr : ℕ) (w : Link)
      → w.lapf.v_a ≡ nr
      → InWindow limit w.lapf
      → InWindow limit (final_i now nr w).lapf
  unfolding final_i
  final_i-InWindow now nr w e h =
      let back = record w {
        lapf = record (recovered now w.lapf) { v_s = nr; peer_receiver_busy = false };
      } in
      let kept : InWindow limit back.lapf = ground arith in
      let empty : outstanding nr w.lapf.v_a < w.lapf.v_k = ground arith in
      ground (arith, dequeue-InWindow limit now back kept empty)

  pub in_sequence-InWindow :
      (now nr : ℕ) (pf : Bool) (rx : Received) (w : Link)
      → w.lapf.v_a ≡ nr
      → InWindow limit w.lapf
      → InWindow limit (in_sequence now nr pf rx w).lapf
  unfolding in_sequence deliver
  in_sequence-InWindow now nr pf rx w e h =
      let l = record w.lapf { v_r = (w.lapf.v_r + 1) % 128; rej_exception = false } in
      let taken = deliver rx.payload (record w { lapf = l }) in
      let kept : InWindow limit taken.lapf = ground arith in
      let same : taken.lapf.v_a ≡ nr = ground arith in
      ground (arith, final_i-InWindow now nr taken same kept, acknowledge_i-InWindow pf taken kept)

  pub out_of_sequence-InWindow :
      (pf resp : Bool) (w : Link)
      → InWindow limit w.lapf
      → InWindow limit (out_of_sequence pf resp w).lapf
  unfolding out_of_sequence send_control
  out_of_sequence-InWindow pf resp w h = ground arith
