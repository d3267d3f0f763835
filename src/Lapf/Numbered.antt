-- ===== src/Lapf/Numbered.antt =====
-- The numbered frames, I, RR, RNR and REJ, of a connected link: the last part of lapf_handle_frame of
-- src/ports/lapf/port_lapf.c.
use vfrs.Common.{
  ℕ, zero, suc, ◌+◌, ◌-◌, ◌/◌, ◌%◌, Bool, true, false, not, ◌&&◌, List, [], ltb, leb, ◌==◌,
  if◌then◌else◌, length, get_or, drop, u8, u16, ◌>>>◌,
}
use vfrs.Frame.Addr.{octet}
use vfrs.Lapf.{
  established, timer_recovery, error_a, error_j, error_o, ctrl_i, ctrl_rr, ctrl_rnr, ctrl_rej, Lapf,
  l3_data, Link, seq_in_range, outstanding, mdl_error, defer, timer_set, run_t200, run_t203,
}
use vfrs.Lapf.Frames.{send_control, send_frmr, send_i_frame, dequeue, process_backlog}
use vfrs.Lapf.Unnumbered.{Received, ctrl1, ctrl2, re_establish}

-- The working window grows by one for each `n_w` frames that are acknowledged. In the source the loop
-- does not end where `n_w` is 0; it is 5 in every context.
unfoldable pub open_window : ℕ → Lapf → Lapf
open_window zero l = l
open_window (suc fuel) l = elim (leb l.n_w l.ia_ct) [
  | true ↦
      open_window fuel (record l {
        v_k = if ltb l.v_k l.k then u8 (l.v_k + 1) else l.v_k;
        ia_ct = l.ia_ct - l.n_w;
      })
  | false ↦ l
]

-- N(R) is taken as V(A), and the window opens.
unfoldable pub note_ack : ℕ → Lapf → Lapf
note_ack nr l =
    let ia_ct = u16 (l.ia_ct + outstanding nr l.v_a) in
    open_window (suc ia_ct) (record l { v_a = nr; ia_ct = ia_ct })

unfoldable pub acknowledge : ℕ → ℕ → Link → Link
acknowledge now nr w =
    let going = process_backlog now (record w { lapf = note_ack nr w.lapf }) in
    let l = going.lapf in
    if nr == w.lapf.v_a then w else record going {
      lapf =
          if l.v_a == l.v_s then run_t203 now l else record l { t200_timer = timer_set now l.t200 };
    }

-- The end of timer recovery.
abbrev pub recovered : ℕ → Lapf → Lapf
recovered now l = run_t203 now (record l { state = established })

-- A response with F = 1: unsolicited, or the end of timer recovery.
unfoldable pub on_final : ℕ → Link → Link
on_final now w = elim w.lapf.state [
  | established ↦ mdl_error error_a w
  | timer_recovery ↦ record w { lapf = recovered now w.lapf }
  | _ ↦ w
]

-- A command with P = 1 is answered by RR with F = 1.
unfoldable pub answer_poll : Link → Link
answer_poll w = record (send_control ctrl_rr w.lapf.v_r true true w) { sent_supervisory = true }

-- RR and RNR, with what they say of the peer's receiver.
unfoldable pub on_ready : ℕ → Bool → Bool → Bool → Link → Link
on_ready now busy pf is_response w0 =
    let w = record w0 { lapf = record w0.lapf { peer_receiver_busy = busy } } in
    if pf then if is_response then on_final now w else answer_poll w else w

-- The loop that sends the outstanding frames again. They are at most 127, so that 128 rounds are
-- enough.
unfoldable pub retransmit : ℕ → ℕ → Link → Link
retransmit zero tx_seq w = w
retransmit (suc fuel) tx_seq w = elim (tx_seq == w.lapf.v_s) [
  | true ↦ w
  | false ↦
      retransmit fuel ((tx_seq + 1) % 128)
        (send_i_frame tx_seq w.lapf.v_r false false (get_or w.lapf.tx_window tx_seq []) w)
]

-- The cut of the working window at a loss.
abbrev pub cut_window : Lapf → Lapf
cut_window l = record l { v_k = if ltb 4 l.v_k then l.v_k / 4 else 1; ia_ct = 0 }

-- REJ. The peer is not busy any more, so that the frames are always sent again.
unfoldable pub on_rej : ℕ → ℕ → Bool → Bool → Link → Link
on_rej now nr pf is_response w0 =
    let w = record w0 { lapf = record (cut_window w0.lapf) { peer_receiver_busy = false } } in
    let w' = if pf && is_response then on_final now w else w in
    let again = retransmit 128 nr w' in record again { lapf = run_t200 now again.lapf }

-- What an expected I-frame gives to layer 3.
unfoldable pub deliver : List ℕ → Link → Link
deliver payload w =
    if ltb 2 (length payload) && octet payload 2 == 0x08
    then record w { deferred = defer (l3_data (drop 2 payload)) w.deferred }
    else w

-- The acknowledgement of a command.
unfoldable pub acknowledge_i : Bool → Link → Link
acknowledge_i pf w =
    let answered = answer_poll w in
    if pf
    then record answered { lapf = record answered.lapf { acknowledgement_pending = false } }
    else record w { lapf = record w.lapf { acknowledgement_pending = true } }

-- A response with F = 1 ends timer recovery, and a frame of the backlog goes out.
unfoldable pub final_i : ℕ → ℕ → Link → Link
final_i now nr w = elim w.lapf.state [
  | established ↦ mdl_error error_a w
  | timer_recovery ↦
      let back = record w {
        lapf = record (recovered now w.lapf) { v_s = nr; peer_receiver_busy = false };
      } in
      if not w.lapf.own_receiver_busy && not (w.lapf.backlog_head == w.lapf.backlog_tail)
      then record (dequeue now back) { sent_supervisory = true }
      else back
  | _ ↦ w
]

-- An I-frame with N(S) = V(R).
unfoldable pub in_sequence : ℕ → ℕ → Bool → Received → Link → Link
in_sequence now nr pf rx w =
    let taken =
      deliver rx.payload (record w {
        lapf = record w.lapf { v_r = (w.lapf.v_r + 1) % 128; rej_exception = false };
      }) in
    if rx.is_response then if pf then final_i now nr taken else taken else acknowledge_i pf taken

-- Any other: the first is answered by REJ.
unfoldable pub out_of_sequence : Bool → Bool → Link → Link
out_of_sequence pf is_response w =
    let rejected = send_control ctrl_rej w.lapf.v_r (if is_response then false else pf) true w in
    if w.lapf.rej_exception
    then record w { lapf = record w.lapf { acknowledgement_pending = false } }
    else record rejected {
      lapf = record rejected.lapf { rej_exception = true; acknowledgement_pending = false };
      sent_supervisory = true;
    }

-- An I-frame.
unfoldable pub on_i : ℕ → ℕ → Bool → Received → Link → Link
on_i now nr pf rx w =
    if ltb w.lapf.n201 (length rx.payload - 2)
    then re_establish now
        (send_frmr (ctrl1 rx.payload) (ctrl2 rx.payload) rx.is_response 0x04 (mdl_error error_o w))
    else if ctrl1 rx.payload >>> 1 == w.lapf.v_r
    then in_sequence now nr pf rx w
    else out_of_sequence pf rx.is_response w

-- The frame by its type, after its N(R) is taken.
unfoldable pub by_type : ℕ → ℕ → ℕ → Bool → Received → Link → Link
by_type now t nr pf rx w =
    if t == ctrl_rr
    then on_ready now false pf rx.is_response w
    else if t == ctrl_rnr
    then on_ready now true pf rx.is_response w
    else if t == ctrl_rej
    then on_rej now nr pf rx.is_response w
    else if t == ctrl_i
    then on_i now nr pf rx w
    else w

-- An N(R) that is not between V(A) and V(S) resets the link.
unfoldable pub on_numbered : ℕ → ℕ → Bool → Received → Link → Link
on_numbered now t pf rx w =
    let nr = ctrl2 rx.payload >>> 1 in
    if seq_in_range nr w.lapf.v_a w.lapf.v_s
    then by_type now t nr pf rx (acknowledge now nr w)
    else re_establish now
        (send_frmr (ctrl1 rx.payload) (ctrl2 rx.payload) rx.is_response 0x08 (mdl_error error_j w))
