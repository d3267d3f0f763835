-- ===== src/Lapf/Recovery.antt =====
-- What the expiries of T200 lead to while an establishment is awaited, and how timer recovery ends.
use vfrs.Common.{ℕ, ◌+◌, ◌*◌, ◌<◌, ◌≡◌, true, false, List, [], ◌∷◌, arith, bit_and}
use vfrs.Frame.Addr.Octets.{low_1}
use vfrs.Lapf.{
  awaiting_establishment, established, timer_recovery, Link, ctrl_rr, timer_cancel, seq_in_range,
}
use vfrs.Lapf.Frames.{send_control}
use vfrs.Lapf.Unnumbered.{Received, ctrl_type_of, pf_of, re_establish}
use vfrs.Lapf.Numbered.{acknowledge, by_type, on_numbered, on_ready, on_final}
use vfrs.Lapf.Handle.{handle_payload, accept, by_state, in_connected, finish}
use vfrs.Lapf.Calls.{ask_again, t200_expired}

-- T200 expires at these times, and no frame comes.
unfoldable pub expiries : List ℕ → Link → Link
expiries [] w = w
expiries (now ∷ nows) w = expiries nows (t200_expired now w)

-- The establishment is never given up: however often T200 expires without an answer, the link goes on
-- to ask for it.
pub expiries-establishment :
    (nows : List ℕ) (w : Link)
    → w.lapf.state ≡ awaiting_establishment
    → (expiries nows w).lapf.state ≡ awaiting_establishment
unfolding expiries t200_expired re_establish ask_again send_control
expiries-establishment [] w s = s
expiries-establishment (now ∷ nows) w s =
    expiries-establishment nows (t200_expired now w) (ground arith)

-- In timer recovery, the response RR with F = 1 that acknowledges nothing new ends the recovery: T200
-- stops and no frame is sent, though the outstanding frames, from V(A) to V(S), stay without an
-- acknowledgement. No delayed acknowledgement is pending.
pub recovery_resends_nothing :
    (now : ℕ) (rx : Received) (w : Link)
    → w.lapf.state ≡ timer_recovery
    → w.lapf.acknowledgement_pending ≡ false
    → w.lapf.v_a < 128
    → w.lapf.v_s < 128
    → rx.payload ≡ ctrl_rr ∷ (w.lapf.v_a * 2 + 1) ∷ []
    → rx.is_response ≡ true
    → let w' = (handle_payload now rx w).1 in
      (w'.lapf.state ≡ established)
      × (w'.lapf.t200_timer ≡ timer_cancel)
      × (w'.lapf.v_a ≡ w.lapf.v_a)
      × (w'.lapf.v_s ≡ w.lapf.v_s)
      × (w'.line.sent ≡ w.line.sent)
unfolding handle_payload accept ctrl_type_of pf_of by_state in_connected on_numbered seq_in_range
    acknowledge by_type on_ready on_final finish
recovery_resends_nothing now rx w s p a b e r =
    let odd : bit_and (w.lapf.v_a * 2 + 1) 0x01 ≡ 1 = omega (arith, low_1 (w.lapf.v_a * 2 + 1)) in
    ground arith
