-- ===== src/Lapf/Delivery/Progress.antt =====
-- An expected I-frame does reach layer 3.
use vfrs.Common.{
  ℕ, ◌+◌, ◌%◌, ◌≤◌, ◌<◌, ◌≡◌, refl, ◌≢◌, Bool, true, false, List, [], length, arith, ◌>>>◌, bit_and,
}
use vfrs.Common.Bits.{bit_and_mask}
use vfrs.Frame.Addr.{decode_addr}
use vfrs.Lapf.{ctrl_i, Link, seq_in_range, defer, is_connected}
use vfrs.Lapf.Unnumbered.{Received, ctrl1, ctrl2, ctrl_type_of, pf_of, count_rx}
use vfrs.Lapf.Numbered.{acknowledge, on_i, by_type, on_numbered}
use vfrs.Lapf.Handle.{
  in_connected, by_state, accept, handle_payload, received, on_becn, handle_in_context,
}
use vfrs.Lapf.Delivery.{
  Takes, acknowledge-Quiet, in_sequence-Takes, finish-Quiet, whole, Hears, Carries, arrive,
}

-- The conditions under which an I-frame is taken.
pub record Good (rx : Received) (w : Link) : Type 0 where
  pub expected : ctrl1 rx.payload >>> 1 ≡ w.lapf.v_r
  pub small : length rx.payload ≤ w.lapf.n201 + 2
  pub acknowledges : seq_in_range (ctrl2 rx.payload >>> 1) w.lapf.v_a w.lapf.v_s ≡ true
  pub connected : is_connected w.lapf.state ≡ true

module _ (now : ℕ) (rx : Received) where
  on_i_taken :
      (nr : ℕ) (pf : Bool) (w : Link)
      → ctrl1 rx.payload >>> 1 ≡ w.lapf.v_r
      → length rx.payload ≤ w.lapf.n201 + 2
      → Takes rx.payload w (on_i now nr pf rx w)
  unfolding on_i
  on_i_taken nr pf w e small = ground (arith, in_sequence-Takes now nr pf rx w)

  on_numbered_taken :
      (pf : Bool) (w : Link) → Good rx w → Takes rx.payload w (on_numbered now ctrl_i pf rx w)
  unfolding on_numbered by_type
  on_numbered_taken pf w g =
      let nr = ctrl2 rx.payload >>> 1 in
      ground (arith, acknowledge-Quiet now nr w, on_i_taken nr pf (acknowledge now nr w))

  by_state_taken :
      (pf : Bool) (w : Link)
      → bit_and (ctrl1 rx.payload) 0x01 ≡ 0
      → Good rx w
      → Takes rx.payload w (by_state now ctrl_i pf rx w)
  unfolding by_state in_connected
  by_state_taken pf w i g =
      let c = ctrl1 rx.payload in
      let even : bit_and c 0x03 ≢ 3 =
        λ e. omega (arith, bit_and_mask 1 c 0x01 refl, bit_and_mask 2 c 0x03 refl) in
      ground (arith, on_numbered_taken pf w g)

  handle_payload_taken :
      (w : Link)
      → bit_and (ctrl1 rx.payload) 0x01 ≡ 0
      → 2 < length rx.payload
      → Good rx w
      → Takes rx.payload w (handle_payload now rx w).1
  unfolding handle_payload accept ctrl_type_of
  handle_payload_taken w i long g =
      let counted = record w { lapf = record w.lapf { stats = count_rx ctrl_i w.lapf.stats } } in
      let pf = pf_of rx.payload in
      let good : Good rx counted = ground arith in
      ground (
        arith,
        by_state_taken pf counted i good,
        finish-Quiet now (by_state now ctrl_i pf rx counted),
      )

-- On a connected link, a frame with the expected message, of at most N201 octets and with an N(R)
-- between V(A) and V(S), reaches layer 3, and the next message is expected.
pub arrive-heard :
    (source : ℕ → List ℕ) (n : ℕ) (f : ℕ × List ℕ) (w : Link)
    → Carries source n f.1
    → w.lapf.v_r ≡ n % 128
    → Good (received f.1 false) w
    → Hears source n w (arrive f w)
unfolding handle_in_context defer
arrive-heard source n (now, octets) w c e g =
    let rx = received octets false in
    let l = on_becn (decode_addr octets).becn w.lapf in
    let w0 = record w { lapf = l; deferred = []; sent_supervisory = false } in
    let even : bit_and (ctrl1 rx.payload) 0x01 ≡ 0 =
      omega (arith, c.numbered, bit_and_mask 1 (ctrl1 rx.payload) 0x01 refl) in
    let full = whole rx.payload (source n) c.holds in
    let good : Good rx w0 = ground arith in
    let same : l.v_r ≡ w.lapf.v_r = ground arith in
    let t = handle_payload_taken now rx w0 even full.0 good in ground (arith, t)
