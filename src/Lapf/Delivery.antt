-- ===== src/Lapf/Delivery.antt =====
-- What layer 3 gets of a peer's I-frames: each frame once, in the order of its numbers, whatever is
-- lost, repeated or out of order on the way.
pub mod Progress
use vfrs.Common.{
  ℕ, zero, suc, ◌+◌, ◌-◌, ◌*◌, ◌/◌, ◌%◌, ◌^◌, ◌≤◌, ◌<◌, ◌≡◌, refl, sym, ap, ◌∙◌, ◌⊎◌, inl, inr, ◌≢◌,
  Bool, true, false, not, ◌&&◌, List, [], ◌∷◌, ◌++◌, All, length, ltb, leb, ◌==◌, if◌then◌else◌,
  arith, Bool-cases, get_or, drop, u8, u16, ◌>>>◌, bit_and,
}
use vfrs.Common.Bits.{bit_and_mask}
use vfrs.Frame.Addr.{octet, get_addr_len, decode_addr}
use vfrs.Lapf.{
  LinkState, established, timer_recovery, error_l, error_n, ctrl_i, l3_data, Callback, Lapf, Link,
  outstanding, seq_in_range, mdl_error, defer, is_connected,
}
use vfrs.Lapf.Frames.{
  send_control, send_frmr, send_i_frame, transmit, dequeue, drain, process_backlog,
}
use vfrs.Lapf.Unnumbered.{
  Received, ctrl1, ctrl2, ctrl_type_of, pf_of, re_establish, count_rx, in_tei_assigned,
  in_awaiting_establishment, in_awaiting_release,
}
use vfrs.Lapf.Numbered.{
  open_window, note_ack, acknowledge, answer_poll, deliver, acknowledge_i, final_i, in_sequence,
  out_of_sequence, on_i, by_type, on_numbered,
}
use vfrs.Lapf.Handle.{
  in_connected, by_state, finish, accept, handle_payload, received, on_becn, handle_in_context,
}

-- What a step leaves of the receiving side.
pub record Quiet (w w' : Link) : Type 0 where
  pub same_seq : w'.lapf.v_r ≡ w.lapf.v_r
  pub same_size : w'.lapf.n201 ≡ w.lapf.n201
  pub same_calls : w'.deferred ≡ w.deferred

drain-Quiet : (fuel now : ℕ) (w : Link) → Quiet w (drain fuel now w)
unfolding drain dequeue transmit send_i_frame
drain-Quiet zero now w = record { same_seq = refl; same_size = refl; same_calls = refl }
drain-Quiet (suc fuel) now w = ground (arith, drain-Quiet fuel now (dequeue now w))

open_window_quiet :
    (fuel : ℕ) (l : Lapf)
    → ((open_window fuel l).v_r ≡ l.v_r) × ((open_window fuel l).n201 ≡ l.n201)
unfolding open_window
open_window_quiet zero l = (refl, refl)
open_window_quiet (suc fuel) l = ground (
  arith,
  open_window_quiet fuel
      (record l { v_k = if ltb l.v_k l.k then u8 (l.v_k + 1) else l.v_k; ia_ct = l.ia_ct - l.n_w }),
)

pub acknowledge-Quiet : (now nr : ℕ) (w : Link) → Quiet w (acknowledge now nr w)
unfolding acknowledge note_ack process_backlog
acknowledge-Quiet now nr w =
    let ia_ct = u16 (w.lapf.ia_ct + outstanding nr w.lapf.v_a) in
    ground (
      arith,
      drain-Quiet 64 now (record w { lapf = note_ack nr w.lapf }),
      open_window_quiet (suc ia_ct) (record w.lapf { v_a = nr; ia_ct = ia_ct }),
    )

re_establish-Quiet : (now : ℕ) (w : Link) → Quiet w (re_establish now w)
unfolding re_establish send_control
re_establish-Quiet now w = record { same_seq = refl; same_size = refl; same_calls = refl }

-- What an I-frame does: nothing to layer 3, or N(S) = V(R) and its data go there.
pub record Takes (payload : List ℕ) (w w' : Link) : Type 0 where
  pub expected : ctrl1 payload >>> 1 ≡ w.lapf.v_r
  pub advanced : w'.lapf.v_r ≡ (w.lapf.v_r + 1) % 128
  pub calls : w'.deferred ≡ (
      if ltb 2 (length payload) && octet payload 2 == 0x08
      then defer (l3_data (drop 2 payload)) w.deferred
      else w.deferred)

pub in_sequence-Takes :
    (now nr : ℕ) (pf : Bool) (rx : Received) (w : Link)
    → ctrl1 rx.payload >>> 1 ≡ w.lapf.v_r
    → Takes rx.payload w (in_sequence now nr pf rx w)
unfolding in_sequence deliver acknowledge_i answer_poll send_control final_i dequeue transmit
    send_i_frame
in_sequence-Takes now nr pf rx w e = ground arith

out_of_sequence-Quiet : (pf resp : Bool) (w : Link) → Quiet w (out_of_sequence pf resp w)
unfolding out_of_sequence send_control
out_of_sequence-Quiet pf resp w = ground arith

on_i-Takes :
    (now nr : ℕ) (pf : Bool) (rx : Received) (w : Link)
    → Quiet w (on_i now nr pf rx w) ⊎ Takes rx.payload w (on_i now nr pf rx w)
unfolding on_i re_establish send_control send_frmr
on_i-Takes now nr pf rx w =
    ground (arith, in_sequence-Takes now nr pf rx w, out_of_sequence-Quiet pf rx.is_response w)

-- The same of the frame as a whole.
module _ (now : ℕ) (rx : Received) (w : Link) where
  by_type-Takes :
      (nr : ℕ) (pf : Bool) (w' : Link)
      → Quiet w w'
      → let u = by_type now ctrl_i nr pf rx w' in Quiet w u ⊎ Takes rx.payload w u
  unfolding by_type
  by_type-Takes nr pf w' q = ground (arith, on_i-Takes now nr pf rx w')

  on_numbered-Takes :
      (pf : Bool) → let u = on_numbered now ctrl_i pf rx w in Quiet w u ⊎ Takes rx.payload w u
  unfolding on_numbered send_frmr re_establish send_control
  on_numbered-Takes pf =
      let nr = ctrl2 rx.payload >>> 1 in
      ground (arith, by_type-Takes nr pf (acknowledge now nr w) (acknowledge-Quiet now nr w))

  by_state-Takes :
      (pf : Bool)
      → bit_and (ctrl1 rx.payload) 0x01 ≡ 0
      → let u = by_state now ctrl_i pf rx w in Quiet w u ⊎ Takes rx.payload w u
  unfolding by_state in_connected in_tei_assigned in_awaiting_establishment in_awaiting_release
      send_control
  by_state-Takes pf i =
      let c = ctrl1 rx.payload in
      let even : bit_and c 0x03 ≢ 3 =
        λ e. omega (arith, bit_and_mask 1 c 0x01 refl, bit_and_mask 2 c 0x03 refl) in
      ground (arith, on_numbered-Takes pf)

pub finish-Quiet : (now : ℕ) (w : Link) → Quiet w (finish now w)
unfolding finish send_control
finish-Quiet now w = ground arith

handle_payload-Takes :
    (now : ℕ) (rx : Received) (w : Link)
    → bit_and (ctrl1 rx.payload) 0x01 ≡ 0
    → let u = (handle_payload now rx w).1 in Quiet w u ⊎ Takes rx.payload w u
unfolding handle_payload accept ctrl_type_of
handle_payload-Takes now rx w i =
    let counted = record w { lapf = record w.lapf { stats = count_rx ctrl_i w.lapf.stats } } in
    let pf = pf_of rx.payload in
    ground (
      arith,
      by_state-Takes now rx counted pf i,
      finish-Quiet now (by_state now ctrl_i pf rx counted),
    )

-- The I-frames that a context gets, each with its time, and the calls to layer 3 that they lead to.
abbrev pub arrive : ℕ × List ℕ → Link → Link
arrive (now, octets) w = (handle_in_context now octets false w).1

unfoldable pub deliveries : List (ℕ × List ℕ) → Link → List Callback
deliveries [] w = []
deliveries (f ∷ fs) w = (arrive f w).deferred ++ deliveries fs (arrive f w)

unfoldable pub after : List (ℕ × List ℕ) → Link → Link
after [] w = w
after (f ∷ fs) w = after fs (arrive f w)

-- The sender's messages of Q.933 from the one with number `n` on.
unfoldable pub messages : (ℕ → List ℕ) → ℕ → ℕ → List Callback
messages source n zero = []
messages source n (suc q) = l3_data (0x08 ∷ source n) ∷ messages source (suc n) q

-- An I-frame with message `i`, whose N(S) is `i` modulo 128.
pub record Carries (source : ℕ → List ℕ) (i : ℕ) (octets : List ℕ) : Type 0 where
  pub numbered : ctrl1 (received octets false).payload ≡ i % 128 * 2
  pub holds : drop 2 (received octets false).payload ≡ 0x08 ∷ source i

-- It is one of 127 that the sender may send, since it waits for the acknowledgement of the others.
pub record Sent (source : ℕ → List ℕ) (lo : ℕ) (f : ℕ × List ℕ) : Type 0 where
  pub index : ℕ
  pub not_before : lo ≤ index
  pub not_after : index < lo + 127
  pub carries : Carries source index f.1

pub whole :
    (payload s : List ℕ)
    → drop 2 payload ≡ 0x08 ∷ s
    → (2 < length payload) × (octet payload 2 ≡ 0x08)
whole [] s e = cc
whole (a ∷ []) s e = cc
whole (a ∷ b ∷ []) s e = cc
whole (a ∷ b ∷ c ∷ p) s e = ground arith

-- One frame: nothing, or the message that is expected.
pub record Hears (source : ℕ → List ℕ) (n : ℕ) (w w' : Link) : Type 0 where
  pub seq : w'.lapf.v_r ≡ suc n % 128
  pub calls : w'.deferred ≡ l3_data (0x08 ∷ source n) ∷ []

record Ignores (w w' : Link) : Type 0 where
  pub seq : w'.lapf.v_r ≡ w.lapf.v_r
  pub calls : w'.deferred ≡ []

arrive-Hears :
    (source : ℕ → List ℕ) (lo n : ℕ) (f : ℕ × List ℕ) (w : Link)
    → Sent source lo f
    → w.lapf.v_r ≡ n % 128
    → lo ≤ n
    → n ≤ lo + 127
    → Ignores w (arrive f w) ⊎ (Hears source n w (arrive f w) × (n < lo + 127))
unfolding handle_in_context defer
arrive-Hears source lo n (now, octets) w s e a b =
    let rx = received octets false in
    let l = on_becn (decode_addr octets).becn w.lapf in
    let w0 = record w { lapf = l; deferred = []; sent_supervisory = false } in
    let c = s.carries in
    let i = s.index in
    let even : bit_and (ctrl1 rx.payload) 0x01 ≡ 0 =
      omega (arith, bit_and_mask 1 (ctrl1 rx.payload) 0x01 refl) in
    let full = whole rx.payload (source i) c.holds in
    elim (handle_payload-Takes now rx w0 even) [
      | inl q ↦ inl (ground arith)
      | inr t ↦
          let same : l.v_r ≡ w.lapf.v_r = ground arith in
          let here : i ≡ n = omega (arith, t.expected) in
          let message : drop 2 rx.payload ≡ 0x08 ∷ source n =
            c.holds ∙ ap (λ (k : ℕ). 0x08 ∷ source k) here in
          inr (ground arith, omega arith)
    ]

-- However a channel loses, repeats and mixes the I-frames that a peer may send, layer 3 gets the
-- peer's messages once each and in their order, from the one that is expected: the calls of the whole
-- run are the messages from `n` on, as many as V(R) has gone on by. The frames carry messages of Q.933
-- of at most 127 numbers, of which the expected one is one or the next.
pub deliveries-messages :
    (source : ℕ → List ℕ) (lo n : ℕ) (fs : List (ℕ × List ℕ)) (w : Link)
    → All (Sent source lo) fs
    → w.lapf.v_r ≡ n % 128
    → lo ≤ n
    → n ≤ lo + 127
    → (q : ℕ) × (deliveries fs w ≡ messages source n q) × ((after fs w).lapf.v_r ≡ (n + q) % 128)
unfolding deliveries after messages
deliveries-messages source lo n [] w s e a b = (0, refl, omega arith)
deliveries-messages source lo n (f ∷ fs) w s e a b = elim (arrive-Hears source lo n f w s.0 e a b) [
  | inl i ↦
      let (q, calls, seq) = deliveries-messages source lo n fs (arrive f w) s.1 (i.seq ∙ e) a b in
      (q, rw i.calls calls, seq)
  | inr (h, more) ↦
      let (q, calls, seq) =
        deliveries-messages source lo (suc n) fs (arrive f w) s.1 h.seq (omega arith)
          (omega arith) in
      (suc q, rw (h.calls, calls), seq ∙ ap (λ (k : ℕ). k % 128) (omega arith))
]
