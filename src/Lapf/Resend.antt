-- ===== src/Lapf/Resend.antt =====
-- The frames that a REJ asks for again.
use vfrs.Common.{
  ℕ, zero, suc, ◌+◌, ◌%◌, ◌<◌, ◌≡◌, sym, ap, ◌∙◌, inl, inr, true, false, [], ◌==◌, arith,
  Bool-cases, get_or,
}
use vfrs.Lapf.{Link, outstanding}
use vfrs.Lapf.Frames.{send_i_frame}
use vfrs.Lapf.Numbered.{retransmit}

-- The frames of the transmission window from a number on, sent in order with N(R) = V(R).
unfoldable pub resend : ℕ → ℕ → Link → Link
resend zero seq w = w
resend (suc n) seq w =
    resend n ((seq + 1) % 128)
      (send_i_frame seq w.lapf.v_r false false (get_or w.lapf.tx_window seq []) w)

module _ (fuel seq : ℕ) (w : Link) where
  retransmit_stops : (seq == w.lapf.v_s) ≡ true → retransmit (suc fuel) seq w ≡ w
  unfolding retransmit
  retransmit_stops e = rw (e, retransmit)

  retransmit_goes :
      (seq == w.lapf.v_s) ≡ false
      → retransmit (suc fuel) seq w
        ≡ retransmit fuel
            ((seq + 1) % 128)
            (send_i_frame seq w.lapf.v_r false false (get_or w.lapf.tx_window seq []) w)
  unfolding retransmit
  retransmit_goes e = rw (e, retransmit)

-- The loop that answers a REJ sends the frames from N(R) to V(S) - 1 of the transmission window once
-- each, in order, and its fuel is enough.
pub retransmit-eq-resend :
    (fuel seq : ℕ) (w : Link)
    → seq < 128
    → w.lapf.v_s < 128
    → outstanding w.lapf.v_s seq < fuel
    → retransmit fuel seq w ≡ resend (outstanding w.lapf.v_s seq) seq w
unfolding resend send_i_frame
retransmit-eq-resend zero seq w a b h = absurd (omega arith)
retransmit-eq-resend (suc fuel) seq w a b h =
    let sent = send_i_frame seq w.lapf.v_r false false (get_or w.lapf.tx_window seq []) w in
    elim (Bool-cases (seq == w.lapf.v_s)) [
      | inl e ↦
          let none : outstanding w.lapf.v_s seq ≡ 0 = ground arith in
          retransmit_stops fuel seq w e ∙ ap (λ k. resend k seq w) (sym none)
      | inr n ↦
          let fewer : outstanding w.lapf.v_s seq ≡ suc (outstanding w.lapf.v_s ((seq + 1) % 128)) =
            ground arith in
          retransmit_goes fuel seq w n
          ∙ retransmit-eq-resend fuel ((seq + 1) % 128) sent (omega arith) b (ground arith)
          ∙ ap (λ k. resend k seq w) (sym fewer)
    ]
