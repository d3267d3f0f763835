-- ===== src/Lmi/Exchange.antt =====
-- One round of the status exchange between the user side of one port and the network side of another.
use vfrs.Common.{
  ℕ, ◌≡◌, ◌⊎◌, ◌∙◌, refl, sym, ap, subst, Bool, true, false, ◌&&◌, List, arith, inl, inr,
}
use vfrs.Lmi.{LmiType, ansi, q933a, LmiPort, lmi_inc_seq}
use vfrs.Lmi.Elements.{build_enquiry, enquiry_report_type}
use vfrs.Lmi.Handle.{Answer, reply, handle_frame}
use vfrs.Lmi.Status.{
  Item, build_status, dce_condition, dce_event, before_status, answer_enquiry, full_status_due,
  dce_error,
}
use vfrs.Lmi.Speaks.{message_in, enquired, Speaks, ansi-Speaks, q933a-Speaks}

-- What the answer's preparation keeps.
record Prepared (q q' : LmiPort) : Type 0 where
  type : q'.lmi.type ≡ q.lmi.type
  send_seq : q'.lmi.dce_seq_send ≡ q.lmi.dce_seq_send
  recv_seq : q'.lmi.dte_seq_recv ≡ q.lmi.dte_seq_recv

before_status-Prepared : (now : ℕ) (q : LmiPort) → Prepared q (before_status now q)
unfolding before_status dce_event dce_condition
before_status-Prepared now q = ground arith

-- One round: the enquiry, the network side after it, its answer with the network side after that, and
-- the user side at the end.
pub record Round : Type 0 where
  pub asked : Answer × LmiPort
  pub status : List ℕ × List Item × LmiPort
  pub answered : Answer × LmiPort

unfoldable pub exchange : LmiType → ℕ → ℕ → List Item → LmiPort → LmiPort → Round
unfolding message_in
exchange type now later items p q =
    let asked = handle_frame type now (message_in (build_enquiry p 254)) q in
    let status = answer_enquiry now items asked.1 in
    record {
      asked = asked;
      status = status;
      answered = handle_frame type later (message_in status.0) p;
    }

-- What a round that asks for the sequence numbers alone leaves on the two sides.
pub record InStep (p : LmiPort) (round : Round) : Type 0 where
  pub replied : round.asked.0 ≡ reply
  pub told : round.asked.1.lmi.dce_seq_recv ≡ p.lmi.dte_dce_seq_recv
  pub valid : round.answered.1.lmi.dte_status_received ≡ true
  pub matched : round.answered.1.lmi.dte_dce_seq_recv ≡ round.status.2.lmi.dce_seq_send

due :
    (send_seq recv_seq : ℕ) (q : LmiPort)
    → q.lmi.dce_last_was_full ≡ false
    → full_status_due (enquired 1 send_seq recv_seq q) ≡ false
due send_seq recv_seq q f = rw f (and-false (dce_error (enquired 1 send_seq recv_seq q).lmi))
  where
    and-false : (b : Bool) → (b && false) ≡ false
    and-false true = refl
    and-false false = refl

module _ (type : LmiType) (speaks : Speaks type) (now later : ℕ) (items : List Item)
    (p q : LmiPort) where
  speaks-InStep :
      p.lmi.type ≡ type
      → q.lmi.type ≡ type
      → enquiry_report_type p ≡ 1
      → p.lmi.dte_last_request_was_full ≡ false
      → q.lmi.dce_last_was_full ≡ false
      → InStep p (exchange type now later items p q)
  unfolding exchange answer_enquiry
  speaks-InStep tp tq r f g =
      let seq = p.lmi.dte_seq_send in
      let ack = p.lmi.dte_dce_seq_recv in
      let told = enquired 1 seq ack q in
      let ready = before_status now told in
      let prepared = before_status-Prepared now told in
      let asked : handle_frame type now (message_in (build_enquiry p 254)) q ≡ (reply, told) =
        ap (λ o. handle_frame type now o q) (speaks.enquiry p tp)
        ∙ speaks.takes_enquiry now (enquiry_report_type p) seq ack q
        ∙ ap (λ n. (reply, enquired n seq ack q)) r in
      let answer : answer_enquiry now items
            (handle_frame type now (message_in (build_enquiry p 254)) q).1
          ≡ build_status 512 false items ready =
        ap (λ (a : Answer × LmiPort). answer_enquiry now items a.1) asked
        ∙ ap (λ full. build_status 512 full items ready) (due seq ack q g) in
      let sent = speaks.status items ready (prepared.type ∙ tq) in
      let back =
        ap (λ (s : List ℕ × List Item × LmiPort). message_in s.0) answer
        ∙ sent
        ∙ ap (speaks.message 0x7D 0x01 (lmi_inc_seq ready.lmi.dce_seq_send)) prepared.recv_seq in
      let end =
        ap (λ o. handle_frame type later o p) back
        ∙ speaks.takes_status later (lmi_inc_seq ready.lmi.dce_seq_send) p f in
      let placed =
        ap (λ (s : List ℕ × List Item × LmiPort). s.2.lmi.dce_seq_send) answer
        ∙ speaks.status_seq items ready (prepared.type ∙ tq) in
      record {
        replied = ap (λ (a : Answer × LmiPort). a.0) asked;
        told = ap (λ (a : Answer × LmiPort). a.1.lmi.dce_seq_recv) asked;
        valid = ap (λ (a : Answer × LmiPort). a.1.lmi.dte_status_received) end;
        matched = ap (λ (a : Answer × LmiPort). a.1.lmi.dte_dce_seq_recv) end ∙ sym placed;
      }

-- A round between two ports of ANSI or of Q.933 keeps them in step, in addresses of two and of four
-- octets: the network side replies and learns the number that the user side last received; the user
-- side takes the answer as valid, and knows then the number that the network side last sent. The
-- enquiry asks for the sequence numbers alone, and no full status is to be repeated.
pub exchange-InStep :
    (type : LmiType) (now later : ℕ) (items : List Item) (p q : LmiPort)
    → (type ≡ ansi) ⊎ (type ≡ q933a)
    → p.lmi.type ≡ type
    → q.lmi.type ≡ type
    → enquiry_report_type p ≡ 1
    → p.lmi.dte_last_request_was_full ≡ false
    → q.lmi.dce_last_was_full ≡ false
    → InStep p (exchange type now later items p q)
exchange-InStep type now later items p q (inl e) =
    speaks-InStep type (subst Speaks (sym e) ansi-Speaks) now later items p q
exchange-InStep type now later items p q (inr e) =
    speaks-InStep type (subst Speaks (sym e) q933a-Speaks) now later items p q
