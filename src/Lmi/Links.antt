-- ===== src/Lmi/Links.antt =====
-- When the two sides declare the channel down and when it recovers, by the errors among the last
-- events.
use vfrs.Common.{
  ℕ, ◌-◌, ◌^◌, ◌≤◌, ◌<◌, ◌≡◌, ◌∙◌, ap, Bool, true, false, not, ◌&&◌, ◌||◌, List, [], ◌∷◌, bit_and,
  leb, min, ◌==◌, if◌then◌else◌, u16, arith, Bool-cases, inl, inr,
}
use vfrs.Common.Bits.{bit_and_mask}
use native.Mathlib.Nat.{one-le-pow, pow-le-pow_right}
use vfrs.Lmi.{LmiPort, lmi_reset_dce_state}
use vfrs.Lmi.Poll.{
  shift_in, count_errors, dce_down, t392_expired, dte_condition, dte_missed, dte_event,
}
use vfrs.Lmi.Monitor.{
  errors_in, history_of, count_errors-history, count_errors-min, mask-count_errors,
}

-- The events of the network side after a silent interval.
abbrev pub dce_events_after : ℕ → ℕ → List Bool → List Bool
dce_events_after n392 n393 events =
    if leb n392 (errors_in n393 (true ∷ events)) then [] else true ∷ events

-- T392 expires, where N393 is at most 16 and the history is that of the events so far: the channel
-- is down afterwards exactly if it was, or if N392 errors are among the last N393 events, this one
-- included; the change is propagated exactly if it was up. The window then starts anew, and holds
-- the event otherwise.
pub t392_expired_lem :
    (now : ℕ) (p : LmiPort) (events : List Bool)
    → p.lmi.n393 ≤ 16
    → p.lmi.dce_history ≡ history_of p.lmi.n393 events
    → let failing = leb p.lmi.n392 (errors_in p.lmi.n393 (true ∷ events)) in
      let p' = t392_expired now p in
      (p'.lmi.dce_link_down ≡ (p.lmi.dce_link_down || failing))
      × (p'.trigger_propagate ≡ (p.trigger_propagate || (failing && not p.lmi.dce_link_down)))
      × (p'.lmi.dce_history ≡ history_of p.lmi.n393 (dce_events_after p.lmi.n392 p.lmi.n393 events))
unfolding t392_expired dce_down lmi_reset_dce_state history_of
t392_expired_lem now p events n h =
    let l = p.lmi in
    let counted : count_errors l.n393 (shift_in l.n393 true l.dce_history)
        ≡ errors_in l.n393 (true ∷ events) =
      ap (λ t. count_errors l.n393 (shift_in l.n393 true t)) h
      ∙ count_errors-history l.n393 l.n393 (true ∷ events) (omega arith) n in
    let shifted : shift_in l.n393 true l.dce_history ≡ history_of l.n393 (true ∷ events) =
      ap (shift_in l.n393 true) h in
    elim (Bool-cases (leb l.n392 (errors_in l.n393 (true ∷ events)))) [
      | inl e ↦ rw (counted, e) (ground arith)
      | inr e ↦ rw (counted, e) (ground (arith, shifted))
    ]

-- The user side's condition after a poll. The recovery looks at no more events than the window has.
abbrev pub condition_after : ℕ → ℕ → List Bool → Bool → Bool
condition_after n392 n393 events was =
    if leb n392 (errors_in n393 events)
    then true
    else if errors_in (min n392 n393) events == 0
    then false
    else was

-- The recovery's mask, of at most 16 bits.
recovery_mask_lem :
    (k : ℕ) (h : ℕ) → k ≤ 16 → (bit_and h (u16 (2 ^ k - 1)) == 0) ≡ (count_errors k h == 0)
recovery_mask_lem k h l =
    let low = pow-le-pow_right {n = 2} (omega arith) l in
    let fits : u16 (2 ^ k - 1) ≡ 2 ^ k - 1 = omega (arith, one-le-pow k 2, low) in
    let both = mask-count_errors k h in
    rw (fits, bit_and_mask k h (2 ^ k - 1) (omega (arith, one-le-pow k 2)))
      (ground (arith, both.0, both.1))

dte_condition_lem :
    (p : LmiPort) (error : Bool) (events : List Bool)
    → p.lmi.n392_dte ≤ 16
    → p.lmi.n393_dte ≤ 16
    → p.lmi.dte_history ≡ history_of p.lmi.n393_dte (error ∷ events)
    → (dte_condition p).lmi.dte_link_down
      ≡ condition_after p.lmi.n392_dte p.lmi.n393_dte (error ∷ events) p.lmi.dte_link_down
unfolding dte_condition
dte_condition_lem p error events k n h =
    let l = p.lmi in
    let counted : count_errors l.n393_dte l.dte_history ≡ errors_in l.n393_dte (error ∷ events) =
      ap (count_errors l.n393_dte) h
      ∙ count_errors-history l.n393_dte l.n393_dte (error ∷ events) (omega arith) n in
    let recent : count_errors l.n392_dte l.dte_history
        ≡ errors_in (min l.n392_dte l.n393_dte) (error ∷ events) =
      ap (count_errors l.n392_dte) h ∙ count_errors-min l.n392_dte l.n393_dte error events n in
    rw (counted, recovery_mask_lem l.n392_dte l.dte_history k, recent) (ground arith)

dte_condition-history : (p : LmiPort) → (dte_condition p).lmi.dte_history ≡ p.lmi.dte_history
unfolding dte_condition
dte_condition-history p = ground arith

-- T391 expires, not for the first time, where N392 and N393 are at most 16 and the history is that
-- of the events so far: the interval is an error unless a valid STATUS came, and the window takes
-- it. The service-affecting condition then holds if N392 errors or more are among the last N393
-- events. It is cleared if there are fewer, and none among the last N392 events, or among the last
-- N393 where N393 is the smaller; it stays as it was otherwise.
pub dte_event_lem :
    (p : LmiPort) (events : List Bool)
    → 0 < p.lmi.dte_events
    → p.lmi.n392_dte ≤ 16
    → p.lmi.n393_dte ≤ 16
    → p.lmi.dte_history ≡ history_of p.lmi.n393_dte events
    → let seen = not p.lmi.dte_status_received ∷ events in
      let p' = dte_event p in
      (p'.lmi.dte_history ≡ history_of p.lmi.n393_dte seen)
      × (p'.lmi.dte_link_down
          ≡ condition_after p.lmi.n392_dte p.lmi.n393_dte seen p.lmi.dte_link_down)
unfolding dte_event dte_missed history_of
dte_event_lem p events f k n h =
    let l = p.lmi in
    let error = not l.dte_status_received in
    let shifted = record p {
      lmi = record l { dte_history = shift_in l.n393_dte error l.dte_history };
    } in
    let seen : shift_in l.n393_dte error l.dte_history ≡ history_of l.n393_dte (error ∷ events) =
      ap (shift_in l.n393_dte error) h in
    let kept = dte_condition-history shifted in
    let judged = dte_condition_lem shifted error events k n seen in
    (ground (arith, kept ∙ seen), ground (arith, judged))
