-- ===== src/Lmi/Recovery.antt =====
-- The user side comes back up when its enquiries are answered.
use vfrs.Common.{
  min, ℕ, zero, suc, ◌+◌, ◌*◌, ◌≤◌, ◌<◌, ◌≡◌, ◌∙◌, refl, sym, ap, Bool, true, false, List, [], ◌∷◌,
  leb, length, u8, arith,
}
use vfrs.Lmi.{Lmi, LmiPort}
use vfrs.Lmi.Poll.{dte_condition, dte_missed, dte_event, before_enquiry, send_enquiry, t391_expired}
use vfrs.Lmi.Monitor.{errors_in, history_of}
use vfrs.Lmi.Links.{condition_after, dte_event_lem}

-- A valid STATUS has come when T391 expires.
unfoldable pub answered : LmiPort → LmiPort
answered p = record p { lmi = record p.lmi { dte_status_received = true } }

-- T391 expires at these times, and every interval has had its answer.
unfoldable pub answered_polls : List ℕ → LmiPort → LmiPort
answered_polls [] p = p
answered_polls (now ∷ nows) p = answered_polls nows (t391_expired now (answered p))

-- What a poll leaves of the monitoring.
record Monitored (p p' : LmiPort) : Type 0 where
  down : p'.lmi.dte_link_down ≡ (dte_event p).lmi.dte_link_down
  history : p'.lmi.dte_history ≡ (dte_event p).lmi.dte_history
  threshold : p'.lmi.n392_dte ≡ p.lmi.n392_dte
  window : p'.lmi.n393_dte ≡ p.lmi.n393_dte
  events : p'.lmi.dte_events ≡ u8 (p.lmi.dte_events + 1)

send_enquiry-lmi : (p : LmiPort) → (send_enquiry p).lmi ≡ p.lmi
unfolding send_enquiry
send_enquiry-lmi p = ground arith

record Kept (p p' : LmiPort) : Type 0 where
  threshold : p'.lmi.n392_dte ≡ p.lmi.n392_dte
  window : p'.lmi.n393_dte ≡ p.lmi.n393_dte
  events : p'.lmi.dte_events ≡ p.lmi.dte_events

dte_event-Kept : (p : LmiPort) → Kept p (dte_event p)
unfolding dte_event dte_condition dte_missed
dte_event-Kept p = ground arith

t391_expired-Monitored : (now : ℕ) (p : LmiPort) → Monitored p (t391_expired now p)
unfolding t391_expired before_enquiry
t391_expired-Monitored now p =
    let kept = dte_event-Kept p in
    let same = send_enquiry-lmi (before_enquiry p) in
    record {
      down = ap (λ (l : Lmi). l.dte_link_down) same;
      history = ap (λ (l : Lmi). l.dte_history) same;
      threshold = ap (λ (l : Lmi). l.n392_dte) same ∙ kept.threshold;
      window = ap (λ (l : Lmi). l.n393_dte) same ∙ kept.window;
      events = ap (λ (l : Lmi). l.dte_events) same ∙ ap (λ t. u8 (t + 1)) kept.events;
    }

errors_in-rest :
    (n k : ℕ) (events : List Bool) → k ≤ n → errors_in k events ≡ 0 → errors_in n events + k ≤ n
unfolding errors_in
errors_in-rest zero zero events h e = omega arith
errors_in-rest (suc n) zero [] h e = omega (arith, errors_in-rest n zero [] (omega arith) refl)
errors_in-rest (suc n) zero (true ∷ events) h e =
    omega (arith, errors_in-rest n zero events (omega arith) refl)
errors_in-rest (suc n) zero (false ∷ events) h e =
    omega (arith, errors_in-rest n zero events (omega arith) refl)
errors_in-rest (suc n) (suc k) [] h e = omega arith
errors_in-rest (suc n) (suc k) (true ∷ events) h e = omega arith
errors_in-rest (suc n) (suc k) (false ∷ events) h e =
    omega (arith, errors_in-rest n k events (omega arith) (omega arith))
errors_in-rest zero (suc k) events h e = omega arith

-- One answered poll of a side that has monitored before.
record Good (events : List Bool) (p p' : LmiPort) : Type 0 where
  down :
      p'.lmi.dte_link_down
      ≡ condition_after p.lmi.n392_dte p.lmi.n393_dte (false ∷ events) p.lmi.dte_link_down
  history : p'.lmi.dte_history ≡ history_of p'.lmi.n393_dte (false ∷ events)
  threshold : p'.lmi.n392_dte ≡ p.lmi.n392_dte
  window : p'.lmi.n393_dte ≡ p.lmi.n393_dte
  tally : p'.lmi.dte_events ≡ u8 (p.lmi.dte_events + 1)

answered-Good :
    (now : ℕ) (p : LmiPort) (events : List Bool)
    → 0 < p.lmi.dte_events
    → p.lmi.n392_dte ≤ p.lmi.n393_dte
    → p.lmi.n393_dte ≤ 16
    → p.lmi.dte_history ≡ history_of p.lmi.n393_dte events
    → Good events p (t391_expired now (answered p))
unfolding answered
answered-Good now p events f k n h =
    let m = t391_expired-Monitored now (answered p) in
    let e = dte_event_lem (answered p) events f (omega arith) n h in
    record {
      down = m.down ∙ e.1;
      history = m.history ∙ e.0 ∙ ap (λ w. history_of w (false ∷ events)) (sym m.window);
      threshold = m.threshold;
      window = m.window;
      tally = m.events;
    }

clear :
    (n392 n393 : ℕ) (events : List Bool) (was : Bool)
    → 0 < n392
    → n392 ≤ n393
    → n393 < 2 * n392
    → errors_in n392 events ≡ 0
    → condition_after n392 n393 events was ≡ false
clear n392 n393 events was z k b e =
    let rest = errors_in-rest n393 n392 events k e in
    let low : leb n392 (errors_in n393 events) ≡ false = ground (arith, rest) in
    let all : min n392 n393 ≡ n392 = omega (arith, k) in rw (low, all, e) refl

answered-recover :
    (now : ℕ) (nows : List ℕ) (p : LmiPort) (k : ℕ) (events : List Bool)
    → 0 < p.lmi.dte_events
    → p.lmi.dte_events + length (now ∷ nows) < 256
    → p.lmi.n392_dte ≤ p.lmi.n393_dte
    → p.lmi.n393_dte < 2 * p.lmi.n392_dte
    → p.lmi.n393_dte ≤ 16
    → p.lmi.dte_history ≡ history_of p.lmi.n393_dte events
    → errors_in k events ≡ 0
    → k + length (now ∷ nows) ≡ p.lmi.n392_dte
    → (answered_polls (now ∷ nows) p).lmi.dte_link_down ≡ false
unfolding answered_polls errors_in
answered-recover now [] p k events f u t b n h e s =
    let g = answered-Good now p events f t n h in
    let last : p.lmi.n392_dte ≡ suc k = omega (arith, s) in
    let none_left : errors_in p.lmi.n392_dte (false ∷ events) ≡ 0 =
      ap (λ m. errors_in m (false ∷ events)) last ∙ omega (arith, e) in
    g.down
    ∙ clear p.lmi.n392_dte p.lmi.n393_dte (false ∷ events) p.lmi.dte_link_down (omega arith) t b
        none_left
answered-recover now (next ∷ nows) p k events f u t b n h e s =
    let p' = t391_expired now (answered p) in
    let g = answered-Good now p events f t n h in
    answered-recover next nows p' (suc k) (false ∷ events) (omega (arith, g.tally))
      (omega (arith, g.tally)) (omega (arith, g.threshold, g.window))
      (omega (arith, g.threshold, g.window)) (omega (arith, g.window)) g.history (omega (arith, e))
      (omega (arith, g.threshold, s))

-- The user side recovers: from any state of the window, N392 polls in a row that were each answered by a
-- valid STATUS end the service-affecting condition, where N393 is at least N392, less than twice N392
-- and at most 16, as long as the octet that counts the polls, not 0, does not wrap round.
pub answered_polls-recover :
    (now : ℕ) (nows : List ℕ) (p : LmiPort) (events : List Bool)
    → 0 < p.lmi.dte_events
    → p.lmi.dte_events + length (now ∷ nows) < 256
    → p.lmi.n392_dte ≤ p.lmi.n393_dte
    → p.lmi.n393_dte < 2 * p.lmi.n392_dte
    → p.lmi.n393_dte ≤ 16
    → p.lmi.dte_history ≡ history_of p.lmi.n393_dte events
    → length (now ∷ nows) ≡ p.lmi.n392_dte
    → (answered_polls (now ∷ nows) p).lmi.dte_link_down ≡ false
unfolding errors_in
answered_polls-recover now nows p events f u t b n h s =
    answered-recover now nows p 0 events f u t b n h refl (omega (arith, s))
