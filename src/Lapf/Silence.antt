-- ===== src/Lapf/Silence.antt =====
-- What a silent peer leads to: the end of timer recovery, and what the timers send until then.
use vfrs.Common.{
  ℕ, ◌+◌, ◌^◌, ◌≤◌, ◌<◌, ◌≡◌, ◌≢◌, refl, sym, ap, ap₂, subst, ◌∙◌, Bool, true, false, if◌then◌else◌,
  inl, inr, Bool-cases, Option, some, List, [], ◌∷◌, ◌++◌, append_assoc, replicate, length, arith,
  ltb,
}
use vfrs.Lapf.{
  awaiting_establishment, timer_recovery, error_i, Line, Link, ctrl_rr, ctrl_sabme, Timer,
  timer_set, timer_is_expired,
}
use vfrs.Lapf.Frames.{
  send, send_built, control_frame, is_supervisory, build_frame, plain_frame, address_len,
  send_control,
}
use vfrs.Lapf.Unnumbered.{re_establish}
use vfrs.Lapf.Calls.{poll_peer, t200_expired, t203_expired, poll_t200, poll_timer}

-- The timers are polled at these times, and no frame comes.
unfoldable pub silence : List ℕ → Link → Link
silence [] w = w
silence (now ∷ nows) w = silence nows (poll_timer now w)

-- T200, which runs out at `expire` and then after `t200` each time, has run out at each of these
-- times, and the clock does not wrap round.
unfoldable pub Due : ℕ → ℕ → List ℕ → Type 0
Due expire t200 [] = expire ≤ expire
Due expire t200 (now ∷ nows) = (expire ≤ now) × (now + t200 < 2 ^ 64) × Due (now + t200) t200 nows

-- The frame that asks for the peer's state, and the one that asks for a new establishment.
abbrev pub asks : Link → Option (List ℕ)
asks w = control_frame w.line w.lapf.dlci ctrl_rr w.lapf.v_r true false

abbrev pub resets : Link → Option (List ℕ)
resets w = control_frame w.line w.lapf.dlci ctrl_sabme 0 true false

-- The frames that a line was given make no difference to the next.
record SameLine (line line' : Line) : Type 0 where
  dlcibit : line'.dlcibit ≡ line.dlcibit
  serial : line'.is_serial ≡ line.is_serial
  cgst : line'.cgst_ctx ≡ line.cgst_ctx
  buffer : line'.buffer ≡ line.buffer
  driver : line'.driver ≡ line.driver

send_built-SameLine : (o : Option (List ℕ)) (line : Line) → SameLine line (send_built o line).1
unfolding send_built send
send_built-SameLine o line = ground arith

send_built-sent :
    (o : Option (List ℕ)) (octets : List ℕ) (line : Line)
    (answer : List (List ℕ) → List ℕ → Option ℕ)
    → o ≡ some octets
    → line.driver ≡ some answer
    → (send_built o line).1.sent ≡ line.sent ++ (octets ∷ [])
unfolding send_built send
send_built-sent o octets line answer e d = ground arith

control_frame-SameLine :
    (line line' : Line) (dlci t nr : ℕ)
    → SameLine line line'
    → control_frame line' dlci t nr true false ≡ control_frame line dlci t nr true false
unfolding control_frame build_frame plain_frame address_len
control_frame-SameLine line line' dlci t nr s = rw (s.dlcibit, s.serial, s.cgst, s.buffer) refl

either :
    (b : Bool) (x y : List ℕ) → (octets : List ℕ) × ((if b then some x else some y) ≡ some octets)
either true x y = (x, refl)
either false x y = (y, refl)

-- The buffer of 128 octets is large enough for every frame that has no data.
build_frame-some :
    (line : Line) (dlci ctrl cr : ℕ) (payload : List ℕ)
    → length payload ≤ 1
    → (octets : List ℕ) × (build_frame line dlci ctrl payload cr 0 0 0 128 ≡ some octets)
unfolding build_frame address_len
build_frame-some line dlci ctrl cr payload h =
    let fits : ltb 128 (address_len line.dlcibit dlci + 1 + length payload + 2) ≡ false =
      ground arith in
    rw fits (either line.is_serial _ _)

control_frame-some :
    (line : Line) (dlci t nr : ℕ)
    → (octets : List ℕ) × (control_frame line dlci t nr true false ≡ some octets)
unfolding control_frame
control_frame-some line dlci t nr = elim (Bool-cases (is_supervisory t)) [
  | inl e ↦ rw e (build_frame-some line dlci _ _ _ (omega arith))
  | inr e ↦ rw e (build_frame-some line dlci _ _ _ (omega arith))
]

-- What an expiry leaves that the next one needs.
record Waits (now : ℕ) (w w' : Link) : Type 0 where
  state : w'.lapf.state ≡ timer_recovery
  count : w'.lapf.retransmission_count ≡ w.lapf.retransmission_count + 1
  limit : w'.lapf.n200 ≡ w.lapf.n200
  interval : w'.lapf.t200 ≡ w.lapf.t200
  timer : w'.lapf.t200_timer ≡ timer_set now w.lapf.t200
  t203_off : w'.lapf.t203_timer.interval ≡ 0
  next : w'.lapf.v_r ≡ w.lapf.v_r
  dlci : w'.lapf.dlci ≡ w.lapf.dlci
  errors : w'.errors ≡ w.errors
  line : w'.line ≡ (send_built (asks w) w.line).1

record GivesUp (now : ℕ) (w w' : Link) : Type 0 where
  state : w'.lapf.state ≡ awaiting_establishment
  count : w'.lapf.retransmission_count ≡ 0
  timer : w'.lapf.t200_timer ≡ timer_set now w.lapf.t200
  t203_off : w'.lapf.t203_timer.interval ≡ 0
  errors : w'.errors ≡ w.errors ++ (error_i ∷ [])
  line : w'.line ≡ (send_built (resets w) w.line).1

t200_expired-Waits :
    (now : ℕ) (w : Link)
    → w.lapf.state ≡ timer_recovery
    → w.lapf.n200 < 256
    → w.lapf.t203_timer.interval ≡ 0
    → w.lapf.retransmission_count + 1 < w.lapf.n200
    → Waits now w (t200_expired now w)
unfolding t200_expired poll_peer send_control
t200_expired-Waits now w s n i h = ground arith

t200_expired-GivesUp :
    (now : ℕ) (w : Link)
    → w.lapf.state ≡ timer_recovery
    → w.lapf.n200 < 256
    → w.lapf.retransmission_count + 1 ≡ w.lapf.n200
    → GivesUp now w (t200_expired now w)
unfolding t200_expired re_establish send_control
t200_expired-GivesUp now w s n h = ground arith

-- A poll of the timers when T200 has run out.
expired :
    (now : ℕ) (w : Link)
    → w.lapf.t200_timer.interval ≢ 0
    → w.lapf.t200_timer.expire ≤ now
    → timer_is_expired now w.lapf.t200_timer ≡ true
expired now w i e = ground arith

stopped : (now : ℕ) (t : Timer) → t.interval ≡ 0 → timer_is_expired now t ≡ false
stopped now t i = ground arith

poll_timer-expired :
    (now : ℕ) (w : Link)
    → timer_is_expired now w.lapf.t200_timer ≡ true
    → (t200_expired now w).lapf.t203_timer.interval ≡ 0
    → poll_timer now w ≡ t200_expired now w
unfolding poll_timer poll_t200
poll_timer-expired now w e i =
    let first : poll_t200 now w ≡ t200_expired now w =
      ap (λ (b : Bool). if b then t200_expired now w else w) e in
    ap (λ (x : Link). if timer_is_expired now x.lapf.t203_timer then t203_expired now x else x)
      first
    ∙ ap (λ (b : Bool). if b then t203_expired now (t200_expired now w) else t200_expired now w)
        (stopped now (t200_expired now w).lapf.t203_timer i)

abbrev pub latest : ℕ → List ℕ → ℕ
latest now [] = now
latest now (next ∷ nows) = latest next nows

-- What is left when the peer was silent at `now` and at the times after it. The driver was given
-- `ask` at each of them but the last, and `reset` at the last.
pub record Renews (now : ℕ) (nows ask reset : List ℕ) (w w' : Link) : Type 0 where
  pub state : w'.lapf.state ≡ awaiting_establishment
  pub count : w'.lapf.retransmission_count ≡ 0
  pub errors : w'.errors ≡ w.errors ++ (error_i ∷ [])
  pub timer : w'.lapf.t200_timer ≡ timer_set (latest now nows) w.lapf.t200
  pub sent : w'.line.sent ≡ w.line.sent ++ (replicate (length nows) ask ++ (reset ∷ []))

-- A poll at which T200 has run out, below N200 and at N200.
poll_timer-Waits :
    (now : ℕ) (w : Link)
    → w.lapf.state ≡ timer_recovery
    → w.lapf.n200 < 256
    → w.lapf.t203_timer.interval ≡ 0
    → timer_is_expired now w.lapf.t200_timer ≡ true
    → w.lapf.retransmission_count + 1 < w.lapf.n200
    → Waits now w (poll_timer now w)
poll_timer-Waits now w s n i e h =
    let v = t200_expired-Waits now w s n i h in
    subst (Waits now w) (sym (poll_timer-expired now w e v.t203_off)) v

poll_timer-GivesUp :
    (now : ℕ) (w : Link)
    → w.lapf.state ≡ timer_recovery
    → w.lapf.n200 < 256
    → timer_is_expired now w.lapf.t200_timer ≡ true
    → w.lapf.retransmission_count + 1 ≡ w.lapf.n200
    → GivesUp now w (poll_timer now w)
poll_timer-GivesUp now w s n e h =
    let v = t200_expired-GivesUp now w s n h in
    subst (GivesUp now w) (sym (poll_timer-expired now w e v.t203_off)) v

-- After a wait the same frames are to be sent.
same_frames :
    (now t nr : ℕ) (w w' : Link)
    → Waits now w w'
    → control_frame w'.line w'.lapf.dlci t nr true false
      ≡ control_frame w.line w.lapf.dlci t nr true false
same_frames now t nr w w' v =
    ap₂ (λ l d. control_frame l d t nr true false) v.line v.dlci
    ∙ control_frame-SameLine w.line (send_built (asks w) w.line).1 w.lapf.dlci t nr
        (send_built-SameLine (asks w) w.line)

module _ (ask reset : List ℕ) (answer : List (List ℕ) → List ℕ → Option ℕ) where
  silence-run :
      (now : ℕ) (nows : List ℕ) (w : Link)
      → w.lapf.state ≡ timer_recovery
      → w.lapf.n200 < 256
      → w.lapf.t203_timer.interval ≡ 0
      → 0 < w.lapf.t200
      → w.lapf.t200_timer.interval ≢ 0
      → Due w.lapf.t200_timer.expire w.lapf.t200 (now ∷ nows)
      → w.line.driver ≡ some answer
      → asks w ≡ some ask
      → resets w ≡ some reset
      → w.lapf.retransmission_count + length (now ∷ nows) ≡ w.lapf.n200
      → Renews now nows ask reset w (silence (now ∷ nows) w)
  unfolding silence Due
  silence-run now [] w s n i t f due d a r h =
      let v = poll_timer-GivesUp now w s n (expired now w f due.0) h in
      record {
        state = v.state;
        count = v.count;
        errors = v.errors;
        timer = v.timer;
        sent =
            ap (λ (l : Line). l.sent) v.line ∙ send_built-sent (resets w) reset w.line answer r d;
      }
  silence-run now (next ∷ nows) w s n i t f due d a r h =
      let w' = poll_timer now w in
      let v = poll_timer-Waits now w s n i (expired now w f due.0) (omega arith) in
      let kept = send_built-SameLine (asks w) w.line in
      let started : w'.lapf.t200_timer.expire ≡ now + w.lapf.t200 =
        ap (λ (t : Timer). t.expire) v.timer ∙ omega (arith, due.1) in
      let due' : Due w'.lapf.t200_timer.expire w'.lapf.t200 (next ∷ nows) =
        subst (λ e. Due e w'.lapf.t200 (next ∷ nows)) (sym started)
          (subst (λ t. Due (now + w.lapf.t200) t (next ∷ nows)) (sym v.interval) due.2) in
      let rest =
        silence-run next nows w' v.state (omega (arith, v.limit)) v.t203_off
          (omega (arith, v.interval))
          (λ z. omega (arith, ap (λ (t : Timer). t.interval) v.timer, z, t)) due'
          (ap (λ (l : Line). l.driver) v.line ∙ kept.driver ∙ d)
          (ap (λ m. control_frame w'.line w'.lapf.dlci ctrl_rr m true false) v.next
            ∙ same_frames now ctrl_rr w.lapf.v_r w w' v
            ∙ a)
          (same_frames now ctrl_sabme 0 w w' v ∙ r) (omega (arith, v.limit, v.count, h)) in
      record {
        state = rest.state;
        count = rest.count;
        errors = rest.errors ∙ ap (λ es. es ++ (error_i ∷ [])) v.errors;
        timer = rest.timer ∙ ap (timer_set (latest next nows)) v.interval;
        sent =
            rest.sent
            ∙ ap (λ l. l ++ (replicate (length nows) ask ++ (reset ∷ [])))
                (ap (λ (l : Line). l.sent) v.line ∙ send_built-sent (asks w) ask w.line answer a d)
            ∙ append_assoc w.line.sent (ask ∷ []) (replicate (length nows) ask ++ (reset ∷ []));
      }

-- A link in timer recovery whose peer stays silent asks for a new establishment after exactly as many
-- expiries of T200 as are left of N200. The timers are polled at times at each of which T200, as it was
-- last started, has run out. At each of them but the last the peer is asked for its state with RR and
-- P = 1, and T200 is started again; at the last SABME with P = 1 is sent, T200 is started, and
-- MDL-ERROR(I) is the only error. The driver takes frames and may answer anything; N200 is an octet,
-- T200 is running and not 0, T203 is not running, and the clock does not wrap round.
pub silence-Renews :
    (now : ℕ) (nows : List ℕ) (w : Link) (answer : List (List ℕ) → List ℕ → Option ℕ)
    → w.lapf.state ≡ timer_recovery
    → w.lapf.n200 < 256
    → w.lapf.t203_timer.interval ≡ 0
    → 0 < w.lapf.t200
    → w.lapf.t200_timer.interval ≢ 0
    → Due w.lapf.t200_timer.expire w.lapf.t200 (now ∷ nows)
    → w.line.driver ≡ some answer
    → w.lapf.retransmission_count + length (now ∷ nows) ≡ w.lapf.n200
    → (ask : List ℕ) × (reset : List ℕ) × (asks w ≡ some ask)
      × (resets w ≡ some reset)
      × Renews now nows ask reset w (silence (now ∷ nows) w)
silence-Renews now nows w answer s n i t f due d h =
    let (ask, a) = control_frame-some w.line w.lapf.dlci ctrl_rr w.lapf.v_r in
    let (reset, r) = control_frame-some w.line w.lapf.dlci ctrl_sabme 0 in
    (ask, reset, a, r, silence-run ask reset answer now nows w s n i t f due d a r h)
