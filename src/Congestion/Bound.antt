-- ===== src/Congestion/Bound.antt =====
-- The token bucket's bound on what a sequence of frames sends.
use vfrs.Common.{ℕ, ◌+◌, ◌-◌, ◌*◌, ◌/◌, ◌^◌, ◌≤◌, ◌<◌, ◌≡◌, ap, ◌∙◌, Bool, List, [], ◌∷◌, arith}
use native.Mathlib.Nat.{add-mul}
use vfrs.Congestion.{TokenBucket, Action, police}
use vfrs.Congestion.Police.{spent, committed, Polices, police-Costs, tb_update-Refills}

-- A frame at the policer: the time, its bits and its DE, and whether the port is congested then.
pub record Offered : Type 0 where
  pub now : ℕ
  pub bits : ℕ
  pub de : Bool
  pub congested : Bool

abbrev pub answer : Bool → TokenBucket → Offered → Action × TokenBucket
answer is_nni tb o = police o.congested is_nni tb o.now o.bits o.de

-- The sum of `measure` over the actions on frames in sequence.
pub total : (Action → ℕ → ℕ) → Bool → TokenBucket → List Offered → ℕ
total measure is_nni tb [] = 0
total measure is_nni tb (o ∷ os) =
    measure (answer is_nni tb o).0 o.bits + total measure is_nni (answer is_nni tb o).1 os

-- The frames come in time's order, the first not before `from`.
abbrev pub InOrder : ℕ → List Offered → Type 0
InOrder from [] = Unit
InOrder from (o ∷ os) = ((from ≤ o.now) × (o.now < 2 ^ 64)) × InOrder o.now os

abbrev pub end_time : ℕ → List Offered → ℕ
end_time from [] = from
end_time from (o ∷ os) = end_time o.now os

end_time-le : (from : ℕ) (os : List Offered) → InOrder from os → from ≤ end_time from os
end_time-le from [] h = omega arith
end_time-le from (o ∷ os) h = omega (arith, end_time-le o.now os h.1, h.0.0)

split_time : (a b c r : ℕ) → a ≤ b → b ≤ c → (c - a) * r ≡ (b - a) * r + (c - b) * r
split_time a b c r h k =
    let e : c - a ≡ b - a + (c - b) = omega arith in ap (λ t. t * r) e ∙ add-mul (b - a) (c - b) r

moved :
    (x y t t' c c' : ℕ) (os : List Offered)
    → t ≡ t'
    → c ≡ c'
    → x ≤ y + (end_time t os - t) * c
    → x ≤ y + (end_time t' os - t') * c'
moved x y t t' c c' os e f h = rw (← e, ← f) h

-- One frame: the new bucket polices again, from the frame's time on.
record Answered (tb : TokenBucket) (o : Offered) (a : Action) (tb' : TokenBucket) : Type 0 where
  valid : Polices tb'
  paid : spent a o.bits + tb'.tokens ≤ tb.tokens + (o.now - tb.last_update) * tb.cir / 1000
  above_be :
      committed a o.bits + (tb'.tokens - tb'.be)
      ≤ tb.tokens - tb.be + (o.now - tb.last_update) * tb.cir / 1000
  cir_same : tb'.cir ≡ tb.cir
  time_set : tb'.last_update ≡ o.now

answer-Answered :
    (is_nni : Bool) (tb : TokenBucket) (o : Offered)
    → Polices tb
    → tb.last_update ≤ o.now
    → o.now < 2 ^ 64
    → Answered tb o (answer is_nni tb o).0 (answer is_nni tb o).1
answer-Answered is_nni tb o v h f =
    let r = tb_update-Refills tb o.now v h f in
    let c = police-Costs o.congested is_nni tb o.now o.bits o.de v in
    record {
      valid = record {
        rate = omega (arith, c.cir_same, r.cir_same, v.rate);
        sized = omega (arith, c.bc_same, c.be_same, r.bc_same, r.be_same, v.sized);
        cir_fits = omega (arith, c.cir_same, r.cir_same, v.cir_fits);
        within = omega (arith, c.bc_same, c.be_same, c.paid, r.valid.within);
        size_fits = omega (arith, c.bc_same, c.be_same, r.bc_same, r.be_same, v.size_fits);
      };
      paid = omega (arith, c.paid, r.added);
      above_be = omega (arith, c.above_be, c.be_same, r.be_same, r.added);
      cir_same = c.cir_same ∙ r.cir_same;
      time_set = c.time_same ∙ r.time_set;
    }

-- In any sequence of frames in time's order, whatever their DE, on any port, congested or not, a
-- bucket that polices lets through at most the bits of its tokens and what CIR adds in the time from
-- its last update to the last frame.
pub total-bound :
    (is_nni : Bool) (tb : TokenBucket) (os : List Offered)
    → Polices tb
    → InOrder tb.last_update os
    → 1000 * total spent is_nni tb os
      ≤ 1000 * tb.tokens + (end_time tb.last_update os - tb.last_update) * tb.cir
unfolding total
total-bound is_nni tb [] v h = omega arith
total-bound is_nni tb (o ∷ os) v (now, later) =
    let a = answer-Answered is_nni tb o v now.0 now.1 in
    let tb' = (answer is_nni tb o).1 in
    let ih = total-bound is_nni tb' os a.valid (rw a.time_set later) in
    let ih' : 1000 * total spent is_nni tb' os
        ≤ 1000 * tb'.tokens + (end_time o.now os - o.now) * tb.cir =
      moved _ _ _ _ _ _ os a.time_set a.cir_same ih in
    omega (
      arith,
      a.paid,
      ih',
      split_time tb.last_update o.now (end_time o.now os) tb.cir now.0 (end_time-le o.now os later),
    )

-- In such a sequence the bits that go on with DE not set are at most those of the tokens above Be,
-- so at most Bc at first, and what CIR adds in the time: the committed part of the traffic.
pub committed-bound :
    (is_nni : Bool) (tb : TokenBucket) (os : List Offered)
    → Polices tb
    → InOrder tb.last_update os
    → 1000 * total committed is_nni tb os
      ≤ 1000 * (tb.tokens - tb.be) + (end_time tb.last_update os - tb.last_update) * tb.cir
unfolding total
committed-bound is_nni tb [] v h = omega arith
committed-bound is_nni tb (o ∷ os) v (now, later) =
    let a = answer-Answered is_nni tb o v now.0 now.1 in
    let tb' = (answer is_nni tb o).1 in
    let ih = committed-bound is_nni tb' os a.valid (rw a.time_set later) in
    let ih' : 1000 * total committed is_nni tb' os
        ≤ 1000 * (tb'.tokens - tb'.be) + (end_time o.now os - o.now) * tb.cir =
      moved _ _ _ _ _ _ os a.time_set a.cir_same ih in
    omega (
      arith,
      a.above_be,
      ih',
      split_time tb.last_update o.now (end_time o.now os) tb.cir now.0 (end_time-le o.now os later),
    )
