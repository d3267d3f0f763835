-- ===== src/Congestion/Police.antt =====
-- What one frame takes of a bucket.
use vfrs.Common.{
  ℕ, ◌+◌, ◌-◌, ◌*◌, ◌/◌, ◌^◌, ◌≤◌, ◌<◌, ◌≡◌, refl, inl, inr, Bool, true, false, ◌&&◌, ◌||◌,
  Bool-cases, ltb, leb, ◌==◌, if◌then◌else◌, u64, arith,
}
use native.Mathlib.Nat.{mul-le-mul_right}
use vfrs.Congestion.{
  TokenBucket, Action, tb_update, drained, police_de, police_plain, nni_compliance, police,
}

-- The bits that a frame sends, and those that it sends without DE.
abbrev pub spent : Action → ℕ → ℕ
spent Action.forward bits = bits
spent Action.set_de bits = bits
spent Action.discard bits = 0

abbrev pub committed : Action → ℕ → ℕ
committed Action.forward bits = bits
committed Action.set_de bits = 0
committed Action.discard bits = 0

-- A bucket that polices: it is not one for best effort, and its tokens are within its size.
pub record Polices (tb : TokenBucket) : Type 0 where
  pub rate : 0 < tb.cir
  pub sized : 0 < tb.bc + tb.be
  pub cir_fits : tb.cir < 2 ^ 32
  pub within : tb.tokens ≤ tb.bc + tb.be
  pub size_fits : tb.bc + tb.be < 2 ^ 33

-- What is left in `tb'` after `action` on `tb` pays for what is sent.
pub record Costs (tb : TokenBucket) (action : Action) (bits : ℕ) (tb' : TokenBucket) : Type 0 where
  pub paid : spent action bits + tb'.tokens ≤ tb.tokens
  pub above_be : committed action bits + (tb'.tokens - tb.be) ≤ tb.tokens - tb.be
  pub cir_same : tb'.cir ≡ tb.cir
  pub bc_same : tb'.bc ≡ tb.bc
  pub be_same : tb'.be ≡ tb.be
  pub time_same : tb'.last_update ≡ tb.last_update

module _ (tb : TokenBucket) (bits : ℕ) where
  refused : Costs tb Action.discard bits tb
  refused = record {
    paid = omega arith;
    above_be = omega arith;
    cir_same = refl;
    bc_same = refl;
    be_same = refl;
    time_same = refl;
  }

  taken :
      (a : Action)
      → spent a bits ≤ bits
      → committed a bits + (tb.tokens - bits - tb.be) ≤ tb.tokens - tb.be
      → bits ≤ tb.tokens
      → Costs tb a bits (drained tb bits)
  taken a s c h = record {
    paid = omega arith;
    above_be = c;
    cir_same = refl;
    bc_same = refl;
    be_same = refl;
    time_same = refl;
  }

  police_de-Costs :
      (congested : Bool) → let (a, tb') = police_de congested tb bits in Costs tb a bits tb'
  unfolding police_de
  police_de-Costs true = refused
  police_de-Costs false = elim (Bool-cases (leb bits tb.tokens)) [
    | inl e ↦ rw e (taken Action.set_de (omega arith) (omega arith) (ground arith))
    | inr e ↦ rw e refused
  ]

  abbrev left : Bool → Action × TokenBucket
  left congested =
      if congested then (Action.discard, drained tb bits) else (Action.set_de, drained tb bits)

  abbrev in_bc : Bool
  in_bc = ltb 0 tb.bc && leb tb.be (drained tb bits).tokens

  police_plain-Costs :
      (congested : Bool) → let (a, tb') = police_plain congested tb bits in Costs tb a bits tb'
  unfolding police_plain
  police_plain-Costs congested = elim (Bool-cases (leb bits tb.tokens)) [
    | inl e ↦
        let h : bits ≤ tb.tokens = ground arith in
        elim (Bool-cases in_bc) [
          | inl i ↦
              let c : bits + (tb.tokens - bits - tb.be) ≤ tb.tokens - tb.be = ground arith in
              rw (e, i) (taken Action.forward (omega arith) c h)
          | inr i ↦ rw (e, i) (excess congested h)
        ]
    | inr e ↦ rw e refused
  ]
    where
      excess :
          (congested : Bool)
          → bits ≤ tb.tokens
          → Costs tb (left congested).0 bits (left congested).1
      excess true h = taken Action.discard (omega arith) (omega arith) h
      excess false h = taken Action.set_de (omega arith) (omega arith) h

-- Marking by the NNI's rule sends no more.
nni-Costs :
    (is_nni de : Bool) (tb : TokenBucket) (a : Action) (bits : ℕ) (tb' : TokenBucket)
    → Costs tb a bits tb'
    → Costs tb (nni_compliance is_nni de a) bits tb'
nni-Costs is_nni de tb Action.forward bits tb' c = marked (is_nni && de)
  where
    marked : (m : Bool) → Costs tb (if m then Action.set_de else Action.forward) bits tb'
    marked true = record {
      paid = c.paid;
      above_be = omega (arith, c.above_be);
      cir_same = c.cir_same;
      bc_same = c.bc_same;
      be_same = c.be_same;
      time_same = c.time_same;
    }
    marked false = c
nni-Costs is_nni de tb Action.set_de bits tb' c = c
nni-Costs is_nni de tb Action.discard bits tb' c = c

police-cases :
    (congested is_nni : Bool) (tb : TokenBucket) (now bits : ℕ) (de : Bool)
    → Polices tb
    → police congested is_nni tb now bits de ≡ (
        let (a, tb') =
          if de
          then police_de congested (tb_update tb now) bits
          else police_plain congested (tb_update tb now) bits in
        (nni_compliance is_nni de a, tb'))
unfolding police
police-cases congested is_nni tb now bits de v =
    let c1 : (tb.bc == 0 && (tb.be == 0 || tb.cir == 0)) ≡ false = ground (arith, v) in
    let c2 : ltb 0 tb.cir ≡ true = ground (arith, v) in rw (c1, c2)

pub police-Costs :
    (congested is_nni : Bool) (tb : TokenBucket) (now bits : ℕ) (de : Bool)
    → Polices tb
    → let (a, tb') = police congested is_nni tb now bits de in Costs (tb_update tb now) a bits tb'
police-Costs congested is_nni tb now bits true v =
    rw (police-cases congested is_nni tb now bits true v) (
      nni-Costs is_nni true (tb_update tb now) _ bits _
        (police_de-Costs (tb_update tb now) bits congested))
police-Costs congested is_nni tb now bits false v =
    rw (police-cases congested is_nni tb now bits false v) (
      nni-Costs is_nni false (tb_update tb now) _ bits _
        (police_plain-Costs (tb_update tb now) bits congested))

-- What an update adds.
pub record Refills (tb : TokenBucket) (now : ℕ) (tb' : TokenBucket) : Type 0 where
  pub added : tb'.tokens ≤ tb.tokens + (now - tb.last_update) * tb.cir / 1000
  pub valid : Polices tb'
  pub cir_same : tb'.cir ≡ tb.cir
  pub bc_same : tb'.bc ≡ tb.bc
  pub be_same : tb'.be ≡ tb.be
  pub time_set : tb'.last_update ≡ now

pub tb_update-Refills :
    (tb : TokenBucket) (now : ℕ)
    → Polices tb
    → tb.last_update ≤ now
    → now < 2 ^ 64
    → Refills tb now (tb_update tb now)
unfolding tb_update
tb_update-Refills tb now v h f =
    let c : (tb.cir == 0) ≡ false = ground (arith, v) in
    let elapsed : ℕ = u64 (now + 2 ^ 64 - tb.last_update) in
    let short : (if ltb 10000 elapsed then 10000 else elapsed) ≤ now - tb.last_update =
      ground arith in
    let more : (if ltb 10000 elapsed then 10000 else elapsed) * tb.cir
        ≤ (now - tb.last_update) * tb.cir =
      mul-le-mul_right tb.cir short in
    rw c (record {
      added = ground arith;
      valid = record {
        rate = v.rate;
        sized = v.sized;
        cir_fits = v.cir_fits;
        within = ground arith;
        size_fits = v.size_fits;
      };
      cir_same = refl;
      bc_same = refl;
      be_same = refl;
      time_set = refl;
    })
