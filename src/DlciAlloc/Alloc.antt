-- ===== src/DlciAlloc/Alloc.antt =====
-- What an allocation takes, and what it leaves free.
use vfrs.Common.{
  ℕ, ◌+◌, ◌-◌, ◌^◌, ◌≤◌, ◌<◌, ◌≡◌, ◌≢◌, refl, inl, inr, Bool, true, false, not, ◌&&◌, ◌||◌, List,
  [], ◌∷◌, ltb, ◌==◌, length, Bool-cases, arith, u32,
}
use vfrs.DlciAlloc.{
  Range, Direction, ascending, descending, Allocator, take_lowest, take_highest, alloc_ex, contains,
  in_range,
}
use vfrs.DlciAlloc.Ranges.{Fits, Gapped, IsValid, Gapped-lower, contains_bounds}

-- The DLCI `d` is taken: it was free, it is not any more, and no other changed.
pub record Takes (d : ℕ) (before after : List Range) : Type 0 where
  pub was_free : contains d before ≡ true
  pub taken : (x : ℕ) → contains x after ≡ (contains x before && not (x == d))

abbrev pub IsFirst : Direction → List Range → ℕ → Type 0
IsFirst ascending rs d = (x : ℕ) → contains x rs ≡ true → d ≤ x
IsFirst descending rs d = (x : ℕ) → contains x rs ≡ true → x ≤ d

pub record Taken (hi lb : ℕ) (dir : Direction) (rs : List Range) (d : ℕ) (after : List Range)
    : Type 0 where
  pub takes : Takes d rs after
  pub first : IsFirst dir rs d
  pub apart : Gapped 2 hi lb after
  pub shrinks : length after ≤ length rs

module _ (hi lb : ℕ) (r : Range) (rs : List Range) (small : hi < 2 ^ 32 - 1)
    (v : Gapped 2 hi lb (r ∷ rs)) where
  abbrev up : Range
  up = record r { start = u32 (r.start + 1) }

  abbrev used_up : Bool
  used_up = ltb r.end (u32 (r.start + 1))

  take_lowest_gone : used_up ≡ true → take_lowest (r ∷ rs) ≡ (r.start, rs)
  unfolding take_lowest
  take_lowest_gone e = rw e

  take_lowest_left : used_up ≡ false → take_lowest (r ∷ rs) ≡ (r.start, up ∷ rs)
  unfolding take_lowest
  take_lowest_left e = rw e

  taken_gone :
      (x : ℕ) → used_up ≡ true → contains x rs ≡ (contains x (r ∷ rs) && not (x == r.start))
  unfolding contains
  taken_gone x e = elim (Bool-cases (contains x rs)) [
    | inl c ↦ let (low, high) = contains_bounds x 2 hi (r.end + 2) rs v.1 c in ground (arith, v.0)
    | inr c ↦ ground (arith, v.0)
  ]

  taken_left :
      (x : ℕ) → used_up ≡ false → contains x (up ∷ rs) ≡ (contains x (r ∷ rs) && not (x == r.start))
  unfolding contains
  taken_left x e = elim (Bool-cases (contains x rs)) [
    | inl c ↦ let (low, high) = contains_bounds x 2 hi (r.end + 2) rs v.1 c in ground (arith, v.0)
    | inr c ↦ ground (arith, v.0)
  ]

  lowest : (x : ℕ) → contains x (r ∷ rs) ≡ true → r.start ≤ x
  lowest x h =
      let (low, high) =
        contains_bounds x 2 hi r.start (r ∷ rs)
          (record { low = omega arith; order = v.0.order; high = v.0.high }, v.1) h in
      low

  start_free : contains r.start (r ∷ rs) ≡ true
  unfolding contains
  start_free = ground (arith, v.0)

  take_lowest-Taken :
      let (d, after) = take_lowest (r ∷ rs) in Taken hi lb ascending (r ∷ rs) d after
  take_lowest-Taken = elim (Bool-cases used_up) [
    | inl e ↦ rw (take_lowest_gone e) (record {
      takes = record { was_free = start_free; taken = λ x. taken_gone x e };
      first = lowest;
      apart = Gapped-lower 2 hi (r.end + 2) lb rs (omega (arith, v.0.low, v.0.order)) v.1;
      shrinks = omega arith;
    })
    | inr e ↦ rw (take_lowest_left e) (record {
      takes = record { was_free = start_free; taken = λ x. taken_left x e };
      first = lowest;
      apart =
          (record { low = ground (arith, v.0); order = ground (arith, v.0); high = v.0.high }, v.1);
      shrinks = omega arith;
    })
  ]

module _ (hi lb : ℕ) (r : Range) (v : Fits hi lb r) where
  abbrev down : Range
  down = record r { end = r.end - 1 }

  highest_left : ltb r.start r.end ≡ true → Taken hi lb descending (r ∷ []) r.end (down ∷ [])
  unfolding contains
  highest_left e = record {
    takes = record { was_free = ground (arith, v); taken = λ x. ground (arith, v) };
    first = λ x h. ground (arith, v);
    apart = (record { low = v.low; order = ground (arith, v); high = omega (arith, v.high) }, tt);
    shrinks = omega arith;
  }

  highest_gone : ltb r.start r.end ≡ false → Taken hi lb descending (r ∷ []) r.end []
  unfolding contains
  highest_gone e = record {
    takes = record { was_free = ground (arith, v); taken = λ x. ground (arith, v) };
    first = λ x h. ground (arith, v);
    apart = tt;
    shrinks = omega arith;
  }

-- What is taken from the later ranges is taken from all.
Taken-cons :
    (hi lb : ℕ) (r : Range) (rs : List Range) (d : ℕ) (after : List Range)
    → Fits hi lb r
    → Gapped 2 hi (r.end + 2) rs
    → Taken hi (r.end + 2) descending rs d after
    → Taken hi lb descending (r ∷ rs) d (r ∷ after)
unfolding contains
Taken-cons hi lb r rs d after f v t =
    let (low, high) = contains_bounds d 2 hi (r.end + 2) rs v t.takes.was_free in
    record {
      takes = record {
        was_free = rw t.takes.was_free (or-true (in_range d r));
        taken = λ x. rw (t.takes.taken x) (distribute x (contains x rs) low);
      };
      first = λ x h. elim (Bool-cases (contains x rs)) [
        | inl c ↦ t.first x c
        | inr c ↦ ground (arith, f)
      ];
      apart = (f, t.apart);
      shrinks = omega (arith, t.shrinks);
    }
  where
    or-true : (b : Bool) → (b || true) ≡ true
    or-true true = refl
    or-true false = refl

    distribute :
        (x : ℕ) (c : Bool)
        → r.end + 2 ≤ d
        → (in_range x r || c && not (x == d)) ≡ ((in_range x r || c) && not (x == d))
    distribute x true low = ground (arith, f)
    distribute x false low = ground (arith, f)

take_highest-Taken :
    (hi lb : ℕ) (r : Range) (rs : List Range)
    → Gapped 2 hi lb (r ∷ rs)
    → let (d, after) = take_highest (r ∷ rs) in Taken hi lb descending (r ∷ rs) d after
unfolding take_highest
take_highest-Taken hi lb r [] v = elim (Bool-cases (ltb r.start r.end)) [
  | inl e ↦ rw e (highest_left hi lb r v.0 e)
  | inr e ↦ rw e (highest_gone hi lb r v.0 e)
]
take_highest-Taken hi lb r (next ∷ rs) v =
    Taken-cons hi lb r (next ∷ rs) (take_highest (next ∷ rs)).0 (take_highest (next ∷ rs)).1 v.0 v.1
      (take_highest-Taken hi (r.end + 2) next rs v.1)

lowest_Taken :
    (hi lb : ℕ) (rs : List Range)
    → hi < 2 ^ 32 - 1
    → Gapped 2 hi lb rs
    → rs ≢ []
    → Taken hi lb ascending rs (take_lowest rs).0 (take_lowest rs).1
lowest_Taken hi lb [] small v h = absurd (h refl)
lowest_Taken hi lb (r ∷ rs) small v h = take_lowest-Taken hi lb r rs small v

highest_Taken :
    (hi lb : ℕ) (rs : List Range)
    → Gapped 2 hi lb rs
    → rs ≢ []
    → Taken hi lb descending rs (take_highest rs).0 (take_highest rs).1
highest_Taken hi lb [] v h = absurd (h refl)
highest_Taken hi lb (r ∷ rs) v h = take_highest-Taken hi lb r rs v

pub record Allocates (a : Allocator) (dir : Direction) (d : ℕ) (a' : Allocator) : Type 0 where
  pub takes : Takes d a.ranges a'.ranges
  pub first : IsFirst dir a.ranges d
  pub valid : IsValid a'

-- On a well-formed allocator with something free, an allocation answers the lowest free DLCI (the
-- highest if it goes downwards), marks that one and no other as used, and keeps the invariant.
pub alloc_ex_takes :
    (a : Allocator) (dir : Direction)
    → IsValid a
    → a.ranges ≢ []
    → let (d, a') = alloc_ex a dir in Allocates a dir d a'
unfolding alloc_ex
alloc_ex_takes a ascending v h =
    let t = lowest_Taken a.range_high a.range_low a.ranges v.high_fits v.apart h in
    record {
      takes = t.takes;
      first = t.first;
      valid = record {
        high_fits = v.high_fits;
        apart = t.apart;
        room = omega (arith, t.shrinks, v.room);
      };
    }
alloc_ex_takes a descending v h =
    let t = highest_Taken a.range_high a.range_low a.ranges v.apart h in
    record {
      takes = t.takes;
      first = t.first;
      valid = record {
        high_fits = v.high_fits;
        apart = t.apart;
        room = omega (arith, t.shrinks, v.room);
      };
    }

-- With nothing free, an allocation in either direction answers 0 and leaves nothing free.
pub alloc_ex_exhausted :
    (a : Allocator) (dir : Direction)
    → a.ranges ≡ []
    → ((alloc_ex a dir).0 ≡ 0) × ((alloc_ex a dir).1.ranges ≡ [])
unfolding alloc_ex take_lowest take_highest
alloc_ex_exhausted a ascending h = rw h (refl, refl)
alloc_ex_exhausted a descending h = rw h (refl, refl)
