-- ===== src/DlciAlloc/Free.antt =====
-- What a release adds to the free DLCIs: insertion of a single range, and merging.
use vfrs.Common.{
  ℕ, suc, ◌+◌, ◌-◌, ◌^◌, ◌≤◌, ◌<◌, ◌≡◌, refl, ap, ◌∙◌, inl, inr, Bool, true, false, not, ◌&&◌, ◌||◌,
  List, [], ◌∷◌, ltb, leb, ◌==◌, if◌then◌else◌, length, Bool-cases, arith, u32,
}
use vfrs.DlciAlloc.{
  Range, Direction, Allocator, alloc_init_ex, contains, in_range, insert_single, merge_into, merge,
  free, svc_max_free_ranges,
}
use vfrs.DlciAlloc.Ranges.{Fits, Gapped, IsValid, Gapped-lower, Gapped-touching}

abbrev single : ℕ → Range
single d = record { start = d; end = d }

or-false : (b c : Bool) → (b || c) ≡ false → (b ≡ false) × (c ≡ false)
or-false false false h = (refl, refl)
or-false false true h = absurd (ground arith)
or-false true c h = absurd (ground arith)

insert_single-Gapped :
    (d hi lb : ℕ) (rs : List Range)
    → lb ≤ d
    → d ≤ hi
    → Gapped 2 hi lb rs
    → contains d rs ≡ false
    → Gapped 1 hi lb (insert_single d rs)
unfolding insert_single contains
insert_single-Gapped d hi lb [] l h v c = (record { low = l; order = omega arith; high = h }, tt)
insert_single-Gapped d hi lb (r ∷ rs) l h (f, v) c =
    let (out, rest) = or-false (in_range d r) (contains d rs) c in
    elim (Bool-cases (ltb r.start d)) [
      | inl e ↦ rw e (
        f,
        insert_single-Gapped d hi (r.end + 1) rs (ground (arith, f)) h
            (Gapped-lower 2 hi (r.end + 2) (r.end + 1) rs (omega arith) v) rest,
      )
      | inr e ↦ rw e (
        record { low = l; order = omega arith; high = h },
        (
          record { low = ground (arith, f); order = f.order; high = f.high },
          Gapped-touching hi (r.end + 1) rs
              (Gapped-lower 2 hi (r.end + 2) (r.end + 1) rs (omega arith) v),
        ),
      )
    ]

contains-insert_single :
    (x d : ℕ) (rs : List Range) → contains x (insert_single d rs) ≡ ((x == d) || contains x rs)
unfolding insert_single contains
contains-insert_single x d [] = ground arith
contains-insert_single x d (r ∷ rs) = elim (Bool-cases (ltb r.start d)) [
  | inl e ↦ rw (e, contains-insert_single x d rs) (swap (in_range x r) (x == d) (contains x rs))
  | inr e ↦ rw e (ap (λ b. b || (in_range x r || contains x rs)) (same x d))
]
  where
    swap : (a b c : Bool) → (a || (b || c)) ≡ (b || (a || c))
    swap true true c = refl
    swap true false c = refl
    swap false b c = refl

    same : (x d : ℕ) → (leb d x && leb x d) ≡ (x == d)
    same x d = ground arith

length-insert_single : (d : ℕ) (rs : List Range) → length (insert_single d rs) ≡ suc (length rs)
unfolding insert_single
length-insert_single d [] = refl
length-insert_single d (r ∷ rs) = elim (Bool-cases (ltb r.start d)) [
  | inl e ↦ rw e (ap suc (length-insert_single d rs))
  | inr e ↦ rw e
]

abbrev joined : Range → Range → Range
joined r next = record r { end = if ltb r.end next.end then next.end else r.end }

-- What merging from `r` on does to well-ordered ranges.
record Merged (hi lb : ℕ) (r : Range) (rs : List Range) (after : List Range) : Type 0 where
  apart : Gapped 2 hi lb after
  same : (x : ℕ) → contains x after ≡ (in_range x r || contains x rs)
  room : length after ≤ suc (length rs)

merge_into-nil : (r : Range) → merge_into r [] ≡ r ∷ []
unfolding merge_into
merge_into-nil r = refl

module _ (r next : Range) (rs : List Range) where
  abbrev touching : Bool
  touching = leb next.start (u32 (r.end + 1))

  merge_into_join : touching ≡ true → merge_into r (next ∷ rs) ≡ merge_into (joined r next) rs
  unfolding merge_into
  merge_into_join e =
      ap (λ b. elim b [ true ↦ merge_into (joined r next) rs | false ↦ r ∷ merge_into next rs ]) e

  merge_into_keep : touching ≡ false → merge_into r (next ∷ rs) ≡ r ∷ merge_into next rs
  unfolding merge_into
  merge_into_keep e =
      ap (λ b. elim b [ true ↦ merge_into (joined r next) rs | false ↦ r ∷ merge_into next rs ]) e

merge_into-Merged :
    (hi lb : ℕ) (r : Range) (rs : List Range)
    → hi < 2 ^ 32 - 1
    → Fits hi lb r
    → Gapped 1 hi (r.end + 1) rs
    → Merged hi lb r rs (merge_into r rs)
unfolding contains
merge_into-Merged hi lb r [] small f v = record {
  apart = rw (merge_into-nil r) (f, tt);
  same = λ x. rw (merge_into-nil r);
  room = rw (merge_into-nil r) (omega arith);
}
merge_into-Merged hi lb r (next ∷ rs) small f (fn, v) = elim (Bool-cases (touching r next rs)) [
  | inl e ↦
      let end : next.end ≡ (joined r next).end = ground (arith, fn) in
      let m =
        merge_into-Merged hi lb (joined r next) rs small
          (record { low = f.low; order = ground (arith, f, fn); high = ground (arith, fn) })
          (Gapped-lower 1 hi (next.end + 1) ((joined r next).end + 1) rs (omega arith) v) in
      rw (merge_into_join r next rs e) (record {
        apart = m.apart;
        same = λ x. m.same x ∙ both x (contains x rs) e;
        room = omega (arith, m.room);
      })
  | inr e ↦
      let m =
        merge_into-Merged hi (r.end + 2) next rs small
          (record { low = ground (arith, fn, f); order = fn.order; high = fn.high }) v in
      rw (merge_into_keep r next rs e) (record {
        apart = (f, m.apart);
        same = λ x. ap (λ b. in_range x r || b) (m.same x);
        room = omega (arith, m.room);
      })
]
  where
    both :
        (x : ℕ) (c : Bool)
        → touching r next rs ≡ true
        → (in_range x (joined r next) || c) ≡ (in_range x r || (in_range x next || c))
    both x true e = ground (arith, f, fn)
    both x false e = ground (arith, f, fn)

merge_lem :
    (hi lb : ℕ) (rs : List Range)
    → hi < 2 ^ 32 - 1
    → Gapped 1 hi lb rs
    → Gapped 2 hi lb (merge rs)
      × ((x : ℕ) → contains x (merge rs) ≡ contains x rs)
      × (length (merge rs) ≤ length rs)
unfolding merge contains
merge_lem hi lb [] small v = (tt, (λ x. refl), omega arith)
merge_lem hi lb (r ∷ rs) small (f, v) =
    let m = merge_into-Merged hi lb r rs small f v in (m.apart, m.same, m.room)

-- When a release has an effect: the DLCI is of the allocator's range and in use, and there is room.
abbrev pub frees : Allocator → ℕ → Bool
frees a d =
    not (ltb d a.range_low || ltb a.range_high d)
    && (not (contains d a.ranges) && not (leb svc_max_free_ranges (length a.ranges)))

-- The result of a release on a well-formed allocator.
pub record Frees (a : Allocator) (d : ℕ) (a' : Allocator) : Type 0 where
  pub adds : (x : ℕ) → contains x a'.ranges ≡ (contains x a.ranges || (frees a d && (x == d)))
  pub valid : IsValid a'
  pub low : a'.range_low ≡ a.range_low
  pub high : a'.range_high ≡ a.range_high

module _ (a : Allocator) (d : ℕ) where
  released : Allocator
  released = record a { ranges = merge (insert_single d a.ranges) }

  free_cases : free a d ≡ (if frees a d then released else a)
  unfolding free released
  free_cases =
      three (ltb d a.range_low || ltb a.range_high d) (contains d a.ranges)
        (leb svc_max_free_ranges (length a.ranges)) released
    where
      three :
          (p q r : Bool) (b : Allocator)
          → (if p then a else if q then a else if r then a else b)
            ≡ (if not p && (not q && not r) then b else a)
      three true q r b = refl
      three false true r b = refl
      three false false true b = refl
      three false false false b = refl

  frees_at :
      frees a d ≡ true
      → (a.range_low ≤ d)
        × (d ≤ a.range_high)
        × (contains d a.ranges ≡ false)
        × (length a.ranges < svc_max_free_ranges)
  frees_at e = elim (Bool-cases (contains d a.ranges)) [
    | inl c ↦ absurd (ground arith)
    | inr c ↦ (ground arith, ground arith, c, ground arith)
  ]

  released-Frees : IsValid a → frees a d ≡ true → Frees a d released
  unfolding released
  released-Frees v e =
      let (low, high, out, room) = frees_at e in
      let g = insert_single-Gapped d a.range_high a.range_low a.ranges low high v.apart out in
      let (apart, same, short) =
        merge_lem a.range_high a.range_low (insert_single d a.ranges) v.high_fits g in
      record {
        adds = λ x.
            same x
            ∙ contains-insert_single x d a.ranges
            ∙ rw e (or_comm (x == d) (contains x a.ranges));
        valid = record {
          high_fits = v.high_fits;
          apart = apart;
          room = omega (arith, short, length-insert_single d a.ranges, room);
        };
        low = refl;
        high = refl;
      }
    where
      or_comm : (b c : Bool) → (b || c) ≡ (c || b)
      or_comm true true = refl
      or_comm true false = refl
      or_comm false true = refl
      or_comm false false = refl

  kept-Frees : IsValid a → frees a d ≡ false → Frees a d a
  kept-Frees v e = record {
    adds = λ x. rw e (or-false_same (contains x a.ranges));
    valid = v;
    low = refl;
    high = refl;
  }
    where
      or-false_same : (b : Bool) → b ≡ (b || false)
      or-false_same true = refl
      or-false_same false = refl

  -- A release on a well-formed allocator adds to the free DLCIs that one, if it is of the
  -- allocator's range, in use, and fewer than 64 ranges are free, and otherwise nothing; it keeps
  -- the range and the invariant.
  pub free-Frees : IsValid a → Frees a d (free a d)
  free-Frees v = rw free_cases (elim (Bool-cases (frees a d)) [
    | inl e ↦ rw e (released-Frees v e)
    | inr e ↦ rw e (kept-Frees v e)
  ])

-- A new allocator whose upper bound is below 2^32 - 1 is well formed and has every DLCI of its
-- range free, and no other.
pub alloc_init_ex_lem :
    (range_low range_high : ℕ) (dir : Direction)
    → range_high < 2 ^ 32 - 1
    → let a = alloc_init_ex range_low range_high dir in
      IsValid a × ((x : ℕ) → contains x a.ranges ≡ (leb a.range_low x && leb x a.range_high))
unfolding alloc_init_ex contains
alloc_init_ex_lem range_low range_high dir small = elim (Bool-cases (ltb range_high range_low)) [
  | inl e ↦ rw e (valid 512 991 (omega arith) (omega arith), λ x. plain (leb 512 x && leb x 991))
  | inr e ↦ rw e (
    valid range_low range_high small (ground arith),
    λ x. plain (leb range_low x && leb x range_high),
  )
]
  where
    plain : (b : Bool) → (b || false) ≡ b
    plain true = refl
    plain false = refl

    valid :
        (low high : ℕ)
        → high < 2 ^ 32 - 1
        → low ≤ high
        → IsValid (record {
          range_low = low;
          range_high = high;
          alloc_dir = dir;
          ranges = record { start = low; end = high } ∷ [];
        })
    valid low high small h = record {
      high_fits = small;
      apart = (record { low = omega arith; order = h; high = omega arith }, tt);
      room = omega arith;
    }
