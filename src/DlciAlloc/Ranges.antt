-- ===== src/DlciAlloc/Ranges.antt =====
-- Sorted lists of ranges, and the set of DLCIs that one stands for.
use vfrs.Common.{
  ℕ, ◌+◌, ◌-◌, ◌^◌, ◌≤◌, ◌<◌, ◌≡◌, sym, ap, ◌∙◌, inl, inr, true, false, ◌||◌, List, [], ◌∷◌, length,
  Bool-cases, arith,
}
use vfrs.DlciAlloc.{Range, Allocator, contains, in_range, svc_max_free_ranges}

-- A nonempty range in `[lb, hi]`.
pub record Fits (hi lb : ℕ) (r : Range) : Type 0 where
  pub low : lb ≤ r.start
  pub order : r.start ≤ r.end
  pub high : r.end ≤ hi

-- Such ranges in increasing order, each starting `g` or more after the end of the one before.
abbrev pub Gapped : ℕ → ℕ → ℕ → List Range → Type 0
Gapped g hi lb [] = Unit
Gapped g hi lb (r ∷ rs) = Fits hi lb r × Gapped g hi (r.end + g) rs

-- The invariant of an allocator: its free ranges lie in its range, and no two touch.
pub record IsValid (a : Allocator) : Type 0 where
  pub high_fits : a.range_high < 2 ^ 32 - 1
  pub apart : Gapped 2 a.range_high a.range_low a.ranges
  pub room : length a.ranges ≤ svc_max_free_ranges

pub Gapped-lower :
    (g hi lb lb' : ℕ) (rs : List Range) → lb' ≤ lb → Gapped g hi lb rs → Gapped g hi lb' rs
Gapped-lower g hi lb lb' [] h v = tt
Gapped-lower g hi lb lb' (r ∷ rs) h (f, v) =
    (record { low = omega (arith, f.low); order = f.order; high = f.high }, v)

pub Gapped-touching : (hi lb : ℕ) (rs : List Range) → Gapped 2 hi lb rs → Gapped 1 hi lb rs
Gapped-touching hi lb [] v = tt
Gapped-touching hi lb (r ∷ rs) (f, v) = (
  f,
  Gapped-touching hi (r.end + 1) rs (Gapped-lower 2 hi (r.end + 2) (r.end + 1) rs (omega arith) v),
)

pub contains_bounds :
    (x g hi lb : ℕ) (rs : List Range)
    → Gapped g hi lb rs
    → contains x rs ≡ true
    → (lb ≤ x) × (x ≤ hi)
unfolding contains
contains_bounds x g hi lb [] v h = absurd (ground arith)
contains_bounds x g hi lb (r ∷ rs) (f, v) h = elim (Bool-cases (in_range x r)) [
  | inl e ↦ ground (arith, f)
  | inr e ↦
      let rest : contains x rs ≡ true = sym (ap (λ b. b || contains x rs) e) ∙ h in
      let (low, high) = contains_bounds x g hi (r.end + g) rs v rest in ground (arith, f)
]

pub contains_below :
    (x g hi lb : ℕ) (rs : List Range) → Gapped g hi lb rs → x < lb → contains x rs ≡ false
contains_below x g hi lb rs v h = elim (Bool-cases (contains x rs)) [
  | inl e ↦ let (low, high) = contains_bounds x g hi lb rs v e in absurd (omega arith)
  | inr e ↦ e
]
