-- ===== src/DlciAlloc/RoundTrip.antt =====
-- A DLCI allocated and released again.
use vfrs.Common.{
  ℕ, ◌<◌, ◌≡◌, ◌≢◌, refl, sym, ap, ◌∙◌, Bool, true, false, not, ◌&&◌, ◌||◌, [], ◌==◌, ==_refl,
  length, Bool-cases, inl, inr, arith, and-false,
}
use vfrs.DlciAlloc.{Direction, Allocator, free, alloc_ex, contains, svc_max_free_ranges}
use vfrs.DlciAlloc.Ranges.{IsValid, contains_bounds}
use vfrs.DlciAlloc.Alloc.{alloc_ex_takes}
use vfrs.DlciAlloc.Free.{frees, free-Frees}

-- The range of an allocator does not change.
alloc_ex_range :
    (a : Allocator) (dir : Direction)
    → ((alloc_ex a dir).1.range_low ≡ a.range_low) × ((alloc_ex a dir).1.range_high ≡ a.range_high)
unfolding alloc_ex
alloc_ex_range a Direction.ascending = (refl, refl)
alloc_ex_range a Direction.descending = (refl, refl)

module _ (a : Allocator) (dir : Direction) (v : IsValid a) (h : a.ranges ≢ []) where
  abbrev given : ℕ
  given = (alloc_ex a dir).0

  abbrev left : Allocator
  left = (alloc_ex a dir).1

  -- On a well-formed allocator with something free, the allocation after an allocation, in whatever
  -- direction, does not answer the same DLCI, if something is left for it.
  pub alloc_ex_fresh : (dir' : Direction) → left.ranges ≢ [] → (alloc_ex left dir').0 ≢ given
  alloc_ex_fresh dir' h' e =
      let t = alloc_ex_takes a dir v h in
      let t' = alloc_ex_takes left dir' t.valid h' in
      let used : contains given left.ranges ≡ false =
        t.takes.taken given
        ∙ ap (λ b. contains given a.ranges && not b) (==_refl given)
        ∙ and-false (contains given a.ranges) in
      let clash : true ≡ false =
        sym t'.takes.was_free ∙ ap (λ x. contains x left.ranges) e ∙ used in
      absurd (ground arith)

  given-frees : length left.ranges < svc_max_free_ranges → frees left given ≡ true
  given-frees room =
      let t = alloc_ex_takes a dir v h in
      let (low, high) =
        contains_bounds given 2 a.range_high a.range_low a.ranges v.apart t.takes.was_free in
      let (el, eh) = alloc_ex_range a dir in
      let used : contains given left.ranges ≡ false =
        t.takes.taken given
        ∙ ap (λ b. contains given a.ranges && not b) (==_refl given)
        ∙ and-false (contains given a.ranges) in
      rw used (ground arith)

  -- On a well-formed allocator with something free, releasing at once what an allocation answered
  -- makes the same DLCIs free as before it, provided fewer than 64 ranges are left free.
  pub free-alloc_ex :
      length left.ranges < svc_max_free_ranges
      → (x : ℕ) → contains x (free left given).ranges ≡ contains x a.ranges
  free-alloc_ex room x =
      let t = alloc_ex_takes a dir v h in
      let f = free-Frees left given t.valid in
      f.adds x
      ∙ rw (given-frees room, t.takes.taken x)
          (elim (Bool-cases (x == given)) [
            | inl e ↦
                let same : x ≡ given = ground arith in
                rw e (
                  both (contains x a.ranges)
                    (ap (λ y. contains y a.ranges) same ∙ t.takes.was_free))
            | inr e ↦ rw e (neither (contains x a.ranges))
          ])
    where
      both : (b : Bool) → b ≡ true → (b && not true || (true && true)) ≡ b
      both true e = refl
      both false e = sym e

      neither : (b : Bool) → (b && not false || (true && false)) ≡ b
      neither true = refl
      neither false = refl
