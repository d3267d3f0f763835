-- ===== src/DlciAlloc.antt =====
-- The allocator of SVC DLCIs of src/switching/svc_routing_common.c: a sorted list of free ranges.
-- `count` of the source is the length of the list; array elements from `count` on are not read.
pub mod Ranges
pub mod Alloc
pub mod Free
pub mod RoundTrip
pub mod Tests
use vfrs.Common.{
  ℕ, zero, suc, ◌+◌, ◌-◌, ◌%◌, ◌^◌, Bool, true, false, ◌&&◌, ◌||◌, List, [], ◌∷◌, ltb, leb, ◌==◌,
  if◌then◌else◌, length, u32,
}

pub record Range : Type 0 where
  pub start : ℕ
  pub end : ℕ

-- `vfr_dlci_alloc_dir_t`
pub data Direction : Type 0 where
  ascending descending : Direction

-- `vfr_dlci_allocator_t`
pub record Allocator : Type 0 where
  pub range_low : ℕ
  pub range_high : ℕ
  pub alloc_dir : Direction
  pub ranges : List Range

abbrev pub svc_max_free_ranges : ℕ
svc_max_free_ranges = 64

pub alloc_init_ex : ℕ → ℕ → Direction → Allocator
alloc_init_ex range_low range_high alloc_dir =
    let swapped = ltb range_high range_low in
    let low : ℕ = if swapped then 512 else range_low in
    let high : ℕ = if swapped then 991 else range_high in
    record {
      range_low = low;
      range_high = high;
      alloc_dir = alloc_dir;
      ranges = record { start = low; end = high } ∷ [];
    }

pub alloc_init : ℕ → ℕ → Allocator
unfolding alloc_init_ex
alloc_init range_low range_high = alloc_init_ex range_low range_high ascending

-- The lowest DLCI of the first range.
pub take_lowest : List Range → ℕ × List Range
take_lowest [] = (0, [])
take_lowest (r ∷ rs) =
    let start = u32 (r.start + 1) in
    (r.start, (if ltb r.end start then rs else record r { start = start } ∷ rs))

-- The highest DLCI of the last range.
pub take_highest : List Range → ℕ × List Range
take_highest [] = (0, [])
take_highest (r ∷ []) =
    (r.end, (if ltb r.start r.end then record r { end = r.end - 1 } ∷ [] else []))
take_highest (r ∷ next ∷ rs) = let (dlci, rest) = take_highest (next ∷ rs) in (dlci, r ∷ rest)

-- 0 is the answer when nothing is free.
pub alloc_ex : Allocator → Direction → ℕ × Allocator
unfolding take_lowest take_highest
alloc_ex alloc ascending =
    let (dlci, ranges) = take_lowest alloc.ranges in (dlci, record alloc { ranges = ranges })
alloc_ex alloc descending =
    let (dlci, ranges) = take_highest alloc.ranges in (dlci, record alloc { ranges = ranges })

pub alloc : Allocator → ℕ × Allocator
unfolding alloc_ex
alloc a = alloc_ex a a.alloc_dir

abbrev pub in_range : ℕ → Range → Bool
in_range dlci r = leb r.start dlci && leb dlci r.end

pub contains : ℕ → List Range → Bool
contains dlci [] = false
contains dlci (r ∷ rs) = in_range dlci r || contains dlci rs

-- `[dlci, dlci]` before the first range that starts at or above it.
pub insert_single : ℕ → List Range → List Range
insert_single dlci [] = record { start = dlci; end = dlci } ∷ []
insert_single dlci (r ∷ rs) =
    if ltb r.start dlci
    then r ∷ insert_single dlci rs
    else record { start = dlci; end = dlci } ∷ r ∷ rs

-- The merging loop, at the range `r` with those after it.
pub merge_into : Range → List Range → List Range
merge_into r [] = r ∷ []
merge_into r (next ∷ rs) =
    let joined = record r { end = if ltb r.end next.end then next.end else r.end } in
    elim (leb next.start (u32 (r.end + 1))) [
      | true ↦ merge_into joined rs
      | false ↦ r ∷ merge_into next rs
    ]

pub merge : List Range → List Range
unfolding merge_into
merge [] = []
merge (r ∷ rs) = merge_into r rs

pub free : Allocator → ℕ → Allocator
unfolding contains insert_single merge
free alloc dlci =
    if ltb dlci alloc.range_low || ltb alloc.range_high dlci
    then alloc
    else if contains dlci alloc.ranges
    then alloc
    else if leb svc_max_free_ranges (length alloc.ranges)
    then alloc
    else record alloc { ranges = merge (insert_single dlci alloc.ranges) }
