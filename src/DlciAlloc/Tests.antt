-- ===== src/DlciAlloc/Tests.antt =====
-- Runs of the allocator.
use vfrs.Common.{◌<◌, ◌≢◌, ◌≡◌, [], ◌∷◌, length, arith}
use vfrs.DlciAlloc.{
  ascending, descending, Allocator, alloc_ex, take_lowest, contains, free, svc_max_free_ranges,
}
use vfrs.DlciAlloc.Ranges.{IsValid}
use vfrs.DlciAlloc.Alloc.{Allocates, alloc_ex_takes}
use vfrs.DlciAlloc.Free.{Frees, free-Frees}
use vfrs.DlciAlloc.RoundTrip.{free-alloc_ex}

-- 513 is in use, between two free ranges.
abbrev holed : Allocator
holed = record {
  range_low = 512;
  range_high = 991;
  alloc_dir = ascending;
  ranges = record { start = 512; end = 512 } ∷ record { start = 514; end = 991 } ∷ [];
}

holed-IsValid : IsValid holed
holed-IsValid = record {
  high_fits = omega arith;
  apart = (
    record { low = omega arith; order = omega arith; high = omega arith },
    (record { low = omega arith; order = omega arith; high = omega arith }, tt),
  );
  room = omega arith;
}

holed_some : holed.ranges ≢ []
holed_some = ground arith

free-Frees_example : Frees holed 513 (free holed 513)
free-Frees_example = free-Frees holed 513 holed-IsValid

alloc_ex_takes_example : let (d, a') = alloc_ex holed descending in Allocates holed descending d a'
alloc_ex_takes_example = alloc_ex_takes holed descending holed-IsValid holed_some

left_some : (alloc_ex holed ascending).1.ranges ≢ []
unfolding alloc_ex take_lowest
left_some = ground arith

left_room : length (alloc_ex holed ascending).1.ranges < svc_max_free_ranges
unfolding alloc_ex take_lowest
left_room = omega arith

free-alloc_ex_example :
    contains 700 (free (alloc_ex holed ascending).1 (alloc_ex holed ascending).0).ranges
    ≡ contains 700 holed.ranges
free-alloc_ex_example = free-alloc_ex holed ascending holed-IsValid holed_some left_room 700
