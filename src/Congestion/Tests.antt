-- ===== src/Congestion/Tests.antt =====
-- Runs of the policer and of the congestion state.
use vfrs.Common.{◌+◌, ◌-◌, ◌*◌, ◌≤◌, ◌≡◌, refl, true, false, List, [], ◌∷◌, none, arith}
use vfrs.Congestion.{TokenBucket, CgstState, cgst_init}
use vfrs.Congestion.Police.{spent, committed, Polices}
use vfrs.Congestion.Bound.{Offered, total, end_time, InOrder, total-bound, committed-bound}

-- 64 kbit/s with 8000 bits of Bc and 4000 of Be.
abbrev bucket : TokenBucket
bucket = record { tokens = 12000; last_update = 1000; cir = 64000; bc = 8000; be = 4000 }

bucket-Polices : Polices bucket
bucket-Polices = record {
  rate = omega arith;
  sized = omega arith;
  cir_fits = omega arith;
  within = omega arith;
  size_fits = omega arith;
}

abbrev traffic : List Offered
traffic =
    record { now = 1000; bits = 6000; de = false; congested = false }
    ∷ record { now = 1010; bits = 4000; de = false; congested = true }
    ∷ record { now = 1050; bits = 2000; de = true; congested = false }
    ∷ []

traffic-InOrder : InOrder 1000 traffic
traffic-InOrder =
    ((omega arith, omega arith), ((omega arith, omega arith), ((omega arith, omega arith), tt)))

total-bound_example :
    1000 * total spent true bucket traffic ≤ 1000 * 12000 + (end_time 1000 traffic - 1000) * 64000
total-bound_example = total-bound true bucket traffic bucket-Polices traffic-InOrder

committed-bound_example :
    1000 * total committed true bucket traffic
    ≤ 1000 * (12000 - 4000) + (end_time 1000 traffic - 1000) * 64000
committed-bound_example = committed-bound true bucket traffic bucket-Polices traffic-InOrder

-- A port with a threshold of two failed writes.
abbrev port_state : CgstState
port_state = record (cgst_init none 64000 100 5) { write_failure_threshold = 2 }

clear_at_first : port_state.congested ≡ false
unfolding cgst_init
clear_at_first = refl

none_at_first : port_state.write_failure_count ≡ 0
unfolding cgst_init
none_at_first = refl
