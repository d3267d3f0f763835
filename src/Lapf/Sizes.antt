-- ===== src/Lapf/Sizes.antt =====
-- The window that is computed for a line: port_dl_calc_k_x36 of src/ports/lapf/port_lapf.c.
use vfrs.Common.{ℕ, ◌+◌, ◌*◌, ◌/◌, ◌≤◌, ◌<◌, ◌≡◌, min, arith}
use vfrs.Lapf.{calc_k_x36}

-- The window of X.36 is 2 and as many more as the formula of its appendix VII says, but 127 at most,
-- and never less than 2; the casts and the lower bound of the code never matter.
pub calc_k_x36_lem :
    (delay rate size : ℕ)
    → 0 < delay
    → 0 < rate
    → 0 < size
    → (calc_k_x36 delay rate size ≡ min 127 (2 + delay * rate / (4000 * size)))
      × (2 ≤ calc_k_x36 delay rate size)
unfolding calc_k_x36
calc_k_x36_lem delay rate size a b c = ground arith
