-- ===== src/CtrlQueue/Tests.antt =====
-- Runs of the control-plane queue on a fresh ring.
use vfrs.Common.{◌≡◌, refl, List, [], ◌∷◌, replicate, arith}
use vfrs.CtrlQueue.{CtrlQueue, init, no_frame, Call, pushes, pops}
use vfrs.CtrlQueue.Refine.{IsValid, contents, fifo_run, run, run_refines}

abbrev fresh : CtrlQueue
fresh = init (record { ring = replicate 256 no_frame; head = 7; tail = 3 })

fresh-IsValid : IsValid fresh
unfolding init
fresh-IsValid = record { slots = refl; head_in = omega arith; tail_in = omega arith }

abbrev calls : List Call
calls = pops ∷ pushes (1 ∷ 2 ∷ []) 4 ∷ pushes (3 ∷ []) 5 ∷ pops ∷ []

run_refines_example : run fresh calls ≡ fifo_run (contents fresh) calls
run_refines_example = run_refines calls fresh fresh-IsValid
