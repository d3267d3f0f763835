-- ===== src/CtrlQueue/Refine.antt =====
-- The ring behaves as a queue of at most 255 frames of at most 2048 octets, first in first out.
use vfrs.Common.{
  ℕ, zero, suc, ◌+◌, ◌-◌, ◌%◌, ◌<◌, ◌≡◌, ◌≢◌, refl, ap, ap₂, ◌∙◌, inl, inr, Bool, true, false,
  Bool-cases, List, [], ◌∷◌, ◌++◌, ltb, leb, ◌==◌, if◌then◌else◌, length, get_or, set, take,
  overwrite, take-append, get_or-set_self, get_or-set_ne, length-set, arith, u32, le→leb,
  lt→not-leb,
}
use vfrs.CtrlQueue.{
  CtrlFrame, CtrlQueue, Status, ok, failed, init, no_frame, push, pop, Call, pushes, pops,
}

-- What a frame says: its octets up to `len`, and its port.
abbrev pub Entry : Type 0
Entry = List ℕ × ℕ

abbrev pub entry : CtrlFrame → Entry
entry f = (take f.len f.octets, f.src_port_idx)

pub record IsValid (q : CtrlQueue) : Type 0 where
  pub slots : length q.ring ≡ 256
  pub head_in : q.head < 256
  pub tail_in : q.tail < 256

-- The entries of `n` slots from slot `i` on, going round at 256.
pub window : List CtrlFrame → ℕ → ℕ → List Entry
window ring i zero = []
window ring i (suc n) = entry (get_or ring i no_frame) ∷ window ring ((i + 1) % 256) n

abbrev pub count : CtrlQueue → ℕ
count q = (q.head + 256 - q.tail) % 256

pub contents : CtrlQueue → List Entry
unfolding window
contents q = window q.ring q.tail (count q)

-- The abstract queue.
unfoldable pub fifo_push : List Entry → List ℕ → ℕ → Status × List Entry
fifo_push s octets port =
    if ltb 2048 (length octets)
    then (failed, s)
    else if leb 255 (length s)
    then (failed, s)
    else (ok, s ++ ((octets, port) ∷ []))

unfoldable pub fifo_pop : List Entry → Status × Entry × List Entry
fifo_pop [] = (failed, entry no_frame, [])
fifo_pop (x ∷ s) = (ok, x, s)

length-window : (ring : List CtrlFrame) (i n : ℕ) → length (window ring i n) ≡ n
unfolding window
length-window ring i zero = refl
length-window ring i (suc n) = ap suc (length-window ring ((i + 1) % 256) n)

pub length-contents : (q : CtrlQueue) → length (contents q) ≡ count q
unfolding contents
length-contents q = length-window q.ring q.tail (count q)

-- A write just past a window extends it.
window-set :
    (ring : List CtrlFrame) (f : CtrlFrame) (n i j : ℕ)
    → length ring ≡ 256
    → i < 256
    → n < 256
    → j ≡ (i + n) % 256
    → window (set ring j f) i (suc n) ≡ window ring i n ++ (entry f ∷ [])
unfolding window
window-set ring f zero i j l hi hn e =
    let e' : j ≡ i = omega arith in
    ap (λ t. entry t ∷ []) (rw e' (get_or-set_self ring i f no_frame (omega arith)))
window-set ring f (suc n) i j l hi hn e =
    let ne : j ≢ i = omega arith in
    ap₂ ◌∷◌ (ap entry (get_or-set_ne ring j i f no_frame ne))
      (window-set ring f n ((i + 1) % 256) j l (omega arith) (omega arith) (omega arith))

window-pos :
    (ring : List CtrlFrame) (i n : ℕ)
    → n ≢ 0
    → window ring i n ≡ entry (get_or ring i no_frame) ∷ window ring ((i + 1) % 256) (n - 1)
unfolding window
window-pos ring i zero h = absurd (h refl)
window-pos ring i (suc n) h =
    let e : n ≡ suc n - 1 = omega arith in
    ap (λ k. entry (get_or ring i no_frame) ∷ window ring ((i + 1) % 256) k) e

module _ (q : CtrlQueue) (octets : List ℕ) (port : ℕ) where
  -- The slot that a push fills.
  abbrev filled : CtrlFrame
  filled = record {
    octets = overwrite octets (get_or q.ring q.head no_frame).octets;
    len = length octets;
    src_port_idx = port;
  }

  abbrev full : Bool
  full = u32 (q.head + 1) % 256 == q.tail

  push_too_long : ltb 2048 (length octets) ≡ true → push q octets port ≡ (failed, q)
  unfolding push
  push_too_long e = rw e

  push-full : ltb 2048 (length octets) ≡ false → full ≡ true → push q octets port ≡ (failed, q)
  unfolding push
  push-full e f = rw (e, f)

  push_done :
      ltb 2048 (length octets) ≡ false
      → full ≡ false
      → push q octets port
        ≡ (ok, record q { ring = set q.ring q.head filled; head = u32 (q.head + 1) % 256 })
  unfolding push
  push_done e f = rw (e, f)

  -- A push keeps the ring well formed.
  pub push-IsValid : IsValid q → IsValid (push q octets port).1
  push-IsValid v = elim (Bool-cases (ltb 2048 (length octets))) [
    | inl e ↦ rw (push_too_long e) v
    | inr e ↦ elim (Bool-cases full) [
      | inl f ↦ rw (push-full e f) v
      | inr f ↦ rw (push_done e f) (record {
        slots = length-set q.ring q.head filled ∙ v.slots;
        head_in = omega arith;
        tail_in = v.tail_in;
      })
    ]
  ]

  grown : CtrlQueue
  grown = record q { ring = set q.ring q.head filled; head = u32 (q.head + 1) % 256 }

  contents-grown : IsValid q → full ≡ false → contents grown ≡ contents q ++ ((octets, port) ∷ [])
  unfolding contents grown
  contents-grown v f =
      let n : count grown ≡ suc (count q) = ground (arith, v) in
      let e : entry filled ≡ (octets, port) = ap (λ t. (t, port)) (take-append octets _) in
      ap (window (set q.ring q.head filled) q.tail) n
      ∙ window-set q.ring filled (count q) q.tail q.head v.slots v.tail_in (ground (arith, v))
          (omega (arith, v.head_in, v.tail_in))
      ∙ ap (λ t. contents q ++ (t ∷ [])) e

  -- A push on a well-formed ring does what the bounded queue does: it is refused for more than 2048
  -- octets or if 255 frames wait, and else appends exactly the octets and the port.
  pub push_refines :
      IsValid q
      → let (s, q') = push q octets port in (s, contents q') ≡ fifo_push (contents q) octets port
  unfolding fifo_push grown
  push_refines v = elim (Bool-cases (ltb 2048 (length octets))) [
    | inl e ↦ rw (push_too_long e, e)
    | inr e ↦ elim (Bool-cases full) [
      | inl f ↦ rw (push-full e f, e, length-contents q, le→leb 255 (count q) (ground (arith, v)))
      | inr f ↦
          rw (push_done e f, e, length-contents q, lt→not-leb 255 (count q) (ground (arith, v)))
            (ap (λ t. (ok, t)) (contents-grown v f))
    ]
  ]

pub pop-IsValid : {q : CtrlQueue} → IsValid q → IsValid (pop q).2
unfolding pop
pop-IsValid v = ground arith

pub init-contents :
    (q : CtrlQueue) → length q.ring ≡ 256 → IsValid (init q) × (contents (init q) ≡ [])
unfolding init contents
init-contents q h = (omega arith, refl)

module _ (q : CtrlQueue) where
  pop_empty : (q.tail == q.head) ≡ true → pop q ≡ (failed, no_frame, q)
  unfolding pop
  pop_empty e = rw e

  pop_done :
      (q.tail == q.head) ≡ false
      → pop q ≡ (ok, get_or q.ring q.tail no_frame, record q { tail = u32 (q.tail + 1) % 256 })
  unfolding pop
  pop_done e = rw e

  shrunk : CtrlQueue
  shrunk = record q { tail = u32 (q.tail + 1) % 256 }

  contents-shrunk :
      IsValid q
      → (q.tail == q.head) ≡ false
      → contents q ≡ entry (get_or q.ring q.tail no_frame) ∷ contents shrunk
  unfolding contents shrunk
  contents-shrunk v e =
      let i : (q.tail + 1) % 256 ≡ u32 (q.tail + 1) % 256 = omega arith in
      let n : count q - 1 ≡ count shrunk = ground (arith, v) in
      window-pos q.ring q.tail (count q) (ground (arith, v))
      ∙ ap₂ (λ t k. entry (get_or q.ring q.tail no_frame) ∷ window q.ring t k) i n

  contents-empty : IsValid q → (q.tail == q.head) ≡ true → contents q ≡ []
  unfolding contents window
  contents-empty v e = let n : count q ≡ 0 = ground (arith, v) in ap (window q.ring q.tail) n

  -- A pop on a well-formed ring does what the bounded queue does: it gives the oldest entry.
  pub pop_refines :
      IsValid q → let (s, f, q') = pop q in (s, entry f, contents q') ≡ fifo_pop (contents q)
  unfolding fifo_pop shrunk
  pop_refines v = elim (Bool-cases (q.tail == q.head)) [
    | inl e ↦ rw (pop_empty e, contents-empty v e)
    | inr e ↦ rw (pop_done e, contents-shrunk v e)
  ]

-- The calls of all threads, in the order in which they hold the mutex, with what each returns.
pub run : CtrlQueue → List Call → List (Status × Entry)
run q [] = []
run q (pushes octets port ∷ calls) =
    let (s, q') = push q octets port in (s, entry no_frame) ∷ run q' calls
run q (pops ∷ calls) = let (s, f, q') = pop q in (s, entry f) ∷ run q' calls

unfoldable pub fifo_run : List Entry → List Call → List (Status × Entry)
fifo_run s [] = []
fifo_run s (pushes octets port ∷ calls) =
    let (r, s') = fifo_push s octets port in (r, entry no_frame) ∷ fifo_run s' calls
fifo_run s (pops ∷ calls) = let (r, e, s') = fifo_pop s in (r, e) ∷ fifo_run s' calls

-- No order in which the threads' pushes and pops take the mutex tells a well-formed ring from the
-- bounded queue that holds its contents: every status, every frame's octets and every port agree.
pub run_refines :
    (calls : List Call) (q : CtrlQueue) → IsValid q → run q calls ≡ fifo_run (contents q) calls
unfolding run fifo_run
run_refines [] q v = refl
run_refines (pushes octets port ∷ calls) q v = rw (
  run_refines calls (push q octets port).1 (push-IsValid q octets port v),
  ← push_refines q octets port v,
)
run_refines (pops ∷ calls) q v = rw (run_refines calls (pop q).2 (pop-IsValid v), ← pop_refines q v)
