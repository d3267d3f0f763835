-- ===== src/CtrlQueue.antt =====
-- The control-plane queue of src/ports/port_queue.c: a ring of 256 slots behind a mutex. Each call
-- holds the mutex from its first access to its last, so a call is one step of the model.
pub mod Refine
pub mod Tests
use vfrs.Common.{
  ℕ, zero, suc, ◌+◌, ◌%◌, ◌^◌, List, [], ◌∷◌, ltb, ◌==◌, if◌then◌else◌, length, get_or, set, take,
  overwrite, u32,
}

abbrev pub spsc_queue_size : ℕ
spsc_queue_size = 256

-- `vfr_ctrl_frame_t`
pub record CtrlFrame : Type 0 where
  pub octets : List ℕ
  pub len : ℕ
  pub src_port_idx : ℕ

-- `vfr_spsc_queue_t`
pub record CtrlQueue : Type 0 where
  pub ring : List CtrlFrame
  pub head : ℕ
  pub tail : ℕ

-- The return values 0 and -1.
pub data Status : Type 0 where
  ok failed : Status

pub init : CtrlQueue → CtrlQueue
init q = record q { head = 0; tail = 0 }

-- A slot that is read outside the ring; `Refine` shows that none is.
abbrev pub no_frame : CtrlFrame
no_frame = record { octets = []; len = 0; src_port_idx = 0 }

-- `len` is the length of the octets that are passed. The octets of the slot past `len` are those of
-- the frame that it held before.
pub push : CtrlQueue → List ℕ → ℕ → Status × CtrlQueue
push q octets port_idx =
    let len = length octets in
    let slot = get_or q.ring q.head no_frame in
    let filled : CtrlFrame = record {
      octets = overwrite octets slot.octets;
      len = len;
      src_port_idx = port_idx;
    } in
    if ltb 2048 len
    then (failed, q)
    else if u32 (q.head + 1) % spsc_queue_size == q.tail
    then (failed, q)
    else (
      ok,
      record q { ring = set q.ring q.head filled; head = u32 (q.head + 1) % spsc_queue_size },
    )

-- `*out_frame` is written only on success.
pub pop : CtrlQueue → Status × CtrlFrame × CtrlQueue
pop q =
    if q.tail == q.head
    then (failed, no_frame, q)
    else (ok, get_or q.ring q.tail no_frame, record q { tail = u32 (q.tail + 1) % spsc_queue_size })

-- The calls of the threads, in the order in which they get the mutex, with what each returns.
pub data Call : Type 0 where
  pushes : List ℕ → ℕ → Call
  pops : Call
