-- ===== src/Fragment.antt =====
-- Fragmentation and reassembly of src/switching/fr_fragment.c (FRF.12), and include/vfr/fragment.h.
-- A frame is the list of its octets, its length the `len` argument beside it in the source.
pub mod Header
pub mod Step
pub mod RoundTrip
pub mod Bounds
pub mod Tests
use vfrs.Common.{
  ℕ, zero, suc, ◌+◌, ◌-◌, ◌^◌, Bool, true, false, not, ◌&&◌, ◌||◌, Option, none, some, List, [],
  ◌∷◌, ◌++◌, bit_and, bit_or, ltb, leb, ◌==◌, if◌then◌else◌, length, take, drop, replicate, ◌>>>◌,
  ◌<<<◌, u8, u32, u64,
}
use vfrs.Frame.Addr.{octet, get_addr_len}
pub use vfrs.Frame.Wire.{fr_max_framesz}

abbrev pub frf12_hdr_len : ℕ
frf12_hdr_len = 2

abbrev pub frf12_reasm_timeout_ms : ℕ
frf12_reasm_timeout_ms = 1000

-- `fr_reasm_ctx_t`
pub record ReasmCtx : Type 0 where
  pub buf : List ℕ
  pub len : ℕ
  pub expected_seq : ℕ
  pub in_progress : Bool
  pub last_frag_ms : ℕ
  pub frag_count : ℕ

pub reasm_init : ReasmCtx
reasm_init = record {
  buf = replicate (fr_max_framesz + 128) 0;
  len = 0;
  expected_seq = 0;
  in_progress = false;
  last_frag_ms = 0;
  frag_count = 0;
}

-- `(*seq_counter + 1) & 0x0FFF`
abbrev pub next_seq : ℕ → ℕ
next_seq seq = bit_and (seq + 1) 0x0FFF

-- A fragment: the address, the two octets of the header, and the octets of the payload.
pub write_fragment : List ℕ → Bool → Bool → ℕ → List ℕ → List ℕ
write_fragment address is_first is_last seq payload =
    let first : ℕ = if is_first then 0x80 else 0 in
    let flags : ℕ = if is_last then bit_or first 0x40 else first in
    address ++ u8 (bit_or flags (bit_and (seq >>> 8) 0x0F)) ∷ u8 (bit_and seq 0xFF) ∷ payload

-- The loop at `offset`; `room` is `max_frags - frag_idx`. It gives the fragments that are written
-- from there on and the sequence counter after them.
pub fragment_from : List ℕ → ℕ → ℕ → ℕ → ℕ → ℕ → List (List ℕ) × ℕ
fragment_from in_frame addr_len fragment_size zero offset seq_counter = ([], seq_counter)
fragment_from in_frame addr_len fragment_size (suc room) offset seq_counter =
    let payload_len = length in_frame - addr_len in
    let left = payload_len - offset in
    let chunk : ℕ = if ltb fragment_size left then fragment_size else left in
    let (frags, seq_counter') =
      fragment_from in_frame addr_len fragment_size room (offset + chunk) (next_seq seq_counter) in
    if ltb offset payload_len
    then (
      write_fragment (take addr_len in_frame) (offset == 0) (leb payload_len (offset + chunk))
            (bit_and seq_counter 0x0FFF) (take chunk (drop (addr_len + offset) in_frame))
          ∷ frags,
      seq_counter',
    )
    else ([], seq_counter)

-- `none` is the source's -1. A negative `max_frags` is refused like 0.
pub fragment_frame : List ℕ → ℕ → ℕ → ℕ → Option (List (List ℕ)) × ℕ
unfolding write_fragment fragment_from
fragment_frame in_frame fragment_size max_frags seq_counter =
    let in_len = length in_frame in
    let addr_len = get_addr_len in_frame in_len in
    let payload_len = in_len - addr_len in
    if ltb in_len 2 || leb max_frags 0
    then (none, seq_counter)
    else if ltb addr_len 2 || ltb in_len addr_len
    then (none, seq_counter)
    else if payload_len == 0
    then (some (in_frame ∷ []), seq_counter)
    else if fragment_size == 0
    then (some (in_frame ∷ []), seq_counter)
    else if leb payload_len fragment_size
    then (
      some (
          write_fragment (take addr_len in_frame) true true (bit_and seq_counter 0x0FFF)
            (drop addr_len in_frame)
          ∷ []),
      next_seq seq_counter,
    )
    else let (frags, seq_counter') =
        fragment_from in_frame addr_len fragment_size max_frags 0 seq_counter in
      (some frags, seq_counter')

-- What a call of `frf12_reassemble_frame` answers: its value (0 or -1), `*is_complete`, and the
-- `*out_len` octets of `out_frame`.
pub record Outcome : Type 0 where
  pub accepted : Bool
  pub is_complete : Bool
  pub out_frame : List ℕ

abbrev pub delivered : List ℕ → Outcome
delivered frame = record { accepted = true; is_complete = true; out_frame = frame }

abbrev pub pending : Outcome
pending = record { accepted = true; is_complete = false; out_frame = [] }

abbrev pub dropped : Outcome
dropped = record { accepted = false; is_complete = false; out_frame = [] }

abbrev pub stop : ReasmCtx → ReasmCtx
stop ctx = record ctx { in_progress = false; len = 0 }

-- `memcpy(buf + at, xs, …)`
abbrev pub write_at : ℕ → List ℕ → List ℕ → List ℕ
write_at at xs buf = take at buf ++ xs ++ drop (at + length xs) buf

-- The check of the reassembly timeout. The difference of the clock's readings is of 64 bits.
pub expire : ReasmCtx → ℕ → ReasmCtx
expire ctx now_ms =
    if ctx.in_progress && ltb frf12_reasm_timeout_ms (u64 (now_ms + 2 ^ 64 - ctx.last_frag_ms))
    then stop ctx
    else ctx

-- The header's fields, and the payload after it.
abbrev pub flag_b : List ℕ → ℕ → Bool
flag_b frame addr_len = not (bit_and (octet frame addr_len) 0x80 == 0)

abbrev pub flag_e : List ℕ → ℕ → Bool
flag_e frame addr_len = not (bit_and (octet frame addr_len) 0x40 == 0)

abbrev pub seq_of : List ℕ → ℕ → ℕ
seq_of frame addr_len =
    bit_or (bit_and (octet frame addr_len) 0x0F <<< 8) (octet frame (addr_len + 1))

-- The call after the timeout's check: a first fragment, and a middle or last one.
pub start_frame : ReasmCtx → List ℕ → List ℕ → ℕ → ℕ → Outcome × ReasmCtx
start_frame ctx address payload seq now_ms = (
  pending,
  record {
    buf = write_at (length address) payload (write_at 0 address ctx.buf);
    len = length address + length payload;
    expected_seq = next_seq seq;
    in_progress = true;
    last_frag_ms = now_ms;
    frag_count = 1;
  },
)

pub continue_frame : ReasmCtx → List ℕ → Bool → ℕ → ℕ → Outcome × ReasmCtx
continue_frame ctx payload is_last seq now_ms =
    if not ctx.in_progress
    then (dropped, ctx)
    else if not (seq == ctx.expected_seq)
    then (dropped, stop ctx)
    else if ltb fr_max_framesz (ctx.len + length payload)
    then (dropped, stop ctx)
    else let grown : ReasmCtx = record ctx {
      buf = write_at ctx.len payload ctx.buf;
      len = ctx.len + length payload;
      expected_seq = next_seq seq;
      last_frag_ms = now_ms;
      frag_count = u32 (ctx.frag_count + 1);
    } in
      if is_last then (delivered (take grown.len grown.buf), stop grown) else (pending, grown)

pub reassemble_frame : ReasmCtx → List ℕ → ℕ → Outcome × ReasmCtx
unfolding expire start_frame continue_frame
reassemble_frame ctx frag_frame now_ms =
    let frag_len = length frag_frame in
    let addr_len = get_addr_len frag_frame frag_len in
    let payload = drop (addr_len + frf12_hdr_len) frag_frame in
    let seq = seq_of frag_frame addr_len in
    let ctx' = expire ctx now_ms in
    if ltb addr_len 2 || ltb frag_len (addr_len + frf12_hdr_len)
    then (delivered frag_frame, ctx)
    else if flag_b frag_frame addr_len && flag_e frag_frame addr_len
    then (delivered (take addr_len frag_frame ++ payload), stop ctx')
    else if flag_b frag_frame addr_len && not (flag_e frag_frame addr_len)
    then start_frame ctx' (take addr_len frag_frame) payload seq now_ms
    else continue_frame ctx' payload (flag_e frag_frame addr_len) seq now_ms
