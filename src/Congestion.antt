-- ===== src/Congestion.antt =====
-- Congestion management of src/congestion/cgst_mgnt.c: the policing of a port's frames by token
-- buckets, and the port's congestion state. `none` for the state of a port is the source's NULL;
-- memory for the state is there (`calloc` does not fail). The clock's readings are arguments.
pub mod Police
pub mod Bound
pub mod Writes
pub mod Tests
use vfrs.Common.{
  ℕ, ◌+◌, ◌-◌, ◌*◌, ◌/◌, ◌^◌, Bool, true, false, not, ◌&&◌, ◌||◌, Option, none, some, ltb, leb,
  ◌==◌, if◌then◌else◌, u32, u64,
}

-- `token_bucket_t` of include/vfr/types.h
pub record TokenBucket : Type 0 where
  pub tokens : ℕ
  pub last_update : ℕ
  pub cir : ℕ
  pub bc : ℕ
  pub be : ℕ

-- `cgst_state_t`, without the CLLM timer and its settings.
pub record CgstState : Type 0 where
  pub access_rate : ℕ
  pub rate_threshold : ℕ
  pub clear_threshold : ℕ
  pub congested : Bool
  pub last_rate_check : ℕ
  pub frames_since_check : ℕ
  pub tb : TokenBucket
  pub congested_start_time : ℕ
  pub write_failure_threshold : ℕ
  pub write_failure_count : ℕ

-- What `cgst_process_frame_tb` reads and writes of a port: whether its type is NNI, and its state.
pub record Port : Type 0 where
  pub is_nni : Bool
  pub cgst_ctx : Option CgstState

pub cgst_init : Option CgstState → ℕ → ℕ → ℕ → CgstState
cgst_init old access_rate rate_threshold now = record {
  access_rate = access_rate;
  rate_threshold = rate_threshold;
  clear_threshold = rate_threshold / 2;
  congested = false;
  last_rate_check = now;
  frames_since_check = 0;
  tb = record {
    tokens = u32 (access_rate + access_rate / 2);
    last_update = now;
    cir = access_rate;
    bc = access_rate;
    be = access_rate / 2;
  };
  congested_start_time = elim old [ none ↦ 0 | some s ↦ s.congested_start_time ];
  write_failure_threshold = 0;
  write_failure_count = 0;
}

pub get_access_rate : Option CgstState → ℕ
get_access_rate none = 0
get_access_rate (some cgst) = cgst.access_rate

-- The bucket of a DLCI entry; the first argument is the state of its port.
pub dlci_tb_init : Option CgstState → ℕ → ℕ → ℕ → ℕ → TokenBucket
unfolding get_access_rate
dlci_tb_init cgst cir bc be now =
    if ltb 0 cir
    then record { tokens = u32 (bc + be); last_update = now; cir = cir; bc = bc; be = be }
    else record { tokens = be; last_update = now; cir = get_access_rate cgst; bc = 0; be = be }

-- The tokens for the time since the last update, of at most 10 seconds.
abbrev pub tokens_added : TokenBucket → ℕ → ℕ
tokens_added tb now =
    let elapsed = u64 (now + 2 ^ 64 - tb.last_update) in
    (if ltb 10000 elapsed then 10000 else elapsed) * tb.cir / 1000

pub tb_update : TokenBucket → ℕ → TokenBucket
tb_update tb now =
    let filled = u64 (tb.tokens + tokens_added tb now) in
    let max_tokens = tb.bc + tb.be in
    if tb.cir == 0 then tb else record tb {
      tokens = (if ltb max_tokens filled then max_tokens else filled);
      last_update = now;
    }

-- 0, 1 and 2 of the source
pub data Action : Type 0 where
  forward set_de discard : Action

abbrev pub drained : TokenBucket → ℕ → TokenBucket
drained tb frame_bits = record tb { tokens = tb.tokens - frame_bits }

-- The tests for a frame with DE set, and for one without, on an updated bucket.
pub police_de : Bool → TokenBucket → ℕ → Action × TokenBucket
police_de congested tb frame_bits =
    if congested
    then (Action.discard, tb)
    else if leb frame_bits tb.tokens
    then (Action.set_de, drained tb frame_bits)
    else (Action.discard, tb)

pub police_plain : Bool → TokenBucket → ℕ → Action × TokenBucket
police_plain congested tb frame_bits =
    let left = drained tb frame_bits in
    if leb frame_bits tb.tokens
    then if ltb 0 tb.bc && leb tb.be left.tokens
      then (Action.forward, left)
      else if congested
      then (Action.discard, left)
      else (Action.set_de, left)
    else (Action.discard, tb)

-- On an NNI, what came with DE set keeps it.
abbrev pub nni_compliance : Bool → Bool → Action → Action
nni_compliance is_nni de Action.forward = if is_nni && de then Action.set_de else Action.forward
nni_compliance is_nni de Action.set_de = Action.set_de
nni_compliance is_nni de Action.discard = Action.discard

-- The part of `cgst_process_frame_tb` from the test of the bucket on. `de` is false without an
-- address.
pub police : Bool → Bool → TokenBucket → ℕ → ℕ → Bool → Action × TokenBucket
unfolding tb_update police_de police_plain
police congested is_nni tb now frame_bits de =
    let updated = tb_update tb now in
    let (action, tb') =
      if de
      then police_de congested updated frame_bits
      else police_plain congested updated frame_bits in
    if tb.bc == 0 && (tb.be == 0 || tb.cir == 0)
    then ((if congested then Action.discard else Action.set_de), tb)
    else if ltb 0 tb.cir
    then (nni_compliance is_nni de action, tb')
    else (Action.forward, tb)

abbrev pub counted : CgstState → CgstState
counted cgst =
    if ltb 0 cgst.rate_threshold
    then record cgst { frames_since_check = u32 (cgst.frames_since_check + 1) }
    else cgst

-- The bucket that is policed is the entry's, or without an entry the port's own.
pub process_frame : Port → Option TokenBucket → ℕ → ℕ → Bool → Action × Port × Option TokenBucket
unfolding police
process_frame port entry now len de = elim port.cgst_ctx [
  | none ↦ (Action.forward, port, entry)
  | some cgst ↦ elim entry [
    | some tb ↦
        let (action, tb') = police cgst.congested port.is_nni tb now (u32 (u32 len * 8)) de in
        (action, record port { cgst_ctx = some (counted cgst) }, some tb')
    | none ↦
        let (action, tb') = police cgst.congested port.is_nni cgst.tb now (u32 (u32 len * 8)) de in
        (action, record port { cgst_ctx = some (record (counted cgst) { tb = tb' }) }, none)
  ]
]

abbrev same_flag : Bool → Bool → Bool
same_flag true b = b
same_flag false b = not b

pub set_congested : CgstState → Bool → ℕ → CgstState
set_congested cgst congested now =
    if same_flag cgst.congested congested then cgst else record cgst {
      congested = congested;
      congested_start_time = (if congested then now else 0);
    }

-- The check of the frame rate in `cgst_poll_timer`.
pub rate_check : CgstState → ℕ → CgstState
unfolding set_congested
rate_check cgst now =
    let elapsed = u64 (now + 2 ^ 64 - cgst.last_rate_check) in
    let fps = u32 (u32 (cgst.frames_since_check * 1000) / elapsed) in
    let checked =
      if cgst.congested
      then if ltb fps cgst.clear_threshold then set_congested cgst false now else cgst
      else if ltb cgst.rate_threshold fps
      then set_congested cgst true now
      else cgst in
    if ltb 0 cgst.rate_threshold && leb 1000 elapsed
    then record checked { frames_since_check = 0; last_rate_check = now }
    else cgst

pub handle_write_failure : CgstState → ℕ → CgstState
unfolding set_congested
handle_write_failure cgst now =
    let counting = record cgst { write_failure_count = u32 (cgst.write_failure_count + 1) } in
    if ltb 0 cgst.write_failure_threshold
    then if leb cgst.write_failure_threshold counting.write_failure_count && not cgst.congested
      then set_congested counting true now
      else counting
    else cgst

pub handle_write_success : CgstState → ℕ → CgstState
unfolding set_congested
handle_write_success cgst now =
    let reset = record cgst { write_failure_count = 0 } in
    if ltb 0 cgst.write_failure_threshold && ltb 0 cgst.write_failure_count
    then if cgst.congested then set_congested reset false now else reset
    else cgst
