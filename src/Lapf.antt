-- ===== src/Lapf.antt =====
-- The LAPF data link of src/ports/lapf/port_lapf.c and port_lapf.h: its state, and the helpers that
-- the handlers share. Of the port it has what LAPF reads and writes.
pub mod Frames
pub mod Xid
pub mod Unnumbered
pub mod Numbered
pub mod Handle
pub mod Window
pub mod Delivery
pub mod Resend
pub mod Backlog
pub mod Recovery
pub mod Silence
pub mod Sizes
pub mod States
pub mod Encoding
pub mod Negotiation
pub mod Calls
pub mod Table
pub mod Tests
use vfrs.Common.{
  ℕ, ◌+◌, ◌-◌, ◌*◌, ◌/◌, ◌%◌, ◌^◌, Bool, true, false, ◌&&◌, ◌||◌, Option, none, some, List, [], ◌∷◌,
  ◌++◌, ltb, leb, ◌==◌, if◌then◌else◌, length, u8, u16, u32, u64,
}
use vfrs.Congestion.{CgstState}

-- `LAPF_STATE_*`, which the source numbers from 4 to 8.
pub data LinkState : Type 0 where
  tei_assigned awaiting_establishment awaiting_release established timer_recovery : LinkState

-- `LAPF_MDL_ERROR_*`
pub data MdlError : Type 0 where
  error_a error_b error_c error_d error_e error_f error_g : MdlError
  error_h error_i error_j error_k error_l error_n error_o : MdlError

-- `LAPF_CTRL_*`
abbrev pub ctrl_i : ℕ
ctrl_i = 0x00

abbrev pub ctrl_rr : ℕ
ctrl_rr = 0x01

abbrev pub ctrl_rnr : ℕ
ctrl_rnr = 0x05

abbrev pub ctrl_rej : ℕ
ctrl_rej = 0x09

abbrev pub ctrl_sabme : ℕ
ctrl_sabme = 0x6F

abbrev pub ctrl_dm : ℕ
ctrl_dm = 0x0F

abbrev pub ctrl_ui : ℕ
ctrl_ui = 0x03

abbrev pub ctrl_disc : ℕ
ctrl_disc = 0x43

abbrev pub ctrl_ua : ℕ
ctrl_ua = 0x63

abbrev pub ctrl_frmr : ℕ
ctrl_frmr = 0x87

abbrev pub ctrl_xid : ℕ
ctrl_xid = 0xAF

-- `vfr_timer_t`
pub record Timer : Type 0 where
  pub expire : ℕ
  pub interval : ℕ

-- `timer_set`, at the time `now` of `get_tick_count`
abbrev pub timer_set : ℕ → ℕ → Timer
timer_set now interval_ms = record { expire = u64 (now + interval_ms); interval = interval_ms }

-- `timer_cancel`
abbrev pub timer_cancel : Timer
timer_cancel = record { expire = 0; interval = 0 }

abbrev pub timer_is_expired : ℕ → Timer → Bool
timer_is_expired now t = if t.interval == 0 then false else leb t.expire now

-- The statistics of `vfr_lapf_state_t`.
pub record LapfStats : Type 0 where
  pub sabme_tx : ℕ
  pub sabme_rx : ℕ
  pub ua_tx : ℕ
  pub ua_rx : ℕ
  pub disc_tx : ℕ
  pub disc_rx : ℕ
  pub dm_tx : ℕ
  pub dm_rx : ℕ
  pub frmr_tx : ℕ
  pub frmr_rx : ℕ
  pub rr_tx : ℕ
  pub rr_rx : ℕ
  pub rnr_tx : ℕ
  pub rnr_rx : ℕ
  pub rej_tx : ℕ
  pub rej_rx : ℕ
  pub i_tx : ℕ
  pub i_rx : ℕ
  pub t200_expires : ℕ
  pub t203_expires : ℕ
  pub xid_tx : ℕ
  pub xid_rx : ℕ
  pub ui_tx : ℕ
  pub ui_rx : ℕ

-- `vfr_lapf_state_t`. A slot of `tx_window` or `tx_backlog` is the list of its first `len` octets,
-- since no more of it is read. `on_event` says whether the callback is set.
pub record Lapf : Type 0 where
  pub dlci : ℕ
  pub state : LinkState
  pub k : ℕ
  pub n200 : ℕ
  pub n201 : ℕ
  pub t200 : ℕ
  pub t203 : ℕ
  pub v_s : ℕ
  pub v_r : ℕ
  pub v_a : ℕ
  pub peer_receiver_busy : Bool
  pub own_receiver_busy : Bool
  pub retransmission_count : ℕ
  pub acknowledgement_pending : Bool
  pub rej_exception : Bool
  pub v_k : ℕ
  pub n_w : ℕ
  pub ia_ct : ℕ
  pub on_event : Bool
  pub t200_timer : Timer
  pub t203_timer : Timer
  pub tx_window : List (List ℕ)
  pub tx_backlog : List (List ℕ)
  pub backlog_head : ℕ
  pub backlog_tail : ℕ
  pub stats : LapfStats

-- Of `vfr_port_t`. `driver` is `ops->send`: what it answers to a frame, after the frames that it was
-- given before; none is a negative answer. `sent` holds the frames that it was given, in order.
-- `buffer` is the address of the frame buffer, to which the sum's loop aligns itself.
pub record Line : Type 0 where
  pub dlcibit : ℕ
  pub is_serial : Bool
  pub cgst_ctx : Option CgstState
  pub buffer : ℕ
  pub driver : Option (List (List ℕ) → List ℕ → Option ℕ)
  pub sent : List (List ℕ)
  pub tx_frames : ℕ
  pub tx_bytes : ℕ

-- `lapf_deferred_cb_t`; `cllm` is the call of `cllm_handle_frame`, which is made at once.
pub data Callback : Type 0 where
  l3_data : List ℕ → Callback
  link_established : ℕ → Callback
  link_released : ℕ → Callback
  ui_data : List ℕ → Callback
  cllm : List ℕ → Callback

-- One context with its port, and what a call has done so far: the errors that `lapf_mdl_error` has
-- logged, the deferred calls, and the flag `sent_supervisory`.
pub record Link : Type 0 where
  pub lapf : Lapf
  pub line : Line
  pub errors : List MdlError
  pub deferred : List Callback
  pub sent_supervisory : Bool

-- The return values 0 and -1.
pub data Status : Type 0 where
  ok failed : Status

unfoldable pub seq_in_range : ℕ → ℕ → ℕ → Bool
seq_in_range seq min max =
    if leb min max then leb min seq && leb seq max else leb min seq || leb seq max

unfoldable pub default_k_for_rate : ℕ → ℕ
default_k_for_rate access_rate_bps =
    if access_rate_bps == 0
    then 32
    else if leb access_rate_bps 16000
    then 3
    else if leb access_rate_bps 64000
    then 7
    else if leb access_rate_bps 384000
    then 32
    else 40

unfoldable pub calc_k_x36 : ℕ → ℕ → ℕ → ℕ
calc_k_x36 transit_delay_ms throughput_bps frame_size_octets =
    let size : ℕ = if frame_size_octets == 0 then 1598 else frame_size_octets in
    let rate : ℕ = if throughput_bps == 0 then 64000 else throughput_bps in
    let delay : ℕ = if transit_delay_ms == 0 then 50 else transit_delay_ms in
    let k_val = 2 + delay * rate / (4000 * size) in
    let low : ℕ = if ltb k_val 1 then 1 else k_val in u8 (if ltb 127 low then 127 else low)

-- `outstanding`, the frames that are sent and not acknowledged.
abbrev pub outstanding : ℕ → ℕ → ℕ
outstanding v_s v_a = if leb v_a v_s then v_s - v_a else u8 (128 - v_a + v_s)

abbrev pub mdl_error : MdlError → Link → Link
mdl_error code w = record w { errors = w.errors ++ (code ∷ []) }

-- `LAPF_MAX_DEFERRED`
abbrev pub max_deferred : ℕ
max_deferred = 8

unfoldable pub defer : Callback → List Callback → List Callback
defer cb deferred = if ltb (length deferred) max_deferred then deferred ++ (cb ∷ []) else deferred

-- `timer_set(&lapf->t200_timer, lapf->t200); timer_cancel(&lapf->t203_timer);`
abbrev pub run_t200 : ℕ → Lapf → Lapf
run_t200 now l = record l { t200_timer = timer_set now l.t200; t203_timer = timer_cancel }

-- `timer_cancel(&lapf->t200_timer); timer_set(&lapf->t203_timer, lapf->t203);`
abbrev pub run_t203 : ℕ → Lapf → Lapf
run_t203 now l = record l { t200_timer = timer_cancel; t203_timer = timer_set now l.t203 }

-- `lapf->state == LAPF_STATE_ESTABLISHED || lapf->state == LAPF_STATE_TIMER_RECOVERY`
abbrev pub is_connected : LinkState → Bool
is_connected established = true
is_connected timer_recovery = true
is_connected _ = false
