-- ===== src/Lmi.antt =====
-- The local management interface: the state of src/pvc/pvc_lmi_common.c, as include/vfr/pvc.h
-- declares it, and the operations on it that send nothing.
pub mod Elements
pub mod Poll
pub mod Handle
pub mod Status
pub mod Speaks
pub mod Exchange
pub mod Continue
pub mod Tests
pub mod RoundTrip
pub mod Monitor
pub mod Links
pub mod Recovery
pub mod Sequence
use vfrs.Common.{
  ℕ, ◌+◌, ◌*◌, Bool, true, false, ◌&&◌, Option, none, some, List, [], ◌∷◌, ltb, ◌==◌, if◌then◌else◌,
  u8, u16,
}
use vfrs.Numbering.Register.{same_text}
use vfrs.Lapf.{Timer, timer_set, timer_cancel, Line}

-- `LMI_TYPE_*`
pub data LmiType : Type 0 where
  no_lmi ansi q933a cisco : LmiType

-- `vfr_lmi_state_t`. The fields that hold only 0 and 1 are Booleans. No branch reads or writes
-- `dte_immediate_poll`.
pub record Lmi : Type 0 where
  pub type : LmiType
  pub n392 : ℕ
  pub n393 : ℕ
  pub t392 : ℕ
  pub n391 : ℕ
  pub n392_dte : ℕ
  pub n393_dte : ℕ
  pub t391 : ℕ
  pub dce_errors : ℕ
  pub dce_events : ℕ
  pub dte_errors : ℕ
  pub dte_events : ℕ
  pub dte_seq_send : ℕ
  pub dte_seq_recv : ℕ
  pub dce_seq_send : ℕ
  pub dce_seq_recv : ℕ
  pub dte_dce_seq_recv : ℕ
  pub polls_since_full : ℕ
  pub last_report_type : ℕ
  pub dce_history : ℕ
  pub dce_link_down : Bool
  pub segment_active : Bool
  pub pvc_send_index : ℕ
  pub dce_last_was_full : Bool
  pub dte_status_received : Bool
  pub dte_history : ℕ
  pub dte_link_down : Bool
  pub dte_enabled : Bool
  pub async_enabled : Bool
  pub dte_last_request_was_full : Bool
  pub t392_timer : Timer
  pub t391_timer : Timer

-- Of `vfr_pvc_detail_t`, what LMI reads and writes.
pub record Pvc : Type 0 where
  pub port_in : List ℕ
  pub dlci_in : ℕ
  pub active : Bool
  pub lmi_reported : Bool

-- `vfr_dlci_entry_t`. `detail` is the place in the table of the circuit that `detail_ptr` points to,
-- where the entry is of a permanent circuit.
pub record DlciEntry : Type 0 where
  pub dlci_in : ℕ
  pub active : Bool
  pub detail : Option ℕ

-- The port with its context and its table of DLCIs, and the table `pvc_table`, its buckets one after the other.
-- `trigger_propagate` is the poll's variable of that name, and `propagated` counts the calls of
-- `vfrs_propagate_port_status_change`.
pub record LmiPort : Type 0 where
  pub name : List ℕ
  pub lmi : Lmi
  pub line : Line
  pub entries : List DlciEntry
  pub pvcs : List Pvc
  pub trigger_propagate : Bool
  pub propagated : ℕ

-- `Q933A` and `ANSI` subscribe to asynchronous status.
abbrev pub subscribed : LmiType → Bool
subscribed ansi = true
subscribed q933a = true
subscribed _ = false

unfoldable pub lmi_init_state : ℕ → LmiType → Lmi
lmi_init_state now type = record {
  type = type;
  n392 = 3;
  n393 = 4;
  t392 = 15;
  n391 = 6;
  n392_dte = 3;
  n393_dte = 4;
  t391 = 10;
  dce_errors = 0;
  dce_events = 0;
  dte_errors = 0;
  dte_events = 0;
  dte_seq_send = 0;
  dte_seq_recv = 0;
  dce_seq_send = 0;
  dce_seq_recv = 0;
  dte_dce_seq_recv = 0;
  polls_since_full = 6;
  last_report_type = 0;
  dce_history = 0xFFFF;
  dce_link_down = true;
  segment_active = false;
  pvc_send_index = 0;
  dce_last_was_full = false;
  dte_status_received = false;
  dte_history = 0xFFFF;
  dte_link_down = true;
  dte_enabled = false;
  async_enabled = subscribed type;
  dte_last_request_was_full = false;
  t392_timer = timer_set now (15 * 1000);
  t391_timer = timer_cancel;
}

unfoldable pub lmi_inc_seq : ℕ → ℕ
lmi_inc_seq seq = if u8 (seq + 1) == 0 then 1 else u8 (seq + 1)

unfoldable pub lmi_reset_dce_state : ℕ → Lmi → Lmi
lmi_reset_dce_state now l = record l {
  dce_errors = 0;
  dce_events = 0;
  polls_since_full = 0;
  dce_history = 0xFFFF;
  segment_active = false;
  pvc_send_index = 0;
  dce_last_was_full = false;
  t392_timer = timer_set now (l.t392 * 1000);
}

-- `if (value > 0) field = value;`
abbrev pub or_kept : ℕ → ℕ → ℕ
or_kept value kept = if ltb 0 value then value else kept

unfoldable pub lmi_dte_enable : ℕ → ℕ → ℕ → ℕ → ℕ → Lmi → Lmi
lmi_dte_enable now n391 t391 n392_dte n393_dte l = record l {
  n391 = or_kept n391 l.n391;
  t391 = or_kept t391 l.t391;
  n392_dte = or_kept n392_dte l.n392_dte;
  n393_dte = or_kept n393_dte l.n393_dte;
  dte_enabled = true;
  polls_since_full = or_kept n391 l.n391;
  t391_timer = timer_set now (or_kept t391 l.t391 * 1000);
}

-- `pvc->port_in` is `port->name` and `pvc->dlci_in > 1023`.
unfoldable pub any_long : List ℕ → List Pvc → Bool
any_long name [] = false
any_long name (pvc ∷ pvcs) =
    if same_text pvc.port_in name && ltb 1023 pvc.dlci_in then true else any_long name pvcs

unfoldable pub lmi_port_dlci_len : LmiPort → ℕ
lmi_port_dlci_len p = if p.line.dlcibit == 23 then 4 else if any_long p.name p.pvcs then 4 else 2
