-- ===== src/Lapf/Table.antt =====
-- The contexts of a port, in a hash table by DLCI, and the service access points:
-- port_get_lapf_ctx of include/vfr/ports.h, and port_dl_init_dlci, port_dl_free_dlci, lapf_free,
-- port_get_or_create_sap, the register functions, lapf_set_event_cb and lapf_poll_timer of
-- src/ports/lapf/port_lapf.c. Memory does not run out.
pub mod Laws
use vfrs.Common.{
  ℕ, zero, suc, ◌+◌, ◌-◌, ◌%◌, Bool, true, false, ◌&&◌, ◌||◌, Option, none, some, List, [], ◌∷◌,
  ◌==◌, ◌++◌, if◌then◌else◌, length, replicate,
}
use vfrs.Frame.Addr.{get_addr_len, decode_addr}
use vfrs.Congestion.{get_access_rate}
use vfrs.Lapf.{
  tei_assigned, Lapf, LapfStats, Line, Link, Callback, MdlError, Status, ok, failed, timer_cancel,
  default_k_for_rate,
}
use vfrs.Lapf.Handle.{handle_in_context}
use vfrs.Lapf.Calls.{establish_link, release_link, send_l3, poll_timer}

abbrev pub hash_size : ℕ
hash_size = 64

-- A bucket: the nodes `vfr_lapf_node_t` in order, each with its DLCI and its context.
abbrev pub Bucket : Type 0
Bucket = List (ℕ × Lapf)

-- `port_dl_sap_t`, by whether each callback is set.
pub record Sap : Type 0 where
  pub dlci : ℕ
  pub ui_cb : Bool
  pub xid_cb : Bool
  pub l3_cb : Bool

-- What LAPF keeps in a port.
pub record LapfPort : Type 0 where
  pub buckets : ℕ → Bucket
  pub lapf_count : ℕ
  pub sap_list : List Sap
  pub line : Line
  pub errors : List MdlError
  pub called : List Callback

unfoldable pub find_node : ℕ → Bucket → Option Lapf
find_node dlci [] = none
find_node dlci ((d, l) ∷ nodes) = if d == dlci then some l else find_node dlci nodes

unfoldable pub get_lapf_ctx : ℕ → LapfPort → Option Lapf
get_lapf_ctx dlci port = find_node dlci (port.buckets (dlci % hash_size))

-- The source writes to a context by the pointer that `port_get_lapf_ctx` gives. Here the node that it
-- points to, the first with the DLCI, gets the new value.
unfoldable pub put_node : ℕ → Lapf → Bucket → Bucket
put_node dlci new [] = []
put_node dlci new ((d, l) ∷ nodes) =
    if d == dlci then (d, new) ∷ nodes else (d, l) ∷ put_node dlci new nodes

unfoldable pub put_bucket : ℕ → Bucket → (ℕ → Bucket) → ℕ → Bucket
put_bucket i b buckets j = if i == j then b else buckets j

unfoldable pub put_lapf_ctx : ℕ → Lapf → LapfPort → LapfPort
unfolding put_node
put_lapf_ctx dlci new port =
    let i = dlci % hash_size in
    record port { buckets = put_bucket i (put_node dlci new (port.buckets i)) port.buckets }

-- The settings of `port_dl_init_dlci`; 0 asks for the default.
pub record Settings : Type 0 where
  pub k : ℕ
  pub n200 : ℕ
  pub n201 : ℕ
  pub t200 : ℕ
  pub t203 : ℕ

abbrev pub or_default : ℕ → ℕ → ℕ
or_default value default = if value == 0 then default else value

-- What is set in a new context and in one that is initialised again; the rest stays as it is.
unfoldable pub configured : ℕ → Settings → LapfPort → Lapf → Lapf
configured dlci s port l =
    let k = or_default s.k (default_k_for_rate (get_access_rate port.line.cgst_ctx)) in
    record l {
      dlci = dlci;
      state = tei_assigned;
      k = k;
      v_k = k;
      n_w = 5;
      ia_ct = 0;
      n200 = or_default s.n200 3;
      n201 = or_default s.n201 1598;
      t200 = or_default s.t200 1500;
      t203 = or_default s.t203 30000;
    }

abbrev no_stats : LapfStats
no_stats = record {
  sabme_tx = 0;
  sabme_rx = 0;
  ua_tx = 0;
  ua_rx = 0;
  disc_tx = 0;
  disc_rx = 0;
  dm_tx = 0;
  dm_rx = 0;
  frmr_tx = 0;
  frmr_rx = 0;
  rr_tx = 0;
  rr_rx = 0;
  rnr_tx = 0;
  rnr_rx = 0;
  rej_tx = 0;
  rej_rx = 0;
  i_tx = 0;
  i_rx = 0;
  t200_expires = 0;
  t203_expires = 0;
  xid_tx = 0;
  xid_rx = 0;
  ui_tx = 0;
  ui_rx = 0;
}

-- The memory of `calloc`.
abbrev pub cleared : Lapf
cleared = record {
  dlci = 0;
  state = tei_assigned;
  k = 0;
  n200 = 0;
  n201 = 0;
  t200 = 0;
  t203 = 0;
  v_s = 0;
  v_r = 0;
  v_a = 0;
  peer_receiver_busy = false;
  own_receiver_busy = false;
  retransmission_count = 0;
  acknowledgement_pending = false;
  rej_exception = false;
  v_k = 0;
  n_w = 0;
  ia_ct = 0;
  on_event = false;
  t200_timer = timer_cancel;
  t203_timer = timer_cancel;
  tx_window = replicate 128 [];
  tx_backlog = replicate 64 [];
  backlog_head = 0;
  backlog_tail = 0;
  stats = no_stats;
}

unfoldable pub init_dlci : ℕ → Settings → LapfPort → LapfPort
unfolding put_bucket
init_dlci dlci s port =
    let i = dlci % hash_size in
    elim (get_lapf_ctx dlci port) [
      | some l ↦ put_lapf_ctx dlci (configured dlci s port l) port
      | none ↦ record port {
        buckets =
            put_bucket i ((dlci, configured dlci s port cleared) ∷ port.buckets i) port.buckets;
        lapf_count = port.lapf_count + 1;
      }
    ]

unfoldable pub drop_node : ℕ → Bucket → Bucket
drop_node dlci [] = []
drop_node dlci ((d, l) ∷ nodes) = if d == dlci then nodes else (d, l) ∷ drop_node dlci nodes

unfoldable pub free_dlci : ℕ → LapfPort → LapfPort
unfolding drop_node put_bucket
free_dlci dlci port =
    let i = dlci % hash_size in
    elim (get_lapf_ctx dlci port) [
      | some _ ↦ record port {
        buckets = put_bucket i (drop_node dlci (port.buckets i)) port.buckets;
        lapf_count = port.lapf_count - 1;
      }
      | none ↦ port
    ]

-- `lapf_free`
unfoldable pub lapf_free : LapfPort → LapfPort
lapf_free port = record port { buckets = λ _. []; lapf_count = 0; sap_list = [] }

-- `port_get_or_create_sap` and a write: the first node of the DLCI, or a new one at the head.
unfoldable pub has_sap : ℕ → List Sap → Bool
has_sap dlci [] = false
has_sap dlci (s ∷ saps) = s.dlci == dlci || has_sap dlci saps

unfoldable pub on_sap : ℕ → (Sap → Sap) → List Sap → List Sap
on_sap dlci f [] = []
on_sap dlci f (s ∷ saps) = if s.dlci == dlci then f s ∷ saps else s ∷ on_sap dlci f saps

unfoldable pub register : ℕ → (Sap → Sap) → LapfPort → LapfPort
unfolding has_sap on_sap
register dlci f port =
    let new : Sap = record { dlci = dlci; ui_cb = false; xid_cb = false; l3_cb = false } in
    record port {
      sap_list =
          if has_sap dlci port.sap_list then on_sap dlci f port.sap_list else f new ∷ port.sap_list;
    }

unfoldable pub register_ui_handler : ℕ → Bool → LapfPort → LapfPort
register_ui_handler dlci cb = register dlci (λ s. record s { ui_cb = cb })

unfoldable pub register_xid_handler : ℕ → Bool → LapfPort → LapfPort
register_xid_handler dlci cb = register dlci (λ s. record s { xid_cb = cb })

unfoldable pub register_l3_handler : ℕ → Bool → LapfPort → LapfPort
register_l3_handler dlci cb = register dlci (λ s. record s { l3_cb = cb })

-- `sap->dlci == lapf->dlci && sap->ui_cb`, for some node
unfoldable pub has_ui_handler : ℕ → List Sap → Bool
has_ui_handler dlci [] = false
has_ui_handler dlci (s ∷ saps) = s.dlci == dlci && s.ui_cb || has_ui_handler dlci saps

-- A call on one context: what it leaves is put back into the port.
unfoldable pub link_of : Lapf → LapfPort → Link
link_of l port = record {
  lapf = l;
  line = port.line;
  errors = port.errors;
  deferred = [];
  sent_supervisory = false;
}

unfoldable pub absorb : ℕ → Link → LapfPort → LapfPort
absorb dlci w port = record (put_lapf_ctx dlci w.lapf port) { line = w.line; errors = w.errors }

unfoldable pub in_context : ℕ → (Link → Status × Link) → LapfPort → Status × LapfPort
unfolding link_of absorb
in_context dlci f port = elim (get_lapf_ctx dlci port) [
  | none ↦ (failed, port)
  | some l ↦ let (s, w) = f (link_of l port) in (s, absorb dlci w port)
]

unfoldable pub port_establish_link : ℕ → ℕ → LapfPort → Status × LapfPort
port_establish_link now dlci = in_context dlci (λ w. (ok, establish_link now w))

unfoldable pub port_release_link : ℕ → ℕ → LapfPort → Status × LapfPort
port_release_link now dlci = in_context dlci (λ w. (ok, release_link now w))

unfoldable pub port_send_l3 : ℕ → ℕ → List ℕ → LapfPort → Status × LapfPort
port_send_l3 now dlci octets = in_context dlci (send_l3 now octets)

unfoldable pub set_event_cb : ℕ → Bool → LapfPort → Status × LapfPort
set_event_cb dlci cb =
    in_context dlci (λ w. (ok, record w { lapf = record w.lapf { on_event = cb } }))

-- `lapf_flush_deferred`: events go to the callback if the context had one as the frame came.
abbrev wanted : Bool → Callback → Bool
wanted on_event (Callback.link_established dlci) = on_event
wanted on_event (Callback.link_released dlci) = on_event
wanted on_event _ = true

unfoldable pub flush : Bool → List Callback → List Callback
flush on_event [] = []
flush on_event (cb ∷ cbs) =
    if wanted on_event cb then cb ∷ flush on_event cbs else flush on_event cbs

-- `lapf_handle_frame`, with the context of the frame's DLCI.
unfoldable pub handle_frame : ℕ → List ℕ → LapfPort → Status × LapfPort
unfolding link_of absorb has_ui_handler flush
handle_frame now octets port =
    let dlci = (decode_addr octets).dlci in
    if length octets == 0 || get_addr_len octets (length octets) == 0
    then (failed, port)
    else elim (get_lapf_ctx dlci port) [
      | none ↦ (failed, port)
      | some l ↦
          let (s, w) =
            handle_in_context now octets (has_ui_handler l.dlci port.sap_list) (link_of l port) in
          let done = absorb dlci w port in
          (s, record done { called = done.called ++ flush l.on_event w.deferred })
    ]

-- `lapf_poll_timer`: the buckets in order, and the nodes of each. The driver's frames and the errors
-- pass from one context to the next.
unfoldable pub poll_nodes : ℕ → Bucket → LapfPort → Bucket × LapfPort
unfolding link_of
poll_nodes now [] port = ([], port)
poll_nodes now ((d, l) ∷ nodes) port =
    let w = poll_timer now (link_of l port) in
    let (nodes', port') = poll_nodes now nodes (record port { line = w.line; errors = w.errors }) in
    ((d, w.lapf) ∷ nodes', port')

unfoldable pub poll_buckets : ℕ → ℕ → LapfPort → LapfPort
unfolding poll_nodes put_bucket
poll_buckets now zero port = port
poll_buckets now (suc n) port =
    let i = hash_size - suc n in
    let (nodes, port') = poll_nodes now (port.buckets i) port in
    poll_buckets now n (record port' { buckets = put_bucket i nodes port'.buckets })

unfoldable pub lapf_poll_timer : ℕ → LapfPort → LapfPort
lapf_poll_timer now port = poll_buckets now hash_size port
