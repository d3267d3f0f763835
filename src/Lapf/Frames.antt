-- ===== src/Lapf/Frames.antt =====
-- How LAPF sends: port_dl_build_frame, lapf_send_control, lapf_send_frmr, lapf_send_i_frame,
-- lapf_process_backlog and the unnumbered transfers of src/ports/lapf/port_lapf.c.
use vfrs.Common.{
  ℕ, zero, suc, ◌+◌, ◌%◌, Bool, true, false, ◌||◌, Option, none, some, List, [], ◌∷◌, ◌++◌, bit_and,
  bit_or, ltb, leb, ◌==◌, if◌then◌else◌, length, get_or, set, u8, u64, ◌<<<◌, ◌>>>◌,
}
use vfrs.Frame.Addr.{encode_dlci_with_flags}
use vfrs.Frame.Crc.{crc16_fcs}
use vfrs.Congestion.{CgstState}
use vfrs.Lapf.{
  ctrl_rr, ctrl_rnr, ctrl_rej, ctrl_sabme, ctrl_disc, ctrl_ua, ctrl_dm, ctrl_frmr, ctrl_ui,
  ctrl_xid, LapfStats, Lapf, Line, Link, Status, ok, failed, outstanding, run_t200,
}

-- `lapf_get_tx_cr`: a command has 0, a response 1.
abbrev pub tx_cr : Bool → ℕ
tx_cr is_response = if is_response then 1 else 0

-- `pf ? 1 : 0`
abbrev pub final : Bool → ℕ
final pf = if pf then 1 else 0

-- `cgst_should_set_de`
abbrev pub should_set_de : Option CgstState → Bool
should_set_de none = false
should_set_de (some cgst) = cgst.congested

unfoldable pub address_len : ℕ → ℕ → ℕ
address_len dlcibit dlci =
    if dlcibit == 23 || ltb 63487 dlci then 4 else if dlcibit == 16 || ltb 1023 dlci then 3 else 2

-- The frame before its check sequence.
unfoldable pub plain_frame : Line → ℕ → ℕ → List ℕ → ℕ → ℕ → ℕ → ℕ → List ℕ
unfolding address_len
plain_frame line dlci ctrl_byte payload cr fecn becn de =
    let marked = should_set_de line.cgst_ctx in
    encode_dlci_with_flags dlci (if marked then 1 else fecn) (if marked then 1 else becn) de cr
      (address_len line.dlcibit dlci)
    ++ (ctrl_byte ∷ payload)

-- `none` is -1: the buffer is too small.
unfoldable pub build_frame : Line → ℕ → ℕ → List ℕ → ℕ → ℕ → ℕ → ℕ → ℕ → Option (List ℕ)
unfolding plain_frame address_len
build_frame line dlci ctrl_byte payload cr fecn becn de max_len =
    let frame = plain_frame line dlci ctrl_byte payload cr fecn becn de in
    let fcs = crc16_fcs line.buffer frame in
    if ltb max_len (address_len line.dlcibit dlci + 1 + length payload + 2)
    then none
    else if line.is_serial
    then some (frame ++ (bit_and fcs 0xFF ∷ bit_and (fcs >>> 8) 0xFF ∷ []))
    else some frame

-- `port->ops->send` with the port's statistics. The status is that of the unnumbered transfers.
unfoldable pub send : List ℕ → Line → Status × Line
send frame line = elim line.driver [
  | none ↦ (failed, line)
  | some answer ↦
      let given = record line { sent = line.sent ++ (frame ∷ []) } in
      elim (answer line.sent frame) [
        | none ↦ (failed, given)
        | some n ↦ (
          ok,
          record given { tx_frames = u64 (line.tx_frames + 1); tx_bytes = u64 (line.tx_bytes + n) },
        )
      ]
]

-- `if (ret == 0 && port->ops && port->ops->send) ...`
unfoldable pub send_built : Option (List ℕ) → Line → Status × Line
unfolding send
send_built none line = (failed, line)
send_built (some frame) line = send frame line

-- The first two octets after the address that `lapf_send_control` writes.
unfoldable pub control_octet : ℕ → Bool → ℕ
control_octet ctrl_type pf = bit_or ctrl_type (if pf then 0x10 else 0)

unfoldable pub second_control : ℕ → Bool → ℕ
second_control nr pf = u8 (bit_or (nr <<< 1) (final pf))

abbrev pub is_supervisory : ℕ → Bool
is_supervisory ctrl_type = ctrl_type == ctrl_rr || (ctrl_type == ctrl_rnr || ctrl_type == ctrl_rej)

unfoldable pub count_tx : ℕ → LapfStats → LapfStats
count_tx ctrl_type s =
    if ctrl_type == ctrl_rr
    then record s { rr_tx = u64 (s.rr_tx + 1) }
    else if ctrl_type == ctrl_rnr
    then record s { rnr_tx = u64 (s.rnr_tx + 1) }
    else if ctrl_type == ctrl_rej
    then record s { rej_tx = u64 (s.rej_tx + 1) }
    else if ctrl_type == ctrl_sabme
    then record s { sabme_tx = u64 (s.sabme_tx + 1) }
    else if ctrl_type == ctrl_disc
    then record s { disc_tx = u64 (s.disc_tx + 1) }
    else if ctrl_type == ctrl_ua
    then record s { ua_tx = u64 (s.ua_tx + 1) }
    else if ctrl_type == ctrl_dm
    then record s { dm_tx = u64 (s.dm_tx + 1) }
    else if ctrl_type == ctrl_frmr
    then record s { frmr_tx = u64 (s.frmr_tx + 1) }
    else if ctrl_type == ctrl_ui
    then record s { ui_tx = u64 (s.ui_tx + 1) }
    else s

-- The frame of a supervisory or unnumbered type.
unfoldable pub control_frame : Line → ℕ → ℕ → ℕ → Bool → Bool → Option (List ℕ)
unfolding control_octet second_control
control_frame line dlci ctrl_type nr pf is_response =
    if is_supervisory ctrl_type
    then build_frame line dlci ctrl_type (second_control nr pf ∷ []) (tx_cr is_response) 0 0 0 128
    else build_frame line dlci (control_octet ctrl_type pf) [] (tx_cr is_response) 0 0 0 128

unfoldable pub send_control : ℕ → ℕ → Bool → Bool → Link → Link
send_control ctrl_type nr pf is_response w = record w {
  lapf = record w.lapf { stats = count_tx ctrl_type w.lapf.stats };
  line = (send_built (control_frame w.line w.lapf.dlci ctrl_type nr pf is_response) w.line).1;
}

-- The five octets of an FRMR.
unfoldable pub frmr_payload : Lapf → ℕ → ℕ → Bool → ℕ → List ℕ
frmr_payload l rej_ctrl1 rej_ctrl2 rej_was_response error_bits =
    rej_ctrl1
    ∷ rej_ctrl2
    ∷ u8 (l.v_s <<< 1)
    ∷ u8 (bit_or (l.v_r <<< 1) (final rej_was_response))
    ∷ bit_and error_bits 0x0F
    ∷ []

-- A counter goes on where the frame was built.
unfoldable pub count_built : Option (List ℕ) → ℕ → ℕ
count_built none n = n
count_built (some frame) n = u64 (n + 1)

unfoldable pub send_frmr : ℕ → ℕ → Bool → ℕ → Link → Link
send_frmr rej_ctrl1 rej_ctrl2 rej_was_response error_bits w =
    let payload = frmr_payload w.lapf rej_ctrl1 rej_ctrl2 rej_was_response error_bits in
    let built = build_frame w.line w.lapf.dlci ctrl_frmr payload (tx_cr true) 0 0 0 128 in
    let stats = w.lapf.stats in
    record w {
      lapf = record w.lapf { stats = record stats { frmr_tx = count_built built stats.frmr_tx } };
      line = (send_built built w.line).1;
    }

-- `FR_MAX_FRAMESZ + 32`
abbrev pub frame_room : ℕ
frame_room = 1632

-- `i_payload` has 1600 octets, the first of them for the second control octet. The source copies the
-- data behind it without a test; more than 1599 octets overrun it, and have no meaning in the source.
-- Here no frame is built of them.
unfoldable pub i_frame : Line → ℕ → ℕ → ℕ → Bool → Bool → List ℕ → Option (List ℕ)
i_frame line dlci ns nr pf is_response octets =
    if ltb 1599 (length octets)
    then none
    else build_frame line dlci (u8 (ns <<< 1)) (second_control nr pf ∷ octets) (tx_cr is_response) 0
        0 0 frame_room

unfoldable pub send_i_frame : ℕ → ℕ → Bool → Bool → List ℕ → Link → Link
send_i_frame ns nr pf is_response octets w =
    let built = i_frame w.line w.lapf.dlci ns nr pf is_response octets in
    let stats = w.lapf.stats in
    record w {
      lapf = record w.lapf { stats = record stats { i_tx = count_built built stats.i_tx } };
      line = (send_built built w.line).1;
    }

-- A frame is stored in the window, sent with the next number, and T200 is started.
unfoldable pub transmit : ℕ → List ℕ → Link → Link
transmit now octets w =
    let ns = w.lapf.v_s in
    let stored = record w { lapf = record w.lapf { tx_window = set w.lapf.tx_window ns octets } } in
    let done = send_i_frame ns w.lapf.v_r false false octets stored in
    record done { lapf = run_t200 now (record done.lapf { v_s = (ns + 1) % 128 }) }

-- One round of the loop of `lapf_process_backlog`.
unfoldable pub dequeue : ℕ → Link → Link
dequeue now w =
    let head = w.lapf.backlog_head in
    let done = transmit now (get_or w.lapf.tx_backlog head []) w in
    record done { lapf = record done.lapf { backlog_head = (head + 1) % 64 } }

-- The loop: `head != tail`, and the window is not full.
unfoldable pub drain : ℕ → ℕ → Link → Link
drain zero now w = w
drain (suc fuel) now w = elim (w.lapf.backlog_head == w.lapf.backlog_tail) [
  | true ↦ w
  | false ↦ elim (leb w.lapf.v_k (outstanding w.lapf.v_s w.lapf.v_a)) [
    | true ↦ w
    | false ↦ drain fuel now (dequeue now w)
  ]
]

-- The backlog has 64 slots, so that 64 rounds are enough.
unfoldable pub process_backlog : ℕ → Link → Link
process_backlog now w = if w.lapf.peer_receiver_busy then w else drain 64 now w

-- `port_dl_send_unit_data`
unfoldable pub send_unit_data : ℕ → List ℕ → ℕ → ℕ → ℕ → ℕ → Line → Status × Line
send_unit_data dlci payload cr fecn becn de line =
    if length payload == 0
    then (failed, line)
    else send_built (build_frame line dlci ctrl_ui payload cr fecn becn de frame_room) line

-- `port_dl_send_xid`
unfoldable pub send_xid : ℕ → List ℕ → Bool → Line → Status × Line
send_xid dlci xid_info is_response line =
    send_built (build_frame line dlci ctrl_xid xid_info (tx_cr is_response) 0 0 0 frame_room) line
