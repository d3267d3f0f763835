-- ===== src/Lmi/Poll.antt =====
-- lmi_poll_timer and lmi_send_async_status of src/pvc/pvc_lmi_common.c. One call is one step at one
-- time, made under the port's mutex.
use vfrs.Common.{
  ℕ, suc, zero, ◌+◌, ◌-◌, ◌*◌, ◌^◌, Bool, true, false, not, ◌&&◌, ◌||◌, none, some, List, [], ◌∷◌,
  ◌++◌, bit_and, bit_or, ltb, leb, ◌==◌, if◌then◌else◌, length, map, u8, u16, u64, ◌>>>◌, ◌<<<◌,
}
use vfrs.Frame.Crc.{crc16_fcs}
use vfrs.Numbering.Register.{same_text}
use vfrs.Lapf.{timer_set, timer_is_expired, Status, ok, failed, Line}
use vfrs.Lmi.{LmiType, cisco, LmiPort, Pvc, lmi_inc_seq, lmi_reset_dce_state, lmi_port_dlci_len}
use vfrs.Lmi.Elements.{
  build_enquiry, lmi_build_header, message_octets, report_type_ie, pvc_status_ie,
}

-- `((history << 1) | error) & ((1 << n) - 1)`, in 16 bits. `n` is below 31, the bits of an int.
unfoldable pub shift_in : ℕ → Bool → ℕ → ℕ
shift_in n error history =
    u16 (bit_and (bit_or (history <<< 1) (if error then 1 else 0)) (2 ^ n - 1))

-- How many of the bits 0 to `n` - 1 of the history are 1.
unfoldable pub count_errors : ℕ → ℕ → ℕ
count_errors zero history = 0
count_errors (suc n) history =
    let rest = count_errors n history in if bit_and (history >>> n) 1 == 1 then suc rest else rest

-- `trigger_propagate = 1`
abbrev pub propagate : LmiPort → LmiPort
propagate p = record p { trigger_propagate = true }

-- The link goes down, if it was up, and the counters start again.
unfoldable pub dce_down : ℕ → LmiPort → LmiPort
unfolding lmi_reset_dce_state
dce_down now p =
    let reset = lmi_reset_dce_state now p.lmi in
    if p.lmi.dce_link_down
    then record p { lmi = reset }
    else propagate (record p { lmi = record reset { dce_link_down = true } })

-- T392 has expired.
unfoldable pub t392_expired : ℕ → LmiPort → LmiPort
unfolding dce_down shift_in count_errors
t392_expired now p =
    let l = p.lmi in
    let history = shift_in l.n393 true l.dce_history in
    let counted = record l {
      dce_errors = u8 (l.dce_errors + 1);
      dce_events = u8 (l.dce_events + 1);
      dce_history = history;
    } in
    if leb l.n392 (count_errors l.n393 history)
    then dce_down now (record p { lmi = counted })
    else record p { lmi = record counted { t392_timer = timer_set now (l.t392 * 1000) } }

-- The service-affecting condition is declared, or cleared after N392 events without an error.
unfoldable pub dte_condition : LmiPort → LmiPort
unfolding count_errors
dte_condition p =
    let l = p.lmi in
    if leb l.n392_dte (count_errors l.n393_dte l.dte_history)
    then if l.dte_link_down
      then p
      else propagate (record p { lmi = record l { dte_link_down = true } })
    else if (bit_and l.dte_history (u16 (2 ^ l.n392_dte - 1)) == 0) && l.dte_link_down
    then propagate (record p { lmi = record l { dte_link_down = false } })
    else p

-- The answer is missing: the full status is asked for again, and a segmented report is dropped.
unfoldable pub dte_missed : LmiPort → LmiPort
dte_missed p =
    let l = p.lmi in
    record p {
      lmi = record l {
        dte_errors = u8 (l.dte_errors + 1);
        polls_since_full = if l.polls_since_full == 0 then l.n391 else l.polls_since_full;
        last_report_type = 0;
      };
    }

-- The event since the last poll, of which the first has none.
unfoldable pub dte_event : LmiPort → LmiPort
unfolding shift_in dte_condition dte_missed
dte_event p =
    let l = p.lmi in
    let error = not l.dte_status_received in
    let judged =
      dte_condition
        (record p { lmi = record l { dte_history = shift_in l.n393_dte error l.dte_history } }) in
    if ltb 0 l.dte_events then if error then dte_missed judged else judged else p

-- `pvc->lmi_reported = 0` for the circuits of the port.
abbrev pub unreported : List ℕ → Pvc → Pvc
unreported name pvc =
    if same_text pvc.port_in name then record pvc { lmi_reported = false } else pvc

-- What `ops->send` is given: the octets, with the check sequence on serial lines and pipes.
abbrev pub with_fcs : Line → List ℕ → List ℕ
with_fcs line octets =
    let fcs = crc16_fcs line.buffer octets in
    if line.is_serial then octets ++ (bit_and fcs 0xFF ∷ bit_and (fcs >>> 8) 0xFF ∷ []) else octets

-- `port->ops->send` with the port's statistics.
unfoldable pub send_message : List ℕ → Line → Status × Line
send_message frame line = elim line.driver [
  | none ↦ (failed, line)
  | some answer ↦
      let given = record line { sent = line.sent ++ (frame ∷ []) } in
      elim (answer line.sent frame) [
        | none ↦ (failed, given)
        | some n ↦ (
          ok,
          record given { tx_frames = u64 (line.tx_frames + 1); tx_bytes = u64 (line.tx_bytes + n) },
        )
      ]
]

-- The buffer has 256 octets, of which the builder may fill 254.
unfoldable pub send_enquiry : LmiPort → LmiPort
unfolding build_enquiry send_message
send_enquiry p =
    let enquiry = build_enquiry p 254 in
    if ltb 0 (length enquiry) && leb (length enquiry + 2) 256
    then record p { line = (send_message (with_fcs p.line enquiry) p.line).1 }
    else p

-- The poll: the state before the enquiry is built, which reads it.
unfoldable pub before_enquiry : LmiPort → LmiPort
unfolding dte_event lmi_inc_seq
before_enquiry p =
    let judged = dte_event p in
    let l = judged.lmi in
    let full_status = leb l.n391 l.polls_since_full in
    record judged {
      lmi = record l {
        dte_status_received = false;
        dte_events = u8 (l.dte_events + 1);
        dte_last_request_was_full = full_status;
        dte_seq_send = lmi_inc_seq l.dte_seq_send;
      };
      pvcs = if full_status then map (unreported p.name) judged.pvcs else judged.pvcs;
    }

-- T391 has expired, with an interval above 0.
unfoldable pub t391_expired : ℕ → LmiPort → LmiPort
unfolding before_enquiry send_enquiry
t391_expired now p =
    let asked = send_enquiry (before_enquiry p) in
    let l = asked.lmi in
    record asked {
      lmi = record l {
        t391_timer = timer_set now (l.t391 * 1000);
        polls_since_full = if l.dte_last_request_was_full then 0 else u8 (l.polls_since_full + 1);
      };
    }

-- The call of `vfrs_propagate_port_status_change` at the end.
abbrev pub finished : LmiPort → LmiPort
finished p = if p.trigger_propagate then record p { propagated = suc p.propagated } else p

-- The source returns from a T391 of interval 0 without the call at the end.
unfoldable pub lmi_poll_timer : ℕ → LmiPort → LmiPort
unfolding t392_expired t391_expired
lmi_poll_timer now p =
    let start = record p { trigger_propagate = false } in
    let first = if timer_is_expired now p.lmi.t392_timer then t392_expired now start else start in
    if timer_is_expired now first.lmi.t391_timer
    then if first.lmi.t391 == 0 then first else finished (t391_expired now first)
    else finished first

-- The octets of an asynchronous STATUS, before the check sequence, in a buffer of 256 octets. With a
-- header, two octets and two elements it has at most 19.
unfoldable pub async_message : LmiPort → ℕ → ℕ → List ℕ
unfolding lmi_build_header report_type_ie pvc_status_ie
async_message p dlci status_flags =
    let type = p.lmi.type in
    let head = lmi_build_header p 256 0x08 ++ message_octets type 0x7D in
    let reported = head ++ report_type_ie type (256 - length head) 0x02 in
    reported ++ pvc_status_ie type (256 - length reported) dlci status_flags (lmi_port_dlci_len p)

abbrev pub is_cisco : LmiType → Bool
is_cisco cisco = true
is_cisco _ = false

-- Refused for a line without `ops->send`.
unfoldable pub lmi_send_async_status : ℕ → ℕ → LmiPort → Status × LmiPort
unfolding async_message send_message
lmi_send_async_status dlci status_flags p = elim p.line.driver [
  | none ↦ (failed, p)
  | some answer ↦
      if not p.lmi.async_enabled || p.lmi.dce_link_down || is_cisco p.lmi.type
      then (failed, p)
      else let done = send_message (with_fcs p.line (async_message p dlci status_flags)) p.line in
        (done.0, record p { line = done.1 })
]
