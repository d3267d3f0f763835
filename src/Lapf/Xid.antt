-- ===== src/Lapf/Xid.antt =====
-- The negotiation of parameters by XID frames: lapf_handle_xid of src/ports/lapf/port_lapf.c.
use vfrs.Common.{
  ℕ, zero, suc, ◌+◌, ◌-◌, ◌*◌, ◌/◌, Bool, true, false, not, none, some, List, [], ◌∷◌, ◌++◌,
  bit_and, bit_or, ltb, ◌==◌, if◌then◌else◌, length, get_or, take, drop, u8, u16, u32, u64, ◌<<<◌,
  ◌>>>◌,
}
use vfrs.Lapf.{ctrl_xid, Lapf, Line, Link, cllm}
use vfrs.Lapf.Frames.{tx_cr, control_octet, build_frame, send_built, count_built}

-- The peer's values, `peer_n201_tx`, `peer_k` and `peer_t200`; `peer_n201_rx` is never read.
pub record XidValues : Type 0 where
  pub n201_tx : ℕ
  pub window : ℕ
  pub timer : ℕ

-- `pv`
abbrev pub xid_value : List ℕ → ℕ
xid_value value =
    if length value == 1
    then get_or value 0 0
    else if length value == 2
    then bit_or (get_or value 0 0 <<< 8) (get_or value 1 0)
    else 0

abbrev pub xid_param : ℕ → ℕ → XidValues → XidValues
xid_param pi pv v =
    if pi == 5
    then record v { n201_tx = u16 pv }
    else if pi == 7
    then record v { window = u8 pv }
    else if pi == 9
    then record v { timer = u32 (pv * 100) }
    else v

-- The loop over the parameters. `left` is what is left of the group, and the list what is left of
-- the frame; a round takes two octets at least, so that as much fuel as there are octets is enough.
unfoldable pub xid_params : ℕ → ℕ → List ℕ → XidValues → XidValues
xid_params zero left rest v = v
xid_params (suc fuel) left [] v = v
xid_params (suc fuel) left (pi ∷ []) v = v
xid_params (suc fuel) left (pi ∷ pl ∷ rest) v = elim (left == 0) [
  | true ↦ v
  | false ↦ elim (ltb (length rest) pl) [
    | true ↦ v
    | false ↦
        xid_params fuel (left - (2 + pl)) (drop pl rest) (xid_param pi (xid_value (take pl rest)) v)
  ]
]

abbrev pub smaller : ℕ → ℕ → ℕ
smaller peer own = if ltb peer own then peer else own

-- The parameters that both ends can keep.
unfoldable pub negotiated : XidValues → Lapf → Lapf
negotiated v l = record l {
  k = smaller v.window l.k;
  n201 = smaller v.n201_tx l.n201;
  t200 = if v.timer == 0 then l.t200 else v.timer;
}

-- `xid_payload`: the group has 10 octets.
unfoldable pub xid_payload : Lapf → List ℕ
xid_payload l =
    0x82
    ∷ 0x80
    ∷ 0
    ∷ 10
    ∷ 5
    ∷ 2
    ∷ u8 (l.n201 >>> 8)
    ∷ bit_and l.n201 0xFF
    ∷ 7
    ∷ 1
    ∷ l.k
    ∷ 9
    ∷ 1
    ∷ u8 (l.t200 / 100)
    ∷ []

abbrev has_driver : Line → Bool
has_driver line = elim line.driver [ none ↦ false | some _ ↦ true ]

-- The answer to a command. The counter goes on where the frame was given to a driver.
unfoldable pub answer_xid : Bool → Link → Link
answer_xid pf w =
    let l = w.lapf in
    let built =
      build_frame w.line l.dlci (control_octet ctrl_xid pf) (xid_payload l) (tx_cr true) 0 0 0
        128 in
    let stats = l.stats in
    record w {
      lapf = record l {
        stats = record stats {
          xid_tx = if has_driver w.line then count_built built stats.xid_tx else stats.xid_tx;
        };
      };
      line = (send_built built w.line).1;
    }

-- The call of `cllm_handle_frame`, which marks circuits of the port.
unfoldable pub call_cllm : List ℕ → Link → Link
call_cllm frame w = elim w.line.cgst_ctx [
  | none ↦ w
  | some _ ↦ record w { deferred = w.deferred ++ (cllm frame ∷ []) }
]

-- `payload` starts behind the control octet.
unfoldable pub handle_xid : List ℕ → List ℕ → Bool → Bool → Link → Link
handle_xid frame payload pf is_response w0 =
    let stats = w0.lapf.stats in
    let w = record w0 {
      lapf = record w0.lapf { stats = record stats { xid_rx = u64 (stats.xid_rx + 1) } };
    } in
    let gl = u16 (bit_or (get_or payload 2 0 <<< 8) (get_or payload 3 0)) in
    let l = w.lapf in
    let peer =
      xid_params (length payload) gl (drop 4 payload)
        (record { n201_tx = l.n201; window = l.k; timer = l.t200 }) in
    let applied = record w { lapf = negotiated peer l } in
    if ltb (length payload) 4
    then w
    else if not (get_or payload 0 0 == 0x82)
    then w
    else if get_or payload 1 0 == 0x0F
    then call_cllm frame w
    else if not (get_or payload 1 0 == 0x80)
    then w
    else if ltb (length payload) (4 + gl)
    then w
    else if is_response
    then applied
    else answer_xid pf applied
