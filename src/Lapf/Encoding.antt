-- ===== src/Lapf/Encoding.antt =====
-- What LAPF sends over a line without its own check sequence, the other end reads as it was meant.
use vfrs.Common.{
  ℕ, ◌+◌, ◌*◌, ◌/◌, ◌%◌, ◌^◌, ◌≤◌, ◌<◌, ◌≡◌, refl, sym, ap, ◌∙◌, subst, ◌⊎◌, inl, inr, Bool, true,
  false, not, some, List, [], ◌∷◌, ◌++◌, length, length-append, drop, drop-append, ltb, le→not-ltb,
  ◌==◌, if◌then◌else◌, arith, bit_and, u8, ◌<<<◌, ◌>>>◌, Bytes,
}
use vfrs.Common.Bits.{bit_or_shifted, bit_and_mask}
use vfrs.Frame.Addr.{octet, get_addr_len, decode_addr, encode_dlci_with_flags}
use vfrs.Frame.Addr.Octets.{and_02, low_1}
use vfrs.Frame.Addr.RoundTrip.{decode_addr-encode_dlci_with_flags, encode-Bytes}
use vfrs.Frame.Addr.Length.{get_addr_len-encode, length-encode}
use vfrs.Lapf.{ctrl_i, ctrl_rr, ctrl_rnr, ctrl_rej, ctrl_sabme, ctrl_dm, ctrl_disc, ctrl_ua, Line}
use vfrs.Lapf.Frames.{
  tx_cr, final, should_set_de, address_len, plain_frame, build_frame, control_octet, second_control,
  control_frame, i_frame,
}
use vfrs.Lapf.Unnumbered.{ctrl1, ctrl2, ctrl_type_of, pf_of}
use vfrs.Lapf.Handle.{received}

octet_zero : (bs cs : List ℕ) → 0 < length bs → Bytes bs → octet (bs ++ cs) 0 < 256
octet_zero [] cs h k = absurd (omega arith)
octet_zero (b ∷ bs) cs h k = k.0

cr_of : (frame : List ℕ) → (decode_addr frame).cr ≡ bit_and (octet frame 0) 0x02 / 2
unfolding decode_addr
cr_of frame = ground arith

second_control_lem : (nr : ℕ) (pf : Bool) → nr < 128 → second_control nr pf ≡ nr * 2 + final pf
unfolding second_control
second_control_lem nr pf h =
    let bit : final pf < 2 = ground arith in rw (bit_or_shifted 1 nr (final pf) bit) (omega arith)

module _ (line : Line) (dlci ctrl : ℕ) (payload : List ℕ) (resp ui : Bool) (h : dlci < 2 ^ 23) where
  abbrev flag : ℕ
  flag = if should_set_de line.cgst_ctx then 1 else 0

  abbrev address : List ℕ
  address = encode_dlci_with_flags dlci flag flag 0 (tx_cr resp) (address_len line.dlcibit dlci)

  abbrev on_line : List ℕ
  on_line = plain_frame line dlci ctrl payload (tx_cr resp) 0 0 0

  plain_lem : on_line ≡ address ++ (ctrl ∷ payload)
  unfolding plain_frame
  plain_lem = refl

  decoded :
      ((decode_addr (address ++ (ctrl ∷ payload))).dlci ≡ dlci)
      × ((decode_addr (address ++ (ctrl ∷ payload))).cr ≡ tx_cr resp % 2)
  decoded =
      let e =
        decode_addr-encode_dlci_with_flags dlci flag flag 0 (tx_cr resp)
          (address_len line.dlcibit dlci) (ctrl ∷ payload) h in
      (ap (λ a. a.dlci) e, ap (λ a. a.cr) e)

  pub read_dlci : (decode_addr on_line).dlci ≡ dlci
  read_dlci = ap (λ f. (decode_addr f).dlci) plain_lem ∙ decoded.0

  pub read_payload : (received on_line ui).payload ≡ ctrl ∷ payload
  unfolding received
  read_payload =
      let fits : length address ≤ length (address ++ (ctrl ∷ payload)) =
        omega (arith, length-append address (ctrl ∷ payload)) in
      let n =
        get_addr_len-encode dlci flag flag 0 (tx_cr resp) (address_len line.dlcibit dlci)
          (ctrl ∷ payload) (length (address ++ (ctrl ∷ payload))) fits in
      ap (λ f. drop (get_addr_len f (length f)) f) plain_lem
      ∙ ap (λ k. drop k (address ++ (ctrl ∷ payload))) n
      ∙ drop-append address (ctrl ∷ payload)

  pub read_response : (received on_line ui).is_response ≡ resp
  unfolding received
  read_response =
      let f = address ++ (ctrl ∷ payload) in
      let some = length-encode dlci flag flag 0 (tx_cr resp) (address_len line.dlcibit dlci) in
      let byte : octet f 0 < 256 =
        octet_zero address (ctrl ∷ payload) (omega arith)
          (encode-Bytes dlci flag flag 0 (tx_cr resp) (address_len line.dlcibit dlci)) in
      ap (λ g. not (bit_and (octet g 0) 0x02 == 0)) plain_lem
      ∙ ground (arith, decoded.1, cr_of f, and_02 (octet f 0) byte)

-- The kinds of frames that `lapf_send_control` sends.
pub data Kind : Type 0 where
  rr rnr rej sabme dm disc ua : Kind

abbrev pub code : Kind → ℕ
code rr = ctrl_rr
code rnr = ctrl_rnr
code rej = ctrl_rej
code sabme = ctrl_sabme
code dm = ctrl_dm
code disc = ctrl_disc
code ua = ctrl_ua

abbrev pub supervisory : Kind → Bool
supervisory rr = true
supervisory rnr = true
supervisory rej = true
supervisory _ = false

-- What follows the address.
abbrev control_payload : Kind → ℕ → Bool → List ℕ
control_payload k nr pf =
    if supervisory k then code k ∷ second_control nr pf ∷ [] else control_octet (code k) pf ∷ []

type_lem : (k : Kind) (nr : ℕ) (pf : Bool) → ctrl_type_of (ctrl1 (control_payload k nr pf)) ≡ code k
unfolding ctrl_type_of control_octet
type_lem rr nr pf = refl
type_lem rnr nr pf = refl
type_lem rej nr pf = refl
type_lem sabme nr true = refl
type_lem sabme nr false = refl
type_lem dm nr true = refl
type_lem dm nr false = refl
type_lem disc nr true = refl
type_lem disc nr false = refl
type_lem ua nr true = refl
type_lem ua nr false = refl

-- The low bit of the second octet.
second_pf : (nr : ℕ) (pf : Bool) → nr < 128 → not (bit_and (second_control nr pf) 0x01 == 0) ≡ pf
second_pf nr true h = ground (arith, second_control_lem nr true h, low_1 (second_control nr true))
second_pf nr false h =
    ground (arith, second_control_lem nr false h, low_1 (second_control nr false))

pf_lem : (k : Kind) (nr : ℕ) (pf : Bool) → nr < 128 → pf_of (control_payload k nr pf) ≡ pf
unfolding pf_of control_octet
pf_lem rr nr pf h = second_pf nr pf h
pf_lem rnr nr pf h = second_pf nr pf h
pf_lem rej nr pf h = second_pf nr pf h
pf_lem sabme nr true h = refl
pf_lem sabme nr false h = refl
pf_lem dm nr true h = refl
pf_lem dm nr false h = refl
pf_lem disc nr true h = refl
pf_lem disc nr false h = refl
pf_lem ua nr true h = refl
pf_lem ua nr false h = refl

nr_lem : (nr : ℕ) (pf : Bool) → nr < 128 → second_control nr pf >>> 1 ≡ nr
nr_lem nr true h = omega (arith, second_control_lem nr true h)
nr_lem nr false h = omega (arith, second_control_lem nr false h)

control_split :
    (k : Kind) (nr : ℕ) (pf : Bool)
    → ctrl1 (control_payload k nr pf) ∷ drop 1 (control_payload k nr pf) ≡ control_payload k nr pf
control_split rr nr pf = refl
control_split rnr nr pf = refl
control_split rej nr pf = refl
control_split sabme nr pf = refl
control_split dm nr pf = refl
control_split disc nr pf = refl
control_split ua nr pf = refl

acks :
    (k : Kind) (nr : ℕ) (pf : Bool)
    → nr < 128
    → (supervisory k ≡ false) ⊎ (ctrl2 (control_payload k nr pf) >>> 1 ≡ nr)
acks rr nr pf h = inr (nr_lem nr pf h)
acks rnr nr pf h = inr (nr_lem nr pf h)
acks rej nr pf h = inr (nr_lem nr pf h)
acks sabme nr pf h = inl refl
acks dm nr pf h = inl refl
acks disc nr pf h = inl refl
acks ua nr pf h = inl refl

-- What the receiver finds in a frame.
pub record Reads (frame : List ℕ) (ui : Bool) (dlci t : ℕ) (pf resp : Bool) : Type 0 where
  pub to : (decode_addr frame).dlci ≡ dlci
  pub response : (received frame ui).is_response ≡ resp
  pub coded : ctrl_type_of (ctrl1 (received frame ui).payload) ≡ t
  pub final_bit : pf_of (received frame ui).payload ≡ pf

built :
    (line : Line) (dlci ctrl : ℕ) (payload : List ℕ) (cr max_len : ℕ)
    → line.is_serial ≡ false
    → length payload + 7 ≤ max_len
    → build_frame line dlci ctrl payload cr 0 0 0 max_len
      ≡ some (plain_frame line dlci ctrl payload cr 0 0 0)
unfolding build_frame address_len
built line dlci ctrl payload cr max_len s fits = ground arith

control_frame_lem :
    (line : Line) (dlci : ℕ) (k : Kind) (nr : ℕ) (pf resp : Bool)
    → line.is_serial ≡ false
    → control_frame line dlci (code k) nr pf resp
      ≡ some (
          plain_frame line dlci
            (ctrl1 (control_payload k nr pf))
            (drop 1 (control_payload k nr pf))
            (tx_cr resp)
            0
            0
            0)
unfolding control_frame
control_frame_lem line dlci rr nr pf resp s = built line dlci _ _ (tx_cr resp) 128 s (omega arith)
control_frame_lem line dlci rnr nr pf resp s = built line dlci _ _ (tx_cr resp) 128 s (omega arith)
control_frame_lem line dlci rej nr pf resp s = built line dlci _ _ (tx_cr resp) 128 s (omega arith)
control_frame_lem line dlci sabme nr pf resp s =
    built line dlci _ _ (tx_cr resp) 128 s (omega arith)
control_frame_lem line dlci dm nr pf resp s = built line dlci _ _ (tx_cr resp) 128 s (omega arith)
control_frame_lem line dlci disc nr pf resp s = built line dlci _ _ (tx_cr resp) 128 s (omega arith)
control_frame_lem line dlci ua nr pf resp s = built line dlci _ _ (tx_cr resp) 128 s (omega arith)

-- On a line that is neither serial nor a pipe, so that a frame is sent without a check sequence, each
-- RR, RNR, REJ, SABME, DM, DISC and UA of `lapf_send_control` is built, and is read with its DLCI, as
-- the command or response that it is, with its type and its P/F bit, and a supervisory one with its N(R).
-- N(R) is below 128 and the DLCI has at most 23 bits.
pub control_frame-Reads :
    (line : Line) (dlci : ℕ) (k : Kind) (nr : ℕ) (pf resp ui : Bool)
    → line.is_serial ≡ false
    → dlci < 2 ^ 23
    → nr < 128
    → (frame : List ℕ) × (control_frame line dlci (code k) nr pf resp ≡ some frame)
      × Reads frame ui dlci (code k) pf resp
      × ((supervisory k ≡ false) ⊎ (ctrl2 (received frame ui).payload >>> 1 ≡ nr))
control_frame-Reads line dlci k nr pf resp ui s h n =
    let p = control_payload k nr pf in
    let frame = plain_frame line dlci (ctrl1 p) (drop 1 p) (tx_cr resp) 0 0 0 in
    let same : ctrl1 p ∷ drop 1 p ≡ p = control_split k nr pf in
    let e : (received frame ui).payload ≡ p =
      read_payload line dlci (ctrl1 p) (drop 1 p) resp ui h ∙ same in
    (
      frame,
      control_frame_lem line dlci k nr pf resp s,
      record {
        to = read_dlci line dlci (ctrl1 p) (drop 1 p) resp ui h;
        response = read_response line dlci (ctrl1 p) (drop 1 p) resp ui h;
        coded = ap (λ t. ctrl_type_of (ctrl1 t)) e ∙ type_lem k nr pf;
        final_bit = ap pf_of e ∙ pf_lem k nr pf n;
      },
      subst (λ t. (supervisory k ≡ false) ⊎ (ctrl2 t >>> 1 ≡ nr)) (sym e) (acks k nr pf n),
    )

i_type : (c : ℕ) (rest : List ℕ) → c % 2 ≡ 0 → ctrl_type_of (ctrl1 (c ∷ rest)) ≡ ctrl_i
unfolding ctrl_type_of
i_type c rest even = ground (arith, low_1 c)

i_pf :
    (c nr : ℕ) (pf : Bool) (octets : List ℕ)
    → c % 2 ≡ 0
    → nr < 128
    → pf_of (c ∷ second_control nr pf ∷ octets) ≡ pf
unfolding pf_of
i_pf c nr pf octets even h = ground (arith, second_pf nr pf h, low_1 c, bit_and_mask 2 c 0x03 refl)

-- On a line that is neither serial nor a pipe, so that a frame is sent without a check sequence, an
-- I-frame of LAPF is read with its DLCI, as the command or response that it is, with its P/F bit, its
-- N(S), its N(R) and its data. The DLCI has at most 23 bits, both numbers are below 128, and the data
-- have at most 1599 octets, which is what `lapf_send_i_frame` has room for.
pub i_frame-Reads :
    (line : Line) (dlci ns nr : ℕ) (pf resp ui : Bool) (octets : List ℕ)
    → line.is_serial ≡ false
    → dlci < 2 ^ 23
    → ns < 128
    → nr < 128
    → length octets ≤ 1599
    → (frame : List ℕ) × (i_frame line dlci ns nr pf resp octets ≡ some frame)
      × Reads frame ui dlci ctrl_i pf resp
      × (ctrl1 (received frame ui).payload >>> 1 ≡ ns)
      × (ctrl2 (received frame ui).payload >>> 1 ≡ nr)
      × (drop 2 (received frame ui).payload ≡ octets)
unfolding i_frame
i_frame-Reads line dlci ns nr pf resp ui octets s h a b fits =
    let small : ltb 1599 (length octets) ≡ false = le→not-ltb 1599 (length octets) fits in
    let c = u8 (ns <<< 1) in
    let rest = second_control nr pf ∷ octets in
    let frame = plain_frame line dlci c rest (tx_cr resp) 0 0 0 in
    let e : (received frame ui).payload ≡ c ∷ rest = read_payload line dlci c rest resp ui h in
    (
      frame,
      rw small (built line dlci c rest (tx_cr resp) 1632 s (omega arith)),
      record {
        to = read_dlci line dlci c rest resp ui h;
        response = read_response line dlci c rest resp ui h;
        coded = ap (λ t. ctrl_type_of (ctrl1 t)) e ∙ i_type c rest (omega arith);
        final_bit = ap pf_of e ∙ i_pf c nr pf octets (omega arith) b;
      },
      ap (λ t. ctrl1 t >>> 1) e ∙ omega arith,
      ap (λ t. ctrl2 t >>> 1) e ∙ nr_lem nr pf b,
      ap (drop 2) e,
    )
