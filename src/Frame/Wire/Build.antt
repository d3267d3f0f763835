-- ===== src/Frame/Wire/Build.antt =====
-- What `fr_build_ui_frame` puts on a serial line, `fr_parse_frame` takes off it.
use vfrs.Common.{
  overwrite, ℕ, suc, ◌+◌, ◌-◌, ◌*◌, ◌%◌, ◌^◌, ◌≤◌, ◌<◌, ◌≡◌, refl, ap, sym, subst, ◌∙◌, inl, inr,
  true, Bool-cases, Option, none, some, List, [], ◌∷◌, ◌++◌, append_assoc, bit_and, ltb,
  if◌then◌else◌, length, length-append, take, drop, take-append, get_or-append, arith, Bytes,
  IsByte, All-append, u8, ◌>>>◌, le→not-ltb, and-false, lt→ltb, lt→not-leb,
}
use vfrs.Common.Bits.{bit_and_mask}
use vfrs.Frame.Addr.{Addr, octet, decode_addr, encode_dlci_with_flags}
use vfrs.Frame.Addr.Octets.{bit}
use vfrs.Frame.Addr.RoundTrip.{decode_addr-encode_dlci_with_flags, encode-Bytes}
use vfrs.Frame.Addr.Length.{encode_dlci-eq, length-encode}
use vfrs.Frame.Crc.{crc16_fcs, crc16_check}
use vfrs.Frame.Crc.Speed.{crc16_fcs-lt, crc16_check_iff, crc16_fcs_address}
use vfrs.Frame.Hdlc.{hdlc_flag, hdlc_stuff}
use vfrs.Frame.Hdlc.Laws.{stuffed, length-stuffed, hdlc_stuff_room, hdlc_unstuff-stuffed}
use vfrs.Frame.Wire.{
  Parsed, start_of, end_of, destuff, parse_frame, fr_ctrl_ui, build_address, build_ui_frame,
}
use vfrs.Frame.Wire.Parse.{Accepted, check_frame-encode}

-- The stuffed octets between two flags.
abbrev pub on_wire : List ℕ → List ℕ
on_wire raw = hdlc_flag ∷ (stuffed raw ++ (hdlc_flag ∷ []))

module _ (raw : List ℕ) where
  abbrev s : List ℕ
  s = stuffed raw

  len_wire : length (on_wire raw) ≡ length s + 2
  len_wire = omega (arith, length-append s (hdlc_flag ∷ []))

  last_flag : octet (on_wire raw) (length s + 2 - 1) ≡ hdlc_flag
  last_flag =
      let e : length s + 2 - 1 ≡ suc (length s + 0) = omega arith in
      ap (octet (on_wire raw)) e ∙ get_or-append s (hdlc_flag ∷ []) 0 0

  start_wire : start_of (on_wire raw) ≡ 1
  unfolding start_of
  start_wire = refl

  end_wire : end_of (on_wire raw) ≡ length s + 1
  unfolding end_of
  end_wire = rw (len_wire, last_flag) (ground arith)

  -- A frame of at least four octets that is stuffed to at most 1616 comes off the line whole.
  destuff_wire :
      4 ≤ length raw
      → length s ≤ 1616
      → destuff (on_wire raw) ≡ some (overwrite raw (on_wire raw), length raw - 2)
  unfolding destuff
  destuff_wire lo hi =
      let n : length s + 1 - 1 ≡ length s = omega arith in
      let room : length raw ≤ 1616 = omega (arith, length-stuffed raw) in
      rw (
        start_wire,
        end_wire,
        n,
        take-append s (hdlc_flag ∷ []),
        hdlc_unstuff-stuffed raw 1616 room,
        lt→not-leb (length s + 1) 1 (omega (arith, length-stuffed raw)),
        le→not-ltb 1616 (length s) hi,
        le→not-ltb (length raw) 4 lo,
      )

  -- One that is stuffed to more is dropped.
  too_long : 1616 < length s → destuff (on_wire raw) ≡ none
  unfolding destuff
  too_long h =
      let n : length s + 1 - 1 ≡ length s = omega arith in
      rw (
        start_wire,
        end_wire,
        n,
        lt→not-leb (length s + 1) 1 (omega arith),
        lt→ltb 1616 (length s) h,
      )

-- The flags that a frame is built with: all zero where the pointer is null.
abbrev pub sent : Option Addr → Addr
sent none = record { dlci = 0; cr = 0; fecn = 0; becn = 0; de = 0; ea = 0 }
sent (some f) = f

abbrev addr_sz : ℕ → ℕ
addr_sz dlci = if ltb 1023 dlci then 4 else 2

address_lem :
    (dlci : ℕ) (flags : Option Addr)
    → let f = sent flags in
      build_address dlci flags ≡ encode_dlci_with_flags dlci f.fecn f.becn f.de f.cr (addr_sz dlci)
unfolding build_address
address_lem dlci (some f) = refl
address_lem dlci none = encode_dlci-eq dlci (addr_sz dlci) (ground arith)

length-address :
    (dlci : ℕ) (flags : Option Addr)
    → (2 ≤ length (build_address dlci flags)) × (length (build_address dlci flags) ≤ 4)
length-address dlci flags =
    let f = sent flags in
    rw (address_lem dlci flags) (length-encode dlci f.fecn f.becn f.de f.cr (addr_sz dlci))

-- The frame before stuffing: address, control, data, and with it the check sequence.
abbrev pub body : ℕ → List ℕ → Option Addr → List ℕ
body dlci bytes flags = build_address dlci flags ++ (fr_ctrl_ui ∷ bytes)

abbrev pub raw_frame : ℕ → ℕ → List ℕ → Option Addr → List ℕ
raw_frame next dlci bytes flags =
    let fcs = crc16_fcs next (body dlci bytes flags) in
    body dlci bytes flags ++ (u8 (bit_and fcs 0xFF) ∷ u8 (fcs >>> 8) ∷ [])

module _ (next dlci : ℕ) (bytes : List ℕ) (flags : Option Addr) where
  abbrev frame_body : List ℕ
  frame_body = body dlci bytes flags

  abbrev fcs : ℕ
  fcs = crc16_fcs next frame_body

  abbrev low : ℕ
  low = u8 (bit_and fcs 0xFF)

  abbrev high : ℕ
  high = u8 (fcs >>> 8)

  abbrev raw_of : List ℕ
  raw_of = raw_frame next dlci bytes flags

  length-body : length frame_body ≡ length (build_address dlci flags) + 1 + length bytes
  length-body = omega (arith, length-append (build_address dlci flags) (fr_ctrl_ui ∷ bytes))

  length-raw : length raw_of ≡ length frame_body + 2
  length-raw = length-append frame_body (low ∷ high ∷ [])

  body-Bytes : Bytes bytes → Bytes frame_body
  body-Bytes k =
      let f = sent flags in
      All-append IsByte (build_address dlci flags) (fr_ctrl_ui ∷ bytes)
        (rw (address_lem dlci flags) (encode-Bytes dlci f.fecn f.becn f.de f.cr (addr_sz dlci)))
        (omega arith, k)

  fcs_octets : Bytes bytes → fcs ≡ low + high * 256
  fcs_octets k =
      omega (arith, bit_and_mask 8 fcs 0xFF refl, crc16_fcs-lt next frame_body (body-Bytes k))

  -- With at most 1599 octets of data the frame is built whole, or refused for want of room.
  pub build_lem :
      (max_len : ℕ)
      → length bytes ≤ 1599
      → build_ui_frame next max_len dlci bytes flags
        ≡ (if ltb max_len (length (stuffed raw_of) + 2) then none else some (on_wire raw_of))
  unfolding build_ui_frame
  build_lem max_len h =
      let a = length-address dlci flags in
      let all : hdlc_stuff raw_of 3216 ≡ stuffed raw_of =
        hdlc_stuff_room raw_of 3216 (omega (arith, length-raw, length-body)) in
      rw (
        le→not-ltb 1616 (length (build_address dlci flags)) (omega arith),
        le→not-ltb 1616 (length (build_address dlci flags) + 1) (omega arith),
        le→not-ltb 1616 (length (build_address dlci flags) + 1 + length bytes) (omega arith),
        le→not-ltb 1616 (length frame_body + 2) (omega (arith, length-body)),
        all,
        and-false (ltb 0 (length bytes)),
      )

  -- What comes off the line, cut where the callers cut it.
  take-body :
      (rest : List ℕ)
      → (take (length raw_of - 2) (raw_of ++ rest) ≡ frame_body)
        × (take (length raw_of - 2 + 2) (raw_of ++ rest) ≡ raw_of)
  take-body rest =
      let n : length raw_of - 2 ≡ length frame_body = omega (arith, length-raw) in
      let m : length raw_of - 2 + 2 ≡ length raw_of = omega (arith, length-raw) in
      (
        rw (n, append_assoc frame_body (low ∷ high ∷ []) rest)
            (take-append frame_body (low ∷ high ∷ rest)),
        rw m (take-append raw_of rest),
      )

  check_raw : (next' : ℕ) → Bytes bytes → crc16_check next' raw_of ≡ true
  check_raw next' k =
      (crc16_check_iff next' frame_body low high (body-Bytes k) (omega arith) (omega arith)).1
        (crc16_fcs_address next' next frame_body (body-Bytes k) ∙ fcs_octets k)

  -- The frame that `fr_parse_frame` reports.
  abbrev received : Parsed
  received =
      let frame = overwrite raw_of (on_wire raw_of) in
      record { frame = frame; addr = decode_addr frame; frame_len = length raw_of - 2 }

  parse-on_wire :
      length bytes ≤ 1599
      → length (stuffed raw_of) ≤ 1616
      → parse_frame (on_wire raw_of) true ≡ some received
  unfolding parse_frame
  parse-on_wire h fits =
      let f = sent flags in
      let a = length-address dlci flags in
      let tail =
        (fr_ctrl_ui ∷ bytes) ++ ((low ∷ high ∷ []) ++ drop (length raw_of) (on_wire raw_of)) in
      let address = encode_dlci_with_flags dlci f.fecn f.becn f.de f.cr (addr_sz dlci) in
      let shape : overwrite raw_of (on_wire raw_of) ≡ address ++ tail =
        append_assoc frame_body (low ∷ high ∷ []) (drop (length raw_of) (on_wire raw_of))
        ∙ append_assoc (build_address dlci flags) (fr_ctrl_ui ∷ bytes) _
        ∙ ap (λ t. t ++ tail) (address_lem dlci flags) in
      let same : length address ≡ length (build_address dlci flags) =
        ap length (sym (address_lem dlci flags)) in
      let n = length raw_of - 2 in
      let accepted : Accepted (address ++ tail) n =
        check_frame-encode dlci f.fecn f.becn f.de f.cr (addr_sz dlci) n tail
          (omega (arith, same, length-raw, length-body))
          (omega (arith, same, length-raw, length-body)) in
      rw
        (
          len_wire raw_of,
          le→not-ltb (length (stuffed raw_of) + 2) 3
              (omega (arith, length-stuffed raw_of, length-raw, length-body)),
          destuff_wire raw_of (omega (arith, length-raw, length-body)) fits,
        )
        (subst (λ t. Accepted t n) (sym shape) accepted)

  received_addr :
      Bytes bytes
      → dlci < 2 ^ 23
      → received.addr ≡ record {
        dlci = dlci;
        cr = (sent flags).cr % 2;
        fecn = bit (sent flags).fecn;
        becn = bit (sent flags).becn;
        de = bit (sent flags).de;
        ea = 1;
      }
  received_addr k h =
      let f = sent flags in
      let rest = drop (length raw_of) (on_wire raw_of) in
      let tail = (fr_ctrl_ui ∷ bytes) ++ ((low ∷ high ∷ []) ++ rest) in
      ap decode_addr (
        append_assoc frame_body (low ∷ high ∷ []) rest
        ∙ append_assoc (build_address dlci flags) (fr_ctrl_ui ∷ bytes) _
        ∙ ap (λ t. t ++ tail) (address_lem dlci flags))
      ∙ decode_addr-encode_dlci_with_flags dlci f.fecn f.becn f.de f.cr (addr_sz dlci) tail h

  built_wire :
      (max_len : ℕ) {wire : List ℕ}
      → length bytes ≤ 1599
      → build_ui_frame next max_len dlci bytes flags ≡ some wire
      → wire ≡ on_wire raw_of
  built_wire max_len h e =
      let full = ltb max_len (length (stuffed raw_of) + 2) in
      let e' = sym (build_lem max_len h) ∙ e in
      elim (Bool-cases full) [
        | inl no_room ↦ absurd (ground (arith, e', no_room))
        | inr room ↦ ground (arith, e', room)
      ]

  parse_long : 1616 < length (stuffed raw_of) → parse_frame (on_wire raw_of) true ≡ none
  unfolding parse_frame
  parse_long h =
      rw (
        len_wire raw_of,
        le→not-ltb (length (stuffed raw_of) + 2) 3 (omega arith),
        too_long raw_of h,
      )

-- A frame that was built for a serial line with at most 1599 octets of data, a DLCI of at most 23
-- bits and any flags, and that is at most 1618 octets long with its flag octets, is accepted by
-- `fr_parse_frame`: up to `frame_len` the buffer holds the address, control octet and data that were
-- built, with the two octets after it the check sequence passes, and the address decodes to the DLCI
-- and flags that were given.
pub parse_frame-build_ui_frame :
    (next next' max_len dlci : ℕ) (bytes : List ℕ) (flags : Option Addr) (wire : List ℕ)
    → Bytes bytes
    → length bytes ≤ 1599
    → dlci < 2 ^ 23
    → build_ui_frame next max_len dlci bytes flags ≡ some wire
    → length wire ≤ 1618
    → (p : Parsed) × (parse_frame wire true ≡ some p)
      × (take p.frame_len p.frame ≡ build_address dlci flags ++ (fr_ctrl_ui ∷ bytes))
      × (crc16_check next' (take (p.frame_len + 2) p.frame) ≡ true)
      × (p.addr ≡ record {
        dlci = dlci;
        cr = (sent flags).cr % 2;
        fecn = bit (sent flags).fecn;
        becn = bit (sent flags).becn;
        de = bit (sent flags).de;
        ea = 1;
      })
parse_frame-build_ui_frame next next' max_len dlci bytes flags wire k h l e fits =
    let raw = raw_frame next dlci bytes flags in
    let w : wire ≡ on_wire raw = built_wire next dlci bytes flags max_len h e in
    let n : length wire ≡ length (stuffed raw) + 2 = ap length w ∙ len_wire raw in
    let cuts = take-body next dlci bytes flags (drop (length raw) (on_wire raw)) in
    (
      received next dlci bytes flags,
      ap (λ t. parse_frame t true) w ∙ parse-on_wire next dlci bytes flags h (omega (arith, n)),
      cuts.0,
      ap (crc16_check next') cuts.1 ∙ check_raw next dlci bytes flags next' k,
      received_addr next dlci bytes flags k l,
    )

-- A frame that was built with at most 1599 octets of data, but that the stuffing made longer than
-- 1618 octets with its flag octets, is rejected by `fr_parse_frame`.
pub parse_frame_too_long :
    (next max_len dlci : ℕ) (bytes : List ℕ) (flags : Option Addr) (wire : List ℕ)
    → length bytes ≤ 1599
    → build_ui_frame next max_len dlci bytes flags ≡ some wire
    → 1618 < length wire
    → parse_frame wire true ≡ none
parse_frame_too_long next max_len dlci bytes flags wire h e long =
    let raw = raw_frame next dlci bytes flags in
    let w : wire ≡ on_wire raw = built_wire next dlci bytes flags max_len h e in
    let n : length wire ≡ length (stuffed raw) + 2 = ap length w ∙ len_wire raw in
    ap (λ t. parse_frame t true) w ∙ parse_long next dlci bytes flags (omega (arith, n))
