-- ===== src/Frame/Tests.antt =====
-- Runs of the frame layer on concrete octets.
use vfrs.Common.{
  ltb→lt, leb→le, zero, ℕ, suc, ◌-◌, ◌%◌, replicate, ◌+◌, ◌*◌, ◌≤◌, ◌<◌, ◌≡◌, refl, true, false,
  none, some, List, [], ◌∷◌, ◌++◌, length, take, drop, Bytes, bit_xor, arith,
}
use vfrs.Frame.Addr.{
  Addr, octet, get_addr_len, decode_addr, decode_addr_len, decode_dlci, encode_dlci,
  encode_dlci_with_flags, rewrite_dlci, dlci_valid_for_width,
}
use vfrs.Frame.Addr.RoundTrip.{decode_addr-encode_dlci_with_flags}
use vfrs.Frame.Addr.Rewrite.{rewrite_dlci_lem}
use vfrs.Frame.Crc.Reference.{remainder}
use vfrs.Frame.Crc.Speed.{crc16_check_iff, crc16_fcs-eq-remainder, crc16_check_iff}
use vfrs.Frame.Crc.Detection.{crc16_check_detects}
use vfrs.Frame.Hdlc.Laws.{hdlc_unstuff-hdlc_stuff}
use vfrs.Frame.Wire.Parse.{parse_frame_sound}
use vfrs.Frame.Wire.Build.{parse_frame-build_ui_frame, parse_frame_too_long}
use vfrs.Frame.Crc.{
  crc16_table_slice8, crc_octet, crc_octets, crc_align, crc_word, crc_words, crc16_fcs_speed,
  crc16_fcs, crc16_check,
}
use vfrs.Frame.Hdlc.{stuff_from, hdlc_stuff, unstuff_from, hdlc_unstuff}
use vfrs.Frame.Wire.{
  Parsed, start_of, end_of, destuff, check_frame, parse_frame, fr_ctrl_ui, build_address,
  build_ui_frame, fr_max_framesz,
}

-- Data with both octets that are escaped.
abbrev data_octets : List ℕ
data_octets = 0x45 ∷ 0x7E ∷ 0x7D ∷ 0x01 ∷ []

abbrev flags : Addr
flags = record { dlci = 0; cr = 1; fecn = 0; becn = 1; de = 1; ea = 0 }

abbrev wire : List ℕ
wire = 126 ∷ 26 ∷ 71 ∷ 3 ∷ 69 ∷ 125 ∷ 94 ∷ 125 ∷ 93 ∷ 1 ∷ 52 ∷ 106 ∷ 126 ∷ []

built : build_ui_frame 4096 64 100 data_octets (some flags) ≡ some wire
unfolding build_ui_frame build_address encode_dlci encode_dlci_with_flags crc16_fcs crc16_fcs_speed
    crc_align crc_words crc_octets crc_octet crc_word crc16_table_slice8 hdlc_stuff stuff_from
built = refl

data-Bytes : Bytes data_octets
data-Bytes = (omega arith, (omega arith, (omega arith, (omega arith, tt))))

abbrev received : Parsed
received = record {
  frame = 26 ∷ 71 ∷ 3 ∷ 69 ∷ 126 ∷ 125 ∷ 1 ∷ 52 ∷ 106 ∷ 1 ∷ 52 ∷ 106 ∷ 126 ∷ [];
  addr = record { dlci = 100; cr = 1; fecn = 0; becn = 1; de = 1; ea = 1 };
  frame_len = 7;
}

parsed : parse_frame wire true ≡ some received
unfolding parse_frame check_frame destuff start_of end_of hdlc_unstuff unstuff_from get_addr_len
    decode_addr decode_addr_len decode_dlci
parsed = refl

parse_frame-build_ui_frame_example :
    (p : Parsed) × (parse_frame wire true ≡ some p)
    × (take p.frame_len p.frame ≡ build_address 100 (some flags) ++ (fr_ctrl_ui ∷ data_octets))
    × (crc16_check 0 (take (p.frame_len + 2) p.frame) ≡ true)
    × (p.addr ≡ record { dlci = 100; cr = 1; fecn = 0; becn = 1; de = 1; ea = 1 })
parse_frame-build_ui_frame_example =
    parse_frame-build_ui_frame 4096 0 64 100 data_octets (some flags) wire data-Bytes (omega arith)
      (omega arith) built (omega arith)

crc16_fcs-eq-remainder_example :
    crc16_fcs 4099 data_octets ≡ bit_xor (remainder 0xFFFF data_octets) 0xFFFF
crc16_fcs-eq-remainder_example = crc16_fcs-eq-remainder 4099 data_octets data-Bytes

abbrev body_octets : List ℕ
body_octets = 26 ∷ 71 ∷ 3 ∷ 69 ∷ 126 ∷ 125 ∷ 1 ∷ []

body-Bytes : Bytes body_octets
body-Bytes = (
  omega arith,
  (omega arith, (omega arith, (omega arith, (omega arith, (omega arith, (omega arith, tt)))))),
)

fcs_of_body : crc16_fcs 8 body_octets ≡ 52 + 106 * 256
unfolding crc16_fcs crc16_fcs_speed crc_align crc_words crc_octets crc_octet crc_word
    crc16_table_slice8
fcs_of_body = refl

head-Bytes : Bytes (26 ∷ 71 ∷ 3 ∷ [])
head-Bytes = (omega arith, (omega arith, (omega arith, tt)))

tail-Bytes : Bytes (126 ∷ 125 ∷ 1 ∷ [])
tail-Bytes = (omega arith, (omega arith, (omega arith, tt)))

crc16_check_detects_example :
    crc16_check 8 ((26 ∷ 71 ∷ 3 ∷ []) ++ (68 ∷ 126 ∷ 125 ∷ 1 ∷ []) ++ (52 ∷ 106 ∷ [])) ≡ false
crc16_check_detects_example =
    crc16_check_detects (26 ∷ 71 ∷ 3 ∷ []) (126 ∷ 125 ∷ 1 ∷ []) 69 68 head-Bytes tail-Bytes
      (omega arith) (omega arith) 8 52 106 (omega arith) (omega arith) (omega arith)
      ((crc16_check_iff 8 body_octets 52 106 body-Bytes (omega arith) (omega arith)).1 fcs_of_body)

parse_frame_sound_example :
    let addr_len = get_addr_len received.frame 7 in
    (received.addr ≡ decode_addr received.frame)
    × (octet received.frame 0 % 2 ≡ 0)
    × (2 ≤ addr_len)
    × (addr_len ≤ 4)
    × (octet received.frame (addr_len - 1) % 2 ≡ 1)
    × (addr_len ≤ 7)
    × (7 ≤ addr_len + fr_max_framesz)
    × (7 ≤ length wire)
parse_frame_sound_example = parse_frame_sound wire true {p = received} parsed

decode_addr-encode_dlci_with_flags_example :
    decode_addr (encode_dlci_with_flags 70000 1 0 1 1 2 ++ (0x03 ∷ []))
    ≡ record { dlci = 70000; cr = 1; fecn = 1; becn = 0; de = 1; ea = 1 }
decode_addr-encode_dlci_with_flags_example =
    decode_addr-encode_dlci_with_flags 70000 1 0 1 1 2 (0x03 ∷ []) (omega arith)

short : length (encode_dlci_with_flags 2000 0 0 0 0 2) ≤ 4
unfolding encode_dlci_with_flags
short = omega arith

rewrite_dlci_lem_example :
    (decode_addr (rewrite_dlci body_octets 55)
      ≡ record { dlci = 55; cr = 1; fecn = 0; becn = 1; de = 1; ea = 1 })
    × (drop 2 (rewrite_dlci body_octets 55) ≡ 3 ∷ 69 ∷ 126 ∷ 125 ∷ 1 ∷ [])
unfolding decode_addr decode_addr_len decode_dlci
rewrite_dlci_lem_example = rewrite_dlci_lem body_octets 55 body-Bytes (omega arith)

valid : dlci_valid_for_width 2000 3 ≡ true
unfolding dlci_valid_for_width
valid = refl

hdlc_unstuff-hdlc_stuff_example : hdlc_unstuff (hdlc_stuff data_octets 8) 4 ≡ data_octets
hdlc_unstuff-hdlc_stuff_example =
    hdlc_unstuff-hdlc_stuff data_octets 8 4 (omega arith) (omega arith)

-- Data of 810 flag octets: within N203, but 1625 octets when it is stuffed.
abbrev flag_octets : List ℕ
flag_octets = replicate 810 0x7E

abbrev escaped_flags : ℕ → List ℕ
escaped_flags zero = 68 ∷ 48 ∷ 126 ∷ []
escaped_flags (suc n) = 125 ∷ 94 ∷ escaped_flags n

abbrev long_wire : List ℕ
long_wire = 126 ∷ 24 ∷ 65 ∷ 3 ∷ escaped_flags 810

long_built : build_ui_frame 0 4000 100 flag_octets none ≡ some long_wire
unfolding build_ui_frame build_address encode_dlci encode_dlci_with_flags crc16_fcs crc16_fcs_speed
    crc_align crc_words crc_octets crc_octet crc_word crc16_table_slice8 hdlc_stuff stuff_from
long_built = refl

parse_frame_too_long_example : parse_frame long_wire true ≡ none
parse_frame_too_long_example =
    parse_frame_too_long 0 4000 100 flag_octets none long_wire within_n203 long_built long_length
  where
    within_n203 : length flag_octets ≤ 1599
    within_n203 = leb→le (length flag_octets) 1599 refl

    long_length : 1618 < length long_wire
    long_length = ltb→lt 1618 (length long_wire) refl
