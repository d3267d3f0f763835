-- ===== src/Frame/Addr/RoundTrip.antt =====
-- An encoded address field is decoded to what it encodes, in every format.
use vfrs.Common.{
  ℕ, ◌+◌, ◌*◌, ◌/◌, ◌%◌, ◌^◌, ◌<◌, ◌≡◌, ◌∙◌, inl, inr, ◌&&◌, ◌||◌, List, [], ◌∷◌, ◌++◌, bit_and,
  ltb, leb, ◌==◌, if◌then◌else◌, Bool-cases, ◌>>>◌, ◌<<<◌, u8, arith, Bytes,
}
use vfrs.Common.Bits.{bit_or-add}
use vfrs.Frame.Addr.{Addr, dlci_2, dlci_3, dlci_4, decode_dlci, decode_addr, encode_dlci_with_flags}
use vfrs.Frame.Addr.Octets.{
  mask_fc, mask_f0, mask_fe, mask_08, mask_04, mask_02, low_1, low_7, bit, bit-lt, first_octet_lem,
  second_octet_lem, last_octet_lem, flagged_last_octet_lem,
}

-- The octets of each format as arithmetic, over flags that are bits.
abbrev pub octets_4 : ℕ → ℕ → ℕ → ℕ → ℕ → List ℕ
octets_4 dlci fecn becn de cr =
    (dlci / 131072 % 64 * 4 + cr * 2)
    ∷ (dlci / 8192 % 16 * 16 + 8 * fecn + 4 * becn + 2 * de)
    ∷ (dlci / 64 % 128 * 2)
    ∷ (dlci % 64 * 4 + 1)
    ∷ []

abbrev pub octets_3 : ℕ → ℕ → ℕ → ℕ → ℕ → List ℕ
octets_3 dlci fecn becn de cr =
    (dlci / 1024 % 64 * 4 + cr * 2)
    ∷ (dlci / 64 % 16 * 16 + 8 * fecn + 4 * becn + 2 * de)
    ∷ (dlci % 64 * 4 + 1)
    ∷ []

abbrev pub octets_2 : ℕ → ℕ → ℕ → ℕ → ℕ → List ℕ
octets_2 dlci fecn becn de cr =
    (dlci / 16 % 64 * 4 + cr * 2) ∷ (dlci % 16 * 16 + 8 * fecn + 4 * becn + 2 * de + 1) ∷ []

-- The octets in the width that the encoder chooses.
abbrev pub octets : ℕ → ℕ → ℕ → ℕ → ℕ → ℕ → List ℕ
octets dlci fecn becn de cr dlci_len =
    if dlci_len == 4 || ltb 63487 dlci
    then octets_4 dlci fecn becn de cr
    else if dlci_len == 3 || ltb 1023 dlci && leb dlci 63487
    then octets_3 dlci fecn becn de cr
    else octets_2 dlci fecn becn de cr

middle_octet : (dlci : ℕ) → u8 (bit_and (dlci >>> 6) 0x7F <<< 1) ≡ dlci / 64 % 128 * 2
middle_octet dlci = rw (low_7 (dlci >>> 6)) (omega arith)

pub encode_shape :
    (dlci fecn becn de cr dlci_len : ℕ)
    → encode_dlci_with_flags dlci fecn becn de cr dlci_len
      ≡ octets dlci (bit fecn) (bit becn) (bit de) (cr % 2) dlci_len
unfolding encode_dlci_with_flags
encode_shape dlci fecn becn de cr dlci_len = simp (
  first_octet_lem dlci 17 cr,
  first_octet_lem dlci 10 cr,
  first_octet_lem dlci 4 cr,
  second_octet_lem dlci 13 fecn becn de,
  second_octet_lem dlci 6 fecn becn de,
  middle_octet dlci,
  last_octet_lem dlci,
  flagged_last_octet_lem dlci fecn becn de,
)

-- The DLCI of each format from its octets.
pub dlci_4_lem :
    (a b c d : ℕ) (rest : List ℕ)
    → a < 256
    → b < 256
    → c < 256
    → d < 256
    → dlci_4 (a ∷ b ∷ c ∷ d ∷ rest) ≡ a / 4 * 131072 + b / 16 * 8192 + c / 2 * 64 + d / 4
dlci_4_lem a b c d rest ha hb hc hd = rw (
  mask_fc a ha,
  mask_f0 b hb,
  mask_fe c hc,
  mask_fc d hd,
  bit_or-add 17 (a / 4 * 131072) (b / 16 * 8192) (omega arith) (omega arith),
  bit_or-add 13 (a / 4 * 131072 + b / 16 * 8192) (c / 2 * 64) (omega arith) (omega arith),
  bit_or-add 6 (a / 4 * 131072 + b / 16 * 8192 + c / 2 * 64) (d / 4) (omega arith) (omega arith),
)

dlci_3_lem :
    (a b c : ℕ) (rest : List ℕ)
    → a < 256
    → b < 256
    → c < 256
    → dlci_3 (a ∷ b ∷ c ∷ rest) ≡ a / 4 * 1024 + b / 16 * 64 + c / 4
dlci_3_lem a b c rest ha hb hc = rw (
  mask_fc a ha,
  mask_f0 b hb,
  mask_fc c hc,
  bit_or-add 10 (a / 4 * 1024) (b / 16 * 64) (omega arith) (omega arith),
  bit_or-add 6 (a / 4 * 1024 + b / 16 * 64) (c / 4) (omega arith) (omega arith),
)

pub dlci_2_lem :
    (a b : ℕ) (rest : List ℕ) → a < 256 → b < 256 → dlci_2 (a ∷ b ∷ rest) ≡ a / 4 * 16 + b / 16
dlci_2_lem a b rest ha hb =
    rw (mask_fc a ha, mask_f0 b hb, bit_or-add 4 (a / 4 * 16) (b / 16) (omega arith) (omega arith))

abbrev flags_of : ℕ → ℕ → ℕ → ℕ → Addr
flags_of dlci a b last = record {
  dlci = dlci;
  cr = a / 2 % 2;
  fecn = b / 8 % 2;
  becn = b / 4 % 2;
  de = b / 2 % 2;
  ea = last % 2;
}

pub Addr_path :
    {x y : Addr}
    → (x.dlci ≡ y.dlci)
      × (x.cr ≡ y.cr)
      × (x.fecn ≡ y.fecn)
      × (x.becn ≡ y.becn)
      × (x.de ≡ y.de)
      × (x.ea ≡ y.ea)
    → x ≡ y
Addr_path p =
    λ i. record { dlci = p.0 i; cr = p.1 i; fecn = p.2 i; becn = p.3 i; de = p.4 i; ea = p.5 i }

module _ (a b : ℕ) (ha : a < 256) (hb : b < 256) where
  decode_4 :
      (c d : ℕ) (rest : List ℕ)
      → c < 256
      → d < 256
      → a % 2 ≡ 0
      → b % 2 ≡ 0
      → c % 2 ≡ 0
      → decode_addr (a ∷ b ∷ c ∷ d ∷ rest)
        ≡ flags_of (a / 4 * 131072 + b / 16 * 8192 + c / 2 * 64 + d / 4) a b d
  unfolding decode_addr
  decode_4 c d rest hc hd ea eb ec = rw (
    low_1 a,
    low_1 b,
    low_1 c,
    low_1 d,
    ea,
    eb,
    ec,
    dlci_4_lem a b c d rest ha hb hc hd,
    mask_02 a ha,
    mask_08 b hb,
    mask_04 b hb,
    mask_02 b hb,
  )

  decode_3 :
      (c : ℕ) (rest : List ℕ)
      → c < 256
      → a % 2 ≡ 0
      → b % 2 ≡ 0
      → c % 2 ≡ 1
      → decode_addr (a ∷ b ∷ c ∷ rest) ≡ flags_of (a / 4 * 1024 + b / 16 * 64 + c / 4) a b c
  unfolding decode_addr
  decode_3 c rest hc ea eb ec = rw (
    low_1 a,
    low_1 b,
    low_1 c,
    ea,
    eb,
    ec,
    dlci_3_lem a b c rest ha hb hc,
    mask_02 a ha,
    mask_08 b hb,
    mask_04 b hb,
    mask_02 b hb,
  )

  decode_2 :
      (rest : List ℕ)
      → a % 2 ≡ 0
      → b % 2 ≡ 1
      → decode_addr (a ∷ b ∷ rest) ≡ flags_of (a / 4 * 16 + b / 16) a b b
  unfolding decode_addr decode_dlci
  decode_2 rest ea eb = rw (
    low_1 a,
    low_1 b,
    ea,
    eb,
    dlci_2_lem a b rest ha hb,
    mask_02 a ha,
    mask_08 b hb,
    mask_04 b hb,
    mask_02 b hb,
  )

module _ (dlci f b d c : ℕ) (rest : List ℕ) (hf : f < 2) (hb : b < 2) (hd : d < 2)
    (hc : c < 2) where
  abbrev decoded : Addr
  decoded = record { dlci = dlci; cr = c; fecn = f; becn = b; de = d; ea = 1 }

  decode-octets_4 : dlci < 2 ^ 23 → decode_addr (octets_4 dlci f b d c ++ rest) ≡ decoded
  decode-octets_4 h =
      decode_4 (dlci / 131072 % 64 * 4 + c * 2) (dlci / 8192 % 16 * 16 + 8 * f + 4 * b + 2 * d)
        (omega arith) (omega arith) (dlci / 64 % 128 * 2) (dlci % 64 * 4 + 1) rest (omega arith)
        (omega arith) (omega arith) (omega arith) (omega arith)
      ∙ Addr_path (omega arith)

  decode-octets_3 : dlci < 2 ^ 16 → decode_addr (octets_3 dlci f b d c ++ rest) ≡ decoded
  decode-octets_3 h =
      decode_3 (dlci / 1024 % 64 * 4 + c * 2) (dlci / 64 % 16 * 16 + 8 * f + 4 * b + 2 * d)
        (omega arith) (omega arith) (dlci % 64 * 4 + 1) rest (omega arith) (omega arith)
        (omega arith) (omega arith)
      ∙ Addr_path (omega arith)

  decode-octets_2 : dlci < 2 ^ 10 → decode_addr (octets_2 dlci f b d c ++ rest) ≡ decoded
  decode-octets_2 h =
      decode_2 (dlci / 16 % 64 * 4 + c * 2) (dlci % 16 * 16 + 8 * f + 4 * b + 2 * d + 1)
        (omega arith) (omega arith) rest (omega arith) (omega arith)
      ∙ Addr_path (omega arith)

  decode-octets :
      (dlci_len : ℕ) → dlci < 2 ^ 23 → decode_addr (octets dlci f b d c dlci_len ++ rest) ≡ decoded
  decode-octets dlci_len h = elim (Bool-cases (dlci_len == 4 || ltb 63487 dlci)) [
    | inl wide ↦ rw wide (decode-octets_4 h)
    | inr other ↦ elim (Bool-cases (dlci_len == 3 || ltb 1023 dlci && leb dlci 63487)) [
      | inl middle ↦ rw (other, middle) (decode-octets_3 (ground arith))
      | inr short ↦ rw (other, short) (decode-octets_2 (ground arith))
    ]
  ]

-- An address that the encoder writes for a DLCI of at most 23 bits, in whatever width it takes, is
-- decoded to that DLCI and those flags with the final EA bit set, whatever octets follow it.
pub decode_addr-encode_dlci_with_flags :
    (dlci fecn becn de cr dlci_len : ℕ) (rest : List ℕ)
    → dlci < 2 ^ 23
    → decode_addr (encode_dlci_with_flags dlci fecn becn de cr dlci_len ++ rest)
      ≡ record { dlci = dlci; cr = cr % 2; fecn = bit fecn; becn = bit becn; de = bit de; ea = 1 }
decode_addr-encode_dlci_with_flags dlci fecn becn de cr dlci_len rest h = rw encode_shape (
    decode-octets dlci (bit fecn) (bit becn) (bit de) (cr % 2) rest (bit-lt fecn) (bit-lt becn)
      (bit-lt de) (omega arith) dlci_len h)

pub encode-Bytes :
    (dlci fecn becn de cr dlci_len : ℕ)
    → Bytes (encode_dlci_with_flags dlci fecn becn de cr dlci_len)
encode-Bytes dlci fecn becn de cr dlci_len = rw encode_shape (
    go (bit fecn) (bit becn) (bit de) (cr % 2) (bit-lt fecn) (bit-lt becn) (bit-lt de)
      (omega arith))
  where
    go : (f b d c : ℕ) → f < 2 → b < 2 → d < 2 → c < 2 → Bytes (octets dlci f b d c dlci_len)
    go f b d c hf hb hd hc = elim (Bool-cases (dlci_len == 4 || ltb 63487 dlci)) [
      | inl wide ↦ rw wide (omega arith)
      | inr other ↦ elim (Bool-cases (dlci_len == 3 || ltb 1023 dlci && leb dlci 63487)) [
        | inl middle ↦ rw (other, middle) (omega arith)
        | inr short ↦ rw (other, short) (omega arith)
      ]
    ]
