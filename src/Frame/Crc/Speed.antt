-- ===== src/Frame/Crc/Speed.antt =====
-- `crc16_fcs_speed`, `crc16_fcs` and `crc16_check` against the bit-by-bit remainder.
use vfrs.Common.{
  ℕ, ◌+◌, ◌-◌, ◌*◌, ◌^◌, ◌<◌, ◌≡◌, refl, ap, sym, ◌∙◌, ◌↔◌, inl, inr, get_or-append, true,
  Bool-cases, List, [], ◌∷◌, ◌++◌, ◌==◌, ==_iff, le→not-ltb, bit_xor, bit_and, bit_or, u16, u64,
  length, length-append, take-append, get_or, arith, Bytes, ◌<<<◌,
}
use vfrs.Common.Bits.{bit_or-add, bit_or_comm}
use vfrs.Common.Bits.Xor.{xor-lt}
use vfrs.Frame.Crc.{
  crc_octet, crc_octets, crc_align, load64, crc_word, crc_words, crc16_fcs_speed, crc16_fcs,
  crc16_check,
}
use vfrs.Frame.Crc.Linear.{shifts, shifts-lt}
use vfrs.Frame.Crc.Reference.{remainder, crc_octet_lem}
use vfrs.Frame.Crc.Words.{crc_word_lem}

pub remainder-lt : (fcs : ℕ) (bs : List ℕ) → fcs < 2 ^ 16 → Bytes bs → remainder fcs bs < 2 ^ 16
unfolding remainder
remainder-lt fcs [] h k = h
remainder-lt fcs (b ∷ bs) h k =
    remainder-lt (shifts 8 (bit_xor fcs b)) bs
      (shifts-lt 8 (bit_xor fcs b) (xor-lt 16 fcs b h (omega (arith, k.0)))) k.1

pub remainder-append :
    (fcs : ℕ) (xs ys : List ℕ) → remainder fcs (xs ++ ys) ≡ remainder (remainder fcs xs) ys
unfolding remainder
remainder-append fcs [] ys = refl
remainder-append fcs (x ∷ xs) ys = remainder-append (shifts 8 (bit_xor fcs x)) xs ys

crc_octet-lt : (fcs b : ℕ) → fcs < 2 ^ 16 → b < 256 → crc_octet fcs b < 2 ^ 16
crc_octet-lt fcs b h k =
    rw (crc_octet_lem fcs b h k) (shifts-lt 8 (bit_xor fcs b) (xor-lt 16 fcs b h (omega arith)))

crc_octets_lem :
    (fcs : ℕ) (bs : List ℕ) → fcs < 2 ^ 16 → Bytes bs → crc_octets fcs bs ≡ remainder fcs bs
unfolding crc_octets remainder
crc_octets_lem fcs [] h k = refl
crc_octets_lem fcs (b ∷ bs) h k =
    crc_octets_lem (crc_octet fcs b) bs (crc_octet-lt fcs b h k.0) k.1
    ∙ ap (λ t. remainder t bs) (crc_octet_lem fcs b h k.0)

-- What a phase has taken in, and what it leaves.
record Consumed (fcs : ℕ) (bs : List ℕ) (out : ℕ × List ℕ) : Type 0 where
  sum_word : out.0 < 2 ^ 16
  rest_bytes : Bytes out.1
  same : remainder out.0 out.1 ≡ remainder fcs bs

crc_align_lem :
    (next fcs : ℕ) (bs : List ℕ) → fcs < 2 ^ 16 → Bytes bs → Consumed fcs bs (crc_align next fcs bs)
unfolding crc_align remainder
crc_align_lem next fcs [] h k = record { sum_word = h; rest_bytes = k; same = refl }
crc_align_lem next fcs (b ∷ bs) h k = elim (Bool-cases (bit_and next 7 == 0)) [
  | inl stop ↦ rw (stop, crc_align) (record { sum_word = h; rest_bytes = k; same = refl })
  | inr go ↦
      let ih = crc_align_lem (u64 (next + 1)) (crc_octet fcs b) bs (crc_octet-lt fcs b h k.0) k.1 in
      rw (go, crc_align)
        (record {
          sum_word = ih.sum_word;
          rest_bytes = ih.rest_bytes;
          same = ih.same ∙ ap (λ t. remainder t bs) (crc_octet_lem fcs b h k.0);
        })
]

crc_words_lem :
    (fcs : ℕ) (bs : List ℕ) → fcs < 2 ^ 16 → Bytes bs → Consumed fcs bs (crc_words fcs bs)
unfolding crc_words
crc_words_lem fcs (b0 ∷ b1 ∷ b2 ∷ b3 ∷ b4 ∷ b5 ∷ b6 ∷ b7 ∷ bs) h k =
    let first = b0 ∷ b1 ∷ b2 ∷ b3 ∷ b4 ∷ b5 ∷ b6 ∷ b7 ∷ [] in
    let e =
      crc_word_lem fcs b0 b1 b2 b3 b4 b5 b6 b7 h k.0 k.1.0 k.1.1.0 k.1.1.1.0 k.1.1.1.1.0
        k.1.1.1.1.1.0 k.1.1.1.1.1.1.0 k.1.1.1.1.1.1.1.0 in
    let bound : crc_word fcs (load64 b0 b1 b2 b3 b4 b5 b6 b7) < 2 ^ 16 =
      rw e (remainder-lt fcs first h (omega arith)) in
    let ih =
      crc_words_lem (crc_word fcs (load64 b0 b1 b2 b3 b4 b5 b6 b7)) bs bound k.1.1.1.1.1.1.1.1 in
    record {
      sum_word = ih.sum_word;
      rest_bytes = ih.rest_bytes;
      same = ih.same ∙ ap (λ t. remainder t bs) e ∙ sym (remainder-append fcs first bs);
    }
crc_words_lem fcs bs h k = record { sum_word = h; rest_bytes = k; same = refl }

crc16_fcs_speed_lem :
    (next fcs : ℕ) (buf : List ℕ)
    → fcs < 2 ^ 16
    → Bytes buf
    → crc16_fcs_speed next fcs buf ≡ remainder fcs buf
unfolding crc16_fcs_speed
crc16_fcs_speed_lem next fcs buf h k =
    let a = crc_align_lem next fcs buf h k in
    let w =
      crc_words_lem (crc_align next fcs buf).0 (crc_align next fcs buf).1 a.sum_word a.rest_bytes in
    crc_octets_lem _ _ w.sum_word w.rest_bytes ∙ w.same ∙ a.same

-- At whatever address the buffer starts, the slice-by-eight routine gives the complement of the
-- remainder that shifting the octets bit by bit through the polynomial 0x8408 leaves.
pub crc16_fcs-eq-remainder :
    (next : ℕ) (buf : List ℕ)
    → Bytes buf
    → crc16_fcs next buf ≡ bit_xor (remainder 0xFFFF buf) 0xFFFF
unfolding crc16_fcs
crc16_fcs-eq-remainder next buf k =
    ap (λ t. bit_xor t 0xFFFF) (crc16_fcs_speed_lem next 0xFFFF buf (omega arith) k)

pub crc16_fcs-lt : (next : ℕ) (buf : List ℕ) → Bytes buf → crc16_fcs next buf < 2 ^ 16
crc16_fcs-lt next buf k = rw (crc16_fcs-eq-remainder next buf k) (
    xor-lt 16 (remainder 0xFFFF buf) 0xFFFF (remainder-lt 0xFFFF buf (omega arith) k) (omega arith))

pub crc16_fcs_address :
    (next next' : ℕ) (buf : List ℕ) → Bytes buf → crc16_fcs next buf ≡ crc16_fcs next' buf
crc16_fcs_address next next' buf k =
    crc16_fcs-eq-remainder next buf k ∙ sym (crc16_fcs-eq-remainder next' buf k)

-- A frame passes the check exactly if its last two octets are the sum of those before them, low
-- octet first.
pub crc16_check_iff :
    (next : ℕ) (buf : List ℕ) (low high : ℕ)
    → Bytes buf
    → low < 256
    → high < 256
    → (crc16_check next (buf ++ (low ∷ high ∷ [])) ≡ true) ↔ (crc16_fcs next buf ≡ low + high * 256)
unfolding crc16_check
crc16_check_iff next buf low high k hl hh =
    let n = length buf in
    let frame = buf ++ (low ∷ high ∷ []) in
    let len : length frame ≡ n + 2 = length-append buf (low ∷ high ∷ []) in
    let body : n + 2 - 2 ≡ n + 0 = omega arith in
    let last : n + 2 - 1 ≡ n + 1 = omega arith in
    let none : n + 0 ≡ n = omega arith in
    let first : get_or frame (n + 0) 0 ≡ low = get_or-append buf (low ∷ high ∷ []) 0 0 in
    let second : get_or frame (n + 1) 0 ≡ high = get_or-append buf (low ∷ high ∷ []) 1 0 in
    let word : u16 (bit_or low (high <<< 8)) ≡ low + high * 256 =
      omega
        (arith, bit_or_comm low (high * 2 ^ 8), bit_or-add 8 (high * 2 ^ 8) low (omega arith) hl) in
    rw
      (
        len,
        le→not-ltb (n + 2) 2 (omega arith),
        body,
        last,
        first,
        second,
        word,
        none,
        take-append buf (low ∷ high ∷ []),
      )
      (==_iff (crc16_fcs next buf) (low + high * 256))
