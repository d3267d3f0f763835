-- ===== src/Numbering.antt =====
-- The expansion of numbers of src/ports/svc_numbering/svc_numbering.c.
-- A string is the list of its octets before the NUL.
pub mod Expand
pub mod Register
pub mod Tests
use vfrs.Common.{
  ℕ, zero, suc, ◌+◌, ◌-◌, ◌*◌, ◌/◌, ◌%◌, Bool, true, false, ◌&&◌, ◌||◌, List, [], ◌∷◌, ◌++◌, ltb,
  leb, ◌==◌, if◌then◌else◌, length, take, replicate,
}

-- The fields of `vfrs_ctx_t` that name the switch.
pub record Numbering : Type 0 where
  pub dnic : ℕ
  pub sgclen : ℕ
  pub sgc : ℕ
  pub siclen : ℕ
  pub sic : ℕ

-- The decimal digits of a number of at most `suc fuel` digits, before `after`.
pub decimal : ℕ → ℕ → List ℕ → List ℕ
decimal zero n after = (48 + n % 10) ∷ after
decimal (suc fuel) n after =
    let more = decimal fuel (n / 10) ((48 + n % 10) ∷ after) in
    if ltb n 10 then ((48 + n % 10) ∷ after) else more

-- `"%0*u"` into an array of 16 octets. An unsigned int has at most ten digits.
pub padded : ℕ → ℕ → List ℕ
unfolding decimal
padded width n =
    let digits = decimal 9 n [] in take 15 (replicate (width - length digits) 48 ++ digits)

abbrev pub code_len : ℕ → ℕ
code_len len = if ltb 0 len && leb len 8 then len else 1

-- The three strings that stand for DNIC, SGC and SIC.
pub record Codes : Type 0 where
  pub dnic_str : List ℕ
  pub sgc_str : List ℕ
  pub sic_str : List ℕ

pub codes : Numbering → Codes
unfolding padded
codes ctx = record {
  dnic_str = padded 4 ctx.dnic;
  sgc_str = padded (code_len ctx.sgclen) ctx.sgc;
  sic_str = padded (code_len ctx.siclen) ctx.sic;
}

abbrev pub lower : ℕ → ℕ
lower c = if leb 65 c && leb c 90 then c + 32 else c

-- `strncasecmp(p, word, strlen(word)) == 0`, for a word in small letters
pub starts : List ℕ → List ℕ → Bool
starts [] p = true
starts (w ∷ word) [] = false
starts (w ∷ word) (c ∷ p) = lower c == w && starts word p

-- What a place of the input stands for, and how many of its octets that takes.
pub record Piece : Type 0 where
  pub text : List ℕ
  pub used : ℕ

-- The tests of the loop at the octet `c`, with `p` after it.
pub piece : Codes → ℕ → List ℕ → Piece
unfolding starts
piece k c p =
    if c == 44
    then record { text = []; used = 1 }
    else if starts (100 ∷ 110 ∷ 105 ∷ 99 ∷ []) (c ∷ p)
    then record { text = k.dnic_str; used = 4 }
    else if starts (115 ∷ 103 ∷ 114 ∷ 99 ∷ []) (c ∷ p)
    then record { text = k.sgc_str; used = 4 }
    else if starts (115 ∷ 103 ∷ 99 ∷ []) (c ∷ p)
    then record { text = k.sgc_str; used = 3 }
    else if starts (115 ∷ 121 ∷ 115 ∷ 99 ∷ []) (c ∷ p)
    then record { text = k.sic_str; used = 4 }
    else if starts (115 ∷ 105 ∷ 99 ∷ []) (c ∷ p)
    then record { text = k.sic_str; used = 3 }
    else if c == 68 || c == 100
    then record { text = k.dnic_str; used = 1 }
    else if c == 71 || c == 103
    then record { text = k.sgc_str; used = 1 }
    else if c == 69 || c == 101
    then record { text = k.sic_str; used = 1 }
    else record { text = c ∷ []; used = 1 }

-- The loop: `skip` octets belong to a keyword that was taken. What does not fit is left out.
pub expand_from : ℕ → Codes → ℕ → ℕ → List ℕ → List ℕ
unfolding piece
expand_from out_len k out_idx skip [] = []
expand_from out_len k out_idx (suc skip) (c ∷ p) = expand_from out_len k out_idx skip p
expand_from out_len k out_idx zero (c ∷ p) =
    let here = piece k c p in
    let copied : List ℕ = if ltb (out_idx + length here.text) out_len then here.text else [] in
    copied ++ expand_from out_len k (out_idx + length copied) (here.used - 1) p

-- The result in `out_buf`, which has `out_len` octets with the NUL.
pub expand : Numbering → List ℕ → ℕ → List ℕ
unfolding codes expand_from
expand ctx raw out_len = if out_len == 0 then [] else expand_from out_len (codes ctx) 0 0 raw
