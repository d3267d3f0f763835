-- ===== src/Numbering/Expand.antt =====
-- The expansion stays in its buffer, keeps digits, and puts the switch's own codes for `DGE`.
use vfrs.Common.{
  ℕ, zero, suc, ◌+◌, ◌-◌, ◌≤◌, ◌<◌, ◌≡◌, refl, ap, ◌∙◌, inl, inr, false, Bool-cases, All, List, [],
  ◌∷◌, ◌++◌, ltb, leb, ◌==◌, length, length-append, arith, lt→ltb,
}
use vfrs.Numbering.{Numbering, Codes, codes, starts, piece, expand_from, expand}

not_zero : (n : ℕ) → 0 < n → (n == 0) ≡ false
not_zero n h = ground arith

expand_from-fits :
    (out_len : ℕ) (k : Codes) (out_idx skip : ℕ) (p : List ℕ)
    → out_idx < out_len
    → out_idx + length (expand_from out_len k out_idx skip p) < out_len
unfolding expand_from
expand_from-fits out_len k out_idx skip [] h = omega arith
expand_from-fits out_len k out_idx (suc skip) (c ∷ p) h =
    expand_from-fits out_len k out_idx skip p h
expand_from-fits out_len k out_idx zero (c ∷ p) h =
    elim (Bool-cases (ltb (out_idx + length (piece k c p).text) out_len)) [
      | inl e ↦
          let ih =
            expand_from-fits out_len k (out_idx + length (piece k c p).text)
              ((piece k c p).used - 1) p (ground arith) in
          rw e (
            omega (
              arith,
              ih,
              length-append (piece k c p).text (
                  expand_from out_len k (out_idx + length (piece k c p).text)
                    ((piece k c p).used - 1) p),
            ))
      | inr e ↦
          let ih =
            expand_from-fits out_len k (out_idx + 0) ((piece k c p).used - 1) p (omega arith) in
          rw e (omega (arith, ih))
    ]

-- Whatever the input, what is written to a buffer of positive size fits it, with the NUL at the end.
pub expand-fits :
    (ctx : Numbering) (raw : List ℕ) (out_len : ℕ)
    → 0 < out_len
    → length (expand ctx raw out_len) < out_len
unfolding expand
expand-fits ctx raw out_len h =
    let c : (out_len == 0) ≡ false = not_zero out_len (omega arith) in
    rw c (omega (arith, expand_from-fits out_len (codes ctx) 0 0 raw h))

-- A decimal digit.
pub record IsDigit (c : ℕ) : Type 0 where
  pub low : 48 ≤ c
  pub high : c ≤ 57

piece-digit :
    (k : Codes) (c : ℕ) (p : List ℕ) → IsDigit c → piece k c p ≡ record { text = c ∷ []; used = 1 }
unfolding piece starts
piece-digit k c p d =
    let l : leb 65 c ≡ false = ground (arith, d) in
    let t1 : (c == 44) ≡ false = ground (arith, d) in
    let t2 : (c == 100) ≡ false = ground (arith, d) in
    let t3 : (c == 115) ≡ false = ground (arith, d) in
    let t4 : (c == 68) ≡ false = ground (arith, d) in
    let t5 : (c == 71) ≡ false = ground (arith, d) in
    let t6 : (c == 103) ≡ false = ground (arith, d) in
    let t7 : (c == 69) ≡ false = ground (arith, d) in
    let t8 : (c == 101) ≡ false = ground (arith, d) in rw (l, t1, t2, t3, t4, t5, t6, t7, t8)

-- A piece that fits is copied.
expand_from-copies :
    (out_len : ℕ) (k : Codes) (out_idx c : ℕ) (p text : List ℕ)
    → piece k c p ≡ record { text = text; used = 1 }
    → out_idx + length text < out_len
    → expand_from out_len k out_idx 0 (c ∷ p)
      ≡ text ++ expand_from out_len k (out_idx + length text) 0 p
unfolding expand_from
expand_from-copies out_len k out_idx c p text e h = rw (e, lt→ltb (out_idx + length text) out_len h)

expand_from-nil : (out_len : ℕ) (k : Codes) (out_idx : ℕ) → expand_from out_len k out_idx 0 [] ≡ []
unfolding expand_from
expand_from-nil out_len k out_idx = refl

expand_from-digits :
    (out_len : ℕ) (k : Codes) (out_idx : ℕ) (p : List ℕ)
    → All IsDigit p
    → out_idx + length p < out_len
    → expand_from out_len k out_idx 0 p ≡ p
expand_from-digits out_len k out_idx [] d h = expand_from-nil out_len k out_idx
expand_from-digits out_len k out_idx (c ∷ p) d h =
    expand_from-copies out_len k out_idx c p (c ∷ []) (piece-digit k c p d.0) (omega arith)
    ∙ ap (λ t. c ∷ t) (expand_from-digits out_len k (out_idx + 1) p d.1 (omega arith))

-- A number of digits alone that fits the buffer is expanded to itself.
pub expand-digits :
    (ctx : Numbering) (raw : List ℕ) (out_len : ℕ)
    → All IsDigit raw
    → length raw < out_len
    → expand ctx raw out_len ≡ raw
unfolding expand
expand-digits ctx raw out_len d h =
    let c : (out_len == 0) ≡ false = not_zero out_len (omega arith) in
    rw c (expand_from-digits out_len (codes ctx) 0 raw d (omega arith))

-- "DGE" before digits, as for a subscriber with an automatic prefix, becomes the DNIC, the SGC and
-- the SIC of the switch before the same digits, if the whole fits the buffer.
pub expand-prefix :
    (ctx : Numbering) (number : List ℕ) (out_len : ℕ)
    → All IsDigit number
    → let k = codes ctx in
      length k.dnic_str + length k.sgc_str + length k.sic_str + length number < out_len
      → expand ctx (68 ∷ 71 ∷ 69 ∷ number) out_len
        ≡ k.dnic_str ++ (k.sgc_str ++ (k.sic_str ++ number))
unfolding expand
expand-prefix ctx number out_len d h =
    let k = codes ctx in
    let c : (out_len == 0) ≡ false = not_zero out_len (omega arith) in
    let n1 = length k.dnic_str in
    let n2 = n1 + length k.sgc_str in
    rw c (
      expand_from-copies out_len k 0 68 (71 ∷ 69 ∷ number) k.dnic_str refl (omega arith)
      ∙ ap (λ t. k.dnic_str ++ t)
          (expand_from-copies out_len k (0 + n1) 71 (69 ∷ number) k.sgc_str refl (omega arith)
            ∙ ap (λ t. k.sgc_str ++ t)
                (expand_from-copies out_len k (0 + n1 + length k.sgc_str) 69 number k.sic_str refl
                    (omega arith)
                  ∙ ap (λ t. k.sic_str ++ t)
                      (expand_from-digits out_len k (0 + n1 + length k.sgc_str + length k.sic_str)
                        number d (omega arith)))))
