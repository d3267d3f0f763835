-- ===== src/Numbering/Tests.antt =====
-- Expansions at a switch with DNIC 3100, SGC 7 of two digits and SIC 5.
use vfrs.Common.{ℕ, ◌+◌, ◌<◌, ◌≡◌, refl, All, List, [], ◌∷◌, ◌++◌, length, arith}
use vfrs.Numbering.{Numbering, codes, padded, decimal, expand_from, piece, starts, expand}
use vfrs.Numbering.Expand.{IsDigit, expand-prefix}

abbrev switch : Numbering
switch = record { dnic = 3100; sgclen = 2; sgc = 7; siclen = 0; sic = 5 }

-- "42"
abbrev number : List ℕ
number = 52 ∷ 50 ∷ []

number-IsDigit : All IsDigit number
number-IsDigit = (
  record { low = omega arith; high = omega arith },
  (record { low = omega arith; high = omega arith }, tt),
)

room :
    let k = codes switch in
    length k.dnic_str + length k.sgc_str + length k.sic_str + length number < 21
unfolding codes padded decimal
room = omega arith

expand-prefix_example :
    let k = codes switch in
    expand switch (68 ∷ 71 ∷ 69 ∷ number) 21 ≡ k.dnic_str ++ (k.sgc_str ++ (k.sic_str ++ number))
expand-prefix_example = expand-prefix switch number 21 number-IsDigit room

-- "3100" "07" "5" "42"
spelled : expand switch (68 ∷ 71 ∷ 69 ∷ number) 21 ≡ 51 ∷ 49 ∷ 48 ∷ 48 ∷ 48 ∷ 55 ∷ 53 ∷ 52 ∷ 50 ∷ []
unfolding expand codes padded decimal expand_from piece starts
spelled = refl
