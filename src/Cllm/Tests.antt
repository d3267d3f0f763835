-- ===== src/Cllm/Tests.antt =====
-- Runs of the CLLM builder and parser.
use vfrs.Common.{ℕ, ◌<◌, ◌≡◌, ◌≢◌, refl, inl, All, none, some, List, [], ◌∷◌, arith}
use vfrs.Cllm.{Notice, out_of_fuel, malformed, parsed, build_xid, parse_params, parse_xid}
use vfrs.Cllm.Params.{limit, parse_params-ends}
use vfrs.Cllm.RoundTrip.{parse_xid-build_xid}

abbrev listed : List ℕ
listed = 100 ∷ 991 ∷ 16 ∷ []

listed_small : All (λ d. d < limit 2) listed
listed_small = (omega arith, (omega arith, (omega arith, tt)))

parse_xid-build_xid_example :
    (frame : List ℕ) × (build_xid 256 2 listed 2 ≡ some frame)
    × (parse_xid frame 64 ≡ some (record { congestion_level = some 2; dlci_list = listed }))
parse_xid-build_xid_example =
    parse_xid-build_xid 2 2 64 256 listed (inl refl) (omega arith) listed_small (omega arith)
      (omega arith)

abbrev nothing : Notice
nothing = record { congestion_level = none; dlci_list = [] }

-- An unknown parameter before a known one.
abbrev mixed : List ℕ
mixed = 0x7F ∷ 0x02 ∷ 1 ∷ 2 ∷ 0x02 ∷ 0x01 ∷ 0x03 ∷ []

parse_params-ends_example : parse_params 7 2 64 nothing mixed ≢ out_of_fuel
parse_params-ends_example = parse_params-ends 7 2 64 nothing mixed (omega arith)

unknown_skipped :
    parse_params 7 2 64 nothing mixed
    ≡ parsed (record { congestion_level = some 3; dlci_list = [] })
unfolding parse_params
unknown_skipped = refl

cut_off : parse_params 7 2 64 nothing (0x02 ∷ 0x03 ∷ 1 ∷ []) ≡ malformed
unfolding parse_params
cut_off = refl
