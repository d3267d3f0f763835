-- ===== src/Cllm/Params.antt =====
-- The parameters of a group: what the builder writes and what the parser reads.
use vfrs.Common.{
  ℕ, zero, suc, ◌+◌, ◌*◌, ◌/◌, ◌%◌, ◌^◌, ◌≤◌, ◌<◌, ◌≡◌, ◌≢◌, refl, ap, ap₂, ◌∙◌, ◌⊎◌, inl, inr,
  Bool, true, false, All, Option, none, some, List, [], ◌∷◌, ◌++◌, ltb, ◌==◌, if◌then◌else◌, length,
  length-append, length-drop, take, drop, arith, le→not-ltb,
}
use vfrs.Frame.Addr.Octets.{low_4, low_6, low_7}
use vfrs.Frame.Addr.RoundTrip.{dlci_2_lem, dlci_4_lem}
use vfrs.Cllm.{
  list_entry, list_entries, read_2, read_4, read_list, Notice, out_of_fuel, malformed, parsed,
  parse_param, parse_params,
}

-- The two widths of a list's entries.
abbrev pub IsWidth : ℕ → Type 0
IsWidth w = (w ≡ 2) ⊎ (w ≡ 4)

-- The largest DLCI of a width, and one more.
abbrev pub limit : ℕ → ℕ
limit w = if w == 4 then 2 ^ 23 else 2 ^ 10

length-list_entry : (w dlci : ℕ) → IsWidth w → length (list_entry w dlci) ≡ w
unfolding list_entry
length-list_entry w dlci v = ground arith

-- The entries where there is room for all.
pub spread : ℕ → List ℕ → List ℕ
spread w [] = []
spread w (dlci ∷ dlcis) = list_entry w dlci ++ spread w dlcis

pub length-spread :
    (w : ℕ) (dlcis : List ℕ) → IsWidth w → length (spread w dlcis) ≡ w * length dlcis
unfolding spread
length-spread w [] v = omega arith
length-spread w (dlci ∷ dlcis) v =
    let e : w * suc (length dlcis) ≡ w + w * length dlcis = grind arith in
    omega (
      arith,
      length-append (list_entry w dlci) (spread w dlcis),
      length-list_entry w dlci v,
      length-spread w dlcis v,
      e,
    )

pub list_entries-spread :
    (max_len w pos : ℕ) (dlcis : List ℕ)
    → IsWidth w
    → pos + w * length dlcis ≤ max_len
    → list_entries max_len w pos dlcis ≡ spread w dlcis
unfolding list_entries spread
list_entries-spread max_len w pos [] v h = refl
list_entries-spread max_len w pos (dlci ∷ dlcis) v h =
    let e : w * suc (length dlcis) ≡ w + w * length dlcis = grind arith in
    let l = length-list_entry w dlci v in
    rw (le→not-ltb max_len (pos + w) (omega arith)) (
      ap (λ t. list_entry w dlci ++ t)
        (list_entries-spread max_len w (pos + length (list_entry w dlci)) dlcis v (omega arith)))

entry_2 : (dlci : ℕ) → list_entry 2 dlci ≡ dlci / 16 % 64 * 4 ∷ dlci % 16 * 16 ∷ []
unfolding list_entry
entry_2 dlci =
    rw (low_6 (dlci / 16), low_4 dlci) (ap₂ (λ a b. a ∷ b ∷ []) (omega arith) (omega arith))

entry_4 :
    (dlci : ℕ)
    → list_entry 4 dlci
      ≡ dlci / 131072 % 64 * 4 ∷ dlci / 8192 % 16 * 16 ∷ dlci / 64 % 128 * 2 ∷ dlci % 64 * 4 ∷ []
unfolding list_entry
entry_4 dlci =
    rw (low_6 (dlci / 131072), low_4 (dlci / 8192), low_7 (dlci / 64), low_6 dlci)
      (ap₂ ◌∷◌ (omega arith)
        (ap₂ ◌∷◌ (omega arith) (ap₂ (λ a b. a ∷ b ∷ []) (omega arith) (omega arith))))

read_2-spread :
    (room : ℕ) (dlcis : List ℕ)
    → length dlcis ≤ room
    → All (λ d. d < 2 ^ 10) dlcis
    → read_2 room (spread 2 dlcis) ≡ dlcis
unfolding read_2 spread
read_2-spread zero [] h k = refl
read_2-spread zero (d ∷ ds) h k = absurd (omega arith)
read_2-spread (suc room) [] h k = refl
read_2-spread (suc room) (d ∷ ds) h k = rw (entry_2 d) (
    ap₂ ◌∷◌
      (dlci_2_lem (d / 16 % 64 * 4) (d % 16 * 16) [] (omega arith) (omega arith)
        ∙ omega (arith, k.0))
      (read_2-spread room ds (omega arith) k.1))

read_4-spread :
    (room : ℕ) (dlcis : List ℕ)
    → length dlcis ≤ room
    → All (λ d. d < 2 ^ 23) dlcis
    → read_4 room (spread 4 dlcis) ≡ dlcis
unfolding read_4 spread
read_4-spread zero [] h k = refl
read_4-spread zero (d ∷ ds) h k = absurd (omega arith)
read_4-spread (suc room) [] h k = refl
read_4-spread (suc room) (d ∷ ds) h k = rw (entry_4 d) (
    ap₂ ◌∷◌
      (dlci_4_lem (d / 131072 % 64 * 4) (d / 8192 % 16 * 16) (d / 64 % 128 * 2) (d % 64 * 4) []
          (omega arith) (omega arith) (omega arith) (omega arith)
        ∙ omega (arith, k.0))
      (read_4-spread room ds (omega arith) k.1))

pub read_list-spread :
    (w room : ℕ) (dlcis : List ℕ)
    → IsWidth w
    → length dlcis ≤ room
    → All (λ d. d < limit w) dlcis
    → read_list w room (spread w dlcis) ≡ dlcis
read_list-spread w room dlcis (inl two) h = rw two (λ k. read_2-spread room dlcis h k)
read_list-spread w room dlcis (inr four) h = rw four (λ k. read_4-spread room dlcis h k)

-- A parameter whose value is within the group is taken, and the loop goes on after it.
pub parse_params-step :
    (fuel addr_len max_dlcis : ℕ) (notice next : Notice) (pi pl : ℕ) (rest : List ℕ)
    → pl ≤ length rest
    → parse_param addr_len max_dlcis notice pi (take pl rest) ≡ some next
    → parse_params (suc fuel) addr_len max_dlcis notice (pi ∷ pl ∷ rest)
      ≡ parse_params fuel addr_len max_dlcis next (drop pl rest)
unfolding parse_params
parse_params-step fuel addr_len max_dlcis notice next pi pl rest h e =
    ap
      (λ b. elim b [
        | true ↦ malformed
        | false ↦ elim (parse_param addr_len max_dlcis notice pi (take pl rest)) [
          | none ↦ malformed
          | some notice' ↦ parse_params fuel addr_len max_dlcis notice' (drop pl rest)
        ]
      ])
      (le→not-ltb (length rest) pl h)
    ∙ ap
        (λ o. elim o [
          | none ↦ malformed
          | some notice' ↦ parse_params fuel addr_len max_dlcis notice' (drop pl rest)
        ])
        e

pub parse_params-nil :
    (fuel addr_len max_dlcis : ℕ) (notice : Notice)
    → parse_params fuel addr_len max_dlcis notice [] ≡ parsed notice
unfolding parse_params
parse_params-nil zero addr_len max_dlcis notice = refl
parse_params-nil (suc fuel) addr_len max_dlcis notice = refl

-- A round that goes on to an end, if it goes on, comes to an end.
round-ends :
    (n addr_len max_dlcis pl : ℕ) (rest : List ℕ) (outside : Bool) (read : Option Notice)
    → ((next : Notice) → parse_params n addr_len max_dlcis next (drop pl rest) ≢ out_of_fuel)
    → elim outside [
      | true ↦ malformed
      | false ↦ elim read [
        | none ↦ malformed
        | some next ↦ parse_params n addr_len max_dlcis next (drop pl rest)
      ]
    ]
      ≢ out_of_fuel
round-ends n addr_len max_dlcis pl rest true read h = ground arith
round-ends n addr_len max_dlcis pl rest false none h = ground arith
round-ends n addr_len max_dlcis pl rest false (some next) h = h next

-- The loop over the parameters of a group comes to its end, which is the end of the group or a
-- malformed parameter, within as many rounds as the group has octets, whatever these are.
pub parse_params-ends :
    (n addr_len max_dlcis : ℕ) (notice : Notice) (group : List ℕ)
    → length group ≤ n
    → parse_params n addr_len max_dlcis notice group ≢ out_of_fuel
unfolding parse_params
parse_params-ends zero addr_len max_dlcis notice [] h = ground arith
parse_params-ends (suc n) addr_len max_dlcis notice [] h = ground arith
parse_params-ends zero addr_len max_dlcis notice (pi ∷ group) h = absurd (omega arith)
parse_params-ends (suc n) addr_len max_dlcis notice (pi ∷ []) h = ground arith
parse_params-ends (suc n) addr_len max_dlcis notice (pi ∷ pl ∷ rest) h =
    round-ends n addr_len max_dlcis pl rest (ltb (length rest) pl)
      (parse_param addr_len max_dlcis notice pi (take pl rest))
      (λ next.
        parse_params-ends n addr_len max_dlcis next (drop pl rest)
          (omega (arith, length-drop pl rest)))
