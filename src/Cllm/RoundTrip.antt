-- ===== src/Cllm/RoundTrip.antt =====
-- A message that the builder writes is read back by the parser.
use vfrs.Common.{
  ℕ, zero, suc, ◌+◌, ◌-◌, ◌*◌, ◌≤◌, ◌<◌, ◌≡◌, refl, sym, ap, ◌∙◌, inl, inr, false, ◌||◌, All, none,
  some, List, [], ◌∷◌, ◌++◌, bit_and, bit_or, ltb, length, length-append, get_or-append, take, drop,
  drop-append, drop-drop, take_all, ◌>>>◌, ◌<<<◌, u8, u16, arith, le→not-ltb,
}
use vfrs.Common.Bits.{bit_and_mask, bit_or_shifted}
use vfrs.Frame.Addr.{octet, get_addr_len}
use vfrs.Frame.Addr.Length.{addr_len_2, addr_len_4}
use vfrs.Cllm.{
  cllm_xid_ctrl, cllm_fi, cllm_gi, cllm_address, group_value, build_xid, Notice, parse_param,
  parse_params, parse_xid, parsed, returned,
}
use vfrs.Cllm.Params.{
  IsWidth, limit, spread, length-spread, list_entries-spread, read_list-spread, parse_params-step,
  parse_params-nil,
}

length-cllm_address : (w : ℕ) → IsWidth w → length (cllm_address w) ≡ w
unfolding cllm_address
length-cllm_address w (inl two) = rw two
length-cllm_address w (inr four) = rw four

get_addr_len-cllm_address :
    (w : ℕ) (rest : List ℕ) (n : ℕ)
    → IsWidth w
    → w ≤ n
    → get_addr_len (cllm_address w ++ rest) n ≡ w
unfolding cllm_address
get_addr_len-cllm_address w rest n (inl two) =
    rw two (λ h. addr_len_2 250 241 rest n (omega arith) (omega arith) h)
get_addr_len-cllm_address w rest n (inr four) =
    rw four (λ h. addr_len_4 2 0 30 (189 ∷ rest) n (omega arith) (omega arith) (omega arith) h)

module _ (w level max_dlcis : ℕ) (dlcis : List ℕ) (v : IsWidth w) (few : length dlcis ≤ max_dlcis)
    (small : All (λ d. d < limit w) dlcis) (short : w * length dlcis < 256) where
  abbrev listed : List ℕ
  listed = u8 (w * length dlcis) ∷ spread w dlcis

  abbrev group : List ℕ
  group = 0x00 ∷ 0x04 ∷ 0x49 ∷ 0x31 ∷ 0x32 ∷ 0x32 ∷ 0x02 ∷ 0x01 ∷ level ∷ 0x03 ∷ listed

  abbrev notice : Notice
  notice = record { congestion_level = some level; dlci_list = dlcis }

  abbrev empty : Notice
  empty = record { congestion_level = none; dlci_list = [] }

  abbrev levelled : Notice
  levelled = record { congestion_level = some level; dlci_list = [] }

  pl_lem : u8 (w * length dlcis) ≡ length (spread w dlcis)
  pl_lem = omega (arith, length-spread w dlcis v)

  list_param :
      parse_param w max_dlcis levelled 0x03 (take (u8 (w * length dlcis)) (spread w dlcis))
      ≡ some notice
  unfolding parse_param
  list_param =
      let all : take (u8 (w * length dlcis)) (spread w dlcis) ≡ spread w dlcis =
        take_all (u8 (w * length dlcis)) (spread w dlcis) (omega (arith, pl_lem)) in
      let room : length dlcis ≤ max_dlcis - 0 = omega arith in
      rw all (
        ap (λ t. some (record { congestion_level = some level; dlci_list = t }))
          (read_list-spread w (max_dlcis - 0) dlcis v room small))

  drop_all : (n : ℕ) (xs : List ℕ) → length xs ≤ n → drop n xs ≡ []
  drop_all zero [] h = refl
  drop_all zero (x ∷ xs) h = absurd (omega arith)
  drop_all (suc n) [] h = refl
  drop_all (suc n) (x ∷ xs) h = drop_all n xs (omega arith)

  first_param : parse_param w max_dlcis empty 0x00 (0x49 ∷ 0x31 ∷ 0x32 ∷ 0x32 ∷ []) ≡ some empty
  unfolding parse_param
  first_param = refl

  second_param : parse_param w max_dlcis empty 0x02 (level ∷ []) ≡ some levelled
  unfolding parse_param
  second_param = refl

  group-read :
      (fuel : ℕ) → parse_params (suc (suc (suc fuel))) w max_dlcis empty group ≡ parsed notice
  group-read fuel =
      parse_params-step (suc (suc fuel)) w max_dlcis empty empty 0x00 4
        (0x49 ∷ 0x31 ∷ 0x32 ∷ 0x32 ∷ 0x02 ∷ 0x01 ∷ level ∷ 0x03 ∷ listed) (omega arith) first_param
      ∙ parse_params-step (suc fuel) w max_dlcis empty levelled 0x02 1 (level ∷ 0x03 ∷ listed)
          (omega arith) second_param
      ∙ parse_params-step fuel w max_dlcis levelled notice 0x03 (u8 (w * length dlcis))
          (spread w dlcis) (omega (arith, pl_lem)) list_param
      ∙ ap (parse_params fuel w max_dlcis notice)
          (drop_all (u8 (w * length dlcis)) (spread w dlcis) (omega (arith, pl_lem)))
      ∙ parse_params-nil fuel w max_dlcis notice

  gl : ℕ
  gl = u16 (length group)

  abbrev header : List ℕ
  header = cllm_xid_ctrl ∷ cllm_fi ∷ cllm_gi ∷ u8 (gl >>> 8) ∷ u8 (bit_and gl 0xFF) ∷ group

  gl_lem : gl ≡ 11 + w * length dlcis
  unfolding gl
  gl_lem = omega (arith, length-spread w dlcis v)

  gl_read : u16 (bit_or (u8 (gl >>> 8) <<< 8) (u8 (bit_and gl 0xFF))) ≡ gl
  gl_read = omega (
    arith,
    gl_lem,
    bit_and_mask 8 gl 0xFF refl,
    bit_or_shifted 8 (u8 (gl >>> 8)) (u8 (bit_and gl 0xFF)) (omega arith),
  )

  written : List ℕ
  written = cllm_address w ++ header

  length-written : length written ≡ w + 16 + w * length dlcis
  unfolding written
  length-written = omega (
    arith,
    length-append (cllm_address w) header,
    length-cllm_address w v,
    length-spread w dlcis v,
  )

  build_lem :
      (max_len : ℕ)
      → w + 16 + w * length dlcis ≤ max_len
      → build_xid max_len level dlcis w ≡ some written
  unfolding build_xid written group_value gl
  build_lem max_len h =
      let fits = le→not-ltb in
      rw (
        length-cllm_address w v,
        fits max_len w (omega arith),
        fits max_len (w + 1) (omega arith),
        fits max_len (w + 2) (omega arith),
        fits max_len (w + 3) (omega arith),
        fits max_len (w + 5) (omega arith),
        fits max_len (w + 11) (omega arith),
        fits max_len (w + 14) (omega arith),
        fits max_len (w + 16) (omega arith),
        list_entries-spread max_len w (w + 5 + 11) dlcis v (omega arith),
      )

  octet-written : (i : ℕ) → octet written (w + i) ≡ octet header i
  unfolding written
  octet-written i =
      ap (λ k. octet (cllm_address w ++ header) (k + i)) (sym (length-cllm_address w v))
      ∙ get_or-append (cllm_address w) header i 0

  octet_0 : octet written w ≡ cllm_xid_ctrl
  octet_0 = let z : w ≡ w + 0 = omega arith in ap (octet written) z ∙ octet-written 0

  drop-written : drop (w + 5) written ≡ group
  unfolding written
  drop-written =
      ap (λ k. drop (k + 5) (cllm_address w ++ header)) (sym (length-cllm_address w v))
      ∙ sym (drop-drop 5 (length (cllm_address w)) (cllm_address w ++ header))
      ∙ ap (drop 5) (drop-append (cllm_address w) header)

  address_found : get_addr_len written (length written) ≡ w
  unfolding written
  address_found =
      get_addr_len-cllm_address w header (length (cllm_address w ++ header)) v
        (omega (arith, length-append (cllm_address w) header, length-cllm_address w v))

  taken : take gl group ≡ group
  taken = take_all gl group (omega (arith, gl_lem, length-spread w dlcis v))

  params_at_gl : parse_params gl w max_dlcis empty group ≡ parsed notice
  params_at_gl =
      let e : gl ≡ suc (suc (suc (gl - 3))) = omega (arith, gl_lem) in
      ap (λ fuel. parse_params fuel w max_dlcis empty group) e ∙ group-read (gl - 3)

  parse_lem : parse_xid written max_dlcis ≡ some notice
  unfolding parse_xid returned
  parse_lem =
      let l = length-written in
      let c1 : ltb (length written) 8 ≡ false = le→not-ltb _ _ (ground (arith, l, v)) in
      let c2 : (ltb w 2 || ltb 4 w) ≡ false = ground (arith, v) in
      let c3 : ltb (length written) (w + 5) ≡ false = le→not-ltb _ _ (omega arith) in
      let c4 : ltb (length written) (w + 5 + gl) ≡ false = le→not-ltb _ _ (omega (arith, gl_lem)) in
      rw
        (
          address_found,
          c1,
          c2,
          c3,
          octet_0,
          octet-written 1,
          octet-written 2,
          octet-written 3,
          octet-written 4,
          gl_read,
          c4,
          drop-written,
          taken,
        )
        (ap returned params_at_gl)

-- A message that is built for a list of DLCIs of the width, no more than the parser takes, with a
-- list of less than 256 octets and room for the whole, is a frame that the parser accepts, and it
-- reads the same level and the same DLCIs in the same order.
pub parse_xid-build_xid :
    (w level max_dlcis max_len : ℕ) (dlcis : List ℕ)
    → IsWidth w
    → length dlcis ≤ max_dlcis
    → All (λ d. d < limit w) dlcis
    → w * length dlcis < 256
    → w + 16 + w * length dlcis ≤ max_len
    → (frame : List ℕ) × (build_xid max_len level dlcis w ≡ some frame)
      × (parse_xid frame max_dlcis
          ≡ some (record { congestion_level = some level; dlci_list = dlcis }))
parse_xid-build_xid w level max_dlcis max_len dlcis v few small short room = (
  written w level max_dlcis dlcis v few small short,
  build_lem w level max_dlcis dlcis v few small short max_len room,
  parse_lem w level max_dlcis dlcis v few small short,
)
