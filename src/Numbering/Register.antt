-- ===== src/Numbering/Register.antt =====
-- The register of subscribers: svc_numbering_add_mode, svc_numbering_is_all_zeros and
-- svc_find_subscriber of src/ports/svc_numbering/svc_numbering.c. Ports that are not there are left
-- out of the list of ports.
pub mod Laws
pub mod Tests
use vfrs.Common.{
  ℕ, zero, suc, ◌+◌, ◌-◌, ◌%◌, Bool, true, false, not, ◌&&◌, ◌||◌, Option, none, some, List, [],
  ◌∷◌, ◌++◌, map, ltb, leb, ◌==◌, if◌then◌else◌, length, take, drop, u8,
}
use vfrs.Numbering.{Numbering, Codes, codes, lower, expand}

-- `strcmp(s, t) == 0`
unfoldable pub same_text : List ℕ → List ℕ → Bool
same_text [] [] = true
same_text [] (c ∷ t) = false
same_text (c ∷ s) [] = false
same_text (c ∷ s) (d ∷ t) = c == d && same_text s t

-- `s && strcasecmp(s, word) == 0`, for a word in small letters
abbrev pub is_word : Option (List ℕ) → List ℕ → Bool
is_word none word = false
is_word (some s) word = same_text (map lower s) word

-- An entry of `svc_subscribers`
pub record Subscriber : Type 0 where
  pub port_name : List ℕ
  pub x121_number : List ℕ
  pub reverse_charging_acceptance : ℕ
  pub reverse_charging_prevention : ℕ
  pub number_type : ℕ

-- What a registration writes to `vfr_svc_ctx_t`.
pub record SvcCtx : Type 0 where
  pub subscriber_number : List ℕ
  pub alias_number : List ℕ
  pub reverse_charging_acceptance : ℕ
  pub reverse_charging_prevention : ℕ
  pub subscriber_type : ℕ
  pub alias_type : ℕ

pub record NumberedPort : Type 0 where
  pub name : List ℕ
  pub svc_ctx : Option SvcCtx

-- The part of `vfrs_ctx_t` that the register uses.
pub record Registry : Type 0 where
  pub numbering : Numbering
  pub subnumlen : ℕ
  pub subscribers : List Subscriber
  pub ports : List NumberedPort

-- The arguments of a registration.
pub record Request : Type 0 where
  pub port_name : List ℕ
  pub mode : Option (List ℕ)
  pub num_type : Option (List ℕ)
  pub raw_number : List ℕ
  pub alias_type : Option (List ℕ)
  pub raw_alias : Option (List ℕ)
  pub rev_charge_acc : ℕ
  pub rev_charge_prev : ℕ

abbrev pub svc_max_addr_len : ℕ
svc_max_addr_len = 20

abbrev pub svc_max_subscribers : ℕ
svc_max_subscribers = 512

-- `expanded`, in an array of 21 octets
abbrev pub expanded : Registry → List ℕ → List ℕ
expanded ctx raw = expand ctx.numbering raw (svc_max_addr_len + 1)

pub only_zeros : List ℕ → Bool
only_zeros [] = true
only_zeros (c ∷ cs) = c == 48 && only_zeros cs

abbrev pub is_empty : List ℕ → Bool
is_empty [] = true
is_empty (c ∷ cs) = false

pub is_all_zeros : Registry → List ℕ → Bool
unfolding only_zeros
is_all_zeros ctx number =
    let text = expanded ctx number in
    let k = codes ctx.numbering in
    let dge = take 47 (k.dnic_str ++ (k.sgc_str ++ k.sic_str)) in
    let suffix : List ℕ =
      if same_text (take (length dge) text) dge then drop (length dge) text else text in
    not (is_empty number) && (not (is_empty suffix) && only_zeros suffix)

pub only_digits : List ℕ → Bool
only_digits [] = true
only_digits (c ∷ cs) = (leb 48 c && leb c 57) && only_digits cs

-- The first entry for a number.
pub registered : List Subscriber → List ℕ → Option Subscriber
registered [] number = none
registered (s ∷ ss) number =
    let later = registered ss number in if same_text s.x121_number number then some s else later

abbrev pub is_autoprefix : Request → Bool
is_autoprefix r = is_word r.mode (97 ∷ 117 ∷ 116 ∷ 111 ∷ 112 ∷ 114 ∷ 101 ∷ 102 ∷ 105 ∷ 120 ∷ [])

abbrev pub is_e164 : Option (List ℕ) → Bool
is_e164 kind = is_word kind (101 ∷ 49 ∷ 54 ∷ 52 ∷ [])

abbrev pub max_sublen : Registry → ℕ
max_sublen ctx = if ltb 0 ctx.subnumlen && leb ctx.subnumlen 10 then ctx.subnumlen else 4

-- `input_number`, in an array of 21 octets, and its expansion
abbrev pub number_of : Registry → Request → List ℕ
number_of ctx r =
    expanded ctx (
      take svc_max_addr_len (if is_autoprefix r then 68 ∷ 71 ∷ 69 ∷ r.raw_number else r.raw_number))

abbrev pub is_none : Option Subscriber → Bool
is_none none = true
is_none (some s) = false

-- The checks of a registration, in their order.
pub admits : Registry → Request → Bool
unfolding only_digits is_all_zeros registered
admits ctx r =
    let number = number_of ctx r in
    not (is_autoprefix r && ltb (max_sublen ctx) (length r.raw_number))
    && (only_digits number
        && (leb (length number) (if is_e164 r.num_type then 15 else 14)
            && (not (is_all_zeros ctx number)
                && (is_none (registered ctx.subscribers number)
                    && ltb (length ctx.subscribers) svc_max_subscribers))))

abbrev pub type_of : Option (List ℕ) → ℕ
type_of kind = if is_e164 kind then 2 else 1

-- `VFR_MAX_NAME_LEN` is 32.
abbrev pub entry_for : Request → List ℕ → Option (List ℕ) → Subscriber
entry_for r number kind = record {
  port_name = take 31 r.port_name;
  x121_number = number;
  reverse_charging_acceptance = u8 r.rev_charge_acc;
  reverse_charging_prevention = u8 r.rev_charge_prev;
  number_type = type_of kind;
}

-- The alias as the port's context has it, if one is given.
abbrev pub alias_of : Registry → Request → Option (List ℕ)
alias_of ctx r = elim r.raw_alias [
  | none ↦ none
  | some raw ↦ if is_empty raw then none else some (expanded ctx raw)
]

pub update_svc : Request → List ℕ → Option (List ℕ) → SvcCtx → SvcCtx
update_svc r number alias sctx =
    let primary : SvcCtx = record sctx {
      subscriber_number = number;
      reverse_charging_acceptance = u8 r.rev_charge_acc;
      reverse_charging_prevention = u8 r.rev_charge_prev;
      subscriber_type = type_of r.num_type;
    } in
    elim alias [
      | none ↦ primary
      | some text ↦ record primary { alias_number = text; alias_type = type_of r.alias_type }
    ]

-- The loop over the ports ends at the first of the name. It gives the ports, and whether a context
-- was updated.
pub update_ports : Request → List ℕ → Option (List ℕ) → List NumberedPort → Bool × List NumberedPort
unfolding update_svc
update_ports r number alias [] = (false, [])
update_ports r number alias (p ∷ ps) =
    let (updated, rest) = update_ports r number alias ps in
    if same_text p.name r.port_name
    then elim p.svc_ctx [
      | none ↦ (false, p ∷ ps)
      | some sctx ↦ (true, record p { svc_ctx = some (update_svc r number alias sctx) } ∷ ps)
    ]
    else (updated, p ∷ rest)

-- What the table gets for the alias; the table holds `count` entries then.
pub alias_entry : Request → Option (List ℕ) → Bool → ℕ → List Subscriber
alias_entry r none updated count = []
alias_entry r (some text) updated count =
    if updated && ltb count svc_max_subscribers then entry_for r text r.alias_type ∷ [] else []

pub add_mode : Registry → Request → Option Registry
unfolding admits update_ports alias_entry
add_mode ctx r =
    let number = number_of ctx r in
    let alias = alias_of ctx r in
    let (updated, ports) = update_ports r number alias ctx.ports in
    let primary = ctx.subscribers ++ entry_for r number r.num_type ∷ [] in
    if admits ctx r
    then some (record ctx {
      subscribers = primary ++ alias_entry r alias updated (length primary);
      ports = ports;
    })
    else none

pub port_named : List NumberedPort → List ℕ → Option NumberedPort
port_named [] name = none
port_named (p ∷ ps) name =
    let later = port_named ps name in if same_text p.name name then some p else later

-- The scan of the table: an entry whose port is not there does not end it.
pub find_from : List NumberedPort → List Subscriber → List ℕ → Option NumberedPort
unfolding port_named
find_from ports [] number = none
find_from ports (s ∷ ss) number =
    let later = find_from ports ss number in
    if same_text s.x121_number number
    then elim (port_named ports s.port_name) [ none ↦ later | some p ↦ some p ]
    else later

pub find_subscriber : Registry → List ℕ → Option NumberedPort
unfolding find_from
find_subscriber ctx called =
    if is_empty called then none else find_from ctx.ports ctx.subscribers (expanded ctx called)
