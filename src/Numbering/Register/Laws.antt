-- ===== src/Numbering/Register/Laws.antt =====
-- What a registration that succeeds leaves in the table.
use vfrs.Common.{
  ℕ, ◌-◌, ◌≤◌, ◌<◌, ◌≡◌, refl, sym, ap, ◌∙◌, inl, inr, Bool, true, false, ◌&&◌, Bool-cases, Option,
  none, some, List, [], ◌∷◌, ◌++◌, append_assoc, ltb, leb, ==_refl, if◌then◌else◌, length,
  length-append, arith, ltb→lt, leb→le,
}
use vfrs.Numbering.Register.{
  Registry, Request, Subscriber, same_text, is_e164, number_of, only_digits, registered, is_none,
  admits, entry_for, alias_of, alias_entry, update_ports, add_mode, svc_max_subscribers,
}

same_text_refl : (s : List ℕ) → same_text s s ≡ true
unfolding same_text
same_text_refl [] = refl
same_text_refl (c ∷ s) = rw (==_refl c) (same_text_refl s)

-- `first`, or else `second`.
abbrev or_else : Option Subscriber → Option Subscriber → Option Subscriber
or_else none second = second
or_else (some s) second = some s

registered-append :
    (xs ys : List Subscriber) (number : List ℕ)
    → registered (xs ++ ys) number ≡ or_else (registered xs number) (registered ys number)
unfolding registered
registered-append [] ys number = refl
registered-append (x ∷ xs) ys number = elim (Bool-cases (same_text x.x121_number number)) [
  | inl e ↦ rw e
  | inr e ↦ rw e (registered-append xs ys number)
]

registered-head :
    (s : Subscriber) (ss : List Subscriber) → registered (s ∷ ss) s.x121_number ≡ some s
unfolding registered
registered-head s ss = rw (same_text_refl s.x121_number)

and-split : (b c : Bool) → (b && c) ≡ true → (b ≡ true) × (c ≡ true)
and-split true c h = (refl, h)
and-split false c h = absurd (ground arith)

from_if : (b : Bool) (x y : Registry) → (if b then some x else none) ≡ some y → (b ≡ true) × (x ≡ y)
from_if true x y h = (refl, ap (λ o. elim o [ none ↦ x | some z ↦ z ]) h)
from_if false x y h = absurd (ground arith)

none-from : (o : Option Subscriber) → is_none o ≡ true → o ≡ none
none-from none h = refl
none-from (some s) h = absurd (ground arith)

alias_entry-few :
    (r : Request) (alias : Option (List ℕ)) (updated : Bool) (count : ℕ)
    → length (alias_entry r alias updated count) ≤ svc_max_subscribers - count
unfolding alias_entry
alias_entry-few r none updated count = omega arith
alias_entry-few r (some text) false count = omega arith
alias_entry-few r (some text) true count = elim (Bool-cases (ltb count svc_max_subscribers)) [
  | inl e ↦
      let h : count < svc_max_subscribers = ltb→lt count svc_max_subscribers e in rw e (omega arith)
  | inr e ↦ rw e (omega arith)
]

module _ (ctx : Registry) (r : Request) where
  abbrev number : List ℕ
  number = number_of ctx r

  abbrev entry : Subscriber
  entry = entry_for r number r.num_type

  abbrev updated : Bool
  updated = (update_ports r number (alias_of ctx r) ctx.ports).0

  abbrev primary : List Subscriber
  primary = ctx.subscribers ++ entry ∷ []

  abbrev added : List Subscriber
  added = alias_entry r (alias_of ctx r) updated (length primary)

  abbrev after : Registry
  after = record ctx {
    subscribers = primary ++ added;
    ports = (update_ports r number (alias_of ctx r) ctx.ports).1;
  }

  add_mode_cases : add_mode ctx r ≡ (if admits ctx r then some after else none)
  unfolding add_mode
  add_mode_cases = refl

  -- The facts that the checks give.
  record Checked : Type 0 where
    digits : only_digits number ≡ true
    short : length number ≤ 15
    was_free : registered ctx.subscribers number ≡ none
    room : length ctx.subscribers < svc_max_subscribers

  admits-Checked : admits ctx r ≡ true → Checked
  unfolding admits
  admits-Checked h =
      let (prefix, h1) = and-split _ _ h in
      let (digits, h2) = and-split _ _ h1 in
      let (short, h3) = and-split _ _ h2 in
      let (zeros, h4) = and-split _ _ h3 in
      let (free, room) = and-split _ _ h4 in
      record {
        digits = digits;
        short = bound (is_e164 r.num_type) short;
        was_free = none-from (registered ctx.subscribers number) free;
        room = ltb→lt _ _ room;
      }
    where
      bound : (e : Bool) → leb (length number) (if e then 15 else 14) ≡ true → length number ≤ 15
      bound true h = leb→le _ _ h
      bound false h = omega (arith, leb→le (length number) 14 h)

  within_table :
      length ctx.subscribers < svc_max_subscribers → length after.subscribers ≤ svc_max_subscribers
  within_table h =
      let few = alias_entry-few r (alias_of ctx r) updated (length primary) in
      omega (arith, few, length-append primary added, length-append ctx.subscribers (entry ∷ []))

  found :
      registered ctx.subscribers number ≡ none → registered after.subscribers number ≡ some entry
  found h =
      ap (λ t. registered t number) (append_assoc ctx.subscribers (entry ∷ []) added)
      ∙ registered-append ctx.subscribers (entry ∷ added) number
      ∙ ap (λ o. or_else o (registered (entry ∷ added) number)) h
      ∙ registered-head entry added

-- A registration that succeeds.
pub record Registers (ctx : Registry) (r : Request) (ctx' : Registry) : Type 0 where
  pub digits : only_digits (number_of ctx r) ≡ true
  pub short : length (number_of ctx r) ≤ 15
  pub was_free : registered ctx.subscribers (number_of ctx r) ≡ none
  pub is_found :
      registered ctx'.subscribers (number_of ctx r)
      ≡ some (entry_for r (number_of ctx r) r.num_type)
  pub room : length ctx'.subscribers ≤ svc_max_subscribers

-- Where a registration succeeds, its number as it is expanded has at most 15 digits and nothing
-- else, it was not registered, it is registered with the request's port and flags afterwards, and
-- the table is within its 512 entries.
pub add_mode-Registers :
    (ctx : Registry) (r : Request) (ctx' : Registry)
    → add_mode ctx r ≡ some ctx'
    → Registers ctx r ctx'
add_mode-Registers ctx r ctx' h =
    let (ok, e) = from_if _ _ _ (sym (add_mode_cases ctx r) ∙ h) in
    let c = admits-Checked ctx r ok in
    rw (← e) (record {
      digits = c.digits;
      short = c.short;
      was_free = c.was_free;
      is_found = found ctx r c.was_free;
      room = within_table ctx r c.room;
    })

-- Where a registration succeeds, every number that was registered keeps its entry.
pub add_mode_keeps :
    (ctx : Registry) (r : Request) (ctx' : Registry) (other : List ℕ) (s : Subscriber)
    → add_mode ctx r ≡ some ctx'
    → registered ctx.subscribers other ≡ some s
    → registered ctx'.subscribers other ≡ some s
add_mode_keeps ctx r ctx' other s h k =
    let (ok, e) = from_if _ _ _ (sym (add_mode_cases ctx r) ∙ h) in
    ap (λ c. registered c.subscribers other) (sym e)
    ∙ ap (λ t. registered t other) (append_assoc ctx.subscribers (entry ctx r ∷ []) (added ctx r))
    ∙ registered-append ctx.subscribers (entry ctx r ∷ added ctx r) other
    ∙ ap (λ o. or_else o (registered (entry ctx r ∷ added ctx r) other)) k
