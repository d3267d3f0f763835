-- ===== src/DigitTrie/Longest.antt =====
-- The look-up finds the longest prefix of the digits that the table has.
use vfrs.Common.{
  ℕ, ◌-◌, ◌≡◌, ◌≢◌, refl, sym, ap, ap₂, ◌∙◌, inl, inr, true, false, Bool-cases, Option, none, some,
  List, [], ◌∷◌, if◌then◌else◌,
}
use vfrs.DigitTrie.{
  Route, DigitNode, null, node, is_digit, RouteArgs, child_at, is_null, better, lookup_from,
  trie_insert, trie_lookup,
}
use vfrs.DigitTrie.Table.{
  digits_of, digits_of_digit, digits_of_other, route_of, entry, entry-null, updated,
  trie_insert-entry,
}

-- `first`, or else `second`.
abbrev pub or_else : Option Route → Option Route → Option Route
or_else none second = second
or_else (some r) second = some r

-- The value of the table at the longest prefix of `ds` that it has.
pub longest : (List ℕ → Option Route) → List ℕ → Option Route
longest table [] = table []
longest table (d ∷ ds) = or_else (longest (λ p. table (d ∷ p)) ds) (table [])

longest-ext :
    (f g : List ℕ → Option Route)
    → ((p : List ℕ) → f p ≡ g p)
    → (ds : List ℕ) → longest f ds ≡ longest g ds
unfolding longest
longest-ext f g h [] = h []
longest-ext f g h (d ∷ ds) =
    ap₂ or_else (longest-ext (λ p. f (d ∷ p)) (λ p. g (d ∷ p)) (λ p. h (d ∷ p)) ds) (h [])

longest-none : (ds : List ℕ) → longest (λ p. none) ds ≡ none
unfolding longest
longest-none [] = refl
longest-none (d ∷ ds) = rw (longest-none ds)

or_else_assoc : (a b c : Option Route) → or_else (or_else a b) c ≡ or_else a (or_else b c)
or_else_assoc none b c = refl
or_else_assoc (some r) b c = refl

better-route :
    (curr best : DigitNode) → route_of (better curr best) ≡ or_else (route_of curr) (route_of best)
better-route null best = refl
better-route (node children true route) best = refl
better-route (node children false route) best = refl

or_else_idem : (a b : Option Route) → or_else a (or_else a b) ≡ or_else a b
or_else_idem none b = refl
or_else_idem (some r) b = refl

-- The empty prefix adds nothing to what is found.
longest-absorbs :
    (t : List ℕ → Option Route) (ds : List ℕ) (b : Option Route)
    → or_else (longest t ds) (or_else (t []) b) ≡ or_else (longest t ds) b
unfolding longest
longest-absorbs t [] b = or_else_idem (t []) b
longest-absorbs t (d ∷ ds) b =
    or_else_assoc (longest (λ p. t (d ∷ p)) ds) (t []) (or_else (t []) b)
    ∙ ap (or_else (longest (λ p. t (d ∷ p)) ds)) (or_else_idem (t []) b)
    ∙ sym (or_else_assoc (longest (λ p. t (d ∷ p)) ds) (t []) b)

lookup_from_other :
    (c : ℕ) (cs : List ℕ) (curr best : DigitNode)
    → is_digit c ≡ false
    → lookup_from (c ∷ cs) curr best ≡ lookup_from cs curr (better curr best)
unfolding lookup_from
lookup_from_other c cs curr best e = rw e

lookup_from_digit :
    (c : ℕ) (cs : List ℕ) (curr best : DigitNode)
    → is_digit c ≡ true
    → lookup_from (c ∷ cs) curr best ≡ (
        if is_null (child_at curr (c - 48))
        then better curr (better curr best)
        else lookup_from cs (child_at curr (c - 48)) (better curr best))
unfolding lookup_from
lookup_from_digit c cs curr best e = rw e

route_of_twice :
    (curr best : DigitNode)
    → route_of (better curr (better curr best)) ≡ or_else (route_of curr) (route_of best)
route_of_twice curr best =
    better-route curr (better curr best)
    ∙ ap (or_else (route_of curr)) (better-route curr best)
    ∙ or_else_idem (route_of curr) (route_of best)

-- What the loop answers over `cs`, from every node on.
abbrev Finds : List ℕ → Type 0
Finds cs =
    (curr best : DigitNode)
    → route_of (lookup_from cs curr best)
      ≡ or_else (longest (entry curr) (digits_of cs)) (route_of best)

child-Finds :
    (cs : List ℕ)
    → Finds cs
    → (child curr best : DigitNode)
    → route_of (
        if is_null child
        then better curr (better curr best)
        else lookup_from cs child (better curr best))
      ≡ or_else (or_else (longest (entry child) (digits_of cs)) (route_of curr)) (route_of best)
child-Finds cs ih null curr best =
    let nothing : longest (entry null) (digits_of cs) ≡ none =
      longest-ext (entry null) (λ p. none) entry-null (digits_of cs)
      ∙ longest-none (digits_of cs) in
    rw nothing (route_of_twice curr best)
child-Finds cs ih (node children t route) curr best =
    ih (node children t route) (better curr best)
    ∙ ap (or_else (longest (entry (node children t route)) (digits_of cs))) (better-route curr best)
    ∙ sym (
        or_else_assoc (longest (entry (node children t route)) (digits_of cs)) (route_of curr)
          (route_of best))

longest-entry :
    (curr : DigitNode) (d : ℕ) (ds : List ℕ)
    → longest (entry curr) (d ∷ ds) ≡ or_else (longest (entry (child_at curr d)) ds) (route_of curr)
unfolding longest entry
longest-entry curr d ds = refl

entry-nil : (curr : DigitNode) → entry curr [] ≡ route_of curr
unfolding entry
entry-nil curr = refl

nil-Finds : Finds []
unfolding lookup_from longest entry digits_of
nil-Finds curr best = better-route curr best

lookup_from-Finds : (cs : List ℕ) → Finds cs
lookup_from-Finds [] curr best = nil-Finds curr best
lookup_from-Finds (c ∷ cs) curr best = elim (Bool-cases (is_digit c)) [
  | inl e ↦
      rw
        (
          lookup_from_digit c cs curr best e,
          digits_of_digit c cs e,
          longest-entry curr (c - 48) (digits_of cs),
        )
        (child-Finds cs (lookup_from-Finds cs) (child_at curr (c - 48)) curr best)
  | inr e ↦
      rw (lookup_from_other c cs curr best e, digits_of_other c cs e)
        (lookup_from-Finds cs curr (better curr best)
          ∙ ap (or_else (longest (entry curr) (digits_of cs)))
              (better-route curr best ∙ ap (λ o. or_else o (route_of best)) (sym (entry-nil curr)))
          ∙ longest-absorbs (entry curr) (digits_of cs) (route_of best))
]

-- A look-up answers the route of the longest prefix of the string's digits for which the tree has a
-- route, and no node if it has none, formatting characters being passed over.
pub trie_lookup-longest :
    (root : DigitNode) (digits : List ℕ)
    → route_of (trie_lookup root digits) ≡ longest (entry root) (digits_of digits)
unfolding trie_lookup
trie_lookup-longest null digits = sym (
    longest-ext (entry null) (λ p. none) entry-null (digits_of digits)
    ∙ longest-none (digits_of digits))
trie_lookup-longest (node children t route) digits =
    lookup_from-Finds digits (node children t route) null
    ∙ or_else_none (longest (entry (node children t route)) (digits_of digits))
  where
    or_else_none : (o : Option Route) → or_else o none ≡ o
    or_else_none none = refl
    or_else_none (some r) = refl

-- After a nonempty string is inserted, look-ups go by the changed table: the inserted digits' route
-- is used for every string that they begin, unless the table has a longer prefix.
pub trie_lookup-trie_insert :
    (root : DigitNode) (digits : List ℕ) (args : RouteArgs) (called : List ℕ)
    → digits ≢ []
    → route_of (trie_lookup (trie_insert root digits args).1 called)
      ≡ longest (updated args root (digits_of digits)) (digits_of called)
trie_lookup-trie_insert root digits args called h =
    let (ok, table) = trie_insert-entry root digits args h in
    trie_lookup-longest (trie_insert root digits args).1 called
    ∙ longest-ext (entry (trie_insert root digits args).1) (updated args root (digits_of digits))
        table (digits_of called)
