-- ===== src/DigitTrie/Table.antt =====
-- The tree as a table from strings of digits to routes, and what an insertion does to the table.
use vfrs.Common.{
  ℕ, ◌-◌, ◌≡◌, ◌≢◌, refl, ap, ap₂, ◌∙◌, inl, inr, Bool, true, false, ◌&&◌, Bool-cases, Option, none,
  some, List, [], ◌∷◌, ◌==◌, if◌then◌else◌, arith,
}
use vfrs.DigitTrie.{
  Route, blank, DigitNode, null, node, is_digit, RouteArgs, fill, set_child, created, child_at,
  insert_from, trie_insert,
}

-- The digits of a string: the formatting characters are left out.
unfoldable pub digits_of : List ℕ → List ℕ
digits_of [] = []
digits_of (c ∷ cs) = let rest = digits_of cs in if is_digit c then ((c - 48) ∷ rest) else rest

abbrev pub route_of : DigitNode → Option Route
route_of null = none
route_of (node children is_terminal route) = if is_terminal then some route else none

-- The route that the tree has for exactly these digits.
unfoldable pub entry : DigitNode → List ℕ → Option Route
entry root [] = route_of root
entry root (d ∷ ds) = entry (child_at root d) ds

abbrev pub same_digits : List ℕ → List ℕ → Bool
same_digits [] [] = true
same_digits [] (e ∷ es) = false
same_digits (d ∷ ds) [] = false
same_digits (d ∷ ds) (e ∷ es) = d == e && same_digits ds es

-- What the fields were at the node where an insertion of `digits` ends.
pub fields : DigitNode → List ℕ → Route
fields null ds = blank
fields (node children is_terminal route) [] = route
fields (node children is_terminal route) (d ∷ ds) = fields (children d) ds

pub entry-null : (ds : List ℕ) → entry null ds ≡ none
unfolding entry
entry-null [] = refl
entry-null (d ∷ ds) = entry-null ds

entry-created : (root : DigitNode) (ds : List ℕ) → entry (created root) ds ≡ entry root ds
unfolding entry
entry-created null [] = refl
entry-created null (d ∷ ds) = refl
entry-created (node children is_terminal route) ds = refl

fields-created : (root : DigitNode) (ds : List ℕ) → fields (created root) ds ≡ fields root ds
unfolding fields
fields-created null [] = refl
fields-created null (d ∷ ds) = refl
fields-created (node children is_terminal route) ds = refl

-- The table after an insertion at `ds`.
abbrev pub updated : RouteArgs → DigitNode → List ℕ → List ℕ → Option Route
updated args root ds es =
    if same_digits es ds then some (fill args (fields root ds)) else entry root es

insert_from_digit :
    (args : RouteArgs) (c : ℕ) (cs : List ℕ) (children : ℕ → DigitNode) (t : Bool) (route : Route)
    → is_digit c ≡ true
    → insert_from args (c ∷ cs) (node children t route)
      ≡ node
          (set_child children (c - 48) (insert_from args cs (created (children (c - 48)))))
          t
          route
unfolding insert_from
insert_from_digit args c cs children t route e = rw e

insert_from_other :
    (args : RouteArgs) (c : ℕ) (cs : List ℕ) (curr : DigitNode)
    → is_digit c ≡ false
    → insert_from args (c ∷ cs) curr ≡ insert_from args cs curr
unfolding insert_from
insert_from_other args c cs curr e = rw e

pub digits_of_digit :
    (c : ℕ) (cs : List ℕ) → is_digit c ≡ true → digits_of (c ∷ cs) ≡ (c - 48) ∷ digits_of cs
unfolding digits_of
digits_of_digit c cs e = rw e

pub digits_of_other : (c : ℕ) (cs : List ℕ) → is_digit c ≡ false → digits_of (c ∷ cs) ≡ digits_of cs
unfolding digits_of
digits_of_other c cs e = rw e

-- The loop over `cs` does to the table what it should, from every node on.
abbrev Inserts : RouteArgs → List ℕ → Type 0
Inserts args cs =
    (children : ℕ → DigitNode) (t : Bool) (route : Route) (es : List ℕ)
    → entry (insert_from args cs (node children t route)) es
      ≡ updated args (node children t route) (digits_of cs) es

created-updated :
    (args : RouteArgs) (cs : List ℕ)
    → Inserts args cs
    → (n : DigitNode) (es : List ℕ)
    → entry (insert_from args cs (created n)) es ≡ updated args n (digits_of cs) es
created-updated args cs ih null es =
    ih (λ i. null) false blank es
    ∙ ap₂ (λ r o. if same_digits es (digits_of cs) then some (fill args r) else o)
        (fields-created null (digits_of cs)) (entry-created null es)
created-updated args cs ih (node children t route) es = ih children t route es

module _ (args : RouteArgs) (cs : List ℕ) (ih : Inserts args cs) (d : ℕ) (children : ℕ → DigitNode)
    (t : Bool) (route : Route) where
  -- The node after the loop has gone on with its child for the digit `d`.
  abbrev grown : DigitNode
  grown = node (set_child children d (insert_from args cs (created (children d)))) t route

  grown-entry :
      (es : List ℕ) → entry grown es ≡ updated args (node children t route) (d ∷ digits_of cs) es
  unfolding entry fields
  grown-entry [] = refl
  grown-entry (e ∷ es) = elim (Bool-cases (e == d)) [
    | inl same ↦
        let p : d ≡ e = ground arith in
        rw same (
          created-updated args cs ih (children d) es
          ∙ ap
              (λ i.
                if same_digits es (digits_of cs)
                then some (fill args (fields (children d) (digits_of cs)))
                else entry (children i) es)
              p)
    | inr other ↦ rw other
  ]

insert_from-entry : (args : RouteArgs) (cs : List ℕ) → Inserts args cs
unfolding insert_from entry fields digits_of
insert_from-entry args [] children t route [] = refl
insert_from-entry args [] children t route (e ∷ es) = refl
insert_from-entry args (c ∷ cs) children t route es = elim (Bool-cases (is_digit c)) [
  | inl e ↦
      rw (insert_from_digit args c cs children t route e, digits_of_digit c cs e)
        (grown-entry args cs (insert_from-entry args cs) (c - 48) children t route es)
  | inr e ↦
      rw (insert_from_other args c cs (node children t route) e, digits_of_other c cs e)
        (insert_from-entry args cs children t route es)
]

-- Inserting a nonempty string succeeds and changes the table at the string's digits alone, to the
-- arguments over the fields that the node there had; every other string of digits keeps its route.
pub trie_insert-entry :
    (root : DigitNode) (digits : List ℕ) (args : RouteArgs)
    → digits ≢ []
    → let (ok, root') = trie_insert root digits args in
      (ok ≡ true) × ((es : List ℕ) → entry root' es ≡ updated args root (digits_of digits) es)
unfolding trie_insert
trie_insert-entry root [] args h = absurd (h refl)
trie_insert-entry root (c ∷ cs) args h =
    (refl, created-updated args (c ∷ cs) (insert_from-entry args (c ∷ cs)) root)
