-- ===== src/DigitTrie/Tests.antt =====
-- Runs of the digit analysis tree.
use vfrs.Common.{ℕ, ◌≢◌, ◌≡◌, refl, none, some, List, [], ◌∷◌, arith}
use vfrs.DigitTrie.{
  RouteAction, RouteArgs, DigitNode, null, trie_insert, trie_lookup, insert_from, lookup_from, fill,
}
use vfrs.DigitTrie.Table.{digits_of, entry, route_of, updated}
use vfrs.DigitTrie.Longest.{longest, trie_lookup-longest, trie_lookup-trie_insert}

abbrev via_nni : RouteArgs
via_nni = record {
  action = RouteAction.action_nni;
  egress_port = some (110 ∷ 48 ∷ []);
  transit_net_id = none;
  metric = 0;
  revchg_allow = 1;
}

-- "12"
abbrev prefix : List ℕ
prefix = 49 ∷ 50 ∷ []

-- "1-29"
abbrev called : List ℕ
called = 49 ∷ 45 ∷ 50 ∷ 57 ∷ []

-- The tree with a route for "12".
abbrev tree : DigitNode
tree = (trie_insert null prefix via_nni).1

prefix_some : prefix ≢ []
prefix_some = ground arith

-- "1"
abbrev shorter : List ℕ
shorter = 49 ∷ []

shorter_some : shorter ≢ []
shorter_some = ground arith

trie_lookup-longest_example :
    route_of (trie_lookup tree called) ≡ longest (entry tree) (digits_of called)
trie_lookup-longest_example = trie_lookup-longest tree called

trie_lookup-trie_insert_example :
    route_of (trie_lookup (trie_insert tree shorter via_nni).1 called)
    ≡ longest (updated via_nni tree (digits_of shorter)) (digits_of called)
trie_lookup-trie_insert_example = trie_lookup-trie_insert tree shorter via_nni called shorter_some

-- The look-up of "1-29" finds the route for "12", its metric of 0 replaced by 10.
found :
    route_of (trie_lookup tree called)
    ≡ some (record {
      action = RouteAction.action_nni;
      target_port_name = 110 ∷ 48 ∷ [];
      transit_net_id = [];
      metric = 10;
      revchg_allow = 1;
      strip_digits = 0;
      insert_prefix = [];
      reject_cause = 0;
    })
unfolding trie_lookup trie_insert insert_from lookup_from fill
found = refl
