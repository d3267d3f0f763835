-- ===== src/DigitTrie.antt =====
-- The digit analysis tree of src/switching/svc_routing_common.c and its header.
-- A pointer to a node is `null` or the node. Memory for a node is there: `calloc` does not fail.
-- A string is the list of its octets before the NUL.
pub mod Table
pub mod Longest
pub mod Tests
use vfrs.Common.{
  ℕ, ◌+◌, ◌-◌, Bool, true, false, ◌&&◌, Option, none, some, List, [], ◌∷◌, ltb, leb, ◌==◌,
  if◌then◌else◌, take,
}

-- `vfr_route_action_t`
pub data RouteAction : Type 0 where
  action_none action_local action_nni action_translate action_reject : RouteAction

-- The fields of `vfr_digit_node_t` that say what to do with a call.
pub record Route : Type 0 where
  pub action : RouteAction
  pub target_port_name : List ℕ
  pub transit_net_id : List ℕ
  pub metric : ℕ
  pub revchg_allow : ℕ
  pub strip_digits : ℕ
  pub insert_prefix : List ℕ
  pub reject_cause : ℕ

-- `vfr_digit_node_t *`
pub data DigitNode : Type 0 where
  null : DigitNode
  node : (children : ℕ → DigitNode) (is_terminal : Bool) (route : Route) → DigitNode

-- What `calloc` gives.
abbrev pub blank : Route
blank = record {
  action = RouteAction.action_none;
  target_port_name = [];
  transit_net_id = [];
  metric = 0;
  revchg_allow = 0;
  strip_digits = 0;
  insert_prefix = [];
  reject_cause = 0;
}

abbrev pub digit_node_create : DigitNode
digit_node_create = node (λ i. null) false blank

abbrev pub is_digit : ℕ → Bool
is_digit c = leb 48 c && leb c 57

-- The arguments of `svc_trie_insert` after the digits. A null pointer is `none`.
pub record RouteArgs : Type 0 where
  pub action : RouteAction
  pub egress_port : Option (List ℕ)
  pub transit_net_id : Option (List ℕ)
  pub metric : ℕ
  pub revchg_allow : ℕ

-- `strncpy` to an array of `size` octets whose last one is 0, if there is a source.
abbrev pub copied : ℕ → Option (List ℕ) → List ℕ → List ℕ
copied size none old = old
copied size (some s) old = take (size - 1) s

-- The assignments at the end of `svc_trie_insert`.
pub fill : RouteArgs → Route → Route
fill args route = record route {
  action = args.action;
  target_port_name = copied 32 args.egress_port route.target_port_name;
  transit_net_id = copied 16 args.transit_net_id route.transit_net_id;
  metric = (if ltb 0 args.metric then args.metric else 10);
  revchg_allow = args.revchg_allow;
}

-- `curr->children[digit] = child`
abbrev pub set_child : (ℕ → DigitNode) → ℕ → DigitNode → ℕ → DigitNode
set_child children digit child i = if i == digit then child else children i

-- The node at a place that the loop reaches: one that is not there is created.
abbrev pub created : DigitNode → DigitNode
created null = digit_node_create
created (node children is_terminal route) = node children is_terminal route

abbrev pub child_at : DigitNode → ℕ → DigitNode
child_at null digit = null
child_at (node children is_terminal route) digit = children digit

abbrev with_child : DigitNode → ℕ → DigitNode → DigitNode
with_child null digit child = null
with_child (node children is_terminal route) digit child =
    node (set_child children digit child) is_terminal route

abbrev terminal : RouteArgs → DigitNode → DigitNode
terminal args null = null
terminal args (node children is_terminal route) = node children true (fill args route)

-- The loop from `curr` on, and the assignments after it: it gives `curr` as it is then.
pub insert_from : RouteArgs → List ℕ → DigitNode → DigitNode
unfolding fill
insert_from args [] curr = terminal args curr
insert_from args (c ∷ digits) curr =
    let digit = c - 48 in
    let skipped = insert_from args digits curr in
    let child = insert_from args digits (created (child_at curr digit)) in
    if is_digit c then with_child curr digit child else skipped

-- The first component is whether the call succeeds.
pub trie_insert : DigitNode → List ℕ → RouteArgs → Bool × DigitNode
unfolding insert_from
trie_insert root [] args = (false, root)
trie_insert root (c ∷ digits) args = (true, insert_from args (c ∷ digits) (created root))

-- `curr` if it is terminal, else what was found before.
abbrev pub better : DigitNode → DigitNode → DigitNode
better null best = best
better (node children is_terminal route) best =
    if is_terminal then node children is_terminal route else best

abbrev pub is_null : DigitNode → Bool
is_null null = true
is_null (node children is_terminal route) = false

-- The loop of `svc_trie_lookup` from `curr` on, with the last two tests.
pub lookup_from : List ℕ → DigitNode → DigitNode → DigitNode
lookup_from [] curr best = better curr best
lookup_from (c ∷ digits) curr best =
    let best' = better curr best in
    let child = child_at curr (c - 48) in
    let skipped = lookup_from digits curr best' in
    let deeper = lookup_from digits child best' in
    if is_digit c then if is_null child then better curr best' else deeper else skipped

pub trie_lookup : DigitNode → List ℕ → DigitNode
unfolding lookup_from
trie_lookup null digits = null
trie_lookup (node children is_terminal route) digits =
    lookup_from digits (node children is_terminal route) null
