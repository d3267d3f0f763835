-- ===== src/Lapf/Table/Laws.antt =====
-- The hash table of contexts is a map by DLCI: initialising and freeing one context leaves every other
-- as it is.
use vfrs.Common.{
  ℕ, ◌+◌, ◌-◌, ◌%◌, ◌≤◌, ◌≡◌, refl, sym, ap, ◌∙◌, ◌≢◌, inl, inr, Option, none, some, [], ◌∷◌, ◌==◌,
  if◌then◌else◌, arith, Option-cases,
}
use vfrs.Lapf.{Lapf}
use vfrs.Lapf.Table.{
  hash_size, Bucket, LapfPort, find_node, get_lapf_ctx, put_node, put_bucket, put_lapf_ctx,
  Settings, configured, cleared, init_dlci, drop_node, free_dlci,
}

-- One bucket.
find-put_node :
    (d dlci : ℕ) (new : Lapf) (b : Bucket)
    → find_node d (put_node dlci new b) ≡ (
        if d == dlci
        then elim (find_node dlci b) [ none ↦ none | some _ ↦ some new ]
        else find_node d b)
unfolding find_node put_node
find-put_node d dlci new [] = ground arith
find-put_node d dlci new ((e, l) ∷ nodes) = ground (arith, find-put_node d dlci new nodes)

-- How often a DLCI stands in a bucket.
unfoldable pub occurrences : ℕ → Bucket → ℕ
occurrences d [] = 0
occurrences d ((e, l) ∷ nodes) = (if e == d then 1 else 0) + occurrences d nodes

absent : (d : ℕ) (b : Bucket) → occurrences d b ≡ 0 → find_node d b ≡ none
unfolding occurrences find_node
absent d [] h = refl
absent d ((e, l) ∷ nodes) h = ground (arith, absent d nodes)

unfound : (d : ℕ) (b : Bucket) → find_node d b ≡ none → occurrences d b ≡ 0
unfolding occurrences find_node
unfound d [] h = refl
unfound d ((e, l) ∷ nodes) h = ground (arith, unfound d nodes)

occurrences-drop_node :
    (d dlci : ℕ) (b : Bucket)
    → occurrences d (drop_node dlci b)
      ≡ (if d == dlci then occurrences d b - 1 else occurrences d b)
unfolding occurrences drop_node
occurrences-drop_node d dlci [] = ground arith
occurrences-drop_node d dlci ((e, l) ∷ nodes) = ground (arith, occurrences-drop_node d dlci nodes)

occurrences-put_node :
    (d dlci : ℕ) (new : Lapf) (b : Bucket) → occurrences d (put_node dlci new b) ≡ occurrences d b
unfolding occurrences put_node
occurrences-put_node d dlci new [] = refl
occurrences-put_node d dlci new ((e, l) ∷ nodes) =
    ground (arith, occurrences-put_node d dlci new nodes)

find-drop_node :
    (d dlci : ℕ) (b : Bucket) → d ≢ dlci → find_node d (drop_node dlci b) ≡ find_node d b
unfolding find_node drop_node
find-drop_node d dlci [] h = refl
find-drop_node d dlci ((e, l) ∷ nodes) h = ground (arith, find-drop_node d dlci nodes)

-- No DLCI has two nodes.
abbrev pub IsMap : LapfPort → Type 0
IsMap port = (d : ℕ) → occurrences d (port.buckets (d % hash_size)) ≤ 1

module _ (d dlci : ℕ) (port : LapfPort) where
  pub get-put_lapf_ctx :
      (new : Lapf)
      → get_lapf_ctx d (put_lapf_ctx dlci new port) ≡ (
          if d == dlci
          then elim (get_lapf_ctx dlci port) [ none ↦ none | some _ ↦ some new ]
          else get_lapf_ctx d port)
  unfolding get_lapf_ctx put_lapf_ctx put_bucket
  get-put_lapf_ctx new = ground (arith, find-put_node d dlci new (port.buckets (dlci % hash_size)))

  -- A node at the head of its bucket.
  get_new :
      (new : Lapf) (n : ℕ)
      → let i = dlci % hash_size in
        let buckets = put_bucket i ((dlci, new) ∷ port.buckets i) port.buckets in
        get_lapf_ctx d (record port { buckets = buckets; lapf_count = n })
        ≡ (if d == dlci then some new else get_lapf_ctx d port)
  unfolding get_lapf_ctx find_node put_bucket
  get_new new n = ground arith

  init_old :
      (s : Settings) (l : Lapf)
      → get_lapf_ctx dlci port ≡ some l
      → init_dlci dlci s port ≡ put_lapf_ctx dlci (configured dlci s port l) port
  unfolding init_dlci
  init_old s l e = rw (e, init_dlci)

  init_new :
      (s : Settings)
      → get_lapf_ctx dlci port ≡ none
      → let i = dlci % hash_size in
        init_dlci dlci s port ≡ record port {
          buckets =
              put_bucket i ((dlci, configured dlci s port cleared) ∷ port.buckets i) port.buckets;
          lapf_count = port.lapf_count + 1;
        }
  unfolding init_dlci
  init_new s e = rw (e, init_dlci)

  abbrev initialised : Settings → Option Lapf → Option Lapf
  initialised s old =
      if d == dlci
      then some (configured dlci s port (elim old [ none ↦ cleared | some l ↦ l ]))
      else get_lapf_ctx d port

  -- Initialising the context of a DLCI gives it the settings, over what it had or over cleared memory,
  -- and leaves the context of every other DLCI as it was.
  pub get-init_dlci :
      (s : Settings)
      → get_lapf_ctx d (init_dlci dlci s port) ≡ initialised s (get_lapf_ctx dlci port)
  get-init_dlci s = elim (Option-cases (get_lapf_ctx dlci port)) [
    | inr (l, e) ↦
        ap (get_lapf_ctx d) (init_old s l e)
        ∙ get-put_lapf_ctx (configured dlci s port l)
        ∙ ap
            (λ (o : Option Lapf).
              if d == dlci
              then elim o [ none ↦ none | some _ ↦ some (configured dlci s port l) ]
              else get_lapf_ctx d port)
            e
        ∙ sym (ap (initialised s) e)
    | inl e ↦
        ap (get_lapf_ctx d) (init_new s e)
        ∙ get_new (configured dlci s port cleared) (port.lapf_count + 1)
        ∙ sym (ap (initialised s) e)
  ]

  get_dropped :
      (n : ℕ)
      → IsMap port
      → let i = dlci % hash_size in
        let buckets = put_bucket i (drop_node dlci (port.buckets i)) port.buckets in
        get_lapf_ctx d (record port { buckets = buckets; lapf_count = n })
        ≡ (if d == dlci then none else get_lapf_ctx d port)
  unfolding get_lapf_ctx put_bucket
  get_dropped n h =
      let b = port.buckets (dlci % hash_size) in
      ground (
        arith,
        find-drop_node d dlci b,
        absent d (drop_node dlci b),
        occurrences-drop_node d dlci b,
        h dlci,
      )

  free_old :
      (l : Lapf)
      → get_lapf_ctx dlci port ≡ some l
      → let i = dlci % hash_size in
        free_dlci dlci port ≡ record port {
          buckets = put_bucket i (drop_node dlci (port.buckets i)) port.buckets;
          lapf_count = port.lapf_count - 1;
        }
  unfolding free_dlci
  free_old l e = rw (e, free_dlci)

  free_none : get_lapf_ctx dlci port ≡ none → free_dlci dlci port ≡ port
  unfolding free_dlci
  free_none e = rw (e, free_dlci)

  -- Freeing the context of a DLCI removes it and leaves every other, in a table that has at most one
  -- node for each DLCI.
  pub get-free_dlci :
      IsMap port
      → get_lapf_ctx d (free_dlci dlci port) ≡ (if d == dlci then none else get_lapf_ctx d port)
  get-free_dlci h = elim (Option-cases (get_lapf_ctx dlci port)) [
    | inr (l, e) ↦ ap (get_lapf_ctx d) (free_old l e) ∙ get_dropped (port.lapf_count - 1) h
    | inl e ↦ ap (get_lapf_ctx d) (free_none e) ∙ ground (arith, e)
  ]

-- The operations keep the table a map.
pub init_dlci-IsMap :
    (dlci : ℕ) (s : Settings) (port : LapfPort) → IsMap port → IsMap (init_dlci dlci s port)
unfolding occurrences get_lapf_ctx put_lapf_ctx put_bucket
init_dlci-IsMap dlci s port h d = elim (Option-cases (get_lapf_ctx dlci port)) [
  | inr (l, e) ↦ rw (init_old d dlci port s l e) (
      ground (
        arith,
        h d,
        occurrences-put_node d dlci (configured dlci s port l) (port.buckets (dlci % hash_size)),
      ))
  | inl e ↦
      rw (init_new d dlci port s e)
        (ground (arith, h d, unfound dlci (port.buckets (dlci % hash_size)) e))
]

pub free_dlci-IsMap : (dlci : ℕ) (port : LapfPort) → IsMap port → IsMap (free_dlci dlci port)
unfolding put_bucket
free_dlci-IsMap dlci port h d = elim (Option-cases (get_lapf_ctx dlci port)) [
  | inr (l, e) ↦
      rw (free_old d dlci port l e)
        (ground (arith, h d, occurrences-drop_node d dlci (port.buckets (dlci % hash_size))))
  | inl e ↦ rw (free_none d dlci port e) (h d)
]
