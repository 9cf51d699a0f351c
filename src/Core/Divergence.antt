-- ===== src/Core/Divergence.antt =====
-- murmur/core/divergence.py: what the trajectories of a run did at each step, and where they part.
pub mod First
pub mod Unanimous
use murmur_ai_harness.Prelude.{
  ℕ, zero, suc, ◌+◌, ◌-◌, ◌*◌, ◌/◌, ◌%◌, ◌≤◌, ◌<◌, min, max, String, ◌≡◌, refl, sym, ap, ◌∙◌, ◌≢◌,
  ◌↔◌, ◌⊎◌, inl, inr, Bool, true, false, not, ◌&&◌, ◌||◌, Option, none, some, List, [], ◌∷◌, ◌++◌,
  map, arith, ◌==◌, eq_iff, eq_refl, ltb, leb, nat_eq, str_le, if◌then◌else◌, leb→le, le→leb,
  nat_eq_iff, &&_iff, Bool-cases, Option-cases, concat, has_text, join, length, take, drop,
  length-append, take-append-drop, length-take, select, All, all, any, contains, IsUnique, count,
  count-append, contains-append, contains→count, count→contains, length-map, Has, Zip, All-map,
  All-intro, map-cong, All-Has, Has-map, length-select-cons, length-select, Has-select, Has-last,
  Has→contains, append-eq-nil, place, sort, length-sort, sorted, count-sort, count-sorted,
  length-sorted, place-perm, sort-perm, IsSorted, sort-IsSorted, All-sort, Has-sort, Dict, lookup,
  insert, update, keys, lookup-insert, lookup-update, pos_part, is_nonpos, neg_part, sub_ℕ, ◌+ℤ◌,
  leb_ℤ, ℤ, pos, negsuc,
}
use murmur_ai_harness.Core.Json.{
  Json, null, boolean, integer, float, string, array, object, Items, end, item, Entries, none_left,
  entry,
}
use murmur_ai_harness.Core.Events.{
  Event, Payload, step_started, tool_call, model_call, tool_error, contract_check, verdict,
}
use murmur_ai_harness.Core.Judge.{Fraction, at_least}

-- What a trajectory did at a step, without captured contents.
pub data Signature : Type 0 where
  tool_action : (tool : String) (args : Json) → Signature
  model_action : (model finish_reason : String) → Signature
  no_action : (step : ℕ) → Signature

-- An entry in its place by its key.
unfoldable pub place_entry : String → Json → Entries → Entries
place_entry k v none_left = entry k v none_left
place_entry k v (entry j w rest) =
    let there = place_entry k v rest in
    if str_le k j then entry k v (entry j w rest) else entry j w there

-- The pairs of a dictionary, as tuples.
unfoldable pub pairs_of : Entries → Items
pairs_of none_left = end
pairs_of (entry k v rest) = item (array (item (string k) (item v end))) (pairs_of rest)

unfoldable mutual
  unfolding pairs_of place_entry

  -- `normalize_args`: tuples for dictionaries, sorted by their keys, and for lists.
  pub normalize_args : Json → Json
  normalize_args null = null
  normalize_args (boolean b) = boolean b
  normalize_args (integer z) = integer z
  normalize_args (float z) = float z
  normalize_args (string s) = string s
  normalize_args (array items) = array (normalize_items items)
  normalize_args (object entries) = array (pairs_of (normalize_entries entries))

  pub normalize_items : Items → Items
  normalize_items end = end
  normalize_items (item v rest) = item (normalize_args v) (normalize_items rest)

  pub normalize_entries : Entries → Entries
  normalize_entries none_left = none_left
  normalize_entries (entry k v rest) = place_entry k (normalize_args v) (normalize_entries rest)

-- The index of a step's start.
abbrev pub started_step : Payload Json → Option ℕ
started_step (step_started index phase) = some index
started_step p = none

abbrev pub starts_at : ℕ → Option ℕ → Bool
starts_at step none = false
starts_at step (some index) = nat_eq index step

-- The events after the start of a step.
unfoldable pub after_start : ℕ → List (Event Json) → Option (List (Event Json))
after_start step [] = none
after_start step (e ∷ events) =
    if starts_at step (started_step e.payload) then some events else after_start step events

-- The number of the next start.
unfoldable pub next_start : List (Event Json) → Option ℕ
next_start [] = none
next_start (e ∷ events) = elim (started_step e.payload) [
  | some index ↦ some e.seq
  | none ↦ next_start events
]

abbrev pub is_before : Option ℕ → Event Json → Bool
is_before none e = true
is_before (some end_seq) e = ltb e.seq end_seq

abbrev pub window_of : Option (List (Event Json)) → List (Event Json)
window_of none = []
window_of (some events) = select (is_before (next_start events)) events

-- `_step_window` of murmur/core/classify.py, and the same lines here.
unfoldable pub step_window : List (Event Json) → ℕ → List (Event Json)
unfolding after_start next_start select
step_window events step = window_of (after_start step events)

abbrev pub tool_of : Payload Json → Option Signature
tool_of (tool_call tool args h) = some (tool_action tool (normalize_args args))
tool_of p = none

abbrev pub model_of : Payload Json → Option Signature
model_of (model_call m i o reason l c) = some (model_action m reason)
model_of p = none

unfoldable pub first_event : {A : Type 0} → (Payload Json → Option A) → List (Event Json) → Option A
first_event f [] = none
first_event f (e ∷ events) = elim (f e.payload) [ some a ↦ some a | none ↦ first_event f events ]

abbrev pub or_first : Option Signature → Signature → Signature
or_first none b = b
or_first (some a) b = a

-- `step_signature`, with `capture` off
unfoldable pub step_signature : List (Event Json) → ℕ → Option Signature
unfolding after_start step_window first_event normalize_args
step_signature events step = elim (after_start step events) [
  | none ↦ none
  | some rest ↦
      let window = step_window events step in
      some (
        or_first (first_event tool_of window)
          (or_first (first_event model_of window) (no_action step)))
]

-- `max_step_count`, of one trajectory behind a count so far
unfoldable pub count_steps : List (Event Json) → ℕ → ℕ
count_steps [] n = n
count_steps (e ∷ events) n = elim (started_step e.payload) [
  | some index ↦ count_steps events (max n (index + 1))
  | none ↦ count_steps events n
]

unfoldable pub max_step_count : List (List (Event Json)) → ℕ → ℕ
unfolding count_steps
max_step_count [] n = n
max_step_count (events ∷ trajectories) n = max_step_count trajectories (count_steps events n)

-- `max_step_count`, over the index rather than the count: `_last_step` of classify.py
unfoldable pub last_step : List (Event Json) → Option ℕ → Option ℕ
last_step [] last = last
last_step (e ∷ events) last = elim (started_step e.payload) [
  | some index ↦ last_step events (some index)
  | none ↦ last_step events last
]

-- A cluster: its first signature and the others.
abbrev pub Cluster : Type 0
Cluster = Signature × List Signature

abbrev pub size_of : Cluster → ℕ
size_of c = suc (length c.1)

abbrev pub somes : {A : Type 0} → List (Option A) → List A
somes [] = []
somes (none ∷ xs) = somes xs
somes (some x ∷ xs) = x ∷ somes xs

-- max(clusters, key=len): the first of the longest.
unfoldable pub longest : Cluster → List Cluster → Cluster
longest best [] = best
longest best (c ∷ clusters) = longest (if ltb (size_of best) (size_of c) then c else best) clusters

-- The share of the longest of the clusters in `n` signatures.
abbrev pub agreement_in : List Cluster → ℕ → Option Fraction
agreement_in [] n = none
agreement_in (c ∷ clusters) n = some (record { num = size_of (longest c clusters); den = n })

abbrev pub active_at : List (List (Event Json)) → ℕ → List Signature
active_at trajectories step =
    somes (map (λ (events : List (Event Json)). step_signature events step) trajectories)

abbrev pub is_split : Fraction → Option Fraction → Bool
is_split tol none = false
is_split tol (some agreement) = not (at_least agreement tol)

module _ (similar : Signature → Signature → Bool) where
  unfoldable pub join_cluster : Signature → List Cluster → List Cluster
  join_cluster s [] = (s, []) ∷ []
  join_cluster s ((first, rest) ∷ clusters) =
      let others = join_cluster s clusters in
      if similar s first then (first, rest ++ s ∷ []) ∷ clusters else (first, rest) ∷ others

  -- `cluster_signatures`
  unfoldable pub cluster_signatures : List Signature → List Cluster → List Cluster
  unfolding join_cluster
  cluster_signatures [] clusters = clusters
  cluster_signatures (s ∷ signatures) clusters =
      cluster_signatures signatures (join_cluster s clusters)

  -- `agreement_at`
  unfoldable pub agreement_at : List (List (Event Json)) → ℕ → Option Fraction
  unfolding cluster_signatures longest step_signature
  agreement_at trajectories step =
      let active = active_at trajectories step in
      agreement_in (cluster_signatures active []) (length active)

  -- The loop of `divergence_step` over the steps left.
  unfoldable pub first_split : List (List (Event Json)) → Fraction → (left step : ℕ) → Option ℕ
  unfolding agreement_at
  first_split trajectories tol zero step = none
  first_split trajectories tol (suc left) step =
      if is_split tol (agreement_at trajectories step)
      then some step
      else first_split trajectories tol left (step + 1)

  -- `divergence_step`
  unfoldable pub divergence_step : List (List (Event Json)) → Fraction → (n_steps : ℕ) → Option ℕ
  unfolding first_split
  divergence_step trajectories tol n_steps = first_split trajectories tol n_steps 0
