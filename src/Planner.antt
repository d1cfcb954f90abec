-- ===== src/Planner.antt =====
-- Which pairs of a sync may run side by side (app/jobs/pair_planner.py), and the loop of `run_job` of
-- app/jobs/rclone_sync.py that starts them.
-- `str.casefold` and the resolution of a local path are the argument `Host`.
pub mod Symmetry
pub mod Parallel
pub mod Rounds
pub mod Selection
mod Examples
use Prim.Native.Char.{code}
use Prim.Native.String.{◌++◌ as append_text}
use rclone.Base.{
  starts_with, ℕ, zero, suc, String, Bool, true, false, not, ◌&&◌, ◌||◌, Option, none, some, List,
  [], ◌∷◌, ◌++◌, map, str_eq, ltb, leb, ◌==◌, if◌then◌else◌, is_some, length, any_where, is_empty,
  keep_where, strip,
}

-- `parts` gives the parts of the resolved path, and `none` where resolving raises.
pub record Host : Type 0 where
  pub casefold : String → String
  pub parts : String → Option (List String)

pub record Pair : Type 0 where
  pub name : String
  pub local_path : String
  pub remote_path : String
  pub enabled : Bool

slash : ℕ
slash = 47

colon : ℕ
colon = 58

unfoldable pub starts_with_code : ℕ → String → Bool
starts_with_code n String.[] = false
starts_with_code n (String.◌∷◌ c s) = code c == n

unfoldable pub contains_code : ℕ → String → Bool
contains_code n String.[] = false
contains_code n (String.◌∷◌ c s) = code c == n || contains_code n s

-- An absolute path starts with a slash.
unfoldable pub is_remote : String → Bool
unfolding slash colon starts_with_code contains_code
is_remote path =
    not (is_empty path)
    && not (starts_with_code slash path)
    && not (starts_with_code 45 path)
    && contains_code colon path

-- `value.partition(":")`: the text before the first colon, and the text behind it.
unfoldable pub partition : String → String × String
unfolding colon
partition String.[] = (String.[], String.[])
partition (String.◌∷◌ c s) =
    let (before, behind) = partition s in
    if code c == colon then (String.[], s) else (String.◌∷◌ c before, behind)

unfoldable pub lstrip_slashes : String → String
unfolding slash
lstrip_slashes String.[] = String.[]
lstrip_slashes (String.◌∷◌ c s) =
    let rest = lstrip_slashes s in if code c == slash then rest else String.◌∷◌ c s

unfoldable pub rstrip_slashes : String → String
unfolding slash
rstrip_slashes String.[] = String.[]
rstrip_slashes (String.◌∷◌ c s) = close (rstrip_slashes s)
  where
    close : String → String
    close String.[] = if code c == slash then String.[] else String.◌∷◌ c String.[]
    close (String.◌∷◌ d r) = String.◌∷◌ c (String.◌∷◌ d r)

unfoldable pub canonical_remote : Host → String → String
unfolding partition lstrip_slashes rstrip_slashes
canonical_remote host value =
    let (remote, raw_path) = partition value in
    append_text (host.casefold remote)
      (append_text ":" (rstrip_slashes (append_text "/" (lstrip_slashes raw_path))))

unfoldable pub nested_remotes : String → String → Bool
unfolding starts_with
nested_remotes aa bb =
    str_eq aa bb || starts_with aa (append_text bb "/") || starts_with bb (append_text aa "/")

-- `aa[: len(bb)] == bb`
unfoldable pub is_prefix : List String → List String → Bool
is_prefix [] aa = true
is_prefix (b ∷ bb) [] = false
is_prefix (b ∷ bb) (a ∷ aa) = str_eq a b && is_prefix bb aa

unfoldable pub nested_parts : Host → Option (List String) → Option (List String) → Bool
unfolding is_prefix
nested_parts host (some pa) (some pb) =
    let aa = map host.casefold pa in
    let bb = map host.casefold pb in is_prefix bb aa || is_prefix aa bb
nested_parts host _ _ = true

unfoldable pub paths_overlap : Host → String → String → Bool
unfolding is_remote canonical_remote nested_remotes nested_parts
paths_overlap host a b =
    let other = not (is_remote a && is_remote b) && (is_remote a || is_remote b) in
    let remotes = nested_remotes (canonical_remote host a) (canonical_remote host b) in
    let locals = nested_parts host (host.parts a) (host.parts b) in
    if is_empty a || is_empty b || other then false else if is_remote a then remotes else locals

unfoldable pub pairs_conflict : Host → Pair → Pair → Bool
unfolding paths_overlap
pairs_conflict host first second =
    paths_overlap host first.local_path second.local_path
    || paths_overlap host first.local_path second.remote_path
    || paths_overlap host first.remote_path second.local_path
    || paths_overlap host first.remote_path second.remote_path

unfoldable pub has_overlapping_pairs : Host → List Pair → Bool
unfolding pairs_conflict
has_overlapping_pairs host [] = false
has_overlapping_pairs host (first ∷ pairs) =
    any_where (pairs_conflict host first) pairs || has_overlapping_pairs host pairs

abbrev pub one_later : Option ℕ → Option ℕ
one_later none = none
one_later (some i) = some (suc i)

unfoldable pub next_runnable_pair_index : Host → List Pair → List Pair → Option ℕ
unfolding pairs_conflict
next_runnable_pair_index host [] active = none
next_runnable_pair_index host (candidate ∷ pending) active =
    let rest = one_later (next_runnable_pair_index host pending active) in
    if any_where (pairs_conflict host candidate) active then rest else some 0

-- The pairs that wait and those that run, in `run_job`.
pub record Plan : Type 0 where
  pub pending : List Pair
  pub running : List Pair

-- `pending.pop(index)`, and the pair is handed to a worker.
unfoldable pub start_at : ℕ → List Pair → List Pair → Plan
start_at n [] running = record { pending = []; running = running }
start_at zero (p ∷ ps) running = record { pending = ps; running = running ++ (p ∷ []) }
start_at (suc n) (p ∷ ps) running =
    let plan = start_at n ps running in record plan { pending = p ∷ plan.pending }

abbrev pub advance : Option ℕ → Plan → Plan
advance none plan = plan
advance (some i) plan = start_at i plan.pending plan.running

-- The loop `while pending and len(running) < max_parallel`; every round takes a pair, so that the
-- number of pending pairs is enough fuel.
unfoldable pub start_rounds : Host → ℕ → ℕ → Plan → Plan
unfolding next_runnable_pair_index start_at
start_rounds host max_parallel zero plan = plan
start_rounds host max_parallel (suc fuel) plan =
    let index = next_runnable_pair_index host plan.pending plan.running in
    let rest = start_rounds host max_parallel fuel (advance index plan) in
    if ltb (length plan.running) max_parallel && is_some index then rest else plan

unfoldable pub start_pairs : Host → ℕ → Plan → Plan
unfolding start_rounds
start_pairs host max_parallel plan = start_rounds host max_parallel (length plan.pending) plan

-- `indexed.get(name)`: of several pairs with one name the last.
unfoldable pub find_last : String → List Pair → Option Pair
find_last name [] = none
find_last name (p ∷ ps) =
    let here = if str_eq p.name name then some p else none in
    let later = find_last name ps in if is_some later then later else here

abbrev pub cons_some : Option Pair → List Pair → List Pair
cons_some none ps = ps
cons_some (some p) ps = p ∷ ps

-- The pairs of the names that are given, in the order of the names.
unfoldable pub pairs_named : List String → List Pair → List Pair
unfolding find_last
pairs_named [] selected = []
pairs_named (name ∷ names) selected =
    cons_some (find_last (strip name) selected) (pairs_named names selected)

-- `_selected_pairs`; no filter is the empty list.
unfoldable pub selected_pairs : List Pair → List String → List Pair
unfolding pairs_named
selected_pairs pairs pairs_filter =
    let selected = keep_where (λ p. p.enabled) pairs in
    let names = keep_where (λ name. not (is_empty (strip name))) pairs_filter in
    if leb (length pairs_filter) 0 then selected else pairs_named names selected
