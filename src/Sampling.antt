-- ===== src/Sampling.antt =====
-- The choice of files for a restore test within a budget of bytes
-- (`select_budgeted_sample` of app/jobs/restore_sampling.py).
pub mod Budget
pub mod Choice
mod Examples
use rclone.Base.{
  ℕ, zero, suc, ◌+◌, ◌-◌, String, Bool, ◌&&◌, ◌||◌, Option, none, some, List, [], ◌∷◌, map, str_eq,
  ltb, leb, ◌==◌, if◌then◌else◌, length, any_where, is_empty, sort_by,
}

-- A file that may be chosen.
pub record Candidate : Type 0 where
  pub path : String
  pub size : ℕ

-- An entry of the reservoir: a pair of a text and a value, which is `none` unless it is an integer
-- from 0 up, or anything else.
pub data Entry : Type 0 where
  malformed : Entry
  entry : String → Option ℕ → Entry

-- A limit as the caller gives it.
pub data Limit : Type 0 where
  no_integer negative : Limit
  amount : ℕ → Limit

abbrev pub is_seen : List Candidate → String → Bool
is_seen seen path = any_where (λ c. str_eq c.path path) seen

-- The loop that collects `eligible`; `seen` has the candidates so far, the latest first.
unfoldable pub eligible_from : ℕ → List Candidate → List Entry → List Candidate
eligible_from budget seen [] = []
eligible_from budget seen (malformed ∷ es) = eligible_from budget seen es
eligible_from budget seen (entry path none ∷ es) = eligible_from budget seen es
eligible_from budget seen (entry path (some size) ∷ es) =
    let c : Candidate = record { path = path; size = size } in
    let skipped = eligible_from budget seen es in
    let taken = c ∷ eligible_from budget (c ∷ seen) es in
    if is_empty path || ltb budget size || is_seen seen path then skipped else taken

unfoldable pub eligible : ℕ → List Entry → List Candidate
unfolding eligible_from
eligible budget es = eligible_from budget [] es

-- The greedy choice in the order of the reservoir; `room` is how many more files are wanted.
unfoldable pub greedy : ℕ → ℕ → ℕ → List Candidate → List Candidate
greedy budget room bytes [] = []
greedy budget room bytes (c ∷ cs) =
    let taken = c ∷ greedy budget (room - 1) (bytes + c.size) cs in
    let skipped = greedy budget room bytes cs in
    if leb room 0 then [] else if leb (bytes + c.size) budget then taken else skipped

-- An entry of the heap: the size and the position of a candidate.
pub record Slot : Type 0 where
  pub size : ℕ
  pub position : ℕ

-- `heappop` gives the largest size, and the latest position among equal sizes.
abbrev pub pops_before : Slot → Slot → Bool
pops_before a b = ltb b.size a.size || a.size == b.size && ltb b.position a.position

unfoldable pub largest : Slot → List Slot → Slot
largest a [] = a
largest a (b ∷ heap) = if pops_before b a then largest b heap else largest a heap

unfoldable pub remove_slot : Slot → List Slot → List Slot
remove_slot a [] = []
remove_slot a (b ∷ heap) =
    let rest = remove_slot a heap in
    if a.size == b.size && a.position == b.position then heap else b ∷ rest

-- A push, and the eviction of the largest entry when the budget is exceeded.
unfoldable pub push : ℕ → Slot → List Slot → ℕ → List Slot × ℕ
unfolding largest remove_slot
push budget a heap bytes =
    let top = largest a heap in
    if ltb budget (bytes + a.size)
    then (remove_slot top (a ∷ heap), bytes + a.size - top.size)
    else (a ∷ heap, bytes + a.size)

unfoldable pub evict_from : ℕ → ℕ → ℕ → List Slot → ℕ → List Candidate → List Slot
unfolding push
evict_from budget sample_size index heap bytes [] = heap
evict_from budget sample_size index heap bytes (c ∷ cs) =
    let (heap', bytes') = push budget (record { size = c.size; position = index }) heap bytes in
    let rest = evict_from budget sample_size (index + 1) heap' bytes' cs in
    if length heap' == sample_size then heap' else rest

-- `eligible[index]`
unfoldable pub get_elem? : ℕ → List Candidate → Option Candidate
get_elem? n [] = none
get_elem? zero (c ∷ cs) = some c
get_elem? (suc n) (c ∷ cs) = get_elem? n cs

unfoldable pub pick : List Candidate → List ℕ → List Candidate
unfolding get_elem?
pick cs [] = []
pick cs (i ∷ is) = elim (get_elem? i cs) [ none ↦ pick cs is | some c ↦ c ∷ pick cs is ]

unfoldable pub select_eligible : ℕ → ℕ → List Candidate → List Candidate
unfolding greedy evict_from pick
select_eligible sample_size budget cs =
    let by_order = greedy budget sample_size 0 cs in
    let selected = evict_from budget sample_size 0 [] 0 cs in
    if length by_order == sample_size || leb (length selected) (length by_order)
    then by_order
    else pick cs (sort_by ltb (map (λ a. a.position) selected))

-- `none` stands for the ValueError on a limit that is no integer.
unfoldable pub select_budgeted_sample : List Entry → Limit → Limit → Option (List Candidate)
unfolding eligible select_eligible
select_budgeted_sample candidates no_integer _ = none
select_budgeted_sample candidates _ no_integer = none
select_budgeted_sample candidates negative _ = some []
select_budgeted_sample candidates _ negative = some []
select_budgeted_sample candidates (amount sample_size) (amount max_total_bytes) =
    let cs = eligible max_total_bytes candidates in
    if leb sample_size 0 then some [] else some (select_eligible sample_size max_total_bytes cs)
