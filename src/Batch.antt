-- ===== src/Batch.antt =====
-- The batches of job definitions that are run one after the other: the tables job_batches and
-- job_batch_items of app/db.py (`job_batch_*`).
-- `none` stands for an exception, after which the transaction is rolled back. The texts that
-- `_json_dumps_bounded` makes of the snapshot and of each specification are arguments.
pub mod Closing
pub mod Progress
mod Examples
use Prim.Native.String.{◌++◌ as append_text}
use rclone.Base.{
  ℕ, ◌+◌, String, Bool, true, false, not, ◌&&◌, ◌||◌, Option, none, some, List, [], ◌∷◌, ◌++◌, map,
  str_eq, ltb, leb, ◌==◌, if◌then◌else◌, length, any_where, count_where, is_empty, sort_by,
  keep_where, find_where,
}

pub data BatchState : Type 0 where
  running done cancelled : BatchState

pub data ItemState : Type 0 where
  item_queued item_running item_done item_failed item_cancelled : ItemState

abbrev pub is_running : BatchState → Bool
is_running running = true
is_running _ = false

-- `state IN ('queued', 'running')`
abbrev pub is_active : ItemState → Bool
is_active item_queued = true
is_active item_running = true
is_active _ = false

abbrev pub is_queued : ItemState → Bool
is_queued item_queued = true
is_queued _ = false

abbrev pub is_item_running : ItemState → Bool
is_item_running item_running = true
is_item_running _ = false

-- A row of `job_batches`.
pub record Batch : Type 0 where
  pub id : String
  pub state : BatchState
  pub dry_run : Bool
  pub config_revision : String
  pub snapshot_json : String
  pub cancel_requested : Bool
  pub created_at : ℕ
  pub updated_at : ℕ
  pub completed_at : Option ℕ

-- A row of `job_batch_items`.
pub record Item : Type 0 where
  pub batch_id : String
  pub position : ℕ
  pub definition_id : Option String
  pub definition_name : Option String
  pub spec_json : String
  pub state : ItemState
  pub job_id : Option ℕ
  pub error : Option String
  pub created_at : ℕ
  pub updated_at : ℕ

pub record Store : Type 0 where
  pub batches : List Batch
  pub items : List Item

-- What `job_batch_create` reads of a specification.
pub record Spec : Type 0 where
  pub definition_id : String
  pub definition_name : String
  pub spec_json : String

-- `str(value or "") or None`
abbrev pub or_null : String → Option String
or_null s = if is_empty s then none else some s

unfoldable pub new_item : String → ℕ → ℕ → ℕ → Spec → Item
new_item batch_id first_job_id now position spec = record {
  batch_id = batch_id;
  position = position;
  definition_id = or_null spec.definition_id;
  definition_name = or_null spec.definition_name;
  spec_json = spec.spec_json;
  state = if position == 0 then item_running else item_queued;
  job_id = if position == 0 then some first_job_id else none;
  error = none;
  created_at = now;
  updated_at = now;
}

-- `for position, spec in enumerate(specs)`
unfoldable pub new_items : String → ℕ → ℕ → ℕ → List Spec → List Item
unfolding new_item
new_items batch_id first_job_id now position [] = []
new_items batch_id first_job_id now position (spec ∷ specs) =
    new_item batch_id first_job_id now position spec
    ∷ new_items batch_id first_job_id now (position + 1) specs

abbrev pub has_batch : String → List Batch → Bool
has_batch id batches = any_where (λ b. str_eq b.id id) batches

-- The arguments of `job_batch_create`; `batch_id` is the UUID that is drawn.
pub record Request : Type 0 where
  pub batch_id : String
  pub specs : List Spec
  pub snapshot_json : String
  pub config_revision : String
  pub dry_run : Bool
  pub first_job_id : ℕ

unfoldable pub new_batch : Request → ℕ → Batch
new_batch r now = record {
  id = r.batch_id;
  state = running;
  dry_run = r.dry_run;
  config_revision = r.config_revision;
  snapshot_json = r.snapshot_json;
  cancel_requested = false;
  created_at = now;
  updated_at = now;
  completed_at = none;
}

unfoldable pub job_batch_create : Request → ℕ → Store → Option Store
unfolding new_batch new_items
job_batch_create r now s =
    if leb (length r.specs) 0 || has_batch r.batch_id s.batches
    then none
    else some (record {
      batches = s.batches ++ (new_batch r now ∷ []);
      items = s.items ++ new_items r.batch_id r.first_job_id now 0 r.specs;
    })

abbrev pub in_batch : String → Item → Bool
in_batch batch_id i = str_eq i.batch_id batch_id

abbrev pub is_at : String → ℕ → Item → Bool
is_at batch_id position i = in_batch batch_id i && i.position == position

with_items : List Item → Option Batch → Option (Batch × List Item)
with_items items none = none
with_items items (some b) = some (b, items)

unfoldable pub job_batch_get : String → Store → Option (Batch × List Item)
unfolding with_items
job_batch_get id s =
    with_items (sort_by (λ a b. ltb a.position b.position) (keep_where (in_batch id) s.items))
      (find_where (λ b. str_eq b.id id) s.batches)

collect : Store → List Batch → List (Batch × List Item)
unfolding job_batch_get
collect s [] = []
collect s (b ∷ bs) = elim (job_batch_get b.id s) [
  | none ↦ collect s bs
  | some found ↦ found ∷ collect s bs
]

unfoldable pub job_batches_pending : Store → List (Batch × List Item)
unfolding collect
job_batches_pending s = collect s (
    sort_by (λ a b. ltb a.created_at b.created_at) (keep_where (λ b. is_running b.state) s.batches))

unfoldable pub start_item : String → ℕ → ℕ → ℕ → Item → Item
start_item batch_id position job_id now i =
    if is_at batch_id position i && is_queued i.state
    then record i { state = item_running; job_id = some job_id; updated_at = now }
    else i

unfoldable pub job_batch_item_start : String → ℕ → ℕ → ℕ → Store → Bool × Store
unfolding start_item
job_batch_item_start batch_id position job_id now s = (
  count_where (λ i. is_at batch_id position i && is_queued i.state) s.items == 1,
  record s { items = map (start_item batch_id position job_id now) s.items },
)

-- The items of a batch that are queued or running.
abbrev pub remaining : String → List Item → ℕ
remaining batch_id items = count_where (λ i. in_batch batch_id i && is_active i.state) items

unfoldable pub close_batch : String → ℕ → (Batch → BatchState) → Batch → Batch
close_batch batch_id now final b =
    if str_eq b.id batch_id && is_running b.state
    then record b { state = final b; updated_at = now; completed_at = some now }
    else b

-- The batch is closed once none of its items is left to do.
unfoldable pub close_finished : String → ℕ → (Batch → BatchState) → Store → Store
unfolding close_batch
close_finished batch_id now final s =
    if remaining batch_id s.items == 0
    then record s { batches = map (close_batch batch_id now final) s.batches }
    else s

abbrev pub final_state : Batch → BatchState
final_state b = if b.cancel_requested then cancelled else done

unfoldable pub finish_item : String → ℕ → ItemState → Option String → ℕ → Item → Item
finish_item batch_id position state error now i =
    if is_at batch_id position i && is_active i.state
    then record i { state = state; error = error; updated_at = now }
    else i

-- A state that is not final is a ValueError.
unfoldable pub job_batch_item_finish :
    String → ℕ → ItemState → Option String → ℕ → Store → Option (Bool × Store)
unfolding finish_item close_finished
job_batch_item_finish batch_id position state error now s =
    if is_active state
    then none
    else some (
      count_where (λ i. is_at batch_id position i && is_active i.state) s.items == 1,
      close_finished batch_id now final_state
          (record s { items = map (finish_item batch_id position state error now) s.items }),
    )

unfoldable pub ask_cancel : ℕ → Batch → Batch
ask_cancel now b =
    if is_running b.state && not b.cancel_requested
    then record b { cancel_requested = true; updated_at = now }
    else b

unfoldable pub job_batch_request_cancel : ℕ → Store → ℕ × Store
unfolding ask_cancel
job_batch_request_cancel now s = (
  count_where (λ b. is_running b.state && not b.cancel_requested) s.batches,
  record s { batches = map (ask_cancel now) s.batches },
)

-- `SELECT status FROM jobs WHERE id=?`, with "stale" for a job that is not there.
unfoldable pub status_of : (ℕ → Option String) → Option ℕ → String
status_of jobs none = "stale"
status_of jobs (some id) = elim (jobs id) [ none ↦ "stale" | some status ↦ status ]

unfoldable pub recover_item : (ℕ → Option String) → String → ℕ → Item → Item
unfolding status_of
recover_item jobs batch_id now i =
    let status = status_of jobs i.job_id in
    if in_batch batch_id i && is_item_running i.state && not (str_eq status "running")
    then record i {
      state = if str_eq status "ok" then item_done else item_failed;
      error =
          if str_eq status "ok" then none else some (append_text "Unterbrochener Lauf: " status);
      updated_at = now;
    }
    else i

-- `jobs` gives the status of a row of the table jobs.
unfoldable pub job_batch_recover :
    (ℕ → Option String) → String → ℕ → Store → Option (Batch × List Item) × Store
unfolding recover_item close_finished
job_batch_recover jobs batch_id now s =
    let s' =
      close_finished batch_id now (λ b. done)
        (record s { items = map (recover_item jobs batch_id now) s.items }) in
    (job_batch_get batch_id s', s')
