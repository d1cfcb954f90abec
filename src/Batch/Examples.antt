-- ===== src/Batch/Examples.antt =====
-- A batch of two definitions of app/db.py, run to its end and recovered after a restart.
use rclone.Batch.{
  Store, Spec, Request, new_item, new_items, new_batch, job_batch_item_start, close_batch,
  close_finished, final_state, finish_item, job_batch_item_finish, job_batch_recover, item_done,
}
use rclone.Batch.Closing.{
  Call, create, start, finish, request_cancel, recover, run, IsClosedRight, run-IsClosedRight,
}
use rclone.Batch.Progress.{
  job_batch_item_start_once, is_abandoned, job_batch_recover-attends, is_open,
  job_batch_item_finish_closes,
}
use rclone.Base.{
  ℕ, String, ◌≡◌, refl, true, false, Option, none, some, List, [], ◌∷◌, ◌==◌, if◌then◌else◌,
  any_where, count_where,
}

abbrev spec : String → Spec
spec name = record { definition_id = name; definition_name = name; spec_json = "{}" }

abbrev request : Request
request = record {
  batch_id = "b";
  specs = spec "docs" ∷ spec "photos" ∷ [];
  snapshot_json = "{}";
  config_revision = "r1";
  dry_run = false;
  first_job_id = 7;
}

abbrev empty : Store
empty = record { batches = []; items = [] }

-- The first job ended well, and the second was cut off.
abbrev jobs : ℕ → Option String
jobs n = if n == 7 then some "ok" else none

abbrev calls : List Call
calls =
    create request 0
    ∷ start "b" 1 8 20
    ∷ request_cancel 30
    ∷ finish "b" 0 item_done none 40
    ∷ recover jobs "b" 50
    ∷ []

run-IsClosedRight_example : IsClosedRight (run calls empty)
run-IsClosedRight_example = run-IsClosedRight calls empty tt

abbrev begun : Store
begun = record {
  batches = new_batch request 0 ∷ [];
  items = new_items "b" 7 0 0 (spec "docs" ∷ spec "photos" ∷ []);
}

job_batch_item_start_once_example :
    (job_batch_item_start "b" 1 9 30 (job_batch_item_start "b" 1 8 20 begun).1).0 ≡ false
job_batch_item_start_once_example = job_batch_item_start_once "b" 1 8 9 20 30 begun

first_start_accepted : (job_batch_item_start "b" 1 8 20 begun).0 ≡ true
unfolding job_batch_item_start new_items new_item
first_start_accepted = refl

job_batch_recover-attends_example :
    count_where (is_abandoned jobs "b") (job_batch_recover jobs "b" 50 begun).1.items ≡ 0
job_batch_recover-attends_example = job_batch_recover-attends jobs "b" 50 begun

-- One item is left, and its report ends the batch.
abbrev one_left : Store
one_left = record {
  batches = new_batch request 0 ∷ [];
  items = new_item "b" 7 0 0 (spec "docs") ∷ [];
}

abbrev ended : Store
ended = record {
  batches = close_batch "b" 40 final_state (new_batch request 0) ∷ [];
  items = finish_item "b" 0 item_done none 40 (new_item "b" 7 0 0 (spec "docs")) ∷ [];
}

job_batch_item_finish_closes_example : any_where (is_open "b") ended.batches ≡ false
unfolding job_batch_item_finish close_finished finish_item new_item
job_batch_item_finish_closes_example =
    job_batch_item_finish_closes "b" 0 item_done none 40 one_left ended true refl refl
