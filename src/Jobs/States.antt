-- ===== src/Jobs/States.antt =====
-- What is kept of pairs and definitions when their jobs are deleted
-- (`_record_pair_history_state`, `_record_job_definition_schedule_state` of app/db.py).
use rclone.Jobs.{Status, is_ok, PairHistory, Fact, ScheduleState, or_null}
use rclone.Base.{
  ℕ, min, max, String, Bool, true, not, ◌&&◌, ◌||◌, Option, none, some, str_eq, ltb, leb, ◌==◌,
  if◌then◌else◌, Table, or_else, strip, is_empty, upsert, lookup,
}

-- The arguments of `_record_pair_history_state`; `success_at` is 0 where it is missing.
pub record Seen : Type 0 where
  pub history_key : String
  pub pair_name : String
  pub seen_at : ℕ
  pub succeeded : Bool
  pub terminal : Bool
  pub success_at : ℕ

abbrev pub success_time : Seen → Option ℕ
success_time e =
    if e.succeeded then some (if e.success_at == 0 then e.seen_at else e.success_at) else none

unfoldable pub first_seen : Seen → PairHistory
first_seen e = record {
  pair_name = strip e.pair_name;
  ever_succeeded = e.succeeded;
  terminal_seen = e.terminal;
  first_seen_at = e.seen_at;
  last_seen_at = e.seen_at;
  last_success_at = success_time e;
}

abbrev pub later_success : Option ℕ → Option ℕ → Option ℕ
later_success old none = old
later_success none (some t) = some t
later_success (some s) (some t) = some (max s t)

-- The branch `ON CONFLICT … DO UPDATE`.
unfoldable pub seen_again : PairHistory → PairHistory → PairHistory
seen_again old new = record {
  pair_name = if leb old.last_seen_at new.last_seen_at then new.pair_name else old.pair_name;
  ever_succeeded = old.ever_succeeded || new.ever_succeeded;
  terminal_seen = old.terminal_seen || new.terminal_seen;
  first_seen_at = min old.first_seen_at new.first_seen_at;
  last_seen_at = max old.last_seen_at new.last_seen_at;
  last_success_at = later_success old.last_success_at new.last_success_at;
}

unfoldable pub merge_seen : Option PairHistory → PairHistory → PairHistory
unfolding seen_again
merge_seen none new = new
merge_seen (some old) new = seen_again old new

unfoldable pub record_pair_history_state : Seen → Table PairHistory → Table PairHistory
unfolding first_seen merge_seen
record_pair_history_state e t =
    let key = strip e.history_key in
    if is_empty key || is_empty (strip e.pair_name)
    then t
    else upsert key (merge_seen (lookup key t) (first_seen e)) t

-- The arguments of `_record_job_definition_schedule_state`.
pub record Report : Type 0 where
  pub definition_id : String
  pub definition_name : String
  pub job_id : ℕ
  pub started_at : ℕ
  pub ended_at : Option ℕ
  pub status : Status
  pub trigger : String
  pub scheduled_slot : String
  pub dry_run : Bool

abbrev pub effective_at : Report → ℕ
effective_at r = elim r.ended_at [ none ↦ r.started_at | some t ↦ t ]

abbrev pub normalized_trigger : Report → String
normalized_trigger r = or_else (strip (or_else r.trigger "manual")) "manual"

unfoldable pub fact_of : Report → Fact
unfolding or_null
fact_of r = record {
  job_id = r.job_id;
  started_at = r.started_at;
  at = effective_at r;
  status = r.status;
  trigger = normalized_trigger r;
  scheduled_slot = or_null r.scheduled_slot;
}

unfoldable pub is_attempt : Report → Bool
is_attempt r = str_eq (normalized_trigger r) "scheduler"

-- `(started, job_id) >= (float(… or 0), int(… or 0))`
abbrev pub is_current : Fact → Option Fact → Bool
is_current f none = true
is_current f (some g) =
    ltb g.started_at f.started_at || g.started_at == f.started_at && leb g.job_id f.job_id

unfoldable pub newer_fact : Bool → Fact → Option Fact → Option Fact
newer_fact wanted f old = if wanted && is_current f old then some f else old

unfoldable pub update_schedule : Report → Option ScheduleState → ScheduleState
unfolding fact_of is_attempt newer_fact
update_schedule r none = record {
  definition_name = strip r.definition_name;
  last_attempt = if is_attempt r then some (fact_of r) else none;
  last_success = if is_ok r.status then some (fact_of r) else none;
  updated_at = effective_at r;
}
update_schedule r (some s) = record {
  definition_name = or_else (strip r.definition_name) s.definition_name;
  last_attempt = newer_fact (is_attempt r) (fact_of r) s.last_attempt;
  last_success = newer_fact (is_ok r.status) (fact_of r) s.last_success;
  updated_at = max s.updated_at (effective_at r);
}

unfoldable pub record_schedule_state : Report → Table ScheduleState → Table ScheduleState
unfolding update_schedule is_attempt
record_schedule_state r t =
    let stable_id = strip r.definition_id in
    if is_empty stable_id || r.dry_run || not (is_attempt r) && not (is_ok r.status)
    then t
    else upsert stable_id (update_schedule r (lookup stable_id t)) t
