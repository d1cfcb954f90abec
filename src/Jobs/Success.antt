-- ===== src/Jobs/Success.antt =====
-- The last success of a job definition (`_record_job_definition_schedule_state` of app/db.py).
use mathlib.Core.List.{foldr}
use rclone.Jobs.{Fact, ScheduleState, is_ok}
use rclone.Jobs.States.{
  Report, fact_of, is_attempt, is_current, newer_fact, update_schedule, record_schedule_state,
}
use rclone.Base.{
  String, ◌≡◌, inl, inr, Bool, true, false, not, ◌&&◌, ◌||◌, Option, none, some, List, [], ◌∷◌,
  arith, str_eq, eq_iff, eq_refl, if◌then◌else◌, Bool-cases, Table, lookup, upsert, lookup-upsert,
  strip, is_empty, if-both,
}

-- A success that is at least as new: it started later, or at the same time with a higher number.
abbrev pub AsNew : Fact → Option Fact → Type 0
AsNew f none = ⊥
AsNew f (some g) = is_current g (some f) ≡ true

abbrev last_success_of : Option ScheduleState → Option Fact
last_success_of none = none
last_success_of (some s) = s.last_success

abbrev pub success_of : String → Table ScheduleState → Option Fact
success_of k t = last_success_of (lookup k t)

newer_fact-AsNew :
    (wanted : Bool) (f g : Fact) (old : Option Fact)
    → AsNew f old
    → AsNew f (newer_fact wanted g old)
unfolding newer_fact
newer_fact-AsNew wanted f g none h = absurd h
newer_fact-AsNew wanted f g (some e) h = elim (Bool-cases (wanted && is_current g (some e))) [
  | inl taken ↦ rw taken (ground (arith, h, taken))
  | inr refused ↦ rw refused h
]

newer_fact-takes : (f : Fact) (old : Option Fact) → AsNew f (newer_fact true f old)
unfolding newer_fact
newer_fact-takes f none = ground arith
newer_fact-takes f (some e) = elim (Bool-cases (is_current f (some e))) [
  | inl taken ↦ rw taken (ground arith)
  | inr refused ↦ rw refused (ground (arith, refused))
]

update_schedule-AsNew :
    (f : Fact) (r : Report) (o : Option ScheduleState)
    → AsNew f (last_success_of o)
    → AsNew f (update_schedule r o).last_success
unfolding update_schedule
update_schedule-AsNew f r none h = absurd h
update_schedule-AsNew f r (some s) h =
    newer_fact-AsNew (is_ok r.status) f (fact_of r) s.last_success h

update_schedule-takes :
    (r : Report) (o : Option ScheduleState)
    → is_ok r.status ≡ true
    → AsNew (fact_of r) (update_schedule r o).last_success
unfolding update_schedule
update_schedule-takes r none good = rw good (newer_fact-takes (fact_of r) none)
update_schedule-takes r (some s) good = rw good (newer_fact-takes (fact_of r) s.last_success)

chosen-AsNew :
    (k : String) (f : Fact) (r : Report) (id : String) (t : Table ScheduleState)
    → AsNew f (success_of k t)
    → AsNew f (
        last_success_of
          (if str_eq id k then some (update_schedule r (lookup id t)) else lookup k t))
chosen-AsNew k f r id t h = elim (Bool-cases (str_eq id k)) [
  | inl same ↦
      let p : id ≡ k = ground (arith, same, eq_iff id k) in
      rw (same, p) (update_schedule-AsNew f r (lookup k t) h)
  | inr other ↦ rw other h
]

record_schedule_state-AsNew :
    (k : String) (f : Fact) (r : Report) (t : Table ScheduleState)
    → AsNew f (success_of k t)
    → AsNew f (success_of k (record_schedule_state r t))
unfolding record_schedule_state
record_schedule_state-AsNew k f r t h =
    let id = strip r.definition_id in
    let new = update_schedule r (lookup id t) in
    if-both (λ u. AsNew f (success_of k u))
      (is_empty id || r.dry_run || not (is_attempt r) && not (is_ok r.status)) t (upsert id new t) h
      (rw (lookup-upsert id k new t) (chosen-AsNew k f r id t h))

-- Once a success was recorded, the last success of its definition is at least as new as it,
-- whatever is reported afterwards in whatever order.
pub record_schedule_state-AsNew_success :
    (r : Report) (later : List Report) (t : Table ScheduleState)
    → is_ok r.status ≡ true
    → r.dry_run ≡ false
    → is_empty (strip r.definition_id) ≡ false
    → AsNew (fact_of r) (
        success_of
          (strip r.definition_id)
          (foldr record_schedule_state (record_schedule_state r t) later))
unfolding record_schedule_state
record_schedule_state-AsNew_success r [] t good real named =
    let id = strip r.definition_id in
    let new = update_schedule r (lookup id t) in
    let kept : (is_empty id || r.dry_run || not (is_attempt r) && not (is_ok r.status)) ≡ false =
      ground (arith, good, real, named) in
    rw (kept, lookup-upsert id id new t, eq_refl id) (update_schedule-takes r (lookup id t) good)
record_schedule_state-AsNew_success r (q ∷ later) t good real named =
    record_schedule_state-AsNew (strip r.definition_id) (fact_of r) q
      (foldr record_schedule_state (record_schedule_state r t) later)
      (record_schedule_state-AsNew_success r later t good real named)
