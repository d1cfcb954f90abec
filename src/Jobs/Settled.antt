-- ===== src/Jobs/Settled.antt =====
-- What the retried end of an external action keeps: whatever `job_finish` keeps and the intents do
-- not touch (`job_terminal_*`, `job_finish_external` of app/db.py).
use rclone.Jobs.{Status, Store, Texts, Intent, is_running, find_job}
use rclone.Jobs.Finish.{Summary}
use rclone.Jobs.Close.{job_finish}
use rclone.Jobs.Terminal.{
  Busy, at_stage, at_finish, at_mark, never, Try, done, raised, busy, job_terminal_stage,
  add_intent, agrees, find_intent, touch_intent, mark_intent, has_status, check_applied,
  apply_intent, job_terminal_apply, store_of, reply_of, finish_intent, try_staged, try_from,
  try_finish, retry, job_finish_external, recover_each, job_terminal_recover_pending,
}
use rclone.Base.{
  sort_by, keep_where, ℕ, String, Bool, true, not, ◌||◌, Option, none, some, List, [], ◌∷◌, map,
  ltb, if◌then◌else◌, is_some, if-both,
}

abbrev pub staged_or : Store → Option Store → Store
staged_or s none = s
staged_or s (some s') = s'

module _ (P : Store → Type 0) (x : Texts)
    (intents : (s : Store) (is : List Intent) → P s → P (record s { intents = is }))
    (finishes : (id : ℕ) (status : Status) (given : Option Summary) (now : ℕ) (s : Store)
      → P s
      → P (store_of s (job_finish x id status given now s))) where
  pub stage-keeps :
      (id : ℕ) (status : Status) (payload : String) (now : ℕ) (s : Store)
      → P s
      → P (staged_or s (job_terminal_stage id status payload now s))
  unfolding job_terminal_stage
  stage-keeps id status payload now s h =
      let is = add_intent id status payload now s.intents in
      let kept : Store = record s { intents = map (touch_intent id now) is } in
      if-both (λ o. P (staged_or s o)) (is_running status || not (is_some (find_job id s.jobs)))
        none (if agrees status payload (find_intent id is) then some kept else none) h
        (if-both (λ o. P (staged_or s o)) (agrees status payload (find_intent id is)) (some kept)
          none (intents s (map (touch_intent id now) is) h) h)

  check_applied-keeps :
      (id : ℕ) (status : Status) (now : ℕ) (s : Store) (o : Option (Bool × Store))
      → P s
      → P (store_of s o)
      → P (store_of s (check_applied id status now o))
  unfolding check_applied
  check_applied-keeps id status now s none h k = h
  check_applied-keeps id status now s (some (b, t)) h k =
      let marked : Store = record t { intents = map (mark_intent id now) t.intents } in
      if-both (λ o. P (store_of s o)) (b || has_status status (find_job id t.jobs))
        (some (true, marked)) none (intents t (map (mark_intent id now) t.intents) k) h

  module _ (parse : String → Summary) where
    apply_intent-keeps :
        (o : Option Intent) (id now : ℕ) (s : Store)
        → P s
        → P (store_of s (apply_intent x parse o id now s))
    unfolding apply_intent
    apply_intent-keeps none id now s h = h
    apply_intent-keeps (some i) id now s h =
        check_applied-keeps id i.status now s
          (job_finish x id i.status (some (parse i.summary_json)) now s) h
          (finishes id i.status (some (parse i.summary_json)) now s h)

    pub apply-keeps :
        (id now : ℕ) (s : Store) → P s → P (store_of s (job_terminal_apply x parse id now s))
    unfolding job_terminal_apply
    apply-keeps id now s h = apply_intent-keeps (find_intent id s.intents) id now s h

    finish_intent-keeps :
        (o : Option Intent) (id now : ℕ) (s : Store) → P s → P (finish_intent x parse o id now s)
    unfolding finish_intent
    finish_intent-keeps none id now s h = h
    finish_intent-keeps (some i) id now s h =
        finishes id i.status (some (parse i.summary_json)) now s h

    reply_of-keeps : (s : Store) (o : Option (Bool × Store)) → P (store_of s o) → P (reply_of s o).1
    reply_of-keeps s none h = h
    reply_of-keeps s (some (b, t)) h = h

    try_staged-keeps :
        (b : Busy) (id now : ℕ) (s : Store) → P s → P (try_staged x parse b id now s).1
    unfolding try_staged
    try_staged-keeps at_stage id now s h = h
    try_staged-keeps at_finish id now s h = h
    try_staged-keeps at_mark id now s h = finish_intent-keeps (find_intent id s.intents) id now s h
    try_staged-keeps never id now s h =
        reply_of-keeps s (job_terminal_apply x parse id now s) (apply-keeps id now s h)

    try_from-keeps :
        (b : Busy) (id now : ℕ) (s : Store) (o : Option Store)
        → P s
        → P (staged_or s o)
        → P (try_from x parse b id now s o).1
    unfolding try_from
    try_from-keeps b id now s none h k = h
    try_from-keeps b id now s (some t) h k = try_staged-keeps b id now t k

    try_finish-keeps :
        (b : Busy) (id : ℕ) (status : Status) (payload : String) (now : ℕ) (s : Store)
        → P s
        → P (try_finish x parse b id status payload now s).1
    unfolding try_finish
    try_finish-keeps at_stage id status payload now s h = h
    try_finish-keeps at_finish id status payload now s h =
        try_from-keeps at_finish id now s (job_terminal_stage id status payload now s) h
          (stage-keeps id status payload now s h)
    try_finish-keeps at_mark id status payload now s h =
        try_from-keeps at_mark id now s (job_terminal_stage id status payload now s) h
          (stage-keeps id status payload now s h)
    try_finish-keeps never id status payload now s h =
        try_from-keeps never id now s (job_terminal_stage id status payload now s) h
          (stage-keeps id status payload now s h)

    retry-keeps :
        (again : Store → Try × Store) (r : Try × Store)
        → ((s : Store) → P s → P (again s).1)
        → P r.1
        → P (retry again r).1
    unfolding retry
    retry-keeps again (busy, s) keeps h = keeps s h
    retry-keeps again (done b, s) keeps h = h
    retry-keeps again (raised, s) keeps h = h

    pub finish_external-keeps :
        (id : ℕ) (status : Status) (payload : String) (tries : List (Busy × ℕ)) (s : Store)
        → P s
        → P (job_finish_external x parse id status payload tries s).1
    unfolding job_finish_external
    finish_external-keeps id status payload [] s h = h
    finish_external-keeps id status payload ((b, now) ∷ tries) s h =
        retry-keeps (λ t. job_finish_external x parse id status payload tries t)
          (try_finish x parse b id status payload now s)
          (λ t. finish_external-keeps id status payload tries t)
          (try_finish-keeps b id status payload now s h)

    recover_each-keeps :
        (now : ℕ) (ids : List ℕ) (s : Store) → P s → P (recover_each x parse now ids s).1
    unfolding recover_each
    recover_each-keeps now [] s h = h
    recover_each-keeps now (id ∷ ids) s h =
        recover_each-keeps now ids (store_of s (job_terminal_apply x parse id now s))
          (apply-keeps id now s h)

    pub recover-keeps :
        (now : ℕ) (s : Store) → P s → P (job_terminal_recover_pending x parse now s).1
    unfolding job_terminal_recover_pending
    recover-keeps now s h =
        recover_each-keeps now
          (map (λ i. i.job_id)
            (sort_by (λ a b. ltb a.created_at b.created_at)
              (keep_where (λ i. not (is_some i.applied_at)) s.intents)))
          s h
