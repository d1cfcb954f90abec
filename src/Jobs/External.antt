-- ===== src/Jobs/External.antt =====
-- The retries of `job_finish_external` of app/db.py.
use rclone.Jobs.Intents.{
  staged-HasIntent, HasIntent-accepts, store_of-IsReady, IsReady, is_ready, HasIntent, IsApplied,
  staged, staged-HasIntent, HasIntent-accepts, store_of-IsReady, job_terminal_stage-staged,
  check_applied-IsApplied, job_finish-IsFinished,
}
use rclone.Jobs.{Status, Store, Texts, is_running, find_job}
use rclone.Jobs.Finish.{Summary}
use rclone.Jobs.Close.{job_finish}
use rclone.Jobs.Terminal.{
  retry, find_intent, has_status, apply_intent, job_terminal_apply, job_terminal_pending, Busy,
  at_stage, at_finish, at_mark, never, Try, done, raised, busy, try_staged, try_from, try_finish,
  job_finish_external, finish_intent, reply_of,
}
use rclone.Base.{
  ℕ, String, ◌≡◌, refl, ap, Bool, true, false, Option, none, some, List, [], ◌∷◌, arith, is_some,
  any_where,
}

abbrev pub is_never : Busy × ℕ → Bool
is_never (never, now) = true
is_never (_, now) = false

-- The reply is true, the job has the status, and nothing is pending.
abbrev pub IsSettled : ℕ → Status → Try × Store → Type 0
IsSettled id status (reply, s) =
    (reply ≡ done true)
    × (has_status status (find_job id s.jobs) ≡ true)
    × (job_terminal_pending id s ≡ false)

retry-busy :
    (again : Store → Try × Store) (r : Try × Store) → r.0 ≡ busy → retry again r ≡ again r.1
unfolding retry
retry-busy again (busy, s) h = refl
retry-busy again (done b, s) h = ground (arith, h)
retry-busy again (raised, s) h = ground (arith, h)

retry-done : (again : Store → Try × Store) (r : Try × Store) → r.0 ≡ done true → retry again r ≡ r
unfolding retry
retry-done again (busy, s) h = ground (arith, h)
retry-done again (done b, s) h = refl
retry-done again (raised, s) h = refl

module _ (x : Texts) (parse : String → Summary) (id : ℕ) (status : Status) (payload : String) where
  apply-IsApplied :
      (now : ℕ) (s : Store)
      → is_ready status (find_job id s.jobs) ≡ true
      → HasIntent id status payload s.intents
      → IsApplied id status (job_terminal_apply x parse id now s)
  unfolding job_terminal_apply apply_intent
  apply-IsApplied now s ready (i, found, same, text) =
      rw (found, same)
        (check_applied-IsApplied x id status (some (parse i.summary_json)) now s
          (job_finish x id status (some (parse i.summary_json)) now s)
          (job_finish-IsFinished x id status (some (parse i.summary_json)) now s ready))

  -- The job is ready again after a database that is busy once the job has ended.
  finish_intent-IsReady :
      (now : ℕ) (s : Store)
      → is_ready status (find_job id s.jobs) ≡ true
      → HasIntent id status payload s.intents
      → IsReady id status payload (finish_intent x parse (find_intent id s.intents) id now s)
  unfolding finish_intent
  finish_intent-IsReady now s ready (i, found, same, text) =
      let given = some (parse i.summary_json) in
      rw (found, same)
        (store_of-IsReady x id status payload given now s (job_finish x id status given now s)
          (job_finish-IsFinished x id status given now s ready) (i, found, same, text))

  -- What a try does from a store that is ready.
  abbrev Succeeds : Busy → Try × Store → Type 0
  Succeeds never r = IsSettled id status r
  Succeeds _ (reply, s) = (reply ≡ busy) × IsReady id status payload s

  reply_of-Succeeds :
      (s : Store) (o : Option (Bool × Store))
      → IsApplied id status o
      → Succeeds never (reply_of s o)
  reply_of-Succeeds s none h = absurd h
  reply_of-Succeeds s (some (b, t)) (same, has, settled) = (ap done same, has, settled)

  applied-some : (o : Option (Bool × Store)) → IsApplied id status o → is_some o ≡ true
  applied-some none h = absurd h
  applied-some (some r) h = refl

  try_finish-Succeeds :
      (b : Busy) (now : ℕ) (s : Store)
      → is_running status ≡ false
      → IsReady id status payload s
      → Succeeds b (try_finish x parse b id status payload now s)
  unfolding try_finish try_from try_staged
  try_finish-Succeeds at_stage now s final ready = (refl, ready)
  try_finish-Succeeds at_finish now s final ready =
      let kept = staged-HasIntent id status payload now s ready in
      let t = staged id status payload now s in
      rw (job_terminal_stage-staged id status payload now s final ready)
        (refl, (ready.0, HasIntent-accepts id status payload t.intents kept))
  try_finish-Succeeds at_mark now s final ready =
      let kept = staged-HasIntent id status payload now s ready in
      let t = staged id status payload now s in
      rw
        (
          job_terminal_stage-staged id status payload now s final ready,
          applied-some (job_terminal_apply x parse id now t) (apply-IsApplied now t ready.0 kept),
        )
        (refl, finish_intent-IsReady now t ready.0 kept)
  try_finish-Succeeds never now s final ready =
      let kept = staged-HasIntent id status payload now s ready in
      let t = staged id status payload now s in
      rw (job_terminal_stage-staged id status payload now s final ready) (
        reply_of-Succeeds t (job_terminal_apply x parse id now t)
          (apply-IsApplied now t ready.0 kept))

  -- If the job runs or has this result already, and no other result was kept, the retries end with
  -- success as soon as the database answers once, wherever it was busy before: the job then has the
  -- status, and nothing is pending.
  pub job_finish_external-done :
      (tries : List (Busy × ℕ)) (s : Store)
      → is_running status ≡ false
      → any_where is_never tries ≡ true
      → IsReady id status payload s
      → IsSettled id status (job_finish_external x parse id status payload tries s)
  unfolding job_finish_external
  job_finish_external-done [] s final answers ready = ground (arith, answers)
  job_finish_external-done ((at_stage, now) ∷ tries) s final answers ready =
      let r = try_finish x parse at_stage id status payload now s in
      let h = try_finish-Succeeds at_stage now s final ready in
      rw (retry-busy (job_finish_external x parse id status payload tries) r h.0)
        (job_finish_external-done tries r.1 final answers h.1)
  job_finish_external-done ((at_finish, now) ∷ tries) s final answers ready =
      let r = try_finish x parse at_finish id status payload now s in
      let h = try_finish-Succeeds at_finish now s final ready in
      rw (retry-busy (job_finish_external x parse id status payload tries) r h.0)
        (job_finish_external-done tries r.1 final answers h.1)
  job_finish_external-done ((at_mark, now) ∷ tries) s final answers ready =
      let r = try_finish x parse at_mark id status payload now s in
      let h = try_finish-Succeeds at_mark now s final ready in
      rw (retry-busy (job_finish_external x parse id status payload tries) r h.0)
        (job_finish_external-done tries r.1 final answers h.1)
  job_finish_external-done ((never, now) ∷ tries) s final answers ready =
      let r = try_finish x parse never id status payload now s in
      let h = try_finish-Succeeds never now s final ready in
      rw (retry-done (job_finish_external x parse id status payload tries) r h.0) h
