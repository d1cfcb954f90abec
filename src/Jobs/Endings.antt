-- ===== src/Jobs/Endings.antt =====
-- Which attempts are open after the parts of a call that end them (`_store_pair_results`,
-- `_terminalize_running_attempts` of app/db.py).
use mathlib.Core.Path.{subst}
use rclone.Jobs.{Status, Job, PairRun, Store, Texts, is_running}
use rclone.Jobs.Attempts.{
  OpenIn, AllIn, except, except_all, store_pairs-AllIn, store_dues-AllIn, weaken,
}
use rclone.Jobs.Start.{Request, note_start}
use rclone.Jobs.Finish.{Summary, Ending, store_pairs, store_dues, see}
use rclone.Jobs.Close.{
  is_open_run, end_run, see_ended, end_attempts, end_attempts_all, fails_due, unfinished_status,
  store_pair_results,
}
use rclone.Jobs.Stale.{stale_row, note_stale}
use rclone.Base.{
  ℕ, String, ◌≡◌, refl, inl, inr, Bool, true, false, ◌&&◌, Option, none, some, List, [], ◌∷◌, map,
  arith, ◌==◌, if◌then◌else◌, Bool-cases, any_where, keep_where, is_empty, All-map, ◌||◌, not,
}

abbrev pub is_live : ℕ → Job → Bool
is_live n j = j.id == n && is_running j.status

abbrev pub live : List Job → ℕ → Bool
live js n = any_where (is_live n) js

see_ended-runs : (now : ℕ) (ps : List PairRun) (s : Store) → (see_ended now ps s).runs ≡ s.runs
unfolding see_ended see
see_ended-runs now [] s = refl
see_ended-runs now (p ∷ ps) s = see_ended-runs now ps (see_ended now (p ∷ []) s)

pub note_stale-runs : (now : ℕ) (js : List Job) (s : Store) → (note_stale now js s).runs ≡ s.runs
unfolding note_stale
note_stale-runs now [] s = refl
note_stale-runs now (j ∷ js) s = note_stale-runs now js (note_stale now (j ∷ []) s)

pub note_start-runs : (r : Request) (now id : ℕ) (s : Store) → (note_start r now id s).runs ≡ s.runs
unfolding note_start
note_start-runs r now id s = ground arith

module _ (x : Texts) (status : Status) (now : ℕ) (cause : Option String) where
  end_run-OpenIn :
      (L : ℕ → Bool) (id : ℕ) (p : PairRun)
      → is_running status ≡ false
      → OpenIn L p
      → OpenIn (except L id) (end_run x id status now cause p)
  unfolding end_run
  end_run-OpenIn L id p ended h = elim (Bool-cases (is_open_run id p)) [
    | inl mine ↦ rw mine (λ runs. ground (arith, ended, runs))
    | inr other ↦ rw other (λ runs. ground (arith, other, runs, h runs))
  ]

  end_attempts-AllIn :
      (L : ℕ → Bool) (id : ℕ) (s : Store)
      → is_running status ≡ false
      → AllIn L s
      → AllIn (except L id) (end_attempts x id status now cause s)
  unfolding end_attempts
  end_attempts-AllIn L id s ended h =
      let runs = map (end_run x id status now cause) s.runs in
      rw (see_ended-runs now (keep_where (is_open_run id) s.runs) (record s { runs = runs })) (
        All-map (OpenIn L) (OpenIn (except L id)) (end_run x id status now cause)
          (λ p. end_run-OpenIn L id p ended) s.runs h)

  pub end_attempts_all-AllIn :
      (L : ℕ → Bool) (ids : List ℕ) (s : Store)
      → is_running status ≡ false
      → AllIn L s
      → AllIn (except_all L ids) (end_attempts_all x ids status now cause s)
  unfolding end_attempts_all
  end_attempts_all-AllIn L [] s ended h = h
  end_attempts_all-AllIn L (id ∷ ids) s ended h =
      end_attempts_all-AllIn (except L id) ids (end_attempts x id status now cause s) ended
        (end_attempts-AllIn L id s ended h)

abbrev pub after : (ℕ → Bool) → Status → ℕ → ℕ → Bool
after L status id n = (is_running status || not (n == id)) && L n

fails_due-ended : (status : Status) → fails_due status ≡ true → is_running status ≡ false
fails_due-ended status h = ground (arith, h)

unfinished_status-ended : (status : Status) → is_running (unfinished_status status) ≡ false
unfinished_status-ended status = ground arith

store_dues-AllIn_when :
    (L : ℕ → Bool) (x : Texts) (e : Ending) (m : Summary) (s : Store)
    → AllIn L s
    → AllIn L (if fails_due e.job_status then store_dues x e m m.due s else s)
store_dues-AllIn_when L x e m s h = elim (Bool-cases (fails_due e.job_status)) [
  | inl failed ↦
      rw failed (store_dues-AllIn L x e m m.due s (fails_due-ended e.job_status failed) h)
  | inr fine ↦ rw fine h
]

pub store_pair_results-AllIn :
    (L : ℕ → Bool) (x : Texts) (e : Ending) (m : Summary) (s : Store)
    → AllIn L s
    → AllIn (after L e.job_status e.job_id) (store_pair_results x e m s)
unfolding store_pair_results
store_pair_results-AllIn L x e m s h =
    let paired = store_pairs x e m m.pairs s in
    let with_due = if fails_due e.job_status then store_dues x e m m.due paired else paired in
    let all = store_dues-AllIn_when L x e m paired (store_pairs-AllIn L x e m m.pairs s h) in
    elim (Bool-cases (is_running e.job_status)) [
      | inl going ↦
          rw going
            (weaken L (after L e.job_status e.job_id) (λ n there. rw going there) with_due.runs all)
      | inr ended ↦
          let cause = if is_empty m.error then none else some m.error in
          let status = unfinished_status e.job_status in
          let closed = end_attempts x e.job_id status e.ended_at cause with_due in
          rw ended (
            weaken (except L e.job_id) (after L e.job_status e.job_id) (λ n there. rw ended there)
              closed.runs
              (end_attempts-AllIn x status e.ended_at cause L e.job_id with_due
                (unfinished_status-ended e.job_status) all))
    ]

pub except_all-map :
    (lost : Job → Bool) (x : Texts) (reason : String) (now n : ℕ) (js : List Job) (L : ℕ → Bool)
    → except_all L (map (λ j. j.id) (keep_where (λ j. is_running j.status && lost j) js)) n ≡ true
    → (L n ≡ true) × (live js n ≡ true → live (map (stale_row lost x reason now) js) n ≡ true)
unfolding stale_row
except_all-map lost x reason now n [] L h = (h, (λ never. never))
except_all-map lost x reason now n (j ∷ js) L h =
    let rows = keep_where (λ j. is_running j.status && lost j) js in
    let chosen : Bool → Type 0 =
      λ b. except_all L (map (λ j. j.id) (if b then j ∷ rows else rows)) n ≡ true in
    elim (Bool-cases (is_running j.status && lost j)) [
      | inl gone ↦
          let rest =
            except_all-map lost x reason now n js (except L j.id) (subst (λ b. chosen b) gone h) in
          ground (arith, gone, rest.0, rest.1)
      | inr kept ↦
          let rest = except_all-map lost x reason now n js L (subst (λ b. chosen b) kept h) in
          (rest.0, ground (arith, kept, rest.1))
    ]
