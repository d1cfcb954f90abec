-- ===== src/Jobs/Attempts.antt =====
-- An attempt that is open belongs to a job that runs (`pair_runs` of app/db.py).
use rclone.Jobs.{PairRun, PairResult, Store, Texts, is_running}
use rclone.Jobs.Start.{attempt_key, is_run_of, Attempt, add_run, new_run, reserve, reserve_all}
use rclone.Jobs.Finish.{
  pair_run, pair_seen, due_run, pair_key, Summary, Ending, overwrite_run, upsert_run, see,
  store_pair, pair_status, store_pairs, store_due, store_dues,
}
use rclone.Jobs.States.{record_pair_history_state, Seen}
use rclone.Base.{
  ℕ, ◌+◌, String, ◌≡◌, Bool, true, false, not, ◌&&◌, List, [], ◌∷◌, ◌++◌, map, arith, ◌==◌, All,
  if-both, any_where, strip, is_empty, All-map, All-append,
}

-- The attempt is open only if its job is one of these.
abbrev pub OpenIn : (ℕ → Bool) → PairRun → Type 0
OpenIn L p = is_running p.status ≡ true → L p.job_id ≡ true

abbrev pub AllIn : (ℕ → Bool) → Store → Type 0
AllIn L s = All (OpenIn L) s.runs

abbrev pub except : (ℕ → Bool) → ℕ → ℕ → Bool
except L id n = not (n == id) && L n

abbrev pub except_all : (ℕ → Bool) → List ℕ → ℕ → Bool
except_all L [] n = L n
except_all L (id ∷ ids) n = except_all (except L id) ids n

pub weaken :
    (L M : ℕ → Bool)
    → ((n : ℕ) → L n ≡ true → M n ≡ true)
    → (ps : List PairRun) → All (OpenIn L) ps
    → All (OpenIn M) ps
weaken L M sub [] h = tt
weaken L M sub (p ∷ ps) h = ((λ runs. sub p.job_id (h.0 runs)), weaken L M sub ps h.1)

pair_status-ended :
    (e : Ending) (m : Summary) (p : PairResult) → is_running (pair_status e m p) ≡ false
unfolding pair_status
pair_status-ended e m p = ground arith

module _ (L : ℕ → Bool) where
  add_run-AllIn :
      (x : Texts) (kind : String) (now id : ℕ) (a : Attempt) (s : Store)
      → L id ≡ true
      → AllIn L s
      → AllIn L (add_run x kind now id a s)
  unfolding add_run new_run
  add_run-AllIn x kind now id a s live h =
      let new = new_run x kind now id s.next_run a in
      let grown : Store = record s { runs = s.runs ++ (new ∷ []); next_run = s.next_run + 1 } in
      if-both (AllIn L) (any_where (is_run_of id (strip a.name)) s.runs) s grown h
        (All-append (OpenIn L) s.runs (new ∷ []) h ((λ runs. live), tt))

  reserve-AllIn :
      (x : Texts) (kind : String) (now id : ℕ) (a : Attempt) (s : Store)
      → L id ≡ true
      → AllIn L s
      → AllIn L (reserve x kind now id a s)
  unfolding reserve
  reserve-AllIn x kind now id a s live h =
      let added = add_run x kind now id a s in
      if-both (AllIn L) (is_empty (strip a.name)) s
        (record added {
          history =
              record_pair_history_state
                (record {
                  history_key = attempt_key x kind a;
                  pair_name = strip a.name;
                  seen_at = now;
                  succeeded = false;
                  terminal = false;
                  success_at = 0;
                })
                added.history;
        })
        h (add_run-AllIn x kind now id a s live h)

  pub reserve_all-AllIn :
      (x : Texts) (kind : String) (now id : ℕ) (attempts : List Attempt) (s : Store)
      → L id ≡ true
      → AllIn L s
      → AllIn L (reserve_all x kind now id attempts s)
  unfolding reserve_all
  reserve_all-AllIn x kind now id [] s live h = h
  reserve_all-AllIn x kind now id (a ∷ attempts) s live h =
      reserve_all-AllIn x kind now id attempts (reserve x kind now id a s) live
        (reserve-AllIn x kind now id a s live h)

  ended-OpenIn : (p : PairRun) → is_running p.status ≡ false → OpenIn L p
  ended-OpenIn p ended runs = ground (arith, ended, runs)

  overwrite_run-OpenIn :
      (new old : PairRun)
      → is_running new.status ≡ false
      → OpenIn L old
      → OpenIn L (overwrite_run new old)
  unfolding overwrite_run
  overwrite_run-OpenIn new old ended h =
      if-both (OpenIn L) (is_run_of new.job_id new.pair_name old)
        (record old {
          history_key = new.history_key;
          succeeded = new.succeeded;
          dry_run = new.dry_run;
          status = new.status;
          ended_at = new.ended_at;
          scheduled_slot = new.scheduled_slot;
          result_json = new.result_json;
        })
        old (λ runs. ground (arith, ended, runs)) h

  upsert_run-AllIn :
      (new : PairRun) (s : Store)
      → is_running new.status ≡ false
      → AllIn L s
      → AllIn L (upsert_run new s)
  unfolding upsert_run overwrite_run
  upsert_run-AllIn new s ended h =
      if-both (AllIn L) (any_where (is_run_of new.job_id new.pair_name) s.runs)
        (record s { runs = map (overwrite_run new) s.runs })
        (record s { runs = s.runs ++ (new ∷ []); next_run = s.next_run + 1 })
        (All-map (OpenIn L) (OpenIn L) (overwrite_run new)
          (λ p fine. overwrite_run-OpenIn new p ended fine) s.runs h)
        (All-append (OpenIn L) s.runs (new ∷ []) h (ended-OpenIn new ended, tt))

  store_pair-AllIn :
      (x : Texts) (e : Ending) (m : Summary) (p : PairResult) (s : Store)
      → AllIn L s
      → AllIn L (store_pair x e m p s)
  unfolding store_pair pair_run see
  store_pair-AllIn x e m p s h =
      let new = pair_run x e m p s.next_run in
      if-both (AllIn L) (is_empty (strip p.name)) s (see (pair_seen x e m p) (upsert_run new s)) h
        (upsert_run-AllIn new s (pair_status-ended e m p) h)

  pub store_pairs-AllIn :
      (x : Texts) (e : Ending) (m : Summary) (ps : List PairResult) (s : Store)
      → AllIn L s
      → AllIn L (store_pairs x e m ps s)
  unfolding store_pairs
  store_pairs-AllIn x e m [] s h = h
  store_pairs-AllIn x e m (p ∷ ps) s h =
      store_pairs-AllIn x e m ps (store_pair x e m p s) (store_pair-AllIn x e m p s h)

  store_due-AllIn :
      (x : Texts) (e : Ending) (m : Summary) (n : String) (s : Store)
      → is_running e.job_status ≡ false
      → AllIn L s
      → AllIn L (store_due x e m n s)
  unfolding store_due due_run see
  store_due-AllIn x e m n s ended h =
      let name = strip n in
      let new = due_run x e m name s.next_run in
      let seen : Seen = record {
        history_key = pair_key x e m name "";
        pair_name = name;
        seen_at = e.ended_at;
        succeeded = false;
        terminal = true;
        success_at = 0;
      } in
      if-both (AllIn L) (is_empty name) s (see seen (upsert_run new s)) h
        (upsert_run-AllIn new s ended h)

  pub store_dues-AllIn :
      (x : Texts) (e : Ending) (m : Summary) (ns : List String) (s : Store)
      → is_running e.job_status ≡ false
      → AllIn L s
      → AllIn L (store_dues x e m ns s)
  unfolding store_dues
  store_dues-AllIn x e m [] s ended h = h
  store_dues-AllIn x e m (n ∷ ns) s ended h =
      store_dues-AllIn x e m ns (store_due x e m n s) ended (store_due-AllIn x e m n s ended h)
