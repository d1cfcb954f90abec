-- ===== src/Batch/Progress.antt =====
-- How far the items of a batch of app/db.py are: what a call does to an item and to its batch.
use rclone.Batch.{
  Batch, BatchState, Item, ItemState, Store, job_batch_item_start, start_item, remaining,
  close_batch, close_finished, final_state, finish_item, job_batch_item_finish, recover_item,
  job_batch_recover, in_batch, is_at, is_active, is_queued, is_running, is_item_running, done,
  status_of,
}
use rclone.Base.{
  ℕ, String, ◌≡◌, refl, inl, inr, Bool, false, not, ◌&&◌, Option, some, List, [], ◌∷◌, map, arith,
  str_eq, eq_iff, ◌==◌, Bool-cases, count_where, any_where,
}

started_once :
    (id : String) (position job job' now later : ℕ) (items : List Item)
    → count_where
        (λ i. is_at id position i && is_queued i.state)
        (map (start_item id position job now) items)
      ≡ 0
unfolding start_item
started_once id position job job' now later [] = refl
started_once id position job job' now later (i ∷ items) =
    ground (arith, started_once id position job job' now later items)

-- An item is started at most once: after an attempt at it, the next one, for whatever job, is
-- refused.
pub job_batch_item_start_once :
    (id : String) (position job job' now later : ℕ) (s : Store)
    → (job_batch_item_start id position job' later (job_batch_item_start id position job now s).1).0
      ≡ false
unfolding job_batch_item_start
job_batch_item_start_once id position job job' now later s =
    ground (arith, started_once id position job job' now later s.items)

-- A running item of the batch whose job is not running.
abbrev pub is_abandoned : (ℕ → Option String) → String → Item → Bool
is_abandoned jobs batch_id i =
    in_batch batch_id i
    && is_item_running i.state
    && not (str_eq (status_of jobs i.job_id) "running")

recover_item_attends :
    (jobs : ℕ → Option String) (id : String) (now : ℕ) (i : Item)
    → is_abandoned jobs id (recover_item jobs id now i) ≡ false
unfolding recover_item
recover_item_attends jobs id now i = ground arith

none_abandoned :
    (jobs : ℕ → Option String) (id : String) (now : ℕ) (items : List Item)
    → count_where (is_abandoned jobs id) (map (recover_item jobs id now) items) ≡ 0
none_abandoned jobs id now [] = refl
none_abandoned jobs id now (i ∷ items) =
    ground (arith, recover_item_attends jobs id now i, none_abandoned jobs id now items)

close_finished-items :
    (id : String) (now : ℕ) (final : Batch → BatchState) (s : Store)
    → (close_finished id now final s).items ≡ s.items
unfolding close_finished
close_finished-items id now final s = ground arith

-- After the recovery of a batch, no item of it is running without a running job.
pub job_batch_recover-attends :
    (jobs : ℕ → Option String) (id : String) (now : ℕ) (s : Store)
    → count_where (is_abandoned jobs id) (job_batch_recover jobs id now s).1.items ≡ 0
unfolding job_batch_recover
job_batch_recover-attends jobs id now s =
    let f = recover_item jobs id now in
    rw (close_finished-items id now (λ b. done) (record s { items = map f s.items }))
      (none_abandoned jobs id now s.items)

abbrev pub is_open : String → Batch → Bool
is_open id b = str_eq b.id id && is_running b.state

close_all :
    (id : String) (now : ℕ) (final : Batch → BatchState)
    → ((b : Batch) → is_running (final b) ≡ false)
    → (bs : List Batch) → any_where (is_open id) (map (close_batch id now final) bs) ≡ false
unfolding close_batch
close_all id now final h [] = refl
close_all id now final h (b ∷ bs) = ground (arith, h b, eq_iff b.id id, close_all id now final h bs)

close_finished-closes :
    (id : String) (now : ℕ) (final : Batch → BatchState) (s : Store)
    → ((b : Batch) → is_running (final b) ≡ false)
    → remaining id (close_finished id now final s).items ≡ 0
    → any_where (is_open id) (close_finished id now final s).batches ≡ false
unfolding close_finished
close_finished-closes id now final s h left = elim (Bool-cases (remaining id s.items == 0)) [
  | inl finished ↦ rw finished (close_all id now final h s.batches)
  | inr unfinished ↦ ground (arith, left, unfinished)
]

-- The report that ends the last item of a batch closes it.
pub job_batch_item_finish_closes :
    (id : String) (position : ℕ) (state : ItemState) (error : Option String) (now : ℕ)
    (s s' : Store) (b : Bool)
    → job_batch_item_finish id position state error now s ≡ some (b, s')
    → remaining id s'.items ≡ 0
    → any_where (is_open id) s'.batches ≡ false
unfolding job_batch_item_finish
job_batch_item_finish_closes id position state error now s s' b made left =
    let f = finish_item id position state error now in
    let closes =
      close_finished-closes id now final_state (record s { items = map f s.items })
        (λ b. ground arith) in
    elim (Bool-cases (is_active state)) [
      | inl refused ↦ ground (arith, refused)
      | inr final ↦ ground (arith, final, closes)
    ]

-- The recovery of a batch of which no item is left to do closes it.
pub job_batch_recover_closes :
    (jobs : ℕ → Option String) (id : String) (now : ℕ) (s : Store)
    → remaining id (job_batch_recover jobs id now s).1.items ≡ 0
    → any_where (is_open id) (job_batch_recover jobs id now s).1.batches ≡ false
unfolding job_batch_recover
job_batch_recover_closes jobs id now s left =
    let f = recover_item jobs id now in
    close_finished-closes id now (λ b. done) (record s { items = map f s.items }) (λ b. refl) left
