-- ===== src/Batch/Closing.antt =====
-- When the batches of app/db.py are closed.
use rclone.Batch.{
  Batch, BatchState, Item, ItemState, Store, Spec, Request, new_item, new_items, new_batch,
  job_batch_create, job_batch_item_start, start_item, remaining, close_batch, close_finished,
  final_state, finish_item, job_batch_item_finish, ask_cancel, job_batch_request_cancel,
  recover_item, job_batch_recover, in_batch, is_active, is_running, has_batch, done,
}
use rclone.Base.{
  ℕ, ◌+◌, ◌≤◌, String, ◌≡◌, refl, ap, inl, inr, Bool, true, false, ◌&&◌, ◌||◌, Option, none, some,
  List, [], ◌∷◌, ◌++◌, map, arith, str_eq, eq_iff, leb, ◌==◌, Bool-cases, length, All, All-append,
  All-map, count-append,
}

-- A batch that is closed has no item left to do.
abbrev pub IsClosedRight : Store → Type 0
IsClosedRight s = All (λ b. is_running b.state ≡ false → remaining b.id s.items ≡ 0) s.batches

-- A change of the items that never opens one.
abbrev NeverOpens : (Item → Item) → Type 0
NeverOpens f =
    (i : Item)
    → ((f i).batch_id ≡ i.batch_id) × (is_active (f i).state ≡ true → is_active i.state ≡ true)

remaining-map :
    (f : Item → Item)
    → NeverOpens f
    → (id : String) (items : List Item) → remaining id (map f items) ≤ remaining id items
remaining-map f h id [] = omega arith
remaining-map f h id (i ∷ items) =
    let same = (h i).0 in
    let opens = (h i).1 in ground (arith, same, opens, remaining-map f h id items)

All-weaken :
    {A : Type 0} (P Q : A → Type 0) → ((x : A) → P x → Q x) → (xs : List A) → All P xs → All Q xs
All-weaken P Q step [] h = tt
All-weaken P Q step (x ∷ xs) h = (step x h.0, All-weaken P Q step xs h.1)

map_items-IsClosedRight :
    (f : Item → Item)
    → NeverOpens f
    → (s : Store) → IsClosedRight s
    → IsClosedRight (record s { items = map f s.items })
map_items-IsClosedRight f h s ok =
    All-weaken (λ b. is_running b.state ≡ false → remaining b.id s.items ≡ 0)
      (λ b. is_running b.state ≡ false → remaining b.id (map f s.items) ≡ 0)
      (λ b old closed. omega (arith, old closed, remaining-map f h b.id s.items)) s.batches ok

close_batch-closes :
    (id : String) (now : ℕ) (final : Batch → BatchState) (items : List Item) (b : Batch)
    → remaining id items ≡ 0
    → (is_running b.state ≡ false → remaining b.id items ≡ 0)
    → is_running (close_batch id now final b).state ≡ false
    → remaining (close_batch id now final b).id items ≡ 0
unfolding close_batch
close_batch-closes id now final items b none_left old closed =
    elim (Bool-cases (str_eq b.id id && is_running b.state)) [
      | inl hit ↦
          ground (arith, ap (λ k. remaining k items) ((eq_iff b.id id).0 (ground (arith, hit))))
      | inr miss ↦ ground (arith, old)
    ]

close_finished-IsClosedRight :
    (id : String) (now : ℕ) (final : Batch → BatchState) (s : Store)
    → IsClosedRight s
    → IsClosedRight (close_finished id now final s)
unfolding close_finished
close_finished-IsClosedRight id now final s ok = elim (Bool-cases (remaining id s.items == 0)) [
  | inl finished ↦ rw finished (
      All-map (λ b. is_running b.state ≡ false → remaining b.id s.items ≡ 0)
        (λ b. is_running b.state ≡ false → remaining b.id s.items ≡ 0) (close_batch id now final)
        (λ b. close_batch-closes id now final s.items b (ground (arith, finished))) s.batches ok)
  | inr left ↦ rw left ok
]

start_item-NeverOpens :
    (id : String) (position job now : ℕ) → NeverOpens (start_item id position job now)
unfolding start_item
start_item-NeverOpens id position job now i = ground arith

finish_item-NeverOpens :
    (id : String) (position : ℕ) (state : ItemState) (error : Option String) (now : ℕ)
    → is_active state ≡ false
    → NeverOpens (finish_item id position state error now)
unfolding finish_item
finish_item-NeverOpens id position state error now final i = ground arith

recover_item-NeverOpens :
    (jobs : ℕ → Option String) (id : String) (now : ℕ) → NeverOpens (recover_item jobs id now)
unfolding recover_item
recover_item-NeverOpens jobs id now i = ground arith

-- The items of a new batch belong to no other.
new_items-other :
    (other id : String) (job now position : ℕ) (specs : List Spec)
    → str_eq other id ≡ false
    → remaining other (new_items id job now position specs) ≡ 0
unfolding new_items new_item
new_items-other other id job now position [] h = refl
new_items-other other id job now position (spec ∷ specs) h = ground (
  arith,
  eq_iff other id,
  eq_iff id other,
  new_items-other other id job now (position + 1) specs h,
)

create_keeps :
    (r : Request) (now : ℕ) (items : List Item) (bs : List Batch)
    → has_batch r.batch_id bs ≡ false
    → All (λ b. is_running b.state ≡ false → remaining b.id items ≡ 0) bs
    → All
        (λ b.
          is_running b.state ≡ false
          → remaining b.id (items ++ new_items r.batch_id r.first_job_id now 0 r.specs) ≡ 0)
        bs
create_keeps r now items [] fresh ok = tt
create_keeps r now items (b ∷ bs) fresh ok =
    let new = new_items r.batch_id r.first_job_id now 0 r.specs in
    let other = new_items-other b.id r.batch_id r.first_job_id now 0 r.specs (ground arith) in
    (
      λ closed. omega (
        arith,
        ok.0 closed,
        other,
        count-append (λ i. in_batch b.id i && is_active i.state) items new,
      ),
      create_keeps r now items bs (ground arith) ok.1,
    )

-- The calls that change a batch.
pub data Call : Type 0 where
  create : Request → ℕ → Call
  start : String → ℕ → ℕ → ℕ → Call
  finish : String → ℕ → ItemState → Option String → ℕ → Call
  request_cancel : ℕ → Call
  recover : (ℕ → Option String) → String → ℕ → Call

abbrev pub or_same : Store → Option Store → Store
or_same s none = s
or_same s (some s') = s'

abbrev pub or_same_of : Store → Option (Bool × Store) → Store
or_same_of s none = s
or_same_of s (some (b, s')) = s'

abbrev pub step : Call → Store → Store
step (create r now) s = or_same s (job_batch_create r now s)
step (start id position job now) s = (job_batch_item_start id position job now s).1
step (finish id position state error now) s =
    or_same_of s (job_batch_item_finish id position state error now s)
step (request_cancel now) s = (job_batch_request_cancel now s).1
step (recover jobs id now) s = (job_batch_recover jobs id now s).1

abbrev pub run : List Call → Store → Store
run [] s = s
run (c ∷ cs) s = run cs (step c s)

ask_cancel-keeps :
    (now : ℕ) (items : List Item) (b : Batch)
    → (is_running b.state ≡ false → remaining b.id items ≡ 0)
    → is_running (ask_cancel now b).state ≡ false
    → remaining (ask_cancel now b).id items ≡ 0
unfolding ask_cancel
ask_cancel-keeps now items b old closed = ground (arith, old)

step-IsClosedRight : (c : Call) (s : Store) → IsClosedRight s → IsClosedRight (step c s)
unfolding job_batch_create job_batch_item_start job_batch_item_finish job_batch_request_cancel
    job_batch_recover new_batch
step-IsClosedRight (create r now) s ok =
    elim (Bool-cases (leb (length r.specs) 0 || has_batch r.batch_id s.batches)) [
      | inl refused ↦ rw refused ok
      | inr fresh ↦
          let items = s.items ++ new_items r.batch_id r.first_job_id now 0 r.specs in
          rw fresh (
            All-append (λ b. is_running b.state ≡ false → remaining b.id items ≡ 0) s.batches
              (new_batch r now ∷ [])
              (create_keeps r now s.items s.batches (ground (arith, fresh)) ok)
              ((λ closed. cc), tt))
    ]
step-IsClosedRight (start id position job now) s ok =
    map_items-IsClosedRight (start_item id position job now)
      (start_item-NeverOpens id position job now) s ok
step-IsClosedRight (finish id position state error now) s ok = elim (Bool-cases (is_active state)) [
  | inl refused ↦ rw refused ok
  | inr final ↦
      let f = finish_item id position state error now in
      rw final (
        close_finished-IsClosedRight id now final_state (record s { items = map f s.items })
          (map_items-IsClosedRight f (finish_item-NeverOpens id position state error now final) s
            ok))
]
step-IsClosedRight (request_cancel now) s ok =
    All-map (λ b. is_running b.state ≡ false → remaining b.id s.items ≡ 0)
      (λ b. is_running b.state ≡ false → remaining b.id s.items ≡ 0) (ask_cancel now)
      (ask_cancel-keeps now s.items) s.batches ok
step-IsClosedRight (recover jobs id now) s ok =
    let f = recover_item jobs id now in
    close_finished-IsClosedRight id now (λ b. done) (record s { items = map f s.items })
      (map_items-IsClosedRight f (recover_item-NeverOpens jobs id now) s ok)

-- After any calls, a batch that is done or cancelled has no item that is queued or running, if
-- that held before.
pub run-IsClosedRight : (cs : List Call) (s : Store) → IsClosedRight s → IsClosedRight (run cs s)
run-IsClosedRight [] s ok = ok
run-IsClosedRight (c ∷ cs) s ok = run-IsClosedRight cs (step c s) (step-IsClosedRight c s ok)
