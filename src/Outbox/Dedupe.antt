-- ===== src/Outbox/Dedupe.antt =====
-- Enqueueing a notification in the outbox of app/db.py, once and again.
use rclone.Base.{
  ℕ, ◌+◌, String, ◌≡◌, refl, sym, ◌∙◌, inl, inr, true, false, List, [], ◌∷◌, ◌++◌, arith, eq_refl,
  eq_iff, str_eq, Bool-cases, length, All, any_where, prefix, length-append, All-append,
}
use mathlib.Core.List.{append_assoc, append-nil}
use mathlib.Core.Path.{subst}
use rclone.Outbox.{Device, Entry, Store, push_devices, pending}
use rclone.Outbox.Queue.{
  Notice, same_delivery, new_entry, insert_or_ignore, enqueue_each, push_outbox_enqueue,
}
use rclone.Outbox.Insertion.{any_where-append}
use rclone.Outbox.Steps.{Call, run}
use rclone.Outbox.Listed.{IsListed, enqueue_each-keeps, removes_rows, run-IsListed}

insert_or_ignore-IsListed :
    (n : Notice) (now : ℕ) (apns_id : String) (id : ℕ) (d : Device) (s : Store)
    → IsListed
        (prefix 256 n.dedupe_key)
        d.token
        (insert_or_ignore (new_entry n now apns_id id d) s).1
unfolding insert_or_ignore new_entry
insert_or_ignore-IsListed n now apns_id id d s =
    let key = prefix 256 n.dedupe_key in
    ground (
      arith,
      eq_refl key,
      eq_refl d.token,
      any_where-append (same_delivery key d.token) s.outbox (new_entry n now apns_id id d),
    )

enqueue_each-IsListed :
    (n : Notice) (now : ℕ) (uuid : ℕ → String) (i : ℕ) (ds : List Device) (s : Store)
    → All (λ d. IsListed (prefix 256 n.dedupe_key) d.token (enqueue_each n now uuid i ds s).1) ds
unfolding enqueue_each
enqueue_each-IsListed n now uuid i [] s = tt
enqueue_each-IsListed n now uuid i (d ∷ ds) s =
    let e = new_entry n now (uuid i) s.next_id d in
    (
      enqueue_each-keeps (same_delivery (prefix 256 n.dedupe_key) d.token) n now uuid (i + 1) ds
          (insert_or_ignore e s).1 (insert_or_ignore-IsListed n now (uuid i) s.next_id d s),
      enqueue_each-IsListed n now uuid (i + 1) ds (insert_or_ignore e s).1,
    )

enqueue_each_again :
    (n : Notice) (now : ℕ) (uuid : ℕ → String) (i : ℕ) (ds : List Device) (s : Store)
    → All (λ d. IsListed (prefix 256 n.dedupe_key) d.token s) ds
    → let (k, s') = enqueue_each n now uuid i ds s in (k ≡ 0) × (s'.outbox ≡ s.outbox)
unfolding enqueue_each insert_or_ignore new_entry
enqueue_each_again n now uuid i [] s h = (refl, refl)
enqueue_each_again n now uuid i (d ∷ ds) s h =
    let s' = record s { next_id = s.next_id + 1 } in
    let (none_added, kept) = enqueue_each_again n now uuid (i + 1) ds s' h.1 in
    rw h.0 (omega (arith, none_added), kept)

-- A device of the list has what all of them have.
listed_token :
    (P : String → Type 0) (token : String) (ds : List Device)
    → All (λ d. P d.token) ds
    → any_where (λ d. str_eq d.token token) ds ≡ true
    → P token
listed_token P token [] all h = cc
listed_token P token (d ∷ ds) all h = elim (Bool-cases (str_eq d.token token)) [
  | inl same ↦
      let p : d.token ≡ token = ground (arith, same, eq_iff d.token token) in subst P p all.0
  | inr other ↦ listed_token P token ds all.1 (rw other at h)
]

listed_tokens :
    (P : String → Type 0) (ds later : List Device)
    → All (λ d. P d.token) ds
    → All (λ d. any_where (λ c. str_eq c.token d.token) ds ≡ true) later
    → All (λ d. P d.token) later
listed_tokens P ds [] all h = tt
listed_tokens P ds (d ∷ later) all h =
    (listed_token P d.token ds all h.0, listed_tokens P ds later all h.1)

IsListed-run :
    (key : String) (cs : List (ℕ × Call)) (s : Store) (ds : List Device)
    → All (λ c. removes_rows c.1 ≡ false) cs
    → All (λ d. IsListed key d.token s) ds
    → All (λ d. IsListed key d.token (run cs s)) ds
IsListed-run key cs s [] keep h = tt
IsListed-run key cs s (d ∷ ds) keep h =
    (run-IsListed key d.token cs s keep h.0, IsListed-run key cs s ds keep h.1)

-- A notification with the dedupe key of one that was enqueued, whatever its text, inserts no row and
-- changes none, at any time and after any calls that delete no row, if the devices it is for were
-- among those of the first.
pub push_outbox_enqueue_again :
    (n n' : Notice) (uuid uuid' : ℕ → String) (now now' : ℕ) (s : Store) (cs : List (ℕ × Call))
    → prefix 256 n'.dedupe_key ≡ prefix 256 n.dedupe_key
    → All (λ c. removes_rows c.1 ≡ false) cs
    → All
        (λ d. any_where (λ c. str_eq c.token d.token) (push_devices n.device_limit now s) ≡ true)
        (push_devices n'.device_limit now' (run cs (push_outbox_enqueue n uuid now s).1))
    → let s' = run cs (push_outbox_enqueue n uuid now s).1 in
      let (k, s'') = push_outbox_enqueue n' uuid' now' s' in (k ≡ 0) × (s''.outbox ≡ s'.outbox)
unfolding push_outbox_enqueue
push_outbox_enqueue_again n n' uuid uuid' now now' s cs key keep known =
    let ds = push_devices n.device_limit now s in
    let s' = run cs (enqueue_each n now uuid 0 ds s).1 in
    let later = push_devices n'.device_limit now' s' in
    let old = prefix 256 n.dedupe_key in
    let first =
      IsListed-run old cs (enqueue_each n now uuid 0 ds s).1 ds keep
        (enqueue_each-IsListed n now uuid 0 ds s) in
    enqueue_each_again n' now' uuid' 0 later s'
      (rw key (listed_tokens (λ token. IsListed old token s') ds later first known))

-- A new row waits for its first attempt.
abbrev pub IsNew : ℕ → Entry → Type 0
IsNew now e = (e.status ≡ pending) × (e.attempts ≡ 0) × (e.next_attempt_at ≡ now)

-- What an insertion adds: nothing, or the row.
insert_or_ignore_appends :
    (e : Entry) (now : ℕ) (s : Store)
    → IsNew now e
    → let (k, s') = insert_or_ignore e s in
      (new : List Entry) × (s'.outbox ≡ s.outbox ++ new)
      × (length new ≡ k)
      × All (IsNew now) new
      × (s'.devices ≡ s.devices)
unfolding insert_or_ignore
insert_or_ignore_appends e now s fresh =
    elim (Bool-cases (any_where (same_delivery e.dedupe_key e.token) s.outbox)) [
      | inl old ↦ rw old ([], sym (append-nil s.outbox), refl, tt, refl)
      | inr new ↦ rw new (e ∷ [], refl, refl, (fresh, tt), refl)
    ]

enqueue_each_appends :
    (n : Notice) (now : ℕ) (uuid : ℕ → String) (i : ℕ) (ds : List Device) (s : Store)
    → let (k, s') = enqueue_each n now uuid i ds s in
      (new : List Entry) × (s'.outbox ≡ s.outbox ++ new)
      × (length new ≡ k)
      × All (IsNew now) new
      × (s'.devices ≡ s.devices)
unfolding enqueue_each
enqueue_each_appends n now uuid i [] s = ([], sym (append-nil s.outbox), refl, tt, refl)
enqueue_each_appends n now uuid i (d ∷ ds) s =
    let e = new_entry n now (uuid i) s.next_id d in
    let (one, added, count, fresh, kept) =
      insert_or_ignore_appends e now s (unfold new_entry in (refl, refl, refl)) in
    let (more, added', count', fresh', kept') =
      enqueue_each_appends n now uuid (i + 1) ds (insert_or_ignore e s).1 in
    (
      one ++ more,
      added' ∙ rw added (append_assoc s.outbox one more),
      length-append one more ∙ rw (count, count'),
      All-append (IsNew now) one more fresh fresh',
      kept' ∙ kept,
    )

-- Enqueueing adds its rows behind those that are there, which it leaves as they are, reports their
-- number, and each is due at once with no attempt made; the devices stay as they are.
pub push_outbox_enqueue_appends :
    (n : Notice) (uuid : ℕ → String) (now : ℕ) (s : Store)
    → let (k, s') = push_outbox_enqueue n uuid now s in
      (new : List Entry) × (s'.outbox ≡ s.outbox ++ new)
      × (length new ≡ k)
      × All (IsNew now) new
      × (s'.devices ≡ s.devices)
unfolding push_outbox_enqueue
push_outbox_enqueue_appends n uuid now s =
    enqueue_each_appends n now uuid 0 (push_devices n.device_limit now s) s
