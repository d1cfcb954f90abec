-- ===== src/Planner/Parallel.antt =====
-- The pairs that `run_job` of app/jobs/rclone_sync.py runs side by side.
use mathlib.Core.Option.{some-injective}
use rclone.Planner.{
  advance, Host, Pair, Plan, pairs_conflict, next_runnable_pair_index, start_at, start_rounds,
  start_pairs, has_overlapping_pairs,
}
use rclone.Planner.Symmetry.{pairs_conflict_comm}
use rclone.Base.{
  Option-cases, refl, ◌∙◌, Bool, zero, ◌≤◌, ◌||◌, not, leb, ℕ, suc, ◌≡◌, inl, inr, true, false,
  ◌&&◌, Option, none, some, List, [], ◌∷◌, ◌++◌, arith, ltb, is_some, Bool-cases, length, any_where,
  length-append,
}

any_where-append :
    (q : Pair → Bool) (ps : List Pair) (p : Pair)
    → any_where q (ps ++ (p ∷ [])) ≡ any_where q ps || q p
any_where-append q [] p = ground arith
any_where-append q (r ∷ ps) p = ground (arith, any_where-append q ps p)

overlapping-append :
    (host : Host) (running : List Pair) (p : Pair)
    → has_overlapping_pairs host running ≡ false
    → any_where (pairs_conflict host p) running ≡ false
    → has_overlapping_pairs host (running ++ (p ∷ [])) ≡ false
unfolding has_overlapping_pairs
overlapping-append host [] p h free = refl
overlapping-append host (r ∷ running) p h free = ground (
  arith,
  overlapping-append host running p,
  any_where-append (pairs_conflict host r) running p,
  pairs_conflict_comm host r p,
)

-- The pair that is started next conflicts with none that runs, and it moves from one list to the other.
start_at-free :
    (host : Host) (pending running : List Pair) (i : ℕ)
    → next_runnable_pair_index host pending running ≡ some i
    → has_overlapping_pairs host running ≡ false
    → (has_overlapping_pairs host (start_at i pending running).running ≡ false)
      × (length (start_at i pending running).running ≡ suc (length running))
unfolding next_runnable_pair_index start_at
start_at-free host [] running i next free = cc
start_at-free host (p ∷ pending) running i next free =
    elim (Bool-cases (any_where (pairs_conflict host p) running)) [
      | inl busy ↦ elim (Option-cases (next_runnable_pair_index host pending running)) [
        | inl nothing ↦ ground (arith, busy, nothing, next)
        | inr (j, found) ↦
            let here : i ≡ suc j = some-injective i (suc j) (ground (arith, busy, found, next)) in
            rw here (ground (arith, start_at-free host pending running j found free))
      ]
      | inr idle ↦
          let here : i ≡ 0 = some-injective i 0 (ground (arith, idle, next)) in
          rw here (
            overlapping-append host running p free idle,
            length-append running (p ∷ []) ∙ omega arith,
          )
    ]

advance-free :
    (host : Host) (plan : Plan) (o : Option ℕ)
    → next_runnable_pair_index host plan.pending plan.running ≡ o
    → is_some o ≡ true
    → has_overlapping_pairs host plan.running ≡ false
    → (has_overlapping_pairs host (advance o plan).running ≡ false)
      × (length (advance o plan).running ≡ suc (length plan.running))
advance-free host plan none found some_next free = cc
advance-free host plan (some i) found some_next free =
    start_at-free host plan.pending plan.running i found free

start_at-length :
    (host : Host) (pending running : List Pair) (i : ℕ)
    → next_runnable_pair_index host pending running ≡ some i
    → suc (length (start_at i pending running).pending) ≡ length pending
unfolding next_runnable_pair_index start_at
start_at-length host [] running i next = cc
start_at-length host (p ∷ pending) running i next =
    elim (Bool-cases (any_where (pairs_conflict host p) running)) [
      | inl busy ↦ elim (Option-cases (next_runnable_pair_index host pending running)) [
        | inl nothing ↦ ground (arith, busy, nothing, next)
        | inr (j, found) ↦
            let here : i ≡ suc j = some-injective i (suc j) (ground (arith, busy, found, next)) in
            rw here (ground (arith, start_at-length host pending running j found))
      ]
      | inr idle ↦
          let here : i ≡ 0 = some-injective i 0 (ground (arith, idle, next)) in rw here refl
    ]

pub advance-length :
    (host : Host) (plan : Plan) (o : Option ℕ)
    → next_runnable_pair_index host plan.pending plan.running ≡ o
    → is_some o ≡ true
    → suc (length (advance o plan).pending) ≡ length plan.pending
advance-length host plan none found some_next = cc
advance-length host plan (some i) found some_next =
    start_at-length host plan.pending plan.running i found

start_rounds-IsApart :
    (host : Host) (max_parallel fuel : ℕ) (plan : Plan)
    → has_overlapping_pairs host plan.running ≡ false
    → length plan.running ≤ max_parallel
    → (has_overlapping_pairs host (start_rounds host max_parallel fuel plan).running ≡ false)
      × (length (start_rounds host max_parallel fuel plan).running ≤ max_parallel)
unfolding start_rounds
start_rounds-IsApart host n zero plan free room = (free, room)
start_rounds-IsApart host n (suc fuel) plan free room =
    let index = next_runnable_pair_index host plan.pending plan.running in
    elim (Bool-cases (ltb (length plan.running) n && is_some index)) [
      | inl more ↦
          let moved = advance-free host plan index refl (ground (arith, more)) free in
          rw more (
            start_rounds-IsApart host n fuel (advance index plan) moved.0
              (ground (arith, more, moved)))
      | inr stop ↦ rw stop (free, room)
    ]

-- Why no further pair is started: the workers are all busy, or every pair that waits conflicts with
-- one that runs.
abbrev pub is_settled : Host → ℕ → Plan → Bool
is_settled host max_parallel plan =
    leb max_parallel (length plan.running)
    || not (is_some (next_runnable_pair_index host plan.pending plan.running))

pub no_next :
    (host : Host) (pending running : List Pair)
    → length pending ≤ 0
    → next_runnable_pair_index host pending running ≡ none
unfolding next_runnable_pair_index
no_next host [] running h = refl
no_next host (p ∷ pending) running h = ground (arith, h)

start_rounds-settled :
    (host : Host) (max_parallel fuel : ℕ) (plan : Plan)
    → has_overlapping_pairs host plan.running ≡ false
    → length plan.pending ≤ fuel
    → is_settled host max_parallel (start_rounds host max_parallel fuel plan) ≡ true
unfolding start_rounds
start_rounds-settled host n zero plan free enough =
    ground (arith, no_next host plan.pending plan.running enough)
start_rounds-settled host n (suc fuel) plan free enough =
    let index = next_runnable_pair_index host plan.pending plan.running in
    elim (Bool-cases (ltb (length plan.running) n && is_some index)) [
      | inl more ↦
          let moved = advance-free host plan index refl (ground (arith, more)) free in
          rw more (
            start_rounds-settled host n fuel (advance index plan) moved.0
              (omega (arith, enough, advance-length host plan index refl (ground (arith, more)))))
      | inr stop ↦ rw stop (ground (arith, stop))
    ]

-- Pairs that run side by side never overlap and are never more than the workers, once pairs are
-- started from such a state; and pairs are started until all workers are busy or each pair that
-- waits overlaps one that runs.
pub start_pairs-IsApart :
    (host : Host) (max_parallel : ℕ) (plan : Plan)
    → has_overlapping_pairs host plan.running ≡ false
    → length plan.running ≤ max_parallel
    → (has_overlapping_pairs host (start_pairs host max_parallel plan).running ≡ false)
      × (length (start_pairs host max_parallel plan).running ≤ max_parallel)
      × (is_settled host max_parallel (start_pairs host max_parallel plan) ≡ true)
unfolding start_pairs
start_pairs-IsApart host n plan free room =
    let fuel = length plan.pending in
    let apart = start_rounds-IsApart host n fuel plan free room in
    (apart.0, apart.1, start_rounds-settled host n fuel plan free (omega arith))
