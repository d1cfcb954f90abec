-- ===== src/Planner/Rounds.antt =====
-- The loop of `run_job` of app/jobs/rclone_sync.py ends: it has enough rounds.
use rclone.Planner.{Host, Plan, advance, next_runnable_pair_index, start_rounds, start_pairs}
use rclone.Planner.Parallel.{no_next, advance-length}
use rclone.Base.{
  ℕ, zero, suc, ◌≤◌, ◌≡◌, refl, inl, inr, ◌&&◌, arith, ltb, is_some, Bool-cases, length,
}

start_rounds-any_fuel :
    (host : Host) (max_parallel m n : ℕ) (plan : Plan)
    → length plan.pending ≤ m
    → length plan.pending ≤ n
    → start_rounds host max_parallel m plan ≡ start_rounds host max_parallel n plan
unfolding start_rounds
start_rounds-any_fuel host w zero zero plan hm hn = refl
start_rounds-any_fuel host w zero (suc n) plan hm hn =
    rw (no_next host plan.pending plan.running hm) (ground arith)
start_rounds-any_fuel host w (suc m) zero plan hm hn =
    rw (no_next host plan.pending plan.running hn) (ground arith)
start_rounds-any_fuel host w (suc m) (suc n) plan hm hn =
    let index = next_runnable_pair_index host plan.pending plan.running in
    elim (Bool-cases (ltb (length plan.running) w && is_some index)) [
      | inl more ↦
          let moved = advance-length host plan index refl (ground (arith, more)) in
          rw more (
            start_rounds-any_fuel host w m n (advance index plan) (omega (arith, moved, hm))
              (omega (arith, moved, hn)))
      | inr stop ↦ rw stop refl
    ]

-- However many more rounds the loop is given, it starts the same pairs: as many rounds as there are
-- pairs that wait are enough.
pub start_rounds-enough :
    (host : Host) (max_parallel fuel : ℕ) (plan : Plan)
    → length plan.pending ≤ fuel
    → start_rounds host max_parallel fuel plan ≡ start_pairs host max_parallel plan
unfolding start_pairs
start_rounds-enough host w fuel plan enough =
    start_rounds-any_fuel host w fuel (length plan.pending) plan enough (omega arith)
