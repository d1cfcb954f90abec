-- ===== src/Sampling/Examples.antt =====
-- The choice of app/jobs/restore_sampling.py from four files.
use rclone.Sampling.{
  Candidate, Entry, malformed, entry, amount, eligible, eligible_from, greedy, largest, remove_slot,
  push, evict_from, get_elem?, pick, select_eligible, select_budgeted_sample,
}
use rclone.Sampling.Budget.{total_size}
use rclone.Sampling.Choice.{select_budgeted_sample-within}
use rclone.Base.{◌≤◌, ◌≡◌, refl, some, List, [], ◌∷◌, length}

-- In order only the large file fits; without it, two do.
abbrev reservoir : List Entry
reservoir =
    entry "large" (some 90)
    ∷ malformed
    ∷ entry "small" (some 20)
    ∷ entry "small" (some 5)
    ∷ entry "medium" (some 60)
    ∷ []

abbrev two_files : List Candidate
two_files = record { path = "small"; size = 20 } ∷ record { path = "medium"; size = 60 } ∷ []

two_files_chosen : select_budgeted_sample reservoir (amount 2) (amount 100) ≡ some two_files
unfolding select_budgeted_sample select_eligible eligible eligible_from greedy evict_from push
    largest remove_slot pick get_elem?
two_files_chosen = refl

select_budgeted_sample-within_example : (total_size two_files ≤ 100) × (length two_files ≤ 2)
select_budgeted_sample-within_example =
    select_budgeted_sample-within reservoir 2 100 two_files two_files_chosen
