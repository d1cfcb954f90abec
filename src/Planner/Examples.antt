-- ===== src/Planner/Examples.antt =====
-- Three pairs of app/jobs/pair_planner.py, two of which share a folder.
use rclone.Planner.{
  Host, Pair, Plan, paths_overlap, pairs_conflict, is_remote, starts_with_code, contains_code,
  canonical_remote, partition, lstrip_slashes, rstrip_slashes, nested_remotes, nested_parts,
  is_prefix, has_overlapping_pairs, next_runnable_pair_index, start_at, start_rounds, start_pairs,
}
use rclone.Planner.Symmetry.{pairs_conflict_comm}
use rclone.Planner.Rounds.{start_rounds-enough}
use rclone.Planner.Parallel.{is_settled, start_pairs-IsApart}
use rclone.Base.{starts_with, ◌≤◌, String, ◌≡◌, refl, true, false, some, [], ◌∷◌, arith, length}

-- A host whose paths are all written in lower case and have one part.
abbrev host : Host
host = record { casefold = λ s. s; parts = λ path. some (path ∷ []) }

abbrev pair : String → String → String → Pair
pair name local_path remote_path = record {
  name = name;
  local_path = local_path;
  remote_path = remote_path;
  enabled = true;
}

abbrev docs : Pair
docs = pair "docs" "/docs" "cloud:backup/docs/"

abbrev letters : Pair
letters = pair "letters" "/letters" "cloud:/backup/docs/letters"

abbrev photos : Pair
photos = pair "photos" "/photos" "cloud:backup/photos"

remotes_overlap : paths_overlap host "cloud:backup/docs/" "cloud:/backup/docs/letters" ≡ true
unfolding paths_overlap is_remote starts_with_code contains_code canonical_remote partition
    lstrip_slashes rstrip_slashes nested_remotes starts_with
remotes_overlap = refl

pairs_conflict_comm_example : pairs_conflict host docs letters ≡ pairs_conflict host letters docs
pairs_conflict_comm_example = pairs_conflict_comm host docs letters

abbrev plan : Plan
plan = record { pending = letters ∷ photos ∷ []; running = docs ∷ [] }

start_pairs-IsApart_example :
    (has_overlapping_pairs host (start_pairs host 2 plan).running ≡ false)
    × (length (start_pairs host 2 plan).running ≤ 2)
    × (is_settled host 2 (start_pairs host 2 plan) ≡ true)
unfolding has_overlapping_pairs
start_pairs-IsApart_example = start_pairs-IsApart host 2 plan refl (omega arith)

photos_first :
    start_pairs host 2 plan ≡ record { pending = letters ∷ []; running = docs ∷ photos ∷ [] }
unfolding start_pairs start_rounds next_runnable_pair_index start_at pairs_conflict paths_overlap
    is_remote starts_with_code contains_code canonical_remote partition lstrip_slashes
    rstrip_slashes nested_remotes starts_with nested_parts is_prefix
photos_first = refl

start_rounds-enough_example : start_rounds host 2 9 plan ≡ start_pairs host 2 plan
start_rounds-enough_example = start_rounds-enough host 2 9 plan (omega arith)
