-- ===== src/Planner/Symmetry.antt =====
-- Conflicts of pairs in app/jobs/pair_planner.py do not depend on the order of the two.
use rclone.Planner.{
  Host, Pair, paths_overlap, pairs_conflict, nested_remotes, nested_parts, canonical_remote,
}
use rclone.Base.{Bool, ◌||◌, String, ◌≡◌, refl, Bool, ◌||◌, Option, none, some, List, arith, eq_iff}

nested_remotes_comm : (a b : String) → nested_remotes a b ≡ nested_remotes b a
unfolding nested_remotes
nested_remotes_comm a b = ground (arith, eq_iff a b, eq_iff b a)

nested_parts_comm :
    (host : Host) (a b : Option (List String)) → nested_parts host a b ≡ nested_parts host b a
unfolding nested_parts
nested_parts_comm host none none = refl
nested_parts_comm host none (some b) = refl
nested_parts_comm host (some a) none = refl
nested_parts_comm host (some a) (some b) = ground arith

pub paths_overlap_comm :
    (host : Host) (a b : String) → paths_overlap host a b ≡ paths_overlap host b a
unfolding paths_overlap
paths_overlap_comm host a b = ground (
  arith,
  nested_remotes_comm (canonical_remote host a) (canonical_remote host b),
  nested_parts_comm host (host.parts a) (host.parts b),
)

or_swap : (a b c d : Bool) → a || b || c || d ≡ a || c || b || d
or_swap a b c d = ground arith

-- A pair conflicts with another exactly if that one conflicts with it.
pub pairs_conflict_comm :
    (host : Host) (p q : Pair) → pairs_conflict host p q ≡ pairs_conflict host q p
unfolding pairs_conflict
pairs_conflict_comm host p q =
    rw
      (
        paths_overlap_comm host p.local_path q.local_path,
        paths_overlap_comm host p.local_path q.remote_path,
        paths_overlap_comm host p.remote_path q.local_path,
        paths_overlap_comm host p.remote_path q.remote_path,
      )
      (or_swap (paths_overlap host q.local_path p.local_path)
        (paths_overlap host q.remote_path p.local_path)
        (paths_overlap host q.local_path p.remote_path)
        (paths_overlap host q.remote_path p.remote_path))
