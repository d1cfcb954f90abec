-- ===== src/Planner/Selection.antt =====
-- The pairs that `_selected_pairs` of app/jobs/rclone_sync.py takes for a run.
use rclone.Base.{
  none, some, Option, String, ◌≡◌, inl, inr, true, not, List, [], ◌∷◌, arith, leb, Bool-cases,
  length, All, keep_where, strip, is_empty, keep_where-All_test,
}
use rclone.Planner.{cons_some, Pair, find_last, pairs_named, selected_pairs}

OfSome : (Pair → Type 0) → Option Pair → Type 0
OfSome P none = Unit
OfSome P (some p) = P p

find_last-OfSome :
    (P : Pair → Type 0) (name : String) (ps : List Pair) → All P ps → OfSome P (find_last name ps)
unfolding find_last OfSome
find_last-OfSome P name [] all = tt
find_last-OfSome P name (q ∷ ps) all = ground (arith, all, find_last-OfSome P name ps all.1)

cons_some-All :
    (P : Pair → Type 0) (o : Option Pair) (ps : List Pair)
    → OfSome P o
    → All P ps
    → All P (cons_some o ps)
unfolding OfSome
cons_some-All P none ps h all = all
cons_some-All P (some p) ps h all = (h, all)

pairs_named-All :
    (P : Pair → Type 0) (names : List String) (ps : List Pair)
    → All P ps
    → All P (pairs_named names ps)
unfolding pairs_named
pairs_named-All P [] ps all = tt
pairs_named-All P (name ∷ names) ps all =
    cons_some-All P (find_last (strip name) ps) (pairs_named names ps)
      (find_last-OfSome P (strip name) ps all) (pairs_named-All P names ps all)

-- A run only takes pairs that are enabled, whatever names are asked for.
pub selected_pairs-All_enabled :
    (pairs : List Pair) (pairs_filter : List String)
    → All (λ p. p.enabled ≡ true) (selected_pairs pairs pairs_filter)
unfolding selected_pairs
selected_pairs-All_enabled pairs pairs_filter =
    let P = λ (p : Pair). p.enabled ≡ true in
    let selected = keep_where (λ p. p.enabled) pairs in
    let names = keep_where (λ name. not (is_empty (strip name))) pairs_filter in
    let enabled = keep_where-All_test (λ p. p.enabled) pairs in
    elim (Bool-cases (leb (length pairs_filter) 0)) [
      | inl all ↦ rw all enabled
      | inr some_names ↦ rw some_names (pairs_named-All P names selected enabled)
    ]
