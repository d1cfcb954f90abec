-- ===== src/Sampling/Choice.antt =====
-- The files that app/jobs/restore_sampling.py chooses keep to both limits.
use rclone.Sampling.{
  Candidate, Entry, amount, eligible, Slot, evict_from, get_elem?, pick, select_eligible,
  select_budgeted_sample,
}
use rclone.Sampling.Budget.{
  total_size, heap_bytes, size_of, IsListed, greedy-within, evict_from-within, evict_from-IsListed,
}
use rclone.Base.{
  ap, ℕ, suc, ◌+◌, ◌≤◌, ◌≡◌, refl, inl, inr, some, List, [], ◌∷◌, map, arith, ltb, leb, Bool-cases,
  Option-cases, length, All, insert_by, sort_by,
}

abbrev sum_at : List Candidate → List ℕ → ℕ
sum_at cs [] = 0
sum_at cs (i ∷ is) = size_of (get_elem? i cs) + sum_at cs is

insert_by-sum :
    (cs : List Candidate) (i : ℕ) (is : List ℕ)
    → (sum_at cs (insert_by ltb i is) ≡ size_of (get_elem? i cs) + sum_at cs is)
      × (length (insert_by ltb i is) ≡ suc (length is))
insert_by-sum cs i [] = (refl, refl)
insert_by-sum cs i (j ∷ is) = ground (arith, insert_by-sum cs i is)

sort_by-sum :
    (cs : List Candidate) (is : List ℕ)
    → (sum_at cs (sort_by ltb is) ≡ sum_at cs is) × (length (sort_by ltb is) ≡ length is)
sort_by-sum cs [] = (refl, refl)
sort_by-sum cs (i ∷ is) = ground (arith, insert_by-sum cs i (sort_by ltb is), sort_by-sum cs is)

pick-sum :
    (cs : List Candidate) (is : List ℕ)
    → (total_size (pick cs is) ≡ sum_at cs is) × (length (pick cs is) ≤ length is)
unfolding pick
pick-sum cs [] = (refl, omega arith)
pick-sum cs (i ∷ is) = elim (Option-cases (get_elem? i cs)) [
  | inl out ↦ rw out (ground (arith, pick-sum cs is))
  | inr (c, found) ↦ rw found (ground (arith, pick-sum cs is))
]

positions-sum :
    (cs : List Candidate) (heap : List Slot)
    → All (IsListed cs) heap
    → (sum_at cs (map (λ a. a.position) heap) ≡ heap_bytes heap)
      × (length (map (λ a. a.position) heap) ≡ length heap)
positions-sum cs [] h = (refl, refl)
positions-sum cs (a ∷ heap) h = ground (arith, h, positions-sum cs heap h.1)

zero_plus : (n : ℕ) → 0 + n ≡ n
zero_plus n = omega arith

select_eligible-within :
    (sample_size budget : ℕ) (cs : List Candidate)
    → 1 ≤ sample_size
    → (total_size (select_eligible sample_size budget cs) ≤ budget)
      × (length (select_eligible sample_size budget cs) ≤ sample_size)
unfolding select_eligible
select_eligible-within n budget cs wanted =
    let by_order = greedy-within budget n 0 cs (omega arith) in
    let selected = evict_from budget n 0 [] 0 cs in
    let within = evict_from-within budget n 0 [] 0 cs refl (omega arith) (omega (arith, wanted)) in
    let positions = map (λ a. a.position) selected in
    ground (
      arith,
      by_order,
      within,
      pick-sum cs (sort_by ltb positions),
      sort_by-sum cs positions,
      positions-sum cs selected (
          evict_from-IsListed cs budget n 0 [] 0 cs (λ i. ap (λ k. get_elem? k cs) (zero_plus i))
            tt),
    )

-- The files that are chosen have at most as many bytes as the budget allows, and are at most as
-- many as were asked for.
pub select_budgeted_sample-within :
    (candidates : List Entry) (sample_size budget : ℕ) (chosen : List Candidate)
    → select_budgeted_sample candidates (amount sample_size) (amount budget) ≡ some chosen
    → (total_size chosen ≤ budget) × (length chosen ≤ sample_size)
unfolding select_budgeted_sample
select_budgeted_sample-within candidates n budget chosen made = elim (Bool-cases (leb n 0)) [
  | inl nothing ↦ ground (arith, nothing, made)
  | inr wanted ↦ ground (
    arith,
    wanted,
    made,
    select_eligible-within n budget (eligible budget candidates) (ground (arith, wanted)),
  )
]
