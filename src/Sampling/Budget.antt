-- ===== src/Sampling/Budget.antt =====
-- The limits of the choice of app/jobs/restore_sampling.py: its bytes and its number of files.
use rclone.Sampling.{Candidate, greedy, Slot, largest, remove_slot, evict_from, get_elem?, push}
use rclone.Base.{
  none, some, ◌∙◌, ap, ℕ, suc, ◌+◌, ◌-◌, ◌≤◌, ◌≡◌, inl, inr, Bool, true, ◌&&◌, List, [], ◌∷◌, arith,
  leb, ◌==◌, Bool-cases, length, any_where, All, Option, ap, ltb, some, ◌∙◌,
}

abbrev pub total_size : List Candidate → ℕ
total_size [] = 0
total_size (c ∷ cs) = c.size + total_size cs

pub greedy-within :
    (budget room bytes : ℕ) (cs : List Candidate)
    → bytes ≤ budget
    → (bytes + total_size (greedy budget room bytes cs) ≤ budget)
      × (length (greedy budget room bytes cs) ≤ room)
unfolding greedy
greedy-within budget room bytes [] h = ground (arith, h)
greedy-within budget room bytes (c ∷ cs) h = elim (Bool-cases (leb (bytes + c.size) budget)) [
  | inl fits ↦
      ground (arith, fits, greedy-within budget (room - 1) (bytes + c.size) cs (ground arith))
  | inr over ↦ ground (arith, over, greedy-within budget room bytes cs h)
]

abbrev pub heap_bytes : List Slot → ℕ
heap_bytes [] = 0
heap_bytes (a ∷ heap) = a.size + heap_bytes heap

largest-le : (a : Slot) (heap : List Slot) → a.size ≤ (largest a heap).size
unfolding largest
largest-le a [] = omega arith
largest-le a (b ∷ heap) = ground (arith, largest-le a heap, largest-le b heap)

abbrev is_in : Slot → List Slot → Bool
is_in a heap = any_where (λ b. a.size == b.size && a.position == b.position) heap

largest-in : (a : Slot) (heap : List Slot) → is_in (largest a heap) (a ∷ heap) ≡ true
unfolding largest
largest-in a [] = ground arith
largest-in a (b ∷ heap) = ground (arith, largest-in a heap, largest-in b heap)

remove_slot-bytes :
    (a : Slot) (heap : List Slot)
    → is_in a heap ≡ true
    → (heap_bytes (remove_slot a heap) + a.size ≡ heap_bytes heap)
      × (suc (length (remove_slot a heap)) ≡ length heap)
unfolding remove_slot
remove_slot-bytes a [] h = cc
remove_slot-bytes a (b ∷ heap) h = ground (arith, h, remove_slot-bytes a heap)

push-within :
    (budget : ℕ) (a : Slot) (heap : List Slot) (bytes : ℕ)
    → heap_bytes heap ≡ bytes
    → bytes ≤ budget
    → (heap_bytes (push budget a heap bytes).0 ≡ (push budget a heap bytes).1)
      × ((push budget a heap bytes).1 ≤ budget)
      × (length (push budget a heap bytes).0 ≤ suc (length heap))
unfolding push
push-within budget a heap bytes same fits =
    let top = largest a heap in
    let removed = remove_slot-bytes top (a ∷ heap) (largest-in a heap) in
    elim (Bool-cases (ltb budget (bytes + a.size))) [
      | inl over ↦ ground (arith, over, removed, largest-le a heap, same)
      | inr room ↦ ground (arith, room, same)
    ]

pub evict_from-within :
    (budget sample_size index : ℕ) (heap : List Slot) (bytes : ℕ) (cs : List Candidate)
    → heap_bytes heap ≡ bytes
    → bytes ≤ budget
    → suc (length heap) ≤ sample_size
    → (heap_bytes (evict_from budget sample_size index heap bytes cs) ≤ budget)
      × (length (evict_from budget sample_size index heap bytes cs) ≤ sample_size)
unfolding evict_from
evict_from-within budget n index heap bytes [] same fits room = ground (arith, same)
evict_from-within budget n index heap bytes (c ∷ cs) same fits room =
    let a : Slot = record { size = c.size; position = index } in
    let heap' = (push budget a heap bytes).0 in
    let bytes' = (push budget a heap bytes).1 in
    let pushed = push-within budget a heap bytes same fits in
    elim (Bool-cases (length heap' == n)) [
      | inl full ↦ ground (arith, full, pushed)
      | inr more ↦ ground (
        arith,
        more,
        pushed,
        evict_from-within budget n (index + 1) heap' bytes' cs pushed.0 pushed.1
            (ground (arith, more, pushed)),
      )
    ]

abbrev pub size_of : Option Candidate → ℕ
size_of none = 0
size_of (some c) = c.size

abbrev pub IsListed : List Candidate → Slot → Type 0
IsListed cs a = size_of (get_elem? a.position cs) ≡ a.size

remove_slot-All :
    (P : Slot → Type 0) (a : Slot) (heap : List Slot) → All P heap → All P (remove_slot a heap)
unfolding remove_slot
remove_slot-All P a [] h = tt
remove_slot-All P a (b ∷ heap) h = ground (arith, h, remove_slot-All P a heap h.1)

push-All :
    (P : Slot → Type 0) (budget : ℕ) (a : Slot) (heap : List Slot) (bytes : ℕ)
    → P a
    → All P heap
    → All P (push budget a heap bytes).0
unfolding push
push-All P budget a heap bytes pa h =
    let removed = remove_slot-All P (largest a heap) (a ∷ heap) (pa, h) in
    ground (arith, removed, pa, h)

add_suc : (index i : ℕ) → index + 1 + i ≡ index + suc i
add_suc index i = omega arith

plus_zero : (n : ℕ) → n ≡ n + 0
plus_zero n = omega arith

head_listed :
    (all : List Candidate) (index : ℕ) (c : Candidate) (cs : List Candidate)
    → ((i : ℕ) → get_elem? (index + i) all ≡ get_elem? i (c ∷ cs))
    → size_of (get_elem? index all) ≡ c.size
unfolding get_elem?
head_listed all index c cs tail = ap size_of (ap (λ k. get_elem? k all) (plus_zero index) ∙ tail 0)

-- Every slot of the heap has the size of the candidate at its position.
pub evict_from-IsListed :
    (all : List Candidate) (budget n index : ℕ) (heap : List Slot) (bytes : ℕ) (cs : List Candidate)
    → ((i : ℕ) → get_elem? (index + i) all ≡ get_elem? i cs)
    → All (IsListed all) heap
    → All (IsListed all) (evict_from budget n index heap bytes cs)
unfolding evict_from get_elem?
evict_from-IsListed all budget n index heap bytes [] tail h = h
evict_from-IsListed all budget n index heap bytes (c ∷ cs) tail h =
    let a : Slot = record { size = c.size; position = index } in
    let pushed = push-All (IsListed all) budget a heap bytes (head_listed all index c cs tail) h in
    let heap' = (push budget a heap bytes).0 in
    let bytes' = (push budget a heap bytes).1 in
    let rest =
      evict_from-IsListed all budget n (index + 1) heap' bytes' cs
        (λ i. rw (add_suc index i) (tail (suc i))) pushed in
    ground (arith, pushed, rest)
