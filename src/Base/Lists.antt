-- ===== src/Base/Lists.antt =====
-- Lists measured by native numbers, predicates by recursion, and the filters, searches and sorts
-- that stand for the SQL clauses of app/db.py.
use Prim.Native.Nat.{ℕ, zero, suc, ◌+◌, ◌≤◌}
use mathlib.Core.Path.{◌≡◌, refl}
use mathlib.Core.Bool.{Bool, true, false, not, ◌||◌}
use mathlib.Core.Option.{Option, none, some}
use mathlib.Core.List.{List, [], ◌∷◌, ◌++◌, map}
use native.Mathlib.Omega.{arith}
use rclone.Base.Tests.{if◌then◌else◌}

module _ {ℓ} {A : Type ℓ} where
  abbrev pub length : List A → ℕ
  length [] = 0
  length (x ∷ xs) = suc (length xs)

  abbrev pub take : ℕ → List A → List A
  take zero xs = []
  take (suc n) [] = []
  take (suc n) (x ∷ xs) = x ∷ take n xs

  abbrev pub drop : ℕ → List A → List A
  drop zero xs = xs
  drop (suc n) [] = []
  drop (suc n) (x ∷ xs) = drop n xs

  -- The rows that pass a test, as `SELECT … WHERE`; `drop_where` is `DELETE … WHERE`.
  abbrev pub keep_where : (A → Bool) → List A → List A
  keep_where p [] = []
  keep_where p (x ∷ xs) = let rest = keep_where p xs in if p x then x ∷ rest else rest

  abbrev pub drop_where : (A → Bool) → List A → List A
  drop_where p = keep_where (λ x. not (p x))

  abbrev pub find_where : (A → Bool) → List A → Option A
  find_where p [] = none
  find_where p (x ∷ xs) = let rest = find_where p xs in if p x then some x else rest

  abbrev pub any_where : (A → Bool) → List A → Bool
  any_where p [] = false
  any_where p (x ∷ xs) = p x || any_where p xs

  abbrev pub count_where : (A → Bool) → List A → ℕ
  count_where p [] = 0
  count_where p (x ∷ xs) = (if p x then 1 else 0) + count_where p xs

  -- A stable insertion sort by a strict order, for `ORDER BY` and `sorted`.
  abbrev pub insert_by : (A → A → Bool) → A → List A → List A
  insert_by less x [] = x ∷ []
  insert_by less x (y ∷ ys) =
      let later = y ∷ insert_by less x ys in if less y x then later else x ∷ y ∷ ys

  abbrev pub sort_by : (A → A → Bool) → List A → List A
  sort_by less [] = []
  sort_by less (x ∷ xs) = insert_by less x (sort_by less xs)

  abbrev pub All {κ} : (A → Type κ) → List A → Type κ
  All P [] = Unit
  All P (x ∷ xs) = P x × All P xs

module _ {ℓ} {A : Type ℓ} where
  pub length-append : (xs ys : List A) → length (xs ++ ys) ≡ length xs + length ys
  length-append [] ys = omega arith
  length-append (x ∷ xs) ys = omega (arith, length-append xs ys)

  pub length-keep_where : (p : A → Bool) (xs : List A) → length (keep_where p xs) ≤ length xs
  length-keep_where p [] = omega arith
  length-keep_where p (x ∷ xs) = ground (arith, length-keep_where p xs)

  pub length-take-le : (n : ℕ) (xs : List A) → length (take n xs) ≤ n
  length-take-le zero xs = omega arith
  length-take-le (suc n) [] = omega arith
  length-take-le (suc n) (x ∷ xs) = omega (arith, length-take-le n xs)

  pub count-keep_where : (p : A → Bool) (xs : List A) → length (keep_where p xs) ≡ count_where p xs
  count-keep_where p [] = refl
  count-keep_where p (x ∷ xs) = ground (arith, count-keep_where p xs)

  pub count-keep_where-le :
      (p q : A → Bool) (xs : List A) → count_where p (keep_where q xs) ≤ count_where p xs
  count-keep_where-le p q [] = omega arith
  count-keep_where-le p q (x ∷ xs) = ground (arith, count-keep_where-le p q xs)

  pub count-append :
      (p : A → Bool) (xs ys : List A)
      → count_where p (xs ++ ys) ≡ count_where p xs + count_where p ys
  count-append p [] ys = omega arith
  count-append p (x ∷ xs) ys = ground (arith, count-append p xs ys)

  pub count-map-le :
      (p : A → Bool) (f : A → A)
      → ((x : A) → p (f x) ≡ true → p x ≡ true)
      → (xs : List A) → count_where p (map f xs) ≤ count_where p xs
  count-map-le p f back [] = omega arith
  count-map-le p f back (x ∷ xs) = ground (arith, back x, count-map-le p f back xs)

  pub count_where_same :
      (p q : A → Bool) → ((x : A) → p x ≡ q x) → (xs : List A) → count_where p xs ≡ count_where q xs
  count_where_same p q same [] = refl
  count_where_same p q same (x ∷ xs) = ground (arith, same x, count_where_same p q same xs)

  pub any_where-map :
      (p q : A → Bool) (f : A → A)
      → ((x : A) → p x ≡ true → q (f x) ≡ true)
      → (xs : List A) → any_where p xs ≡ true
      → any_where q (map f xs) ≡ true
  any_where-map p q f still [] h = ground (arith, h)
  any_where-map p q f still (x ∷ xs) h = ground (arith, h, still x, any_where-map p q f still xs)

  pub any_where-append :
      (p : A → Bool) (xs ys : List A) → any_where p (xs ++ ys) ≡ (any_where p xs || any_where p ys)
  any_where-append p [] ys = refl
  any_where-append p (x ∷ xs) ys = ground (arith, any_where-append p xs ys)

  pub any_where-keep_where :
      (p q : A → Bool)
      → ((x : A) → p x ≡ true → q x ≡ true)
      → (xs : List A) → any_where p xs ≡ true
      → any_where p (keep_where q xs) ≡ true
  any_where-keep_where p q kept [] h = ground (arith, h)
  any_where-keep_where p q kept (x ∷ xs) h =
      ground (arith, h, kept x, any_where-keep_where p q kept xs)

  pub find_where-passes :
      (p : A → Bool) (xs : List A) (y : A) → find_where p xs ≡ some y → p y ≡ true
  find_where-passes p [] y h = ground (arith, h)
  find_where-passes p (x ∷ xs) y h = ground (arith, h, find_where-passes p xs y)

  pub find_where-map :
      (p : A → Bool) (f : A → A)
      → ((x : A) → p (f x) ≡ p x)
      → (xs : List A) (y : A) → find_where p xs ≡ some y
      → find_where p (map f xs) ≡ some (f y)
  find_where-map p f same [] y h = ground (arith, h)
  find_where-map p f same (x ∷ xs) y h = ground (arith, h, same x, find_where-map p f same xs y)

  pub find_where-append :
      (p : A → Bool) (xs : List A) (y : A)
      → find_where p xs ≡ none
      → p y ≡ true
      → find_where p (xs ++ (y ∷ [])) ≡ some y
  find_where-append p [] y h passes = ground (arith, passes)
  find_where-append p (x ∷ xs) y h passes = ground (arith, h, passes, find_where-append p xs y)

  -- Every row passes after a selection by a test that implies the predicate.
  pub keep_where-All {κ} :
      (P : A → Type κ) (p : A → Bool) (xs : List A) → All P xs → All P (keep_where p xs)
  keep_where-All P p [] h = tt
  keep_where-All P p (x ∷ xs) h = ground (arith, keep_where-All P p xs h.1)

  pub keep_where-All_test : (p : A → Bool) (xs : List A) → All (λ x. p x ≡ true) (keep_where p xs)
  keep_where-All_test p [] = tt
  keep_where-All_test p (x ∷ xs) = ground (arith, keep_where-All_test p xs)

  pub All-map {κ} :
      (P Q : A → Type κ) (f : A → A)
      → ((x : A) → P x → Q (f x))
      → (xs : List A) → All P xs
      → All Q (map f xs)
  All-map P Q f step [] h = tt
  All-map P Q f step (x ∷ xs) h = (step x h.0, All-map P Q f step xs h.1)

  pub All-append {κ} : (P : A → Type κ) (xs ys : List A) → All P xs → All P ys → All P (xs ++ ys)
  All-append P [] ys hx hy = hy
  All-append P (x ∷ xs) ys hx hy = (hx.0, All-append P xs ys hx.1 hy)

module _ {ℓ κ} {A : Type ℓ} (P : A → Type κ) where
  pub keep_where-All_of :
      (p : A → Bool) (xs : List A) → All (λ x. p x ≡ true → P x) xs → All P (keep_where p xs)
  keep_where-All_of p [] h = tt
  keep_where-All_of p (x ∷ xs) h = ground (arith, h.0, keep_where-All_of p xs h.1)

  insert_by-All :
      (less : A → A → Bool) (x : A) (xs : List A) → P x → All P xs → All P (insert_by less x xs)
  insert_by-All less x [] h all = (h, tt)
  insert_by-All less x (y ∷ ys) h all = ground (arith, insert_by-All less x ys h all.1)

  pub sort_by-All : (less : A → A → Bool) (xs : List A) → All P xs → All P (sort_by less xs)
  sort_by-All less [] h = tt
  sort_by-All less (x ∷ xs) h = insert_by-All less x (sort_by less xs) h.0 (sort_by-All less xs h.1)
