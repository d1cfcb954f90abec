-- ===== src/Base/Tables.antt =====
-- A table with a text key, in insertion order: an SQLite table by its primary key.
use Prim.Native.String.{String}
use Prim.Native.Nat.{◌≤◌}
use mathlib.Core.Path.{◌≡◌, refl}
use mathlib.Core.Option.{Option, none, some}
use mathlib.Core.List.{List, [], ◌∷◌, ◌++◌}
use mathlib.Core.Bool.{Bool, true}
use native.Mathlib.Omega.{arith}
use text.Mathlib.Text.{◌==◌ as str_eq}
use text.Mathlib.TextEquality.{eq_iff}
use text.Mathlib.TextPositions.{eq_refl}
use rclone.Base.Tests.{if◌then◌else◌, is_some}
use rclone.Base.Lists.{keep_where, All, count_where}

abbrev pub Table {ℓ} : Type ℓ → Type ℓ
Table V = List (String × V)

module _ {ℓ} {V : Type ℓ} where
  unfoldable pub lookup : String → Table V → Option V
  lookup k [] = none
  lookup k ((j, v) ∷ t) = let rest = lookup k t in if str_eq j k then some v else rest

  -- `INSERT … ON CONFLICT DO UPDATE`
  unfoldable pub upsert : String → V → Table V → Table V
  upsert k v [] = (k, v) ∷ []
  upsert k v ((j, w) ∷ t) =
      let rest = upsert k v t in if str_eq j k then (k, v) ∷ t else (j, w) ∷ rest

  -- `DELETE … WHERE key=?`
  unfoldable pub erase : String → Table V → Table V
  erase k [] = []
  erase k ((j, w) ∷ t) = let rest = erase k t in if str_eq j k then rest else (j, w) ∷ rest

  pub lookup-upsert :
      (k j : String) (v : V) (t : Table V)
      → lookup j (upsert k v t) ≡ (if str_eq k j then some v else lookup j t)
  unfolding lookup upsert
  lookup-upsert k j v [] = refl
  lookup-upsert k j v ((i, w) ∷ t) =
      ground (arith, eq_iff k j, eq_iff i k, eq_iff i j, lookup-upsert k j v t)

  pub lookup-erase :
      (k j : String) (t : Table V)
      → lookup j (erase k t) ≡ (if str_eq k j then none else lookup j t)
  unfolding lookup erase
  lookup-erase k j [] = ground arith
  lookup-erase k j ((i, w) ∷ t) =
      ground (arith, eq_iff k j, eq_iff i k, eq_iff i j, lookup-erase k j t)

  pub lookup-erase_same : (k : String) (t : Table V) → lookup k (erase k t) ≡ none
  unfolding lookup
  lookup-erase_same k t = ground (arith, lookup-erase k k t, eq_refl k)

  pub lookup-keep_where-none :
      (p : (String × V) → Bool) (k : String) (t : Table V)
      → lookup k t ≡ none
      → lookup k (keep_where p t) ≡ none
  unfolding lookup
  lookup-keep_where-none p k [] h = refl
  lookup-keep_where-none p k ((j, v) ∷ t) h = ground (arith, lookup-keep_where-none p k t)

  pub lookup-keep_where-some :
      (p : (String × V) → Bool) (k : String) (v : V) (t : Table V)
      → p (k, v) ≡ true
      → lookup k t ≡ some v
      → lookup k (keep_where p t) ≡ some v
  unfolding lookup
  lookup-keep_where-some p k v [] ok h = cc
  lookup-keep_where-some p k v ((j, w) ∷ t) ok h =
      ground (arith, eq_iff j k, lookup-keep_where-some p k v t ok)

  pub lookup-append :
      (k : String) (t u : Table V)
      → lookup k (t ++ u) ≡ (if is_some (lookup k t) then lookup k t else lookup k u)
  unfolding lookup
  lookup-append k [] u = refl
  lookup-append k ((j, v) ∷ t) u = ground (arith, lookup-append k t u)

-- Every row of a key has a property.
abbrev pub AllAt {ℓ κ} : {V : Type ℓ} → String → (V → Type κ) → Table V → Type κ
AllAt k P t = All (λ row. row.0 ≡ k → P row.1) t

module _ {ℓ κ} {V : Type ℓ} (k : String) (P : V → Type κ) where
  pub AllAt-lookup : (t : Table V) (v : V) → AllAt k P t → lookup k t ≡ some v → P v
  unfolding lookup
  AllAt-lookup [] v all h = cc
  AllAt-lookup ((j, w) ∷ t) v all h = ground (arith, eq_iff j k, AllAt-lookup t v all.1, all.0)

  pub AllAt-absent : (t : Table V) → lookup k t ≡ none → AllAt k P t
  unfolding lookup
  AllAt-absent [] h = tt
  AllAt-absent ((j, w) ∷ t) h = ground (arith, eq_iff j k, AllAt-absent t)

  pub AllAt-erase : (j : String) (t : Table V) → AllAt k P t → AllAt k P (erase j t)
  unfolding erase
  AllAt-erase j [] h = tt
  AllAt-erase j ((i, w) ∷ t) h = ground (arith, h.0, AllAt-erase j t h.1)

module _ {ℓ} {V : Type ℓ} where
  pub count-erase-le :
      (p : (String × V) → Bool) (k : String) (t : Table V)
      → count_where p (erase k t) ≤ count_where p t
  unfolding erase
  count-erase-le p k [] = omega arith
  count-erase-le p k ((j, v) ∷ t) = ground (arith, count-erase-le p k t)
