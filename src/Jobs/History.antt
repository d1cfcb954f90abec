-- ===== src/Jobs/History.antt =====
-- The history of pairs forgets the order in which it is written
-- (`_record_pair_history_state` of app/db.py).
use mathlib.Core.List.{foldr, Perm}
use mathlib.Core.List.Perm
use rclone.Jobs.{PairHistory}
use rclone.Jobs.States.{
  Seen, first_seen, later_success, seen_again, merge_seen, record_pair_history_state,
}
use rclone.Base.{
  ℕ, min, max, String, ◌≡◌, refl, sym, ap, ◌∙◌, inl, inr, Bool, true, false, not, ◌&&◌, ◌||◌,
  Option, none, some, List, [], ◌∷◌, arith, str_eq, eq_iff, if◌then◌else◌, Bool-cases, Table,
  lookup, lookup-upsert, strip, is_empty,
}

-- What is known of a pair besides the spelling of its name.
pub record Facts : Type 0 where
  ever_succeeded : Bool
  terminal_seen : Bool
  first_seen_at : ℕ
  last_seen_at : ℕ
  last_success_at : Option ℕ

abbrev facts_of : PairHistory → Facts
facts_of h = record {
  ever_succeeded = h.ever_succeeded;
  terminal_seen = h.terminal_seen;
  first_seen_at = h.first_seen_at;
  last_seen_at = h.last_seen_at;
  last_success_at = h.last_success_at;
}

abbrev pub known : Option PairHistory → Option Facts
known none = none
known (some h) = some (facts_of h)

abbrev join : Option Facts → Facts → Facts
join none b = b
join (some a) b = record {
  ever_succeeded = a.ever_succeeded || b.ever_succeeded;
  terminal_seen = a.terminal_seen || b.terminal_seen;
  first_seen_at = min a.first_seen_at b.first_seen_at;
  last_seen_at = max a.last_seen_at b.last_seen_at;
  last_success_at = later_success a.last_success_at b.last_success_at;
}

later_success_comm : (a b : Option ℕ) → later_success a b ≡ later_success b a
later_success_comm none none = refl
later_success_comm none (some t) = refl
later_success_comm (some s) none = refl
later_success_comm (some s) (some t) = ap some (omega arith)

later_success_swap :
    (a b c : Option ℕ) → later_success (later_success a b) c ≡ later_success (later_success a c) b
later_success_swap none none none = refl
later_success_swap none none (some u) = refl
later_success_swap none (some t) none = refl
later_success_swap none (some t) (some u) = ap some (omega arith)
later_success_swap (some s) none none = refl
later_success_swap (some s) none (some u) = refl
later_success_swap (some s) (some t) none = refl
later_success_swap (some s) (some t) (some u) = ap some (omega arith)

or_comm : (a b : Bool) → (a || b) ≡ (b || a)
or_comm a b = ground arith

or_swap : (a b c : Bool) → ((a || b) || c) ≡ ((a || c) || b)
or_swap a b c = ground arith

min_comm : (a b : ℕ) → min a b ≡ min b a
min_comm a b = omega arith

max_comm : (a b : ℕ) → max a b ≡ max b a
max_comm a b = omega arith

min_swap : (a b c : ℕ) → min (min a b) c ≡ min (min a c) b
min_swap a b c = omega arith

max_swap : (a b c : ℕ) → max (max a b) c ≡ max (max a c) b
max_swap a b c = omega arith

join_swap : (o : Option Facts) (a b : Facts) → join (some (join o a)) b ≡ join (some (join o b)) a
join_swap none a b =
    rw
      (
        or_comm a.ever_succeeded b.ever_succeeded,
        or_comm a.terminal_seen b.terminal_seen,
        min_comm a.first_seen_at b.first_seen_at,
        max_comm a.last_seen_at b.last_seen_at,
        later_success_comm a.last_success_at b.last_success_at,
      )
      refl
join_swap (some h) a b =
    rw
      (
        or_swap h.ever_succeeded a.ever_succeeded b.ever_succeeded,
        or_swap h.terminal_seen a.terminal_seen b.terminal_seen,
        min_swap h.first_seen_at a.first_seen_at b.first_seen_at,
        max_swap h.last_seen_at a.last_seen_at b.last_seen_at,
        later_success_swap h.last_success_at a.last_success_at b.last_success_at,
      )
      refl

-- What an event adds to what is known under a key.
abbrev add : Bool → Facts → Option Facts → Option Facts
add false f o = o
add true f o = some (join o f)

add_swap : (b c : Bool) (f g : Facts) (o : Option Facts) → add b f (add c g o) ≡ add c g (add b f o)
add_swap false c f g o = refl
add_swap true false f g o = refl
add_swap true true f g o = ap some (join_swap o g f)

abbrev is_about : String → Seen → Bool
is_about k e =
    not (is_empty (strip e.history_key) || is_empty (strip e.pair_name))
    && str_eq (strip e.history_key) k

abbrev see_at : String → Seen → Option Facts → Option Facts
see_at k e o = add (is_about k e) (facts_of (first_seen e)) o

known-merge_seen :
    (o : Option PairHistory) (new : PairHistory)
    → facts_of (merge_seen o new) ≡ join (known o) (facts_of new)
unfolding merge_seen seen_again
known-merge_seen none new = refl
known-merge_seen (some old) new = refl

known_chosen :
    (key k : String) (new : PairHistory) (t : Table PairHistory)
    → known (if str_eq key k then some (merge_seen (lookup key t) new) else lookup k t)
      ≡ add (str_eq key k) (facts_of new) (known (lookup k t))
known_chosen key k new t = elim (Bool-cases (str_eq key k)) [
  | inl same ↦
      let p : key ≡ k = ground (arith, same, eq_iff key k) in
      rw (same, p) (ap some (known-merge_seen (lookup k t) new))
  | inr other ↦ rw other refl
]

known-record_pair_history_state :
    (k : String) (e : Seen) (t : Table PairHistory)
    → known (lookup k (record_pair_history_state e t)) ≡ see_at k e (known (lookup k t))
unfolding record_pair_history_state
known-record_pair_history_state k e t =
    let key = strip e.history_key in
    let new = merge_seen (lookup key t) (first_seen e) in
    elim (Bool-cases (is_empty key || is_empty (strip e.pair_name))) [
      | inl skipped ↦ rw skipped refl
      | inr wanted ↦ rw (wanted, lookup-upsert key k new t) (known_chosen key k (first_seen e) t)
    ]

see_at_swap :
    (k : String) (e f : Seen) (o : Option Facts)
    → see_at k e (see_at k f o) ≡ see_at k f (see_at k e o)
see_at_swap k e f o =
    add_swap (is_about k e) (is_about k f) (facts_of (first_seen e)) (facts_of (first_seen f)) o

known-foldr :
    (k : String) (t : Table PairHistory) (es : List Seen)
    → known (lookup k (foldr record_pair_history_state t es))
      ≡ foldr (see_at k) (known (lookup k t)) es
known-foldr k t [] = refl
known-foldr k t (e ∷ es) =
    known-record_pair_history_state k e (foldr record_pair_history_state t es)
    ∙ ap (see_at k e) (known-foldr k t es)

-- Events that are recorded in another order leave the same facts of every pair: whether it
-- succeeded, whether it ended, and when it was first seen, last seen and last successful.
pub record_pair_history_state-order :
    (k : String) (t : Table PairHistory) (es fs : List Seen)
    → Perm es fs
    → known (lookup k (foldr record_pair_history_state t es))
      ≡ known (lookup k (foldr record_pair_history_state t fs))
record_pair_history_state-order k t es fs p =
    known-foldr k t es
    ∙ Perm.foldr-eq (hlevel) (see_at k) (see_at_swap k) p (known (lookup k t))
    ∙ sym (known-foldr k t fs)
