-- ===== src/Outbox/Rowids.antt =====
-- Rows of the outbox of app/db.py found by their id, and the searches of the claim among them.
use rclone.Base.{
  ℕ, zero, suc, ◌+◌, ◌<◌, ◌≡◌, refl, ◌∙◌, Bool, false, ◌&&◌, ◌||◌, Option, none, some, List, [],
  ◌∷◌, map, arith, ◌==◌, clamp, All, take, keep_where, any_where, find_where, sort_by, insert_by,
}
use mathlib.Core.Option
use mathlib.Core.Bool.{◌&&◌}
use rclone.Outbox.{Entry}
use rclone.Outbox.Queue.{is_due, is_before, has_id, due_ids}
use rclone.Outbox.Invariant.{Rising}

abbrev pub find_id : ℕ → List Entry → Option Entry
find_id i = find_where (λ e. e.id == i)

pub find_id-map :
    (f : Entry → Entry) (i : ℕ) (es : List Entry)
    → ((e : Entry) → (f e).id ≡ e.id)
    → find_id i (map f es) ≡ Option.map f (find_id i es)
find_id-map f i [] same = refl
find_id-map f i (e ∷ es) same = ground (arith, same e, find_id-map f i es same)

pub find_id-low : (i low : ℕ) (es : List Entry) → Rising low es → i < low → find_id i es ≡ none
find_id-low i low [] r h = refl
find_id-low i low (e ∷ es) r h = ground (arith, find_id-low i (e.id + 1) es r.1 (omega arith))

any_where-low :
    (q : Entry → Bool) (i low : ℕ) (es : List Entry)
    → Rising low es
    → i < low
    → any_where (λ e. q e && e.id == i) es ≡ false
any_where-low q i low [] r h = refl
any_where-low q i low (e ∷ es) r h =
    ground (arith, any_where-low q i (e.id + 1) es r.1 (omega arith))

-- A test asked of the rows of one id is that of the row found by the id.
pub any_where-find_id :
    (q : Entry → Bool) (i low : ℕ) (es : List Entry) (e : Entry)
    → Rising low es
    → find_id i es ≡ some e
    → any_where (λ x. q x && x.id == i) es ≡ q e
any_where-find_id q i low [] e r h = cc
any_where-find_id q i low (x ∷ es) e r h =
    ground (arith, any_where-low q i (x.id + 1) es r.1, any_where-find_id q i (x.id + 1) es e r.1)

-- Each row of a rising table is the one that its id finds.
pub find_id_self :
    (low : ℕ) (es : List Entry) → Rising low es → All (λ e. find_id e.id es ≡ some e) es
find_id_self low [] r = tt
find_id_self low (e ∷ es) r =
    (ground arith, later es (e.id + 1) (omega arith) r.1 (find_id_self (e.id + 1) es r.1))
  where
    later :
        (xs : List Entry) (k : ℕ)
        → e.id < k
        → Rising k xs
        → All (λ x. find_id x.id es ≡ some x) xs
        → All (λ x. find_id x.id (e ∷ es) ≡ some x) xs
    later [] k h rise all = tt
    later (x ∷ xs) k h rise all =
        (ground (arith, all.0), later xs (x.id + 1) (omega arith) rise.1 all.1)

any_where-insert_by :
    (q : Entry → Bool) (less : Entry → Entry → Bool) (x : Entry) (es : List Entry)
    → any_where q (insert_by less x es) ≡ q x || any_where q es
any_where-insert_by q less x [] = refl
any_where-insert_by q less x (e ∷ es) = ground (arith, any_where-insert_by q less x es)

pub any_where-sort_by :
    (q : Entry → Bool) (less : Entry → Entry → Bool) (es : List Entry)
    → any_where q (sort_by less es) ≡ any_where q es
any_where-sort_by q less [] = refl
any_where-sort_by q less (e ∷ es) =
    ground (arith, any_where-insert_by q less e (sort_by less es), any_where-sort_by q less es)

any_where-take :
    (q : Entry → Bool) (n : ℕ) (es : List Entry)
    → any_where q es ≡ false
    → any_where q (take n es) ≡ false
any_where-take q zero es h = refl
any_where-take q (suc n) [] h = refl
any_where-take q (suc n) (e ∷ es) h = ground (arith, any_where-take q n es)

pub any_where-keep_where :
    (q p : Entry → Bool) (es : List Entry)
    → any_where q (keep_where p es) ≡ any_where (λ e. p e && q e) es
any_where-keep_where q p [] = refl
any_where-keep_where q p (e ∷ es) = ground (arith, any_where-keep_where q p es)

has_id-map :
    (i : ℕ) (es : List Entry) → has_id (map (λ e. e.id) es) i ≡ any_where (λ e. e.id == i) es
has_id-map i [] = refl
has_id-map i (e ∷ es) = ground (arith, has_id-map i es)

-- Only ids of due rows are claimed.
pub has_id-due_ids :
    (limit now i : ℕ) (es : List Entry)
    → any_where (λ e. is_due now e && e.id == i) es ≡ false
    → has_id (due_ids limit now es) i ≡ false
unfolding due_ids
has_id-due_ids limit now i es h =
    let due = keep_where (is_due now) es in
    has_id-map i (take (clamp 1 128 limit) (sort_by is_before due))
    ∙ any_where-take (λ e. e.id == i) (clamp 1 128 limit) (sort_by is_before due)
        (any_where-sort_by (λ e. e.id == i) is_before due
          ∙ (any_where-keep_where (λ e. e.id == i) (is_due now) es ∙ h))
