-- ===== src/Runtime/Audit.antt =====
-- What pruning the audit log of app/db.py keeps.
use rclone.Runtime.{Event, Log, audit_prune, kept_events, is_pruned, day}
use rclone.Base.{
  ℕ, ◌+◌, ◌-◌, ◌*◌, ◌≡◌, refl, Bool, true, not, List, [], ◌∷◌, arith, clamp, length, All,
  count_where, drop_where, keep_where-All_test,
}

dropped :
    (p : Event → Bool) (es : List Event) → count_where p es + length (drop_where p es) ≡ length es
dropped p [] = refl
dropped p (e ∷ es) = ground (arith, dropped p es)

-- Pruning reports how many events are gone, and each event that is left is younger than the limit
-- or among the newest.
pub audit_prune-counts :
    (older_than_days keep_latest now : ℕ) (log : Log)
    → let (n, log') = audit_prune older_than_days keep_latest now log in
      let kept = kept_events (clamp 100 100000 keep_latest) log in
      (n + length log'.events ≡ length log.events)
      × All
          (λ e. not (is_pruned (now - clamp 1 3650 older_than_days * day) kept e) ≡ true)
          log'.events
unfolding audit_prune
audit_prune-counts older_than_days keep_latest now log =
    let gone =
      is_pruned (now - clamp 1 3650 older_than_days * day)
        (kept_events (clamp 100 100000 keep_latest) log) in
    (dropped gone log.events, keep_where-All_test (λ e. not (gone e)) log.events)
