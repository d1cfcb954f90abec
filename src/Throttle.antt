-- ===== src/Throttle.antt =====
-- Login and reauthentication throttling: the table `auth_failures` of app/db.py (`auth_*`), and
-- the in-memory fallback and the guarded password check of app/auth.py.
-- Times are microseconds since the epoch; the code's floats count seconds.
pub mod Keys
pub mod Lockout
pub mod Memory
mod Examples
use rclone.Base.{
  ℕ, suc, ◌+◌, ◌-◌, ◌*◌, ◌/◌, max, String, Bool, true, false, not, ◌&&◌, Option, none, some, List,
  [], ◌∷◌, ltb, leb, if◌then◌else◌, str_eq, is_empty, Table, lookup, upsert, erase,
}

abbrev pub second : ℕ
second = 1000000

abbrev pub day : ℕ
day = 86400 * second

-- A row of `auth_failures`, without its key.
pub record Failure : Type 0 where
  pub window_started_at : ℕ
  pub failure_count : ℕ
  pub blocked_until : ℕ
  pub updated_at : ℕ

-- The three numbers that `_login_policy` reads.
pub record Policy : Type 0 where
  pub window_sec : ℕ
  pub max_failures : ℕ
  pub lock_sec : ℕ

-- `max(1, int(blocked_until - now))` while the block is active.
abbrev pub remaining : ℕ → ℕ → ℕ
remaining blocked_until now =
    if ltb now blocked_until then max 1 ((blocked_until - now) / second) else 0

blocked_of : Option Failure → ℕ
blocked_of none = 0
blocked_of (some r) = r.blocked_until

unfoldable pub auth_retry_after : String → ℕ → Table Failure → ℕ
unfolding blocked_of
auth_retry_after key now t = remaining (blocked_of (lookup key t)) now

-- `tuple(dict.fromkeys(str(key) for key in client_keys if str(key)))`
unfoldable pub without : String → List String → List String
without k [] = []
without k (j ∷ js) = let rest = without k js in if str_eq j k then rest else j ∷ rest

unfoldable pub distinct : List String → List String
unfolding without
distinct [] = []
distinct (k ∷ ks) = let rest = distinct ks in if is_empty k then rest else k ∷ without k rest

unfoldable pub longest_block : List String → Table Failure → ℕ
unfolding blocked_of
longest_block [] t = 0
longest_block (k ∷ ks) t = max (blocked_of (lookup k t)) (longest_block ks t)

unfoldable pub auth_retry_after_many : List String → ℕ → Table Failure → ℕ
unfolding longest_block distinct
auth_retry_after_many keys now t = remaining (longest_block (distinct keys) t) now

-- The window that a failure falls into: a new one, or the row's with one failure more.
unfoldable pub open_window : Policy → ℕ → Option Failure → ℕ × ℕ × ℕ
open_window p now none = (now, 1, 0)
open_window p now (some r) =
    if ltb (p.window_sec * second) (now - r.window_started_at)
    then (now, 1, 0)
    else (r.window_started_at, r.failure_count + 1, r.blocked_until)

unfoldable pub next_failure : Policy → ℕ → Option Failure → Failure
unfolding open_window
next_failure p now row =
    let (started, count, blocked) = open_window p now row in
    if leb p.max_failures count
    then record {
      window_started_at = now;
      failure_count = 0;
      blocked_until = max blocked (now + p.lock_sec * second);
      updated_at = now;
    }
    else record {
      window_started_at = started;
      failure_count = count;
      blocked_until = blocked;
      updated_at = now;
    }

unfoldable pub auth_record_failure : Policy → ℕ → String → Table Failure → ℕ × Table Failure
unfolding next_failure
auth_record_failure p now key t =
    let row = next_failure p now (lookup key t) in
    ((row.blocked_until - now) / second, upsert key row t)

-- The loop of `auth_record_failure_many`, with `longest_block` so far.
unfoldable pub record_each : Policy → ℕ → List String → ℕ × Table Failure → ℕ × Table Failure
unfolding next_failure
record_each p now [] (longest, t) = (longest, t)
record_each p now (k ∷ ks) (longest, t) =
    let row = next_failure p now (lookup k t) in
    record_each p now ks (max longest row.blocked_until, upsert k row t)

unfoldable pub auth_record_failure_many :
    Policy → ℕ → List String → Table Failure → ℕ × Table Failure
unfolding record_each distinct
auth_record_failure_many p now keys t =
    let (longest, t') = record_each p now (distinct keys) (0, t) in (remaining longest now, t')

unfoldable pub auth_clear : String → Table Failure → Table Failure
auth_clear key t = erase key t

unfoldable pub clear_each : List String → Table Failure → Table Failure
clear_each [] t = t
clear_each (k ∷ ks) t = clear_each ks (erase k t)

unfoldable pub auth_clear_many : List String → Table Failure → Table Failure
unfolding clear_each distinct
auth_clear_many keys t = clear_each (distinct keys) t

-- `DELETE FROM auth_failures WHERE updated_at < ?`, with the number of rows deleted.
prune_rows : ℕ → Table Failure → ℕ × Table Failure
prune_rows cutoff [] = (0, [])
prune_rows cutoff ((k, r) ∷ t) =
    let (n, t') = prune_rows cutoff t in
    if ltb r.updated_at cutoff then (suc n, t') else (n, (k, r) ∷ t')

unfoldable pub auth_prune : ℕ → ℕ → Table Failure → ℕ × Table Failure
unfolding prune_rows
auth_prune older_than_days now t = prune_rows (now - max 1 older_than_days * day) t

-- How `require_reauthentication` ends: HTTP 429, HTTP 403, or the account's generation.
pub data Reply : Type 0 where
  limited : ℕ → Reply
  denied : Reply
  confirmed : String → Reply

-- The part of `require_reauthentication` behind the rate limit.
unfoldable pub check_password :
    Policy → List String → ℕ → Option String → Table Failure → Reply × Table Failure
check_password p keys now (some g) t = (confirmed g, auth_clear_many keys t)
check_password p keys now none t =
    let (retry, t') = auth_record_failure_many p now keys t in
    (if ltb 0 retry then limited (max 1 retry) else denied, t')

-- `require_reauthentication`, with the persistent counters available: the delay is read at `asked`,
-- the password is checked, which is slow, and the outcome is recorded at `answered`. `others` is what
-- other requests do with the counters between the two. `generation` is what
-- `verify_password_with_generation` returns; a blocked request does not read it.
unfoldable pub require_reauthentication :
    Policy
    → List String
    → ℕ
    → ℕ
    → (Table Failure → Table Failure)
    → Option String
    → Table Failure
    → Reply × Table Failure
unfolding check_password
require_reauthentication p keys asked answered others generation t =
    let retry = auth_retry_after_many keys asked t in
    if ltb 0 retry
    then (limited (max 1 retry), t)
    else check_password p keys answered generation (others t)
