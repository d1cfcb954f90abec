-- ===== src/Outbox.antt =====
-- The APNs outbox of app/db.py: the tables `push_devices` and `push_outbox`, and the operations on
-- devices (`push_device_*`, `push_devices*`). The delivery rows are in `Outbox/Queue`.
-- Times are microseconds since the epoch; the code's floats count seconds.
pub mod Queue
pub mod Finish
pub mod Invariant
pub mod Insertion
pub mod Rows
pub mod Steps
pub mod Rowids
pub mod Leases
pub mod Kept
pub mod Claims
pub mod Outcomes
pub mod Listed
pub mod Dedupe
mod Examples
use rclone.Base.{
  ℕ, ◌+◌, ◌*◌, String, Bool, true, false, not, ◌&&◌, ◌||◌, Option, none, some, List, [], ◌∷◌,
  str_eq, ltb, leb, if◌then◌else◌, clamp, length, take, keep_where, drop_where, any_where,
  count_where, sort_by,
}
use rclone.Throttle.{second, day}

-- A row of `push_devices`; `token` is the primary key.
pub record Device : Type 0 where
  pub token : String
  pub environment : String
  pub app_version : String
  pub created_at : ℕ
  pub updated_at : ℕ
  pub expires_at : ℕ

-- The values of the column `status`.
pub data Status : Type 0 where
  pending sending sent failed : Status

abbrev pub is_pending : Status → Bool
is_pending pending = true
is_pending _ = false

abbrev pub is_sending : Status → Bool
is_sending sending = true
is_sending _ = false

abbrev pub is_sent : Status → Bool
is_sent sent = true
is_sent _ = false

abbrev pub is_failed : Status → Bool
is_failed failed = true
is_failed _ = false

-- `status IN ('sent', 'failed')`
abbrev pub is_final : Status → Bool
is_final sent = true
is_final failed = true
is_final _ = false

-- A row of `push_outbox`.
pub record Entry : Type 0 where
  pub id : ℕ
  pub dedupe_key : String
  pub token : String
  pub environment : String
  pub event : String
  pub title : String
  pub message : String
  pub payload_json : String
  pub status : Status
  pub attempts : ℕ
  pub next_attempt_at : ℕ
  pub expires_at : ℕ
  pub lease_until : ℕ
  pub claim_owner : String
  pub last_error : Option String
  pub apns_id : String
  pub created_at : ℕ
  pub updated_at : ℕ
  pub sent_at : Option ℕ

-- Both tables, and the next value of the row id.
pub record Store : Type 0 where
  pub devices : List Device
  pub outbox : List Entry
  pub next_id : ℕ

abbrev pub empty : Store
empty = record { devices = []; outbox = []; next_id = 1 }

unfoldable pub upsert_device : Device → List Device → List Device
upsert_device d [] = d ∷ []
upsert_device d (e ∷ es) =
    let rest = e ∷ upsert_device d es in
    if str_eq e.token d.token
    then record e {
      environment = d.environment;
      app_version = d.app_version;
      updated_at = d.updated_at;
      expires_at = d.expires_at;
    }
      ∷ es
    else rest

unfoldable pub push_device_upsert : String → String → String → ℕ → ℕ → Store → Store
unfolding upsert_device
push_device_upsert token environment app_version lease_seconds now s = record s {
  devices = upsert_device device s.devices;
}
  where
    device : Device
    device = record {
      token = token;
      environment = environment;
      app_version = app_version;
      created_at = now;
      updated_at = now;
      expires_at = now + clamp 3600 (90 * 86400) lease_seconds * second;
    }

-- `DELETE FROM push_outbox WHERE token=?`, or only what no other dispatcher is sending.
abbrev pub deletes : String → Option String → Entry → Bool
deletes token none e = str_eq e.token token
deletes token (some owner) e =
    str_eq e.token token && (not (is_sending e.status) || str_eq e.claim_owner owner)

unfoldable pub push_device_delete : String → Option String → Store → Bool × Store
push_device_delete token claim_owner s = (
  any_where (λ d. str_eq d.token token) s.devices,
  record s {
    devices = drop_where (λ d. str_eq d.token token) s.devices;
    outbox = drop_where (deletes token claim_owner) s.outbox;
  },
)

unfoldable pub push_device_exists : String → ℕ → Store → Bool
push_device_exists token now s =
    any_where (λ d. str_eq d.token token && ltb now d.expires_at) s.devices

unfoldable pub push_devices_revoke_all : Store → ℕ × Store
push_devices_revoke_all s = (length s.devices, record s { devices = []; outbox = [] })

-- `WHERE expires_at>? ORDER BY updated_at DESC LIMIT ?`; equal times keep the table's order.
unfoldable pub push_devices : ℕ → ℕ → Store → List Device
push_devices limit now s = take (clamp 1 128 limit) (
    sort_by (λ d e. ltb e.updated_at d.updated_at)
      (keep_where (λ d. ltb now d.expires_at) s.devices))

-- A row of an expired device that no live claim protects.
abbrev pub is_stranded : ℕ → List Device → Entry → Bool
is_stranded now devices e =
    any_where (λ d. leb d.expires_at now && str_eq d.token e.token) devices
    && (not (is_sending e.status) || leb e.lease_until now)

unfoldable pub push_device_prune_expired : ℕ → Store → ℕ × Store
push_device_prune_expired now s = (
  count_where (λ d. leb d.expires_at now) s.devices,
  record s {
    devices = drop_where (λ d. leb d.expires_at now) s.devices;
    outbox = drop_where (is_stranded now s.devices) s.outbox;
  },
)
