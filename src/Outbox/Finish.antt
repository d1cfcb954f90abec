-- ===== src/Outbox/Finish.antt =====
-- How a dispatcher ends its work on a row (`push_outbox_finish` of app/db.py), the counts shown of
-- the outbox and its pruning.
use mathlib.Core.Option
use mathlib.Core.List.{head?}
use rclone.Base.{
  ℕ, ◌+◌, ◌-◌, ◌*◌, max, String, Bool, ◌&&◌, Option, none, some, List, map, str_eq, ltb, ◌==◌,
  if◌then◌else◌, clamp, is_some, drop_where, any_where, find_where, count_where, strip, prefix,
  is_empty, sort_by, keep_where,
}
use rclone.Throttle.{second, day}
use rclone.Outbox.{
  Device, Status, pending, sent, failed, is_pending, is_sending, is_final, Entry, Store, is_sent,
  is_failed,
}
use rclone.Outbox.Queue.{is_registered}

-- What the caller reports of a delivery.
pub record Report : Type 0 where
  pub was_sent : Bool
  pub retry : Bool
  pub retry_delay_seconds : ℕ
  pub error : String
  pub max_attempts : ℕ

pub data Outcome : Type 0 where
  finished : Status → Outcome
  not_owned missing : Outcome

abbrev pub is_held : ℕ → String → Entry → Bool
is_held id owner e = e.id == id && is_sending e.status && str_eq e.claim_owner owner

-- `elif_retry`
abbrev pub may_retry : Report → ℕ → List Device → Entry → Bool
may_retry r now ds e =
    r.retry
    && is_registered ds e.token
    && ltb e.attempts (max 1 r.max_attempts)
    && ltb now e.expires_at

unfoldable pub final_status : Report → ℕ → List Device → Entry → Status
final_status r now ds e =
    if r.was_sent then sent else if may_retry r now ds e then pending else failed

-- `str(error)[:1000] or None`
unfoldable pub error_text : String → Option String
error_text error = let text = prefix 1000 error in if is_empty text then none else some text

unfoldable pub settle : Report → ℕ → Status → Entry → Entry
unfolding error_text
settle r now status e = record e {
  status = status;
  next_attempt_at =
      if is_pending status then now + clamp 1 86400 r.retry_delay_seconds * second else now;
  lease_until = 0;
  claim_owner = "";
  last_error = error_text r.error;
  updated_at = now;
  sent_at = if r.was_sent then some now else none;
}

-- `UPDATE … WHERE id=? AND status='sending' AND claim_owner=?`
unfoldable pub settle_held : Report → ℕ → ℕ → String → Status → Entry → Entry
unfolding settle
settle_held r now id owner status e = if is_held id owner e then settle r now status e else e

unfoldable pub finish_row : Report → ℕ → ℕ → String → Store → Option Entry → Outcome × Store
unfolding final_status settle_held
finish_row r now id owner s none =
    (if any_where (λ e. e.id == id) s.outbox then not_owned else missing, s)
finish_row r now id owner s (some e) =
    let status = final_status r now s.devices e in
    (finished status, record s { outbox = map (settle_held r now id owner status) s.outbox })

unfoldable pub push_outbox_finish : ℕ → String → Report → ℕ → Store → Option (Outcome × Store)
unfolding finish_row strip
push_outbox_finish id claim_owner r now s =
    let owner = strip claim_owner in
    if is_empty owner
    then none
    else some (finish_row r now id owner s (find_where (is_held id owner) s.outbox))

-- `push_outbox_status`
pub record Summary : Type 0 where
  pub waiting : ℕ
  pub delivered : ℕ
  pub failures : ℕ
  pub latest_error : Option String
  pub latest_error_at : Option ℕ

-- `WHERE last_error IS NOT NULL ORDER BY updated_at DESC LIMIT 1`
unfoldable pub latest_failure : List Entry → Option Entry
latest_failure rows =
    head?
      (sort_by (λ a b. ltb b.updated_at a.updated_at) (keep_where (λ e. is_some e.last_error) rows))

unfoldable pub push_outbox_status : Store → Summary
unfolding latest_failure
push_outbox_status s = record {
  waiting =
      count_where (λ e. is_pending e.status) s.outbox
      + count_where (λ e. is_sending e.status) s.outbox;
  delivered = count_where (λ e. is_sent e.status) s.outbox;
  failures = count_where (λ e. is_failed e.status) s.outbox;
  latest_error = Option.bind (latest_failure s.outbox) (λ e. e.last_error);
  latest_error_at = Option.map (λ e. e.updated_at) (latest_failure s.outbox);
}

abbrev pub is_prunable : ℕ → Entry → Bool
is_prunable cutoff e = is_final e.status && ltb e.updated_at cutoff

unfoldable pub push_outbox_prune : ℕ → ℕ → Store → ℕ × Store
push_outbox_prune older_than_days now s =
    let cutoff = now - max 1 older_than_days * day in
    (
      count_where (is_prunable cutoff) s.outbox,
      record s { outbox = drop_where (is_prunable cutoff) s.outbox },
    )
