-- ===== src/Runtime.antt =====
-- The runtime settings and the audit log of app/db.py (`runtime_*`, `audit_*`).
-- The JSON codec and the length of a text in UTF-8 are the argument `Codec`; `none` stands for a
-- ValueError, after which nothing is written.
pub mod Settings
pub mod Audit
pub mod Refinement
mod Examples
use rclone.Throttle.{day}
use rclone.Base.{
  ℕ, suc, ◌+◌, ◌-◌, ◌*◌, String, Bool, not, ◌&&◌, ◌||◌, Option, none, some, List, [], ◌∷◌, ◌++◌,
  str_eq, ltb, leb, ◌==◌, if◌then◌else◌, clamp, Table, any_where, count_where, is_empty, keep_where,
  or_else, strip, take, drop_where, erase, lookup, prefix, sort_by, upsert,
}

-- `encode` is json.dumps, `decode` json.loads, which may fail, `byte_length` the length in UTF-8.
pub record Codec (V : Type 0) : Type 0 where
  pub encode : V → String
  pub decode : String → Option V
  pub byte_length : String → ℕ

-- A row of `runtime_settings`, without its key.
pub record Setting : Type 0 where
  pub value_json : String
  pub updated_at : ℕ

unfoldable pub text_length : String → ℕ
text_length String.[] = 0
text_length (String.◌∷◌ c s) = suc (text_length s)

unfoldable pub is_key : String → Bool
unfolding text_length
is_key key = not (is_empty key) && leb (text_length key) 128

module _ {V : Type 0} (codec : Codec V) where
  abbrev pub decode_or : V → Option Setting → V
  decode_or default none = default
  decode_or default (some row) = elim (codec.decode row.value_json) [
    | none ↦ default
    | some value ↦ value
  ]

  unfoldable pub runtime_get : String → V → Table Setting → Option V
  unfolding is_key
  runtime_get key default t = if is_key key then some (decode_or default (lookup key t)) else none

  unfoldable pub runtime_set : String → V → ℕ → Table Setting → Option (Table Setting)
  unfolding is_key
  runtime_set key value now t =
      let payload = codec.encode value in
      if is_key key && leb (codec.byte_length payload) (512 * 1024)
      then some (upsert key (record { value_json = payload; updated_at = now }) t)
      else none

  -- The value that is written, and the table with it.
  unfoldable pub runtime_update :
      String → (V → V) → V → ℕ → Table Setting → Option (V × Table Setting)
  unfolding is_key
  runtime_update key update default now t =
      let value = update (decode_or default (lookup key t)) in
      let payload = codec.encode value in
      if is_key key && leb (codec.byte_length payload) (512 * 1024)
      then some (value, upsert key (record { value_json = payload; updated_at = now }) t)
      else none

unfoldable pub runtime_delete : String → Table Setting → Table Setting
runtime_delete key t = erase key t

-- A row of `audit_events`.
pub record Event : Type 0 where
  pub id : ℕ
  pub event_type : String
  pub actor : String
  pub created_at : ℕ
  pub details_json : String

-- `audit_events` with the number of its next row.
pub record Log : Type 0 where
  pub events : List Event
  pub next_id : ℕ

-- `str(actor or "system").strip()[:128] or "system"`
abbrev pub actor_value : String → String
actor_value actor = or_else (prefix 128 (strip (or_else actor "system"))) "system"

-- `payload` is the text of the details, or of the note that stands for details above 128 KiB.
unfoldable pub audit_add : String → String → String → ℕ → Log → Option (ℕ × Log)
unfolding text_length
audit_add event_type actor payload now log =
    let event = strip event_type in
    if is_empty event || ltb 80 (text_length event)
    then none
    else some (
      log.next_id,
      record {
        events =
            log.events
            ++ (record {
              id = log.next_id;
              event_type = event;
              actor = actor_value actor;
              created_at = now;
              details_json = payload;
            }
                ∷ []);
        next_id = log.next_id + 1;
      },
    )

-- `ORDER BY created_at DESC, id DESC`
abbrev pub is_newer : Event → Event → Bool
is_newer a b = ltb b.created_at a.created_at || a.created_at == b.created_at && ltb b.id a.id

-- A limit of 0 stands for the default; so does an empty type for no filter.
unfoldable pub audit_list : ℕ → String → Log → List Event
audit_list limit event_type log =
    let wanted =
      keep_where (λ e. is_empty event_type || str_eq e.event_type event_type) log.events in
    take (clamp 1 1000 (if limit == 0 then 100 else limit)) (sort_by is_newer wanted)

-- The newest rows, which pruning keeps.
unfoldable pub kept_events : ℕ → Log → List Event
kept_events keep log = take keep (sort_by (λ a b. ltb b.created_at a.created_at) log.events)

unfoldable pub is_pruned : ℕ → List Event → Event → Bool
is_pruned cutoff kept e = ltb e.created_at cutoff && not (any_where (λ k. k.id == e.id) kept)

unfoldable pub audit_prune : ℕ → ℕ → ℕ → Log → ℕ × Log
unfolding kept_events is_pruned
audit_prune older_than_days keep_latest now log =
    let kept = kept_events (clamp 100 100000 keep_latest) log in
    let gone = is_pruned (now - clamp 1 3650 older_than_days * day) kept in
    (count_where gone log.events, record log { events = drop_where gone log.events })
