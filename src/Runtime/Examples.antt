-- ===== src/Runtime/Examples.antt =====
-- The runtime settings and the audit log of app/db.py, with texts that are stored as they are.
use Prim.Native.String.{◌++◌ as append_text}
use rclone.Throttle.{day}
use rclone.Runtime.{
  Codec, Setting, text_length, is_key, runtime_update, Event, Log, audit_list, audit_prune,
  kept_events, is_pruned,
}
use rclone.Runtime.Refinement.{
  Write, put, update, delete, view, write_all, write_all_spec, view-write_all,
}
use rclone.Runtime.Settings.{runtime_update-runtime_update}
use rclone.Base.{List, ℕ, ◌*◌, String, ◌≡◌, refl, some, [], ◌∷◌, map, upsert, lookup}

abbrev plain : Codec String
plain = record { encode = λ s. s; decode = λ s. some s; byte_length = text_length }

abbrev row : String → ℕ → Setting
row text now = record { value_json = text; updated_at = now }

abbrev shout : String → String
shout s = append_text s "!"

runtime_update-runtime_update_example :
    runtime_update plain "note" shout "" 6 (("note", row "a!" 5) ∷ [])
    ≡ runtime_update plain "note" (λ x. shout (shout x)) "" 6 (("note", row "a" 1) ∷ [])
unfolding runtime_update is_key text_length upsert lookup
runtime_update-runtime_update_example =
    runtime_update-runtime_update plain "note" shout shout "" "a!" 5 6 (("note", row "a" 1) ∷ [])
      (("note", row "a!" 5) ∷ []) refl refl

abbrev event : ℕ → ℕ → Event
event id created_at = record {
  id = id;
  event_type = "login";
  actor = "system";
  created_at = created_at;
  details_json = "{}";
}

abbrev log : Log
log = record { events = event 1 0 ∷ event 2 (400 * day) ∷ []; next_id = 3 }

-- The log is shorter than what is kept at least.
short_log_kept : audit_prune 365 1000 (500 * day) log ≡ (0, log)
unfolding audit_prune kept_events is_pruned
short_log_kept = refl

newest_first : map (λ e. e.id) (audit_list 10 "" log) ≡ 2 ∷ 1 ∷ []
unfolding audit_list
newest_first = refl

abbrev writes : List (Write String)
writes = put "note" "a" 1 ∷ update "note" shout "" 2 ∷ delete "other" ∷ []

view-write_all_example :
    view plain (write_all plain writes []) ≡ write_all_spec plain writes (view plain [])
view-write_all_example = view-write_all plain (λ v. refl) writes []
