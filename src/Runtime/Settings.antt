-- ===== src/Runtime/Settings.antt =====
-- What a runtime setting of app/db.py holds after it was written.
use rclone.Runtime.{Codec, Setting, runtime_get, runtime_set, runtime_update, is_key}
use rclone.Base.{
  ℕ, String, ◌≡◌, ◌&&◌, some, [], ◌∷◌, arith, str_eq, eq_iff, eq_refl, if◌then◌else◌, Table,
  lookup-upsert, upsert,
}

-- A value that was stored is read again under its key, and any other key reads as before, where the
-- codec reads what it wrote.
pub runtime_get-runtime_set :
    {V : Type 0} (codec : Codec V) (key other : String) (value default : V) (now : ℕ)
    (t t' : Table Setting)
    → codec.decode (codec.encode value) ≡ some value
    → runtime_set codec key value now t ≡ some t'
    → runtime_get codec other default t'
      ≡ (if is_key other && str_eq key other then some value else runtime_get codec other default t)
unfolding runtime_get runtime_set
runtime_get-runtime_set codec key other value default now t t' codes stored =
    let row : Setting = record { value_json = codec.encode value; updated_at = now } in
    ground (arith, codes, stored, lookup-upsert key other row t, eq_iff key other)

upsert-upsert :
    (k : String) (v w : Setting) (t : Table Setting) → upsert k v (upsert k w t) ≡ upsert k v t
unfolding upsert
upsert-upsert k v w [] = ground (arith, eq_refl k)
upsert-upsert k v w ((j, u) ∷ t) = ground (arith, eq_refl k, upsert-upsert k v w t)

-- Two updates in a row are one with both functions, where the codec reads what it wrote.
pub runtime_update-runtime_update :
    {V : Type 0} (codec : Codec V) (key : String) (f g : V → V) (default v : V) (now later : ℕ)
    (t t' : Table Setting)
    → codec.decode (codec.encode v) ≡ some v
    → runtime_update codec key f default now t ≡ some (v, t')
    → runtime_update codec key g default later t'
      ≡ runtime_update codec key (λ x. g (f x)) default later t
unfolding runtime_update
runtime_update-runtime_update codec key f g default v now later t t' codes stored =
    let row : Setting = record { value_json = codec.encode v; updated_at = now } in
    let value = g v in
    let row' : Setting = record { value_json = codec.encode value; updated_at = later } in
    ground
      (arith, codes, stored, eq_refl key, lookup-upsert key key row t, upsert-upsert key row' row t)
