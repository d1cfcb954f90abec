-- ===== src/Runtime/Refinement.antt =====
-- The table of runtime settings is a map from keys to values (`runtime_*` of app/db.py).
use rclone.Runtime.{Codec, Setting, decode_or, is_key, runtime_set, runtime_update, runtime_delete}
use rclone.Base.{
  ℕ, ◌*◌, String, ◌≡◌, refl, ap, ◌∙◌, inl, inr, Bool, ◌&&◌, Option, none, some, List, [], ◌∷◌,
  str_eq, leb, if◌then◌else◌, Bool-cases, Table, lookup, upsert, lookup-upsert, lookup-erase,
}

-- A call that writes; `update` is given a function on values.
pub data Write (V : Type 0) : Type 0 where
  put : String → V → ℕ → Write V
  update : String → (V → V) → V → ℕ → Write V
  delete : String → Write V

-- The abstract settings.
abbrev pub Settings : Type 0 → Type 0
Settings V = String → Option V

abbrev value_or : {V : Type 0} → V → Option V → V
value_or default none = default
value_or default (some v) = v

-- A call that raises changes nothing.
abbrev updated_or : {V : Type 0} → Table Setting → Option (V × Table Setting) → Table Setting
updated_or t none = t
updated_or t (some (v, t')) = t'

abbrev set_or : Table Setting → Option (Table Setting) → Table Setting
set_or t none = t
set_or t (some t') = t'

module _ {V : Type 0} (codec : Codec V) where
  abbrev read : Option Setting → Option V
  read none = none
  read (some row) = codec.decode row.value_json

  -- What a key holds, where its text can be read.
  abbrev pub view : Table Setting → Settings V
  view t = λ key. read (lookup key t)

  -- The key and the value are not too long.
  abbrev fits : String → V → Bool
  fits key v = is_key key && leb (codec.byte_length (codec.encode v)) (512 * 1024)

  abbrev store : String → V → Settings V → Settings V
  store key v m other = if fits key v && str_eq key other then some v else m other

  abbrev pub write : Write V → Table Setting → Table Setting
  write (put key v now) t = set_or t (runtime_set codec key v now t)
  write (update key f default now) t = updated_or t (runtime_update codec key f default now t)
  write (delete key) t = runtime_delete key t

  abbrev pub write_spec : Write V → Settings V → Settings V
  write_spec (put key v now) m = store key v m
  write_spec (update key f default now) m = store key (f (value_or default (m key))) m
  write_spec (delete key) m = λ other. if str_eq key other then none else m other

  abbrev pub write_all : List (Write V) → Table Setting → Table Setting
  write_all [] t = t
  write_all (w ∷ ws) t = write_all ws (write w t)

  abbrev pub write_all_spec : List (Write V) → Settings V → Settings V
  write_all_spec [] m = m
  write_all_spec (w ∷ ws) m = write_all_spec ws (write_spec w m)

  -- The texts that are written are read as they were.
  module _ (reads : (v : V) → codec.decode (codec.encode v) ≡ some v) where
    view-upsert :
        (key other : String) (v : V) (now : ℕ) (t : Table Setting)
        → view (upsert key (record { value_json = codec.encode v; updated_at = now }) t) other
          ≡ (if str_eq key other then some v else view t other)
    view-upsert key other v now t =
        let row : Setting = record { value_json = codec.encode v; updated_at = now } in
        elim (Bool-cases (str_eq key other)) [
          | inl same ↦ rw (lookup-upsert key other row t, same) (reads v)
          | inr unlike ↦ rw (lookup-upsert key other row t, unlike) refl
        ]

    view-put :
        (key other : String) (v : V) (now : ℕ) (t : Table Setting)
        → view (set_or t (runtime_set codec key v now t)) other ≡ store key v (view t) other
    unfolding runtime_set
    view-put key other v now t = elim (Bool-cases (fits key v)) [
      | inl small ↦ rw small (view-upsert key other v now t)
      | inr large ↦ rw large refl
    ]

    value-decode :
        (default : V) (o : Option Setting) → decode_or codec default o ≡ value_or default (read o)
    value-decode default none = refl
    value-decode default (some row) = refl

    view-update :
        (key other : String) (f : V → V) (default : V) (now : ℕ) (t : Table Setting)
        → view (updated_or t (runtime_update codec key f default now t)) other
          ≡ store key (f (decode_or codec default (lookup key t))) (view t) other
    unfolding runtime_update
    view-update key other f default now t =
        let v = f (decode_or codec default (lookup key t)) in
        elim (Bool-cases (fits key v)) [
          | inl small ↦ rw small (view-upsert key other v now t)
          | inr large ↦ rw large refl
        ]

    view-delete :
        (key other : String) (t : Table Setting)
        → view (runtime_delete key t) other ≡ (if str_eq key other then none else view t other)
    unfolding runtime_delete
    view-delete key other t = elim (Bool-cases (str_eq key other)) [
      | inl same ↦ rw (lookup-erase key other t, same) refl
      | inr unlike ↦ rw (lookup-erase key other t, unlike) refl
    ]

    view-write :
        (w : Write V) (t : Table Setting) (other : String)
        → view (write w t) other ≡ write_spec w (view t) other
    view-write (put key v now) t other = view-put key other v now t
    view-write (update key f default now) t other =
        view-update key other f default now t
        ∙ ap (λ v. store key (f v) (view t) other) (value-decode default (lookup key t))
    view-write (delete key) t other = view-delete key other t

    -- After any writes, in any order, the table holds what the map of settings holds after the same
    -- writes, where the codec reads what it wrote.
    pub view-write_all :
        (ws : List (Write V)) (t : Table Setting)
        → view (write_all ws t) ≡ write_all_spec ws (view t)
    view-write_all [] t = refl
    view-write_all (w ∷ ws) t =
        view-write_all ws (write w t) ∙ ap (write_all_spec ws) (λ i key. view-write w t key i)
