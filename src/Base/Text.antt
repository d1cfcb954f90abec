-- ===== src/Base/Text.antt =====
-- What the code uses of Python's `str`: `strip()` and `[:n]`.
use Prim.Native.Nat.{ℕ, zero, suc}
use Prim.Native.Char.{code}
use Prim.Native.String.{String}
use mathlib.Core.Bool.{Bool, true, false, ◌&&◌, ◌||◌}
use rclone.Base.Tests.{if◌then◌else◌, leb, ◌==◌}

-- `str.isspace` of one character: the code points that `strip()` removes.
unfoldable pub is_space : ℕ → Bool
is_space c =
    leb 9 c && leb c 13
    || leb 28 c && leb c 32
    || c == 0x85
    || c == 0xa0
    || c == 0x1680
    || leb 0x2000 c && leb c 0x200a
    || c == 0x2028
    || c == 0x2029
    || c == 0x202f
    || c == 0x205f
    || c == 0x3000

unfoldable pub lstrip : String → String
unfolding is_space
lstrip String.[] = String.[]
lstrip (String.◌∷◌ c s) = let rest = lstrip s in if is_space (code c) then rest else String.◌∷◌ c s

unfoldable pub rstrip : String → String
unfolding is_space
rstrip String.[] = String.[]
rstrip (String.◌∷◌ c s) = close (rstrip s)
  where
    close : String → String
    close String.[] = if is_space (code c) then String.[] else String.◌∷◌ c String.[]
    close (String.◌∷◌ d r) = String.◌∷◌ c (String.◌∷◌ d r)

-- `s.strip()`
unfoldable pub strip : String → String
unfolding lstrip rstrip
strip s = rstrip (lstrip s)

-- `s[:n]`
unfoldable pub prefix : ℕ → String → String
prefix zero s = String.[]
prefix (suc n) String.[] = String.[]
prefix (suc n) (String.◌∷◌ c s) = String.◌∷◌ c (prefix n s)

-- `bool(s)` of a text
abbrev pub is_empty : String → Bool
is_empty String.[] = true
is_empty (String.◌∷◌ c s) = false

-- `s or default`
abbrev pub or_else : String → String → String
or_else s default = if is_empty s then default else s

-- `text.startswith(start)`
unfoldable pub starts_with : String → String → Bool
starts_with text String.[] = true
starts_with String.[] (String.◌∷◌ d start) = false
starts_with (String.◌∷◌ c text) (String.◌∷◌ d start) = code c == code d && starts_with text start

-- `text.removeprefix(start)`
unfoldable pub remove_prefix : String → String → String
unfolding starts_with
remove_prefix text start = if starts_with text start then drop_chars start text else text
  where
    drop_chars : String → String → String
    drop_chars String.[] text = text
    drop_chars (String.◌∷◌ d start) String.[] = String.[]
    drop_chars (String.◌∷◌ d start) (String.◌∷◌ c text) = drop_chars start text
