-- ===== src/Domain/Words.antt =====
-- The texts of src/candlepilot/domain/models.py: `str_strip_whitespace`, the pattern of a symbol and
-- lengths. White space is Unicode's.
use Prim.Native.Char.{code}
use candlepilot.Prelude.{
  ℕ, suc, String, Bool, true, false, ◌&&◌, ◌||◌, leb, ◌==◌, str_eq, if◌then◌else◌,
}

abbrev pub between : ℕ → ℕ → ℕ → Bool
between a b c = leb a c && leb c b

abbrev pub is_space : ℕ → Bool
is_space c =
    between 9 13 c
    || c == 32
    || c == 133
    || c == 160
    || c == 5760
    || between 8192 8202 c
    || c == 8232
    || c == 8233
    || c == 8239
    || c == 8287
    || c == 12288

abbrev pub is_blank : String → Bool
is_blank String.[] = true
is_blank (String.◌∷◌ c s) = false

unfoldable pub strip_start : String → String
strip_start String.[] = String.[]
strip_start (String.◌∷◌ c s) =
    let rest = strip_start s in if is_space (code c) then rest else String.◌∷◌ c s

unfoldable pub strip_end : String → String
strip_end String.[] = String.[]
strip_end (String.◌∷◌ c s) =
    let rest = strip_end s in
    if is_space (code c) && is_blank rest then String.[] else String.◌∷◌ c rest

abbrev pub strip : String → String
strip s = strip_end (strip_start s)

-- The number of characters.
unfoldable pub size : String → ℕ
size String.[] = 0
size (String.◌∷◌ c s) = suc (size s)

unfoldable pub is_alphanumeric : String → Bool
is_alphanumeric String.[] = true
is_alphanumeric (String.◌∷◌ c s) =
    (between 65 90 (code c) || between 48 57 (code c)) && is_alphanumeric s

-- Something, and "USDT" after it.
unfoldable pub ends_in_usdt : String → Bool
ends_in_usdt String.[] = false
ends_in_usdt (String.◌∷◌ c s) = str_eq s "USDT" || ends_in_usdt s

-- `^[A-Z0-9]+USDT$`
abbrev pub is_symbol : String → Bool
is_symbol s = is_alphanumeric s && ends_in_usdt s
