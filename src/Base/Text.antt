-- ===== src/Base/Text.antt =====
-- Python's `lower`, `upper`, `strip` and `replace` of one character, on ASCII texts: a character
-- outside ASCII is left as it is.
use Prim.Native.Nat.{ℕ, ◌-◌}
use Prim.Native.Char.{Char, code}
use Prim.Native.String.{String, char_at}
use mathlib.Core.Bool.{Bool, true, false, ◌&&◌, ◌||◌}
use newchanges.Base.Tests.{leb, ◌==◌, if◌then◌else◌}

abbrev within : ℕ → ℕ → Char → Bool
within low high c = leb low (code c) && leb (code c) high

abbrev lower_char : Char → Char
lower_char c = if within 65 90 c then char_at "abcdefghijklmnopqrstuvwxyz" (code c - 65) else c

abbrev upper_char : Char → Char
upper_char c = if within 97 122 c then char_at "ABCDEFGHIJKLMNOPQRSTUVWXYZ" (code c - 97) else c

unfoldable pub lower : String → String
lower String.[] = String.[]
lower (String.◌∷◌ c s) = String.◌∷◌ (lower_char c) (lower s)

unfoldable pub upper : String → String
upper String.[] = String.[]
upper (String.◌∷◌ c s) = String.◌∷◌ (upper_char c) (upper s)

-- tab to carriage return, the four separators, and the space
abbrev is_space : Char → Bool
is_space c = within 9 13 c || within 28 32 c

strip_left : String → String
strip_left String.[] = String.[]
strip_left (String.◌∷◌ c s) = let rest = strip_left s in if is_space c then rest else String.◌∷◌ c s

-- a character before what is left after it; white space before nothing is dropped
abbrev keep_unless_last : Char → String → String
keep_unless_last c String.[] = if is_space c then String.[] else String.◌∷◌ c String.[]
keep_unless_last c (String.◌∷◌ d s) = String.◌∷◌ c (String.◌∷◌ d s)

strip_right : String → String
strip_right String.[] = String.[]
strip_right (String.◌∷◌ c s) = keep_unless_last c (strip_right s)

unfoldable pub strip : String → String
unfolding strip_left strip_right
strip s = strip_right (strip_left s)

-- `replace(old, new)` for texts of one character each, the old one by its code
unfoldable pub replace_char : ℕ → Char → String → String
replace_char old new String.[] = String.[]
replace_char old new (String.◌∷◌ c s) =
    String.◌∷◌ (if code c == old then new else c) (replace_char old new s)

starts_with : String → String → Bool
starts_with String.[] s = true
starts_with (String.◌∷◌ p ps) String.[] = false
starts_with (String.◌∷◌ p ps) (String.◌∷◌ c s) = code p == code c && starts_with ps s

-- `pattern in text`
unfoldable pub contains : String → String → Bool
unfolding starts_with
contains pattern String.[] = starts_with pattern String.[]
contains pattern (String.◌∷◌ c s) = starts_with pattern (String.◌∷◌ c s) || contains pattern s
