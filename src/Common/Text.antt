-- ===== src/Common/Text.antt =====
-- What the source uses of Python's texts: truth, `strip`, `lower`, `upper` and decimal
-- numerals. `lower`, `upper` and `title` are those of ASCII letters; `strip` removes the characters that `str.isspace` accepts
-- up to U+00A0 and the spaces of U+2000 to U+200A, U+1680, U+2028, U+2029, U+202F, U+205F, U+3000.
use Prim.Native.Nat.{ℕ, zero, suc, ◌/◌, ◌%◌}
use Prim.Native.Char.{Char, code}
use Prim.Native.String.{String, char_at, ◌++◌}
use text.Mathlib.Text.{◌==◌}
use text.Mathlib.TextEquality.{eq_iff}
use native.Mathlib.Omega.{arith}
use mathlib.Core.Path.{◌≡◌}
use mathlib.Core.Logic.{◌≢◌}
use mathlib.Core.Bool.{Bool, true, false, not, ◌&&◌, ◌||◌}
use mathlib.Core.Option.{Option, none, some}
use mathlib.Core.List.{List, [], ◌∷◌}
use billing_recovery_executi.Common.Tests.{leb, ltb, if◌then◌else◌}

-- `not s` is false of a text that holds a character.
abbrev pub is_empty : String → Bool
is_empty String.[] = true
is_empty (String.◌∷◌ c s) = false

-- The truth of a text that may be None.
abbrev pub truthy : Option String → Bool
truthy none = false
truthy (some s) = not (is_empty s)

-- `x or y`, for a text `x` that may be None.
abbrev pub or_else : Option String → String → String
or_else none y = y
or_else (some x) y = if is_empty x then y else x

abbrev is_code : Char → ℕ → Bool
is_code c n = leb (code c) n && leb n (code c)

is_space : Char → Bool
is_space c =
    leb 9 (code c) && leb (code c) 13
    || leb 28 (code c) && leb (code c) 32
    || is_code c 0x85
    || is_code c 0xa0
    || is_code c 0x1680
    || leb 0x2000 (code c) && leb (code c) 0x200a
    || leb 0x2028 (code c) && leb (code c) 0x2029
    || is_code c 0x202f
    || is_code c 0x205f
    || is_code c 0x3000

lstrip : String → String
lstrip String.[] = String.[]
lstrip (String.◌∷◌ c s) = if is_space c then lstrip s else String.◌∷◌ c s

rstrip : String → String
rstrip String.[] = String.[]
rstrip (String.◌∷◌ c s) =
    let rest = rstrip s in if is_space c && is_empty rest then String.[] else String.◌∷◌ c rest

unfoldable pub strip : String → String
unfolding is_space lstrip rstrip
strip s = lstrip (rstrip s)

-- `not s or not s.strip()`
unfoldable pub is_blank : String → Bool
unfolding strip
is_blank s = is_empty s || is_empty (strip s)

-- The character of the second text that stands where `c` stands in the first.
translate : String → String → Char → Char
translate String.[] to c = c
translate (String.◌∷◌ u us) String.[] c = c
translate (String.◌∷◌ u us) (String.◌∷◌ l ls) c =
    if is_code c (code u) then l else translate us ls c

unfoldable pub lower_char : Char → Char
unfolding translate
lower_char = translate "ABCDEFGHIJKLMNOPQRSTUVWXYZ" "abcdefghijklmnopqrstuvwxyz"

unfoldable pub upper_char : Char → Char
unfolding translate
upper_char = translate "abcdefghijklmnopqrstuvwxyz" "ABCDEFGHIJKLMNOPQRSTUVWXYZ"

unfoldable pub lower : String → String
unfolding lower_char
lower String.[] = String.[]
lower (String.◌∷◌ c s) = String.◌∷◌ (lower_char c) (lower s)

unfoldable pub upper : String → String
unfolding upper_char
upper String.[] = String.[]
upper (String.◌∷◌ c s) = String.◌∷◌ (upper_char c) (upper s)

-- `s.replace(old, new)` for two single characters.
unfoldable pub replace_char : Char → Char → String → String
replace_char old new String.[] = String.[]
replace_char old new (String.◌∷◌ c s) =
    String.◌∷◌ (if is_code c (code old) then new else c) (replace_char old new s)

is_letter : Char → Bool
is_letter c = leb 65 (code c) && leb (code c) 90 || leb 97 (code c) && leb (code c) 122

-- `title`: a letter is a capital unless a letter stands before it.
title_from : Bool → String → String
unfolding is_letter lower_char upper_char
title_from after String.[] = String.[]
title_from after (String.◌∷◌ c s) =
    String.◌∷◌ (if after then lower_char c else upper_char c) (title_from (is_letter c) s)

unfoldable pub title : String → String
unfolding title_from
title s = title_from false s

-- Decimal digits in front of `out`; `fuel` rounds are enough where `n < fuel`.
show_from : ℕ → ℕ → String → String
show_from zero n out = out
show_from (suc fuel) n out =
    let out' = String.◌∷◌ (char_at "0123456789" (n % 10)) out in
    let rest = show_from fuel (n / 10) out' in if ltb n 10 then out' else rest

unfoldable pub show_ℕ : ℕ → String
unfolding show_from
show_ℕ n = show_from (suc n) n ""

-- An f-string: its parts, put together.
abbrev pub fstring : List String → String
fstring [] = ""
fstring (s ∷ ss) = s ++ fstring ss

-- Two texts that a test tells apart differ; the test of two literals is `refl`.
pub ne_of_test : (s t : String) → (s == t) ≡ false → s ≢ t
ne_of_test s t h e = ground (arith, eq_iff s t)
