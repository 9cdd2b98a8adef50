-- ===== src/Prelude/Text.antt =====
-- Python's `str.strip`, and decimal printing.
use Prim.Native.Nat.{ℕ, zero, suc, ◌-◌, ◌/◌, ◌%◌}
use Prim.Native.Char.{Char, code}
use Prim.Native.String.{String}
use mathlib.Core.Path.{◌≡◌, refl}
use mathlib.Core.Bool.{Bool, true, false, ◌&&◌, ◌||◌}
use idea2strategy_data_pipel.Prelude.Tests.{leb, ◌==◌, if◌then◌else◌}

-- `str.isspace` of one character, by its code point.
unfoldable pub is_space : ℕ → Bool
is_space c =
    (leb 9 c && leb c 13)
    || (leb 28 c && leb c 32)
    || (c == 0x85)
    || (c == 0xa0)
    || (c == 0x1680)
    || (leb 0x2000 c && leb c 0x200a)
    || (c == 0x2028)
    || (c == 0x2029)
    || (c == 0x202f)
    || (c == 0x205f)
    || (c == 0x3000)

abbrev pub is_blank : String → Bool
is_blank String.[] = true
is_blank (String.◌∷◌ c s) = false

unfoldable pub strip_left : String → String
strip_left String.[] = String.[]
strip_left (String.◌∷◌ c s) =
    let rest = strip_left s in if is_space (code c) then rest else String.◌∷◌ c s

unfoldable pub strip_right : String → String
strip_right String.[] = String.[]
strip_right (String.◌∷◌ c s) =
    let rest = strip_right s in
    if is_blank rest && is_space (code c) then String.[] else String.◌∷◌ c rest

-- `text.strip()`.
unfoldable pub strip : String → String
unfolding strip_left strip_right is_space
strip s = strip_right (strip_left s)

strip_test : strip "  a b\n" ≡ "a b"
unfolding strip
strip_test = refl

abbrev letters : String
letters = "abcdefghijklmnopqrstuvwxyz"

-- The character at a place of a text, or `c` behind its end.
abbrev char_or : Char → ℕ → String → Char
char_or c n String.[] = c
char_or c zero (String.◌∷◌ d s) = d
char_or c (suc n) (String.◌∷◌ d s) = char_or c n s

abbrev lower_char : Char → Char
lower_char c = if leb 65 (code c) && leb (code c) 90 then char_or c (code c - 65) letters else c

-- `text.lower()` of the ASCII letters, the only ones that lower to a hexadecimal digit.
unfoldable pub lower : String → String
lower String.[] = String.[]
lower (String.◌∷◌ c s) = String.◌∷◌ (lower_char c) (lower s)

lower_test : lower "0Fe AZ" ≡ "0fe az"
unfolding lower
lower_test = refl

-- The character of a digit.
abbrev pub digit : ℕ → Char
digit n =
    if n == 0
    then "0"
    else if n == 1
    then "1"
    else if n == 2
    then "2"
    else if n == 3
    then "3"
    else if n == 4
    then "4"
    else if n == 5
    then "5"
    else if n == 6
    then "6"
    else if n == 7
    then "7"
    else if n == 8
    then "8"
    else "9"

-- `str(n)` of a natural number: `acc` holds the digits behind those still to come.
unfoldable pub digits_from : ℕ → ℕ → String → String
digits_from zero n acc = acc
digits_from (suc fuel) n acc =
    let here = String.◌∷◌ (digit (n % 10)) acc in
    let rest = digits_from fuel (n / 10) here in if n / 10 == 0 then here else rest

unfoldable pub decimal : ℕ → String
unfolding digits_from
decimal n = digits_from (suc n) n String.[]

decimal_test : decimal 4096 ≡ "4096"
unfolding decimal
decimal_test = refl

abbrev pub append : String → String → String
append String.[] t = t
append (String.◌∷◌ c s) t = String.◌∷◌ c (append s t)

-- The number of characters, and zeros in front up to a width.
abbrev pub text_length : String → ℕ
text_length String.[] = 0
text_length (String.◌∷◌ _ s) = suc (text_length s)

abbrev zeros : ℕ → String → String
zeros zero s = s
zeros (suc n) s = append "0" (zeros n s)

abbrev pub pad : ℕ → String → String
pad width s = zeros (width - text_length s) s
