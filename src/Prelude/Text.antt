-- ===== src/Prelude/Text.antt =====
-- Python's operations on texts: slices, `strip`, and concatenation, over the code points.
use Prim.Native.Nat.{ℕ, zero, suc, ◌/◌, ◌%◌}
use Prim.Native.Char.{Char, code}
use Prim.Native.String.{String}
use mathlib.Core.Bool.{Bool, true, false, ◌&&◌, ◌||◌}
use mathlib.Core.Path.{◌≡◌, refl}
use mathlib.Core.List.{List, [], ◌∷◌}
use crypto_arc_v.Prelude.Int.{ℤ, pos, negsuc}
use crypto_arc_v.Prelude.Tests.{ltb, ◌==◌, leb, if◌then◌else◌}

-- `s + t`
unfoldable pub append : String → String → String
append String.[] t = t
append (String.◌∷◌ c s) t = String.◌∷◌ c (append s t)

-- `len(s)`
abbrev pub text_length : String → ℕ
text_length String.[] = 0
text_length (String.◌∷◌ c s) = suc (text_length s)

-- `s[:n]`
unfoldable pub take_text : ℕ → String → String
take_text zero s = String.[]
take_text (suc n) String.[] = String.[]
take_text (suc n) (String.◌∷◌ c s) = String.◌∷◌ c (take_text n s)

-- `c.isspace()`
unfoldable pub is_space : Char → Bool
is_space c =
    let n = code c in
    (leb 9 n && leb n 13)
    || (leb 28 n && leb n 32)
    || n == 133
    || n == 160
    || n == 5760
    || (leb 8192 n && leb n 8202)
    || n == 8232
    || n == 8233
    || n == 8239
    || n == 8287
    || n == 12288

unfoldable pub strip_left : String → String
unfolding is_space
strip_left String.[] = String.[]
strip_left (String.◌∷◌ c s) = let rest = strip_left s in if is_space c then rest else String.◌∷◌ c s

-- A character before a text whose end is stripped.
strip_end : Bool → Char → String → String
strip_end true c String.[] = String.[]
strip_end false c String.[] = String.◌∷◌ c String.[]
strip_end blank c (String.◌∷◌ d t) = String.◌∷◌ c (String.◌∷◌ d t)

unfoldable pub strip_right : String → String
unfolding is_space strip_end
strip_right String.[] = String.[]
strip_right (String.◌∷◌ c s) = strip_end (is_space c) c (strip_right s)

-- `s.strip()`
unfoldable pub strip : String → String
unfolding strip_left strip_right
strip s = strip_left (strip_right s)

-- `"".join(parts)`, and an f-string as its parts
unfoldable pub concat : List String → String
unfolding append
concat [] = ""
concat (s ∷ ss) = append s (concat ss)

digit : ℕ → String
digit n =
    if n == 0
    then "0"
    else if n == 1
    then "1"
    else if n == 2
    then "2"
    else if n == 3
    then "3"
    else if n == 4
    then "4"
    else if n == 5
    then "5"
    else if n == 6
    then "6"
    else if n == 7
    then "7"
    else if n == 8
    then "8"
    else "9"

-- The decimal digits of `n`; `n` divisions by ten are enough.
digits_of : ℕ → ℕ → String
unfolding digit append
digits_of zero n = digit n
digits_of (suc fuel) n =
    let rest = append (digits_of fuel (n / 10)) (digit (n % 10)) in
    if ltb n 10 then digit n else rest

-- `str(n)` of an `int`
unfoldable pub int_text : ℤ → String
unfolding digits_of append
int_text (pos n) = digits_of n n
int_text (negsuc n) = append "-" (digits_of (suc n) (suc n))

int_text_runs : int_text (negsuc 119) ≡ "-120"
unfolding int_text
int_text_runs = refl

strip_runs : strip "  a b\n" ≡ "a b"
unfolding strip
strip_runs = refl
