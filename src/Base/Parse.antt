-- ===== src/Base/Parse.antt =====
-- The functions of Go's package strconv that the source calls. `none` is the error.
use Prim.Native.Nat.{ℕ, ◌+◌, ◌-◌, ◌*◌, ◌^◌}
use Prim.Native.Char.{code}
use Prim.Native.String.{String}
use mathlib.Core.Path.{◌≡◌, refl}
use mathlib.Core.Bool.{Bool, true, false, not, ◌&&◌, ◌||◌}
use mathlib.Core.Option.{Option, none, some}
use text.Mathlib.Text.{◌==◌}
use scaleway_cloud_controlle.Base.Int.{ℤ, pos, negsuc}
use scaleway_cloud_controlle.Base.Tests.{leb, ltb, nat_eq, if◌then◌else◌}
use scaleway_cloud_controlle.Base.Text.{has_char}

-- strconv.ParseBool
unfoldable pub parse_bool : String → Option Bool
parse_bool s =
    if s == "1" || s == "t" || s == "T" || s == "true" || s == "TRUE" || s == "True"
    then some true
    else if s == "0" || s == "f" || s == "F" || s == "false" || s == "FALSE" || s == "False"
    then some false
    else none

-- strconv's `lower(c)`: `c | 0x20`, for a letter.
abbrev to_lower_code : ℕ → ℕ
to_lower_code c = if leb 65 c && leb c 90 then c + 32 else c

-- The value of a digit, 0 to 35.
abbrev digit : ℕ → Option ℕ
digit c =
    if leb b'0' c && leb c b'9'
    then some (c - b'0')
    else if leb b'a' (to_lower_code c) && leb (to_lower_code c) b'z'
    then some (to_lower_code c - b'a' + 10)
    else none

abbrev accumulate : ℕ → ℕ → Option ℕ → Option ℕ
accumulate base acc none = none
accumulate base acc (some d) = if ltb d base then some (acc * base + d) else none

-- The loop of ParseUint; underscores are passed over if the base was to be guessed.
abbrev read_digits : ℕ → Bool → Option ℕ → String → Option ℕ
read_digits base guess none s = none
read_digits base guess (some acc) String.[] = some acc
read_digits base guess (some acc) (String.◌∷◌ c s) =
    read_digits base guess
      (if nat_eq (code c) b'_' && guess then some acc else accumulate base acc (digit (code c))) s

-- What underscoreOK saw last: the beginning, a digit, an underscore or something else.
pub data Seen : Type 0 where
  start a_digit underscore other : Seen

abbrev is_start_or : Seen → Seen → Bool
is_start_or a_digit a_digit = true
is_start_or underscore underscore = true
is_start_or _ _ = false

abbrev next_seen : Bool → ℕ → Seen → Option Seen
next_seen hex c i =
    if leb b'0' c && leb c b'9' || hex && leb b'a' (to_lower_code c) && leb (to_lower_code c) b'f'
    then some a_digit
    else if nat_eq c b'_'
    then if is_start_or a_digit i then some underscore else none
    else if is_start_or underscore i
    then none
    else some other

abbrev underscore_loop : Bool → Option Seen → String → Bool
underscore_loop hex none s = false
underscore_loop hex (some i) String.[] = not (is_start_or underscore i)
underscore_loop hex (some i) (String.◌∷◌ c s) = underscore_loop hex (next_seen hex (code c) i) s

-- strconv.underscoreOK, after the sign.
abbrev underscore_ok : String → Bool
underscore_ok (String.◌∷◌ z (String.◌∷◌ x s)) =
    let letter = to_lower_code (code x) in
    if nat_eq (code z) b'0' && (nat_eq letter b'b' || nat_eq letter b'o' || nat_eq letter b'x')
    then underscore_loop (nat_eq letter b'x') (some a_digit) s
    else underscore_loop false (some start) (String.◌∷◌ z (String.◌∷◌ x s))
underscore_ok s = underscore_loop false (some start) s

-- The base that a prefix names, and the digits behind it.
abbrev guess_base : String → ℕ × String
guess_base (String.◌∷◌ z (String.◌∷◌ x (String.◌∷◌ d s))) =
    let rest = String.◌∷◌ d s in
    let letter = to_lower_code (code x) in
    if nat_eq (code z) b'0'
    then if nat_eq letter b'b'
      then (2, rest)
      else if nat_eq letter b'o'
      then (8, rest)
      else if nat_eq letter b'x'
      then (16, rest)
      else (8, String.◌∷◌ x rest)
    else (10, String.◌∷◌ z (String.◌∷◌ x rest))
guess_base (String.◌∷◌ z s) = if nat_eq (code z) b'0' then (8, s) else (10, String.◌∷◌ z s)
guess_base String.[] = (10, "")

abbrev checked : String → Option ℕ → Option ℕ
checked s none = none
checked s (some n) = if has_char b'_' s && not (underscore_ok s) then none else some n

-- strconv.ParseUint(s, 0, 64), without its range check.
abbrev parse_uint : String → Option ℕ
parse_uint String.[] = none
parse_uint (String.◌∷◌ c s) =
    let (base, digits) = guess_base (String.◌∷◌ c s) in
    checked (String.◌∷◌ c s) (read_digits base true (some 0) digits)

abbrev positive : Option ℕ → Option ℤ
positive none = none
positive (some n) = if ltb n (2 ^ 63) then some (pos n) else none

abbrev negative : Option ℕ → Option ℤ
negative none = none
negative (some n) =
    if leb n (2 ^ 63) then some (if nat_eq n 0 then pos 0 else negsuc (n - 1)) else none

abbrev signed : (String → Option ℕ) → String → Option ℤ
signed parse String.[] = none
signed parse (String.◌∷◌ c s) =
    if nat_eq (code c) b'+'
    then positive (parse s)
    else if nat_eq (code c) b'-'
    then negative (parse s)
    else positive (parse (String.◌∷◌ c s))

-- strconv.ParseInt(s, 0, 64)
unfoldable pub parse_int : String → Option ℤ
unfolding has_char
parse_int s = signed parse_uint s

abbrev parse_decimal : String → Option ℕ
parse_decimal String.[] = none
parse_decimal (String.◌∷◌ c s) = read_digits 10 false (some 0) (String.◌∷◌ c s)

-- strconv.Atoi, where int has 64 bits.
unfoldable pub atoi : String → Option ℤ
atoi s = signed parse_decimal s

parse_ints :
    (parse_int "443" ≡ some (pos 443))
    × (parse_int "0x1F" ≡ some (pos 31))
    × (parse_int "-1_000" ≡ some (negsuc 999))
    × (parse_int "1__0" ≡ none)
    × (parse_int "010" ≡ some (pos 8))
    × (parse_int "" ≡ none)
    × (parse_int "8a" ≡ none)
    × (parse_int "9223372036854775808" ≡ none)
unfolding parse_int
parse_ints = (refl, refl, refl, refl, refl, refl, refl, refl)

atois :
    (atoi "4294967297" ≡ some (pos 4294967297))
    × (atoi "-2" ≡ some (negsuc 1))
    × (atoi "0x10" ≡ none)
    × (atoi "1_0" ≡ none)
unfolding atoi
atois = (refl, refl, refl, refl)
