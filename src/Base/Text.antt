-- ===== src/Base/Text.antt =====
-- The functions of Go's package strings that the source calls, over texts as lists of characters.
pub mod Laws
use Prim.Native.Nat.{ℕ, ◌+◌, ◌/◌, ◌%◌, ◌<◌, zero, suc}
use Prim.Native.Char.{Char, char, code, IsScalar}
use Prim.Native.String.{String}
use Prim.Native.String
use mathlib.Core.Path.{◌≡◌, refl}
use mathlib.Core.Bool.{Bool, true, false, ◌&&◌, ◌||◌}
use mathlib.Core.Option
use mathlib.Core.Option.{Option, none, some}
use text.Mathlib.Text.{◌==◌}
use mathlib.Core.List.{List}
use native.Mathlib.Omega.{arith}
use native.Mathlib.Decide.{dec_lt}
use mathlib.Core.Logic.{dite}
use scaleway_cloud_controlle.Base.Int.{ℤ, pos, negsuc}
use scaleway_cloud_controlle.Base.Tests.{leb, ltb, nat_eq, if◌then◌else◌, lt→compare}

-- strings.HasPrefix(s, prefix)
unfoldable pub has_prefix : String → String → Bool
has_prefix s String.[] = true
has_prefix String.[] (String.◌∷◌ c p) = false
has_prefix (String.◌∷◌ d s) (String.◌∷◌ c p) = nat_eq (code d) (code c) && has_prefix s p

-- strings.TrimPrefix, where the prefix is known to be there.
unfoldable pub drop_prefix : String → String → String
drop_prefix s String.[] = s
drop_prefix String.[] (String.◌∷◌ c p) = String.[]
drop_prefix (String.◌∷◌ d s) (String.◌∷◌ c p) = drop_prefix s p

unfoldable pub trim_prefix : String → String → String
unfolding has_prefix drop_prefix
trim_prefix s p = if has_prefix s p then drop_prefix s p else s

-- The head of a list of pieces gets one more character.
abbrev pub push_first : Char → List String → List String
push_first c List.[] = List.◌∷◌ (String.◌∷◌ c String.[]) List.[]
push_first c (List.◌∷◌ w ws) = List.◌∷◌ (String.◌∷◌ c w) ws

-- strings.Split(s, sep) for a separator of one character.
unfoldable pub split : ℕ → String → List String
split sep String.[] = List.◌∷◌ String.[] List.[]
split sep (String.◌∷◌ c s) =
    let rest = split sep s in
    if nat_eq (code c) sep then List.◌∷◌ String.[] rest else push_first c rest

-- strings.ReplaceAll(s, " ", "")
unfoldable pub remove_char : ℕ → String → String
remove_char x String.[] = String.[]
remove_char x (String.◌∷◌ c s) =
    let rest = remove_char x s in if nat_eq (code c) x then rest else String.◌∷◌ c rest

-- strings.Contains(s, c) for one character.
unfoldable pub has_char : ℕ → String → Bool
has_char x String.[] = false
has_char x (String.◌∷◌ c s) = nat_eq (code c) x || has_char x s

-- unicode.IsSpace, on ASCII.
abbrev is_space : ℕ → Bool
is_space c = nat_eq c 32 || leb 9 c && leb c 13

unfoldable pub trim_left : String → String
trim_left String.[] = String.[]
trim_left (String.◌∷◌ c s) = if is_space (code c) then trim_left s else String.◌∷◌ c s

-- A text without its trailing white space.
abbrev keep_right : Char → String → String
keep_right c String.[] = if is_space (code c) then String.[] else String.◌∷◌ c String.[]
keep_right c (String.◌∷◌ d s) = String.◌∷◌ c (String.◌∷◌ d s)

unfoldable pub trim_right : String → String
trim_right String.[] = String.[]
trim_right (String.◌∷◌ c s) = keep_right c (trim_right s)

-- strings.TrimSpace
unfoldable pub trim_space : String → String
unfolding trim_left trim_right
trim_space s = trim_right (trim_left s)

scalar_of_lt : (n : ℕ) → n < 55296 → IsScalar n
scalar_of_lt n h = rw (lt→compare n 55296 h) tt

-- An upper-case ASCII letter as the lower-case one.
unfoldable pub lower : Char → Char
unfolding dec_lt scalar_of_lt
lower c =
    dite (dec_lt 64 (code c))
      (λ h.
        dite (dec_lt (code c) 91)
          (λ k. char (code c + 32) (scalar_of_lt (code c + 32) (omega arith))) (λ _. c))
      (λ _. c)

-- strings.ToLower, on ASCII: other characters stay.
unfoldable pub to_lower : String → String
unfolding lower
to_lower String.[] = String.[]
to_lower (String.◌∷◌ c s) = String.◌∷◌ (lower c) (to_lower s)

-- A decimal digit as a character.
digit_char : ℕ → Char
unfolding scalar_of_lt
digit_char d = char (48 + d % 10) (scalar_of_lt (48 + d % 10) (omega arith))

-- The decimal digits of a number in front of a text; the fuel bounds their count.
unfoldable pub decimal_onto : ℕ → ℕ → String → String
unfolding digit_char
decimal_onto zero n s = s
decimal_onto (suc fuel) n s =
    let rest = decimal_onto fuel (n / 10) (String.◌∷◌ (digit_char n) s) in
    if ltb n 10 then String.◌∷◌ (digit_char n) s else rest

-- fmt.Sprintf("%d", n); a number has fewer digits than its value plus one.
unfoldable pub format_int : ℤ → String
unfolding decimal_onto
format_int (pos n) = decimal_onto (suc n) n ""
format_int (negsuc n) = String.◌++◌ "-" (decimal_onto (suc (suc n)) (suc n) "")

-- strings.Join(parts, "")
unfoldable pub join : List String → String
join List.[] = ""
join (List.◌∷◌ w ws) = String.◌++◌ w (join ws)

to_lower_mixed : to_lower "Fr-PAR-1/É" ≡ "fr-par-1/É"
unfolding to_lower
to_lower_mixed = refl

split_commas : split b',' "a,,b" ≡ List.◌∷◌ "a" (List.◌∷◌ "" (List.◌∷◌ "b" List.[]))
unfolding split
split_commas = refl

format_ints : (format_int (pos 30080) ≡ "30080") × (format_int (negsuc 6) ≡ "-7")
unfolding format_int
format_ints = (refl, refl)

-- The text in front of a suffix, if it has it.
unfoldable pub before_suffix : String → String → Option String
before_suffix suffix String.[] = if suffix == "" then some "" else none
before_suffix suffix (String.◌∷◌ c s) =
    let rest = Option.map (String.◌∷◌ c) (before_suffix suffix s) in
    if String.◌∷◌ c s == suffix then some "" else rest

-- strings.TrimSuffix
unfoldable pub trim_suffix : String → String → String
trim_suffix s suffix = elim (before_suffix suffix s) [ none ↦ s | some t ↦ t ]

trim_masks :
    (trim_suffix "10.0.0.1/32" "/32" ≡ "10.0.0.1") × (trim_suffix "10.0.0.0/8" "/32" ≡ "10.0.0.0/8")
unfolding trim_suffix before_suffix
trim_masks = (refl, refl)

-- A text at its first separator: what stands before and behind it.
unfoldable pub cut : ℕ → String → Option (String × String)
cut sep String.[] = none
cut sep (String.◌∷◌ c s) =
    let rest = Option.map (λ p. (String.◌∷◌ c p.0, p.1)) (cut sep s) in
    if nat_eq (code c) sep then some ("", s) else rest
