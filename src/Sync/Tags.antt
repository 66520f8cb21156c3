-- ===== src/Sync/Tags.antt =====
-- scaleway/sync.go: tagLabelParser and tagTaintParser. An empty key is a tag that is not valid.
pub mod Laws
use scaleway_cloud_controlle.Base.{
  ℕ, ◌+◌, nat_eq, leb, String, Bool, true, false, not, ◌&&◌, ◌||◌, Option, none, some, get_or, List,
  [], ◌∷◌, ◌==◌, ◌≡◌, refl, if◌then◌else◌, has_prefix, split,
}
use Prim.Native.Char.{Char, code}
use Prim.Native.String.{◌++◌}
use Prim.Native.String
use scaleway_cloud_controlle.Base.Text.{trim_prefix, push_first, join}

-- k8s.io/apimachinery/pkg/util/validation: whether a text has no errors.
pub record Validation : Type 0 where
  pub is_dns1123_subdomain : String → Bool
  pub is_valid_label_value : String → Bool

abbrev pub labels_prefix : String
labels_prefix = "k8s.scaleway.com/"

abbrev pub taints_prefix : String
taints_prefix = "k8s.scaleway.com/"

abbrev pub label_taint_prefix : String
label_taint_prefix = "taint="

abbrev pub label_no_prefix : String
label_no_prefix = "noprefix="

-- qnameCharFmt
abbrev pub is_qname_char : ℕ → Bool
is_qname_char c = leb b'A' c && leb c b'Z' || leb b'a' c && leb c b'z' || leb b'0' c && leb c b'9'

-- qnameExtCharFmt
abbrev pub is_qname_ext_char : ℕ → Bool
is_qname_ext_char c = nat_eq c b'-' || is_qname_char c || nat_eq c b'_' || nat_eq c b'.'

-- The rest of a qualified name, whose last character is no mark; it follows `last`.
unfoldable pub is_qualified_rest : ℕ → String → Bool
is_qualified_rest last String.[] = is_qname_char last
is_qualified_rest last (String.◌∷◌ c s) = is_qname_ext_char (code c) && is_qualified_rest (code c) s

-- qualifiedNameRegexp.MatchString
unfoldable pub is_qualified_name : String → Bool
is_qualified_name String.[] = false
is_qualified_name (String.◌∷◌ c s) = is_qname_char (code c) && is_qualified_rest (code c) s

-- `[:= ]`
abbrev pub is_separator : ℕ → Bool
is_separator c = nat_eq c b':' || nat_eq c b'=' || nat_eq c b' '

abbrev pub next_piece : Bool → Bool → Char → List String → List String
next_piece false after c pieces = push_first c pieces
next_piece true true c pieces = pieces
next_piece true false c pieces = "" ∷ pieces

-- The pieces between runs of separators; `after` tells that a separator stands in front.
unfoldable pub split_runs : Bool → String → List String
split_runs after String.[] = "" ∷ []
split_runs after (String.◌∷◌ c s) =
    next_piece (is_separator (code c)) after c (split_runs (is_separator (code c)) s)

-- splitRegexp.Split(s, -1)
unfoldable pub split_regexp : String → List String
split_regexp s = split_runs false s

unfoldable pub byte_length : String → ℕ
byte_length String.[] = 0
byte_length (String.◌∷◌ c s) = 1 + byte_length s

abbrev pub is_effect : String → Bool
is_effect effect = effect == "NoExecute" || effect == "NoSchedule" || effect == "PreferNoSchedule"

-- The last of a list of parts, with those in front of it.
unfoldable pub last_part : String → List String → List String × String
last_part part [] = ([], part)
last_part part (next ∷ parts) = let rest = last_part next parts in (part ∷ rest.0, rest.1)

unfoldable pub taint_parts : List String → List String × String
taint_parts [] = ([], "")
taint_parts (part ∷ parts) = last_part part parts

module _ (v : Validation) where
  open v use {is_dns1123_subdomain, is_valid_label_value}

  -- The prefix and the rest of a tag behind "noprefix=", by its parts between slashes.
  unfoldable pub own_prefix : String → List String → Option (String × String)
  own_prefix value (_ ∷ _ ∷ _ ∷ _) = none
  own_prefix value (prefix ∷ name ∷ []) =
      if prefix == ""
      then none
      else if not (is_dns1123_subdomain prefix)
      then none
      else some (prefix ++ "/", name)
  own_prefix value _ = some ("", value)

  unfoldable pub tag_prefix : String → Option (String × String)
  tag_prefix tag =
      if has_prefix tag label_no_prefix
      then own_prefix (trim_prefix tag label_no_prefix)
          (split b'/' (trim_prefix tag label_no_prefix))
      else some (labels_prefix, tag)

  unfoldable pub label_value : String → List String → Option (String × String)
  label_value key [] = some (key, "")
  label_value key (value ∷ _) = if is_valid_label_value value then some (key, value) else none

  -- A name of another character than ASCII is refused by the regular expression anyway, so that
  -- its length may be counted in characters.
  unfoldable pub label_of : String → List String → Option (String × String)
  label_of prefix [] = none
  label_of prefix (name ∷ values) =
      if name == ""
      then none
      else if not (leb (byte_length name) 63)
      then none
      else if not (is_qualified_name name)
      then none
      else label_value (prefix ++ name) values

  unfoldable pub parsed_label : Option (String × String) → Option (String × String)
  parsed_label none = none
  parsed_label (some (prefix, value)) = label_of prefix (split_regexp value)

  unfoldable pub tag_label_parser : String → String × String
  tag_label_parser tag = get_or (parsed_label (tag_prefix tag)) ("", "")

  unfoldable pub taint_of : List String × String → String × String × String
  taint_of (parts, effect) =
      if is_effect effect
      then (let label = tag_label_parser (join parts) in (label.0, label.1, effect))
      else ("", "", "")

  unfoldable pub tag_taint_parser : String → String × String × String
  tag_taint_parser tag = taint_of (taint_parts (split b':' (trim_prefix tag label_taint_prefix)))

abbrev lenient : Validation
lenient = record { is_dns1123_subdomain = λ s. true; is_valid_label_value = λ s. not (s == "x/y") }

tag_labels :
    (tag_label_parser lenient "equal6= =value" ≡ ("k8s.scaleway.com/equal6", "value"))
    × (tag_label_parser lenient "noprefix=colon1:value" ≡ ("colon1", "value"))
    × (tag_label_parser lenient "noprefix=node.kubernetes.io/role=myrole"
        ≡ ("node.kubernetes.io/role", "myrole"))
    × (tag_label_parser lenient "two space word" ≡ ("k8s.scaleway.com/two", "space"))
    × (tag_label_parser lenient "dash/equal=value" ≡ ("", ""))
    × (tag_label_parser lenient "word=x/y" ≡ ("", ""))
unfolding tag_label_parser parsed_label tag_prefix has_prefix label_of split_regexp split_runs
    byte_length is_qualified_name is_qualified_rest label_value own_prefix split trim_prefix
tag_labels = (refl, refl, refl, refl, refl, refl)

tag_taints :
    (tag_taint_parser lenient "taint=" ≡ ("", "", ""))
    × (tag_taint_parser lenient "taint=noprefix=dash-word=dash-word:PreferNoSchedule"
        ≡ ("dash-word", "dash-word", "PreferNoSchedule"))
    × (tag_taint_parser lenient "taint=word=word:foo" ≡ ("", "", ""))
    -- A colon between key and value is lost.
    × (tag_taint_parser lenient "taint=key:value:NoSchedule"
        ≡ ("k8s.scaleway.com/keyvalue", "", "NoSchedule"))
unfolding tag_taint_parser taint_of taint_parts split trim_prefix last_part tag_label_parser
    parsed_label tag_prefix join own_prefix label_of split_regexp split_runs byte_length
    is_qualified_name is_qualified_rest label_value
tag_taints = (refl, refl, refl, refl)
