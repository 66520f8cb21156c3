-- ===== src/Sync/Tags/Laws.antt =====
-- What the parsers of tags give back.
use scaleway_cloud_controlle.Base.{
  ℕ, ◌≤◌, leb, String, Bool, true, false, ◌||◌, ◌⊎◌, some, List, [], ◌∷◌, ◌==◌, ◌≡◌, ◌≢◌, refl,
  arith, ap, has_prefix, split, inl, inr, Bool-cases, eq_iff,
}
use Prim.Native.Char.{Char, code}
use text.Mathlib.TextLemmas.{nil-append, cons-append, append-nil}
use mathlib.Core.Option.{get_or}
use mathlib.Core.Path.{subst, sym}
use Prim.Native.String.{◌++◌}
use scaleway_cloud_controlle.Base.Text.{trim_prefix, join}
use scaleway_cloud_controlle.Base.Text.Laws.{Lacks, has_prefix-append, drop_prefix-append}
use scaleway_cloud_controlle.Sync.Tags.{
  Validation, labels_prefix, label_taint_prefix, label_no_prefix, is_qname_char, is_qname_ext_char,
  is_qualified_rest, is_qualified_name, is_separator, split_runs, split_regexp, byte_length,
  tag_prefix, label_value, label_of, parsed_label, tag_label_parser, is_effect, last_part, taint_of,
  taint_parts, tag_taint_parser,
}

-- A text without separators.
abbrev pub IsWhole : String → Type 0
IsWhole String.[] = Unit {0}
IsWhole (String.◌∷◌ c s) = (is_separator (code c) ≡ false) × IsWhole s

ext_char-IsWhole : (c : ℕ) → is_qname_ext_char c ≡ true → is_separator c ≡ false
ext_char-IsWhole c h = ground arith

qname_char-IsWhole : (c : ℕ) → is_qname_char c ≡ true → is_separator c ≡ false
qname_char-IsWhole c h = ground arith

is_qualified_rest-IsWhole : (last : ℕ) (s : String) → is_qualified_rest last s ≡ true → IsWhole s
unfolding is_qualified_rest
is_qualified_rest-IsWhole last String.[] h = tt
is_qualified_rest-IsWhole last (String.◌∷◌ c s) h =
    (ext_char-IsWhole (code c) (ground arith), is_qualified_rest-IsWhole (code c) s (ground arith))

is_qualified_name-IsWhole : (s : String) → is_qualified_name s ≡ true → IsWhole s
unfolding is_qualified_name
is_qualified_name-IsWhole String.[] h = tt
is_qualified_name-IsWhole (String.◌∷◌ c s) h = (
  qname_char-IsWhole (code c) (ground arith),
  is_qualified_rest-IsWhole (code c) s (ground arith),
)

split_runs-whole : (after : Bool) (s : String) → IsWhole s → split_runs after s ≡ s ∷ []
unfolding split_runs
split_runs-whole after String.[] h = refl
split_runs-whole after (String.◌∷◌ c s) (p, h) = rw (p, split_runs-whole false s h)

abbrev equals_sign : Char
equals_sign = "="

split_runs-pair :
    (name value : String)
    → IsWhole name
    → IsWhole value
    → split_runs false (name ++ (String.◌∷◌ equals_sign value)) ≡ name ∷ value ∷ []
unfolding split_runs
split_runs-pair String.[] value _ k = rw (nil-append, split_runs-whole true value k)
split_runs-pair (String.◌∷◌ c s) value (p, h) k = rw (cons-append, p, split_runs-pair s value h k)

abbrev colon : Char
colon = ":"

-- A text without colons is a part of its own.
split-part :
    (s t : String) → Lacks b':' s → split b':' (s ++ (String.◌∷◌ colon t)) ≡ s ∷ split b':' t
unfolding split
split-part String.[] t h = rw nil-append refl
split-part (String.◌∷◌ c s) t (h, hs) = rw cons-append (ground (arith, split-part s t hs))

or3-cases : (a b c : Bool) → (a || b || c) ≡ true → (a ≡ true) ⊎ ((b ≡ true) ⊎ (c ≡ true))
or3-cases true b c h = inl refl
or3-cases false true c h = inr (inl refl)
or3-cases false false c h = inr (inr h)

module _ (v : Validation) where
  label_value-key :
      (name : String) (values : List String)
      → (get_or (label_value v (labels_prefix ++ name) values) ("", "")).0 ≢ ""
      → has_prefix (get_or (label_value v (labels_prefix ++ name) values) ("", "")).0 labels_prefix
        ≡ true
  unfolding label_value
  label_value-key name [] given = has_prefix-append labels_prefix name
  label_value-key name (value ∷ values) given = elim (Bool-cases (v.is_valid_label_value value)) [
    | inl valid ↦ rw valid (has_prefix-append labels_prefix name)
    | inr refused ↦ absurd (given (rw refused refl))
  ]

  label_of-key :
      (parts : List String)
      → (get_or (label_of v labels_prefix parts) ("", "")).0 ≢ ""
      → has_prefix (get_or (label_of v labels_prefix parts) ("", "")).0 labels_prefix ≡ true
  unfolding label_of
  label_of-key [] given = absurd (given refl)
  label_of-key (name ∷ values) given = ground (arith, label_value-key name values)

  le→leb : (a b : ℕ) → a ≤ b → leb a b ≡ true
  le→leb a b h = ground arith

  is_qualified_name-given : (name : String) → is_qualified_name name ≡ true → (name == "") ≡ false
  unfolding is_qualified_name
  is_qualified_name-given String.[] h = cc
  is_qualified_name-given (String.◌∷◌ c s) h = elim (Bool-cases (String.◌∷◌ c s == "")) [
    | inl e ↦ absurd (cc ((eq_iff (String.◌∷◌ c s) "").0 e))
    | inr e ↦ e
  ]

  label_of-pair :
      (name value : String)
      → is_qualified_name name ≡ true
      → byte_length name ≤ 63
      → v.is_valid_label_value value ≡ true
      → label_of v labels_prefix (name ∷ value ∷ []) ≡ some (labels_prefix ++ name, value)
  unfolding label_of label_value
  label_of-pair name value qualified short valid =
      rw (
        is_qualified_name-given name qualified,
        le→leb (byte_length name) 63 short,
        qualified,
        valid,
      )

  parsed :
      (name value : String)
      → is_qualified_name name ≡ true
      → byte_length name ≤ 63
      → IsWhole value
      → v.is_valid_label_value value ≡ true
      → has_prefix (name ++ ("=" ++ value)) label_no_prefix ≡ false
      → parsed_label v (tag_prefix v (name ++ ("=" ++ value))) ≡ some (labels_prefix ++ name, value)
  unfolding parsed_label tag_prefix split_regexp
  parsed name value qualified short whole valid own =
      rw
        (
          own,
          cons-append equals_sign "" value,
          nil-append value,
          split_runs-pair name value (is_qualified_name-IsWhole name qualified) whole,
        )
        (label_of-pair name value qualified short valid)

  -- A tag "name=value" of a valid name and value, neither with separators, is the label of that
  -- value whose key is the name with the controller's prefix; but not behind "noprefix=".
  pub tag_label_parser-pair :
      (name value : String)
      → is_qualified_name name ≡ true
      → byte_length name ≤ 63
      → IsWhole value
      → v.is_valid_label_value value ≡ true
      → has_prefix (name ++ ("=" ++ value)) label_no_prefix ≡ false
      → tag_label_parser v (name ++ ("=" ++ value)) ≡ (labels_prefix ++ name, value)
  unfolding tag_label_parser
  tag_label_parser-pair name value qualified short whole valid own =
      ap (λ o. get_or o ("", "")) (parsed name value qualified short whole valid own)

  tag_prefix-default :
      (tag : String)
      → has_prefix tag label_no_prefix ≡ false
      → tag_prefix v tag ≡ some (labels_prefix, tag)
  unfolding tag_prefix
  tag_prefix-default tag own = rw own

  -- The key of a tag that does not begin with "noprefix=" has the controller's prefix, if there is
  -- a key at all.
  pub tag_label_parser-key :
      (tag : String)
      → has_prefix tag label_no_prefix ≡ false
      → (tag_label_parser v tag).0 ≢ ""
      → has_prefix (tag_label_parser v tag).0 labels_prefix ≡ true
  unfolding tag_label_parser parsed_label
  tag_label_parser-key tag own =
      subst
        (λ o.
          (get_or (parsed_label v o) ("", "")).0 ≢ ""
          → has_prefix (get_or (parsed_label v o) ("", "")).0 labels_prefix ≡ true)
        (sym (tag_prefix-default tag own)) (label_of-key (split_regexp tag))

  -- An effect has no colon.
  split-effect : (effect : String) → is_effect effect ≡ true → split b':' effect ≡ effect ∷ []
  unfolding split
  split-effect effect h = elim (or3-cases (effect == "NoExecute") _ _ h) [
    | inl e ↦ rw ((eq_iff effect "NoExecute").0 e) refl
    | inr (inl e) ↦ rw ((eq_iff effect "NoSchedule").0 e) refl
    | inr (inr e) ↦ rw ((eq_iff effect "PreferNoSchedule").0 e) refl
  ]

  taint_parts-pair :
      (label effect : String)
      → Lacks b':' label
      → is_effect effect ≡ true
      → taint_parts (split b':' (label ++ (":" ++ effect))) ≡ (label ∷ [], effect)
  unfolding taint_parts last_part
  taint_parts-pair label effect h k = rw (
    cons-append colon "" effect,
    nil-append effect,
    split-part label effect h,
    split-effect effect k,
  )

  trim_taint_prefix : (s : String) → trim_prefix ("taint=" ++ s) label_taint_prefix ≡ s
  unfolding trim_prefix
  trim_taint_prefix s = rw (has_prefix-append "taint=" s) (drop_prefix-append "taint=" s)

  taint_of-pair :
      (label effect : String)
      → is_effect effect ≡ true
      → taint_of v (label ∷ [], effect)
        ≡ ((tag_label_parser v label).0, (tag_label_parser v label).1, effect)
  unfolding taint_of join
  taint_of-pair label effect k = rw (k, append-nil label)

  -- A taint tag of a label tag without colons, a colon and an effect that Kubernetes knows is read
  -- as the label tag is, with the effect.
  pub tag_taint_parser-label :
      (label effect : String)
      → Lacks b':' label
      → is_effect effect ≡ true
      → tag_taint_parser v ("taint=" ++ (label ++ (":" ++ effect)))
        ≡ ((tag_label_parser v label).0, (tag_label_parser v label).1, effect)
  unfolding tag_taint_parser
  tag_taint_parser-label label effect h k =
      rw (trim_taint_prefix (label ++ (":" ++ effect)), taint_parts-pair label effect h k)
        (taint_of-pair label effect k)
