-- ===== src/Base/Text/Laws.antt =====
-- The laws of the functions on texts.
use Prim.Native.Nat.{ℕ}
use Prim.Native.Char.{Char, code}
use Prim.Native.String.{String, ◌++◌}
use mathlib.Core.Path.{◌≡◌, refl, ap, ◌∙◌}
use mathlib.Core.Logic.{◌≢◌}
use mathlib.Core.Bool.{true}
use mathlib.Core.Option.{some}
use native.Mathlib.Omega.{arith}
use text.Mathlib.TextLemmas.{nil-append, cons-append}
use scaleway_cloud_controlle.Base.Text.{has_prefix, drop_prefix, cut}

-- A character does not occur in a text.
abbrev pub Lacks : ℕ → String → Type 0
Lacks x String.[] = Unit
Lacks x (String.◌∷◌ c s) = (code c ≢ x) × Lacks x s

pub Lacks-append : (x : ℕ) (s t : String) → Lacks x s → Lacks x t → Lacks x (s ++ t)
Lacks-append x String.[] t h k = rw nil-append k
Lacks-append x (String.◌∷◌ c s) t (h, hs) k = rw cons-append (h, Lacks-append x s t hs k)

pub has_prefix-append : (p s : String) → has_prefix (p ++ s) p ≡ true
unfolding has_prefix
has_prefix-append String.[] s = refl
has_prefix-append (String.◌∷◌ c p) s = rw cons-append (ground (arith, has_prefix-append p s))

-- The empty text is a prefix.
pub has_prefix_empty : (s : String) → has_prefix s "" ≡ true
unfolding has_prefix
has_prefix_empty String.[] = refl
has_prefix_empty (String.◌∷◌ c s) = refl

pub drop_prefix-append : (p s : String) → drop_prefix (p ++ s) p ≡ s
unfolding drop_prefix
drop_prefix-append String.[] s = rw nil-append refl
drop_prefix-append (String.◌∷◌ c p) s = rw cons-append (drop_prefix-append p s)

-- What stands behind a common beginning decides.
pub has_prefix-append_iff : (p s q : String) → has_prefix (p ++ s) (p ++ q) ≡ has_prefix s q
unfolding has_prefix
has_prefix-append_iff String.[] s q = rw (nil-append s, nil-append q)
has_prefix-append_iff (String.◌∷◌ c p) s q =
    rw (cons-append c p s, cons-append c p q) (ground (arith, has_prefix-append_iff p s q))

-- A text is cut at its first separator.
pub cut-append :
    (x : Char) (s t : String)
    → Lacks (code x) s
    → cut (code x) (s ++ (String.◌∷◌ x t)) ≡ some (s, t)
unfolding cut
cut-append x String.[] t h = rw nil-append (ground arith)
cut-append x (String.◌∷◌ c s) t (h, hs) = rw cons-append (ground (arith, cut-append x s t hs))

-- A slash, and a text behind it.
abbrev pub slash : Char
slash = "/"

pub slash-append : (t : String) → "/" ++ t ≡ String.◌∷◌ slash t
slash-append t = cons-append slash "" t ∙ ap (String.◌∷◌ slash) (nil-append t)

pub cut_at_slash : (s t : String) → Lacks b'/' s → cut b'/' (s ++ ("/" ++ t)) ≡ some (s, t)
cut_at_slash s t h = rw (slash-append t) (cut-append slash s t h)
