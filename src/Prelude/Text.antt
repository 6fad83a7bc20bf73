-- ===== src/Prelude/Text.antt =====
-- What the program uses of Go's strings package, over the native texts.
use Prim.Native.Char.{Char, code}
use Prim.Native.String
use Prim.Native.String.{String, len, slice, find}
use mathlib.Core.Path.{◌≡◌, refl, ap, ◌∙◌}
use mathlib.Core.Logic.{◌≢◌}
use mathlib.Core.Bool.{Bool}
use mathlib.Core.List.{List, [], ◌∷◌}
use native.Mathlib.Omega.{arith}
use text.Mathlib.Text.{starts_with}
use text.Mathlib.TextPositions.{starts_with-append, len-append, slice-append_right}
use text.Mathlib.TextLemmas.{nil-append, cons-append}
use abstruse.Prelude.Tests.{if◌then◌else◌, ◌==◌, leb}
use abstruse.Prelude.Lists.{All}

-- s + t
abbrev pub cat : String → String → String
cat s t = String.◌++◌ s t

-- strings.TrimPrefix
unfoldable pub trim_prefix : String → String → String
trim_prefix s p = if starts_with s p then slice s (len p) (len s) else s

-- strings.Contains
unfoldable pub contains : String → String → Bool
contains s t = leb (find s t) (len s)

-- strings.Join
abbrev pub join : List String → String → String
join [] sep = ""
join (s ∷ []) sep = s
join (s ∷ t ∷ r) sep = cat s (cat sep (join (t ∷ r) sep))

-- A character in front of the first part.
abbrev pub onto_head : Char → List String → List String
onto_head c [] = (String.◌∷◌ c "") ∷ []
onto_head c (p ∷ ps) = (String.◌∷◌ c p) ∷ ps

-- strings.Split at a separator of one character
unfoldable pub split : String → Char → List String
split String.[] d = "" ∷ []
split (String.◌∷◌ c s) d =
    let rest = split s d in if code c == code d then "" ∷ rest else onto_head c rest

pub trim_prefix-cat : (p s : String) → trim_prefix (cat p s) p ≡ s
unfolding trim_prefix
trim_prefix-cat p s = rw (starts_with-append p s, len-append p s) (slice-append_right p s)

abbrev pub NoSep : Char → String → Type 0
NoSep d String.[] = Unit {0}
NoSep d (String.◌∷◌ c s) = (code c ≢ code d) × NoSep d s

abbrev pub All-NoSep : Char → List String → Type 0
All-NoSep d = All (NoSep d)

-- A text without the separator is its only part.
pub split-NoSep : (s : String) (d : Char) → NoSep d s → split s d ≡ s ∷ []
unfolding split
split-NoSep String.[] d h = refl
split-NoSep (String.◌∷◌ c s) d (ne, h) = rw (split-NoSep s d h) (ground arith)

split-cat :
    (s : String) (d : Char) (t : String)
    → NoSep d s
    → split (cat s (String.◌∷◌ d t)) d ≡ s ∷ split t d
unfolding split
split-cat String.[] d t h = rw nil-append (ground arith)
split-cat (String.◌∷◌ c s) d t (ne, h) = rw (cons-append, split, split-cat s d t h) (ground arith)

-- The part before the first separator, and the parts of what follows.
pub split-sep :
    (s : String) (d : Char) (t : String)
    → NoSep d s
    → split (cat s (cat (String.◌∷◌ d "") t)) d ≡ s ∷ split t d
split-sep s d t h = rw (cons-append, nil-append) (split-cat s d t h)

-- Joined parts are split apart again, where no part holds the separator.
pub split-join :
    (p : String) (ps : List String) (d : Char)
    → NoSep d p
    → All-NoSep d ps
    → split (join (p ∷ ps) (String.◌∷◌ d "")) d ≡ p ∷ ps
split-join p [] d h k = split-NoSep p d h
split-join p (q ∷ ps) d h (kq, k) = split-sep p d _ h ∙ ap (◌∷◌ p) (split-join q ps d kq k)
