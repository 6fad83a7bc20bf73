-- ===== src/Worker/Cache/Names.antt =====
-- The names of the archives.
use Prim.Native.Char.{Char, code}
use text.Mathlib.TextLemmas.{nil-append, cons-append}
use abstruse.Prelude.{
  ◌==◌, ◌≡◌, ◌≢◌, refl, sym, ap, ◌∙◌, String, true, false, cat, Bool-cases, inl, inr, ==_iff,
  if◌then◌else◌, NoSep, arith,
}
use mathlib.Core.Path.{ap₂}
use abstruse.Worker.Cache.{underscored, file_name}

not_slash : (c : Char) → code (if code c == 47 then "_" else c) ≢ 47
not_slash c = elim (Bool-cases (code c == 47)) [
  | inl e ↦ rw e (λ h. omega (arith, h))
  | inr e ↦ rw e (λ h. absurd (let bad : false ≡ true = sym e ∙ (==_iff _ _).1 h in cc))
]

underscored-NoSep : (s : String) → NoSep "/" (underscored s)
unfolding underscored
underscored-NoSep String.[] = tt
underscored-NoSep (String.◌∷◌ c s) = (not_slash c, underscored-NoSep s)

underscored-cat : (s t : String) → underscored (cat s t) ≡ cat (underscored s) (underscored t)
unfolding underscored
underscored-cat String.[] t = ap underscored (nil-append t) ∙ sym (nil-append (underscored t))
underscored-cat (String.◌∷◌ c s) t =
    ap underscored (cons-append c s t)
    ∙ ap (String.◌∷◌ (if code c == 47 then "_" else c)) (underscored-cat s t)
    ∙ sym (cons-append (if code c == 47 then "_" else c) (underscored s) (underscored t))

-- Two names that differ in these characters only are one archive's.
file_name-same :
    (r r' b b' : String)
    → underscored r ≡ underscored r'
    → underscored b ≡ underscored b'
    → file_name r b ≡ file_name r' b'
unfolding file_name
file_name-same r r' b b' e f =
    underscored-cat r _
    ∙ ap₂ cat e (
        underscored-cat "-" _
        ∙ ap (cat (underscored "-")) (
            underscored-cat b ".tgz"
            ∙ ap (λ x. cat x (underscored ".tgz")) f
            ∙ sym (underscored-cat b' ".tgz"))
        ∙ sym (underscored-cat "-" _))
    ∙ sym (underscored-cat r' _)

abbrev pub owned : String → String → String → String → String → String
owned a x b y c = cat a (cat x (cat b (cat y c)))

owned-same :
    (a b c x y x' y' : String)
    → underscored x ≡ underscored x'
    → underscored y ≡ underscored y'
    → underscored (owned a x b y c) ≡ underscored (owned a x' b y' c)
owned-same a b c x y x' y' e f =
    underscored-cat a _
    ∙ ap (cat (underscored a)) (
        underscored-cat x _
        ∙ ap₂ cat e (
            underscored-cat b _
            ∙ ap (cat (underscored b)) (
                underscored-cat y c
                ∙ ap (λ z. cat z (underscored c)) f
                ∙ sym (underscored-cat y' c))
            ∙ sym (underscored-cat b _))
        ∙ sym (underscored-cat x' _))
    ∙ sym (underscored-cat a _)

-- The name of a cache's archive holds no slash, so that the archive lies in the directory that it is put
-- into; but the repositories a/b_c and a_b/c of different owners share it.
pub file_name-NoSep :
    (a b c branch : String)
    → NoSep "/" (file_name (owned a "/" b "_" c) branch)
      × (file_name (owned a "/" b "_" c) branch ≡ file_name (owned a "_" b "/" c) branch)
unfolding file_name underscored
file_name-NoSep a b c branch = (
  underscored-NoSep _,
  file_name-same (owned a "/" b "_" c) (owned a "_" b "/" c) branch branch
      (owned-same a b c "/" "_" "_" "/" refl refl) refl,
)
