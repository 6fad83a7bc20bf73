-- ===== src/Parser/Config/Branches.antt =====
-- Which branches `ShouldBuild` of server/parser/parser.go lets through.
use abstruse.Prelude.{
  String, ◌≡◌, refl, Bool, true, false, not, List, [], ◌∷◌, Option, arith, any, if◌then◌else◌, ◌&&◌,
}
use abstruse.Parser.Config.{ConfigParser, matches, first_match, is_empty, should_build}

module _ (compile : String → Option (String → Bool)) where
  first_match_same :
      (branch : String) (rs : List String) (b : Bool) → first_match compile branch rs b b ≡ b
  unfolding first_match
  first_match_same branch [] b = refl
  first_match_same branch (r ∷ rs) b = ground (arith, first_match_same branch rs b)

  first_match-any :
      (branch : String) (rs : List String)
      → first_match compile branch rs false true ≡ not (any (matches compile branch) rs)
  unfolding first_match
  first_match-any branch [] = refl
  first_match-any branch (r ∷ rs) = ground (arith, first_match-any branch rs)

  both_lists :
      (branch : String) (ignore test : List String)
      → (if is_empty ignore && is_empty test
          then true
          else first_match compile branch ignore false true)
        ≡ not (any (matches compile branch) ignore)
  both_lists branch [] [] = refl
  both_lists branch [] (t ∷ ts) = first_match-any branch []
  both_lists branch (i ∷ is) ts = first_match-any branch (i ∷ is)

  -- A branch is built exactly when no pattern of the ignore list that compiles matches it: the test
  -- list of the configuration has no part in the answer.
  pub should_build-ignore :
      (c : ConfigParser)
      → should_build compile c ≡ not (any (matches compile c.branch) c.parsed.branches.ignore)
  unfolding should_build
  should_build-ignore c =
      rw (first_match_same c.branch c.parsed.branches.test true)
        (both_lists c.branch c.parsed.branches.ignore c.parsed.branches.test)
