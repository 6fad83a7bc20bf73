-- ===== src/Tests/Parsing.antt =====
-- The theorems on the configuration and the environment at concrete inputs.
use abstruse.Prelude.{
  String, ◌≡◌, ◌≢◌, ◌↔◌, refl, Bool, false, not, [], ◌∷◌, Option, none, some, All, any, str_eq,
}
use abstruse.Parser.Config.{ConfigParser, RepoConfig, parse, matches, should_build}
use abstruse.Parser.Config.Jobs.{reference_jobs, HasImage, filled, parse_succeeds_iff}
use abstruse.Parser.Config.Branches.{should_build-ignore}

abbrev pub config : RepoConfig
config = record {
  image = "golang";
  branches = record { test = "master" ∷ []; ignore = "wip" ∷ [] };
  matrix = record { env = "GO=1"; image = "" } ∷ record { env = ""; image = "node" } ∷ [];
  before_install = [];
  install = "make deps" ∷ [];
  before_script = [];
  script = "make" ∷ "make test" ∷ [];
  after_success = [];
  after_failure = [];
  before_deploy = [];
  deploy = "make release" ∷ [];
  after_deploy = [];
  after_script = [];
  cache = [];
}

abbrev unmarshal : String → RepoConfig × Option String
unmarshal raw = (config, none)

abbrev parser : ConfigParser
parser = record {
  raw = "image: golang";
  branch = "master";
  parsed = config;
  env = "A=1" ∷ [];
  mount = [];
}

parse_succeeds_iff_example : ((parse unmarshal parser).2 ≡ none) ↔ (
    (str_eq parser.raw "" ≡ false)
    × ((unmarshal parser.raw).1 ≡ none)
    × (((filled unmarshal parser).parsed.script ≢ [])
        × All HasImage (reference_jobs (filled unmarshal parser))))
parse_succeeds_iff_example = parse_succeeds_iff unmarshal parser

parses : (parse unmarshal parser).2 ≡ none
unfolding parse
parses = refl

-- Patterns that match just themselves.
abbrev literal : String → Option (String → Bool)
literal r = some (λ branch. str_eq branch r)

should_build-ignore_example :
    should_build literal parser ≡ not (any (matches literal "master") ("wip" ∷ []))
should_build-ignore_example = should_build-ignore literal parser
