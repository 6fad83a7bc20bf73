-- ===== src/Parser/Config/Commands.antt =====
-- Which commands the generated lists of server/parser/parser.go hold.
use abstruse.Prelude.{
  ℕ, String, ◌≡◌, refl, ap, ◌∙◌, Bool, List, [], ◌∷◌, ◌++◌, map, keep, keep-append, Bool-cases, inl,
  inr, arith, if◌then◌else◌, map-append, append-nil, ◌==◌,
}
use abstruse.Pb.{
  Command, CommandType, before_install, install, before_script, script, after_success,
  after_failure, before_deploy, deploy, after_deploy, after_script,
}
use abstruse.Parser.Config.{
  RepoConfig, append_commands, generate_commands, generate_deploy_commands,
}

-- The commands of one type among those of a job.
unfoldable pub of_type : (CommandType → Bool) → List Command → List String
of_type p cs = map (λ c. c.command) (keep (λ c. p c.type) cs)

pub of_type-append :
    (p : CommandType → Bool) (xs ys : List Command)
    → of_type p (xs ++ ys) ≡ of_type p xs ++ of_type p ys
unfolding of_type
of_type-append p xs ys =
    ap (map (λ (c : Command). c.command)) (keep-append (λ c. p c.type) xs ys)
    ∙ map-append (λ (c : Command). c.command) (keep (λ c. p c.type) xs) (keep (λ c. p c.type) ys)

pub of_type_hit :
    (p : CommandType → Bool) (cmds : List String) (t : CommandType)
    → of_type p (append_commands cmds t) ≡ (if p t then cmds else [])
unfolding of_type append_commands
of_type_hit p [] t = ground arith
of_type_hit p (cmd ∷ cmds) t = elim (Bool-cases (p t)) [
  | inl e ↦ rw e (ap (◌∷◌ cmd) (of_type_hit p cmds t ∙ rw e refl))
  | inr e ↦ rw e (of_type_hit p cmds t ∙ rw e refl)
]

-- The number of a type in pb/api.proto.
abbrev pub type_number : CommandType → ℕ
type_number before_install = 0
type_number install = 1
type_number before_script = 2
type_number script = 3
type_number after_success = 4
type_number after_failure = 5
type_number before_deploy = 6
type_number deploy = 7
type_number after_deploy = 8
type_number after_script = 9

abbrev pub is_type : CommandType → CommandType → Bool
is_type t u = type_number u == type_number t

-- The commands that a configuration gives for a phase of a test job.
abbrev pub test_phase : RepoConfig → CommandType → List String
test_phase c before_install = c.before_install
test_phase c install = c.install
test_phase c before_script = c.before_script
test_phase c script = c.script
test_phase c after_success = c.after_success
test_phase c after_failure = c.after_failure
test_phase c after_script = c.after_script
test_phase c _ = []

abbrev pub deploy_phase : RepoConfig → CommandType → List String
deploy_phase c before_deploy = c.before_deploy
deploy_phase c deploy = c.deploy
deploy_phase c after_deploy = c.after_deploy
deploy_phase c _ = []

ruleset phases = (of_type-append, of_type_hit, append-nil)

-- For each phase, the commands of that type in a test job are those that the configuration lists for
-- it, in its order, and a test job has none of the deploy phases.
of_type-generate_commands :
    (c : RepoConfig) (t : CommandType) → of_type (is_type t) (generate_commands c) ≡ test_phase c t
unfolding generate_commands
of_type-generate_commands c before_install = simp phases
of_type-generate_commands c _ = simp phases

-- For each phase, the commands of that type in a deploy job are those that the configuration lists for
-- it, in its order, and a deploy job has the three deploy phases only.
of_type-generate_deploy_commands :
    (c : RepoConfig) (t : CommandType)
    → of_type (is_type t) (generate_deploy_commands c) ≡ deploy_phase c t
unfolding generate_deploy_commands
of_type-generate_deploy_commands c before_install = simp phases
of_type-generate_deploy_commands c _ = simp phases
