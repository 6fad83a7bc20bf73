-- ===== src/Worker/Docker/Generated.antt =====
-- From the configuration to the container: the commands that server/parser/parser.go generates, as
-- worker/docker/docker.go runs them.
use abstruse.Prelude.{
  String, ◌≡◌, refl, ap, ◌∙◌, Bool, false, not, ◌&&◌, List, [], ◌∷◌, ◌++◌, map, map-append, Option,
  none, some, keep, if◌then◌else◌,
}
use abstruse.Pb.{Command, CommandType}
use abstruse.Parser.Config.{RepoConfig, append_commands, generate_commands}
use abstruse.Parser.Config.Commands.{of_type, of_type-append, of_type_hit}
use abstruse.Worker.Plan.{Docker, World, Task, is_main, is_failure, is_success}
use abstruse.Worker.Docker.{run_container}
use abstruse.Worker.Docker.Order.{one_or_none, last_of}
use abstruse.Worker.Docker.Success.{run_container_ran}

abbrev pub texts : List Command → List String
texts = map (λ c. c.command)

-- The last text as a list of one, or `found` where there is none.
abbrev pub last_text : List String → List String → List String
last_text found [] = found
last_text found (s ∷ ss) = last_text (s ∷ []) ss

abbrev main_type : CommandType → Bool
main_type t = not (is_failure t) && not (is_success t)

main_commands :
    (c : RepoConfig)
    → of_type main_type (generate_commands c)
      ≡ c.before_install ++ (c.install ++ (c.before_script ++ (c.script ++ c.after_script)))
unfolding generate_commands
main_commands c = simp (of_type-append, of_type_hit)

texts-keep_main : (cs : List Command) → texts (keep is_main cs) ≡ of_type main_type cs
unfolding of_type
texts-keep_main cs = refl

last_of-append :
    (p : Command → Bool) (xs ys : List Command) (found : Option Command)
    → last_of p (xs ++ ys) found ≡ last_of p ys (last_of p xs found)
last_of-append p [] ys found = refl
last_of-append p (x ∷ xs) ys found = last_of-append p xs ys (if p x then some x else found)

abbrev success : Command → Bool
success c = is_success c.type

last_of_other :
    (cmds : List String) (t : CommandType) (found : Option Command)
    → is_success t ≡ false
    → last_of success (append_commands cmds t) found ≡ found
unfolding append_commands
last_of_other [] t found e = refl
last_of_other (s ∷ ss) t found e =
    ap
      (λ b.
        last_of success (append_commands ss t)
          (if b then some (record { type = t; command = s }) else found))
      e
    ∙ last_of_other ss t found e

last_of_success :
    (cmds : List String) (found : Option Command)
    → texts (one_or_none (last_of success (append_commands cmds CommandType.after_success) found))
      ≡ last_text (texts (one_or_none found)) cmds
unfolding append_commands
last_of_success [] found = refl
last_of_success (s ∷ ss) found =
    last_of_success ss (some (record { type = CommandType.after_success; command = s }))

last_of_skip :
    (cmds : List String) (t : CommandType) (rest : List Command) (found : Option Command)
    → is_success t ≡ false
    → last_of success (append_commands cmds t ++ rest) found ≡ last_of success rest found
last_of_skip cmds t rest found e =
    last_of-append success (append_commands cmds t) rest found
    ∙ ap (last_of success rest) (last_of_other cmds t found e)

last_generated :
    (c : RepoConfig)
    → last_of success (generate_commands c) none
      ≡ last_of success (append_commands c.after_success CommandType.after_success) none
unfolding generate_commands
last_generated c =
    let after = append_commands c.after_success CommandType.after_success in
    let found = last_of success after none in
    last_of_skip c.before_install CommandType.before_install _ none refl
    ∙ last_of_skip c.install CommandType.install _ none refl
    ∙ last_of_skip c.before_script CommandType.before_script _ none refl
    ∙ last_of_skip c.script CommandType.script _ none refl
    ∙ last_of-append success after _ none
    ∙ last_of_skip c.after_failure CommandType.after_failure _ found refl
    ∙ last_of_other c.after_script CommandType.after_script found refl

module _ {S : Type 0} (d : Docker S) where
  -- If a job has the commands that the parser generates from a configuration, nothing was run before and
  -- `RunContainer` returns no error, then what has been run is: the lists before_install, install,
  -- before_script, script and after_script in this order, and then the last entry of after_success.
  pub run_container-generate_commands :
      (c : RepoConfig) (t : Task) (w : World S)
      → t.commands ≡ generate_commands c
      → w.ran ≡ []
      → (run_container d t w).1 ≡ none
      → texts (run_container d t w).0.ran
        ≡ (c.before_install ++ (c.install ++ (c.before_script ++ (c.script ++ c.after_script))))
          ++ last_text [] c.after_success
  run_container-generate_commands c t w e h q =
      ap texts (run_container_ran d t w q)
      ∙ ap
          (λ l.
            texts ((l ++ keep is_main t.commands) ++ one_or_none (last_of success t.commands none)))
          h
      ∙ ap (λ cs. texts (keep is_main cs ++ one_or_none (last_of success cs none))) e
      ∙ map-append (λ (x : Command). x.command) (keep is_main (generate_commands c)) _
      ∙ ap (λ l. l ++ texts (one_or_none (last_of success (generate_commands c) none)))
          (texts-keep_main (generate_commands c) ∙ main_commands c)
      ∙ ap
          (λ o.
            (c.before_install ++ (c.install ++ (c.before_script ++ (c.script ++ c.after_script))))
            ++ texts (one_or_none o))
          (last_generated c)
      ∙ ap
          (λ l.
            (c.before_install ++ (c.install ++ (c.before_script ++ (c.script ++ c.after_script))))
            ++ l)
          (last_of_success c.after_success none)
