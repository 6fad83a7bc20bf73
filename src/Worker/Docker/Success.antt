-- ===== src/Worker/Docker/Success.antt =====
-- What it means that `RunContainer` of worker/docker/docker.go returns no error.
use abstruse.Prelude.{
  zero, suc, String, ◌≡◌, refl, ap, ◌∙◌, Bool, true, false, List, [], ◌++◌, Option, none, some,
  keep, if◌then◌else◌,
}
use abstruse.Pb.{Command}
use abstruse.Worker.Docker.{
  Outcome, returned, finished, say, finish, build, created, started, begin, connected,
  run_container,
}
use abstruse.Worker.Plan.{
  Docker, World, Task, is_main, is_success, sort_commands, cache_index, delete_empty,
}
use abstruse.Worker.Docker.Order.{
  one_or_none, last_of, sort_loop-keep, RunsInOrder, run_extra_ran, RunsInOrder-run_commands,
}

sort_commands-keep : (cs : List Command) → (sort_commands cs).commands ≡ keep is_main cs
unfolding sort_commands
sort_commands-keep cs = ap (λ x. x.commands) (sort_loop-keep cs [] none none)

sort_commands_success :
    (cs : List Command) → (sort_commands cs).success ≡ last_of (λ c. is_success c.type) cs none
unfolding sort_commands
sort_commands_success cs = ap (λ x. x.success) (sort_loop-keep cs [] none none)

module _ {S : Type 0} (d : Docker S) where
  -- If there is no error, these are the commands that have been run.
  abbrev Ends : List Command → World S × Option String → Type 0
  Ends l r = r.1 ≡ none → r.0.ran ≡ l

  finish-Ends :
      (t : Task) (id shell : String) (failure success : Option Command) (cs : List Command)
      (w : World S) (r : World S × Outcome)
      → RunsInOrder d failure cs w r
      → Ends ((w.ran ++ cs) ++ one_or_none success) (finish d t id shell success r)
  finish-Ends t id shell failure success cs w (w', returned e) h = λ q. cc
  finish-Ends t id shell failure success cs w (w', finished (suc n)) h = λ q. cc
  finish-Ends t id shell failure success cs w (w', finished zero) h =
      λ q. run_extra_ran d _ d.red id shell t.env success _ ∙ ap (λ l. l ++ one_or_none success) h

  build_ran :
      (t : Task) (id shell : String) (w : World S)
      → let sorted = sort_commands t.commands in
        Ends ((w.ran ++ sorted.commands) ++ one_or_none sorted.success) (build d t id shell w)
  unfolding build
  build_ran t id shell w =
      let sorted = sort_commands t.commands in
      let w' = say d (d.yellow "==> Starting build...\r\n") w in
      finish-Ends t id shell sorted.failure sorted.success sorted.commands w' _ (
        RunsInOrder-run_commands d id shell t.env (delete_empty t.cache) sorted.failure
          (cache_index 0 sorted.commands 0) 0 sorted.commands w')

  -- The commands after those in `l`, if the job succeeds.
  abbrev wanted : Task → List Command → List Command
  wanted t l =
      let sorted = sort_commands t.commands in (l ++ sorted.commands) ++ one_or_none sorted.success

  build-Ends :
      (t : Task) (id shell : String) (w : World S) (l : List Command)
      → w.ran ≡ l
      → Ends (wanted t l) (build d t id shell w)
  build-Ends t id shell w l e q = build_ran t id shell w q ∙ ap (wanted t) e

  created-Ends :
      (l m : List Command) (r : S × String × Option String) (w : World S)
      (rest : String → World S → World S × Option String)
      → w.ran ≡ l
      → ((id : String) (w' : World S) → w'.ran ≡ l → Ends m (rest id w'))
      → Ends m (created d r w rest)
  created-Ends l m (s, id, some e) w rest h k = λ q. cc
  created-Ends l m (s, id, none) w rest h k = k id (record w { outside = s }) h

  started-Ends :
      (t : Task) (id : String) (r : S × Option String) (w : World S) (l : List Command)
      → w.ran ≡ l
      → Ends (wanted t l) (started d t id r w)
  started-Ends t id (s, none) w l h = build-Ends t id "bash" (record w { outside = s }) l h
  started-Ends t id (s, some e) w l h =
      created-Ends l (wanted t l) _ _ _ h (λ id' w' h'. build-Ends t id' "sh" w' l h')

  choice-Ends :
      (b : Bool) (x y : World S × Option String) (l : List Command)
      → Ends l x
      → Ends l y
      → Ends l (if b then x else y)
  choice-Ends true x y l h k = h
  choice-Ends false x y l h k = k

  begin-Ends :
      (t : Task) (id : String) (w : World S) (l : List Command)
      → w.ran ≡ l
      → Ends (wanted t l) (begin d t id w)
  begin-Ends t id w l h =
      choice-Ends (d.is_running id w.outside) (build d t id "" w)
        (started d t id (d.start id w.outside) w) (wanted t l) (build-Ends t id "" w l h)
        (started-Ends t id (d.start id w.outside) w l h)

  connected-Ends :
      (t : Task) (o : Option String) (w : World S) → Ends (wanted t w.ran) (connected d t o w)
  connected-Ends t (some e) w = λ q. cc
  connected-Ends t none w =
      created-Ends w.ran (wanted t w.ran) _ w (begin d t) refl
        (λ id w' h. begin-Ends t id w' w.ran h)

  -- If `RunContainer` returns no error, then every command of the job that is not for a failure or a
  -- success has been run, in order, and after them the last of the commands for a success, if there is
  -- one, and nothing else: of several commands for a success the others are never run.
  pub run_container_ran :
      (t : Task) (w : World S)
      → (run_container d t w).1 ≡ none
      → (run_container d t w).0.ran
        ≡ (w.ran ++ keep is_main t.commands)
          ++ one_or_none (last_of (λ c. is_success c.type) t.commands none)
  unfolding run_container
  run_container_ran t w q =
      connected-Ends t (d.connect w.outside) w q
      ∙ ap (λ l. (w.ran ++ l) ++ one_or_none (sort_commands t.commands).success)
          (sort_commands-keep t.commands)
      ∙ ap (λ o. (w.ran ++ keep is_main t.commands) ++ one_or_none o)
          (sort_commands_success t.commands)
