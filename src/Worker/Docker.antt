-- ===== src/Worker/Docker.antt =====
-- `RunContainer` and `createContainer` of worker/docker/docker.go, with the closure `execCmd`.
pub mod Order
pub mod Success
pub mod Generated
use abstruse.Prelude.{
  ℕ, zero, suc, String, Bool, true, false, not, List, [], ◌∷◌, ◌++◌, ◌&&◌, ◌||◌, Option, none, some,
  cat, join, split, ◌==◌, keep, str_eq, if◌then◌else◌,
}
use abstruse.Pb.{Command, CommandType, install, script, after_success, after_failure}
use abstruse.Parser.Env.{decimal}
use abstruse.Worker.Plan.{
  Docker, Sorted, Task, World, cache_index, delete_empty, is_cached, is_failure, is_main,
  is_none_left, is_success, sort_commands, sort_loop,
}

-- What a command's execution, or the loop over the commands, comes to.
pub data Outcome : Type 0 where
  returned : String → Outcome
  finished : ℕ → Outcome

abbrev pub line : String → String
line s = cat s "\r\n"

module _ {S : Type 0} (d : Docker S) where
  abbrev pub say : String → World S → World S
  say s w = record w { log = w.log ++ s ∷ [] }

  unfoldable pub bind_mounts : List String → List (String × String)
  bind_mounts [] = []
  bind_mounts (m ∷ ms) =
      let rest = bind_mounts ms in
      elim (split m ":") [
        | source ∷ target ∷ [] ↦ if d.path_exists source then (source, target) ∷ rest else rest
        | _ ↦ rest
      ]

  -- createContainer, once a container of the same name is gone
  abbrev pub create_free : Task → List String → S × Option String → S × String × Option String
  create_free t cmd (s, some e) = (s, "", some e)
  create_free t cmd (s, none) =
      d.create t.name t.image cmd t.env ((t.dir, "/build") ∷ bind_mounts t.mount) s

  unfoldable pub create_container : Task → List String → S → S × String × Option String
  unfolding bind_mounts
  create_container t cmd s =
      create_free t cmd
        (elim (d.container_exists t.name s) [ none ↦ (s, none) | some id ↦ d.remove id s ])

  -- Whether the execution began, and its id: what `execCmd` returns.
  abbrev pub executed :
      World S → S × List String × String × Option String → World S × String × Option String
  executed w (s, out, id, some e) = (say (line e) (record w { outside = s }), "", some e)
  executed w (s, out, id, none) = (record w { outside = s; log = w.log ++ out }, id, none)

  unfoldable pub exec_cmd :
      String → String → List String → Command → World S → World S × String × Option String
  exec_cmd id shell env c w =
      let cmd = join (split c.command " ") " " in
      let w' = say (d.yellow (cat "\r==> " (line cmd))) w in
      executed (record w' { ran = w'.ran ++ c ∷ [] })
        (d.exec id (shell ∷ "-ci" ∷ cmd ∷ []) env w'.outside)

  abbrev pub log_error : (String → String) → World S × String × Option String → World S
  log_error f (w, id, none) = w
  log_error f (w, id, some e) = say (f e) w

  -- The command for a failure or a success, where there is one.
  abbrev pub run_extra :
      String
      → (String → String)
      → String
      → String
      → List String
      → Option Command
      → World S
      → World S
  run_extra message f id shell env none w = w
  run_extra message f id shell env (some c) w =
      log_error f (exec_cmd id shell env c (say message w))

  abbrev pub told : String → World S × Option String → World S
  told done (w, none) = say (d.yellow done) w
  told done (w, some e) = say (d.yellow (line e)) w

  abbrev pub restore_cache : World S → World S
  restore_cache w =
      let w' = say (d.yellow "\r==> Downloading and restoring cache... ") w in
      let (s, err) = d.download_cache w'.outside in told "done\r\n" (record w' { outside = s }, err)

  abbrev pub upload : String → String × Option String → World S → World S × Option String
  upload file (size, some e) w = (w, some e)
  upload file (size, none) w =
      let message = cat "\r==> Uploading cache (" (cat size ") to abstruse server... ") in
      let w' = say (d.yellow message) (say (d.yellow "done\r\n") w) in
      let (s, err) = d.upload_cache file w'.outside in
      (told "done\r\n" (record w' { outside = s }, err), none)

  abbrev pub saved : S × String × Option String → World S → World S × Option String
  saved (s, file, some e) w = (say (d.yellow (line e)) (record w { outside = s }), none)
  saved (s, file, none) w = upload file (d.file_size file s) (record w { outside = s })

  abbrev pub store_cache : World S → World S × Option String
  store_cache w =
      let w' = say (d.yellow "\r==> Saving cache... ") w in saved (d.save_cache w'.outside) w'

  abbrev pub on_start : S × Option String → World S → World S × Option String
  on_start (s, none) w = (record w { outside = s }, none)
  on_start (s, some e) w = (say (line e) (record w { outside = s }), some e)

  abbrev pub ensure_running : String → World S → World S × Option String
  ensure_running id w =
      if d.is_running id w.outside then (w, none) else on_start (d.start id w.outside) w

  abbrev pub or_return : World S × Option String → (World S → World S × Outcome) → World S × Outcome
  or_return (w, some e) rest = (w, returned e)
  or_return (w, none) rest = rest w

  -- From the exit code on; `save` says that the cache is saved after this command.
  abbrev pub inspected :
      Bool
      → (World S → World S)
      → (World S → World S × Outcome)
      → ℕ × Option String
      → World S
      → World S × Outcome
  inspected save fail rest (code, some e) w = (say (line e) w, returned e)
  inspected save fail rest (zero, none) w =
      or_return (if save then store_cache w else (w, none)) rest
  inspected save fail rest (suc code, none) w = (fail w, finished (suc code))

  abbrev pub attempted :
      Bool
      → (World S → World S)
      → (World S → World S × Outcome)
      → World S × String × Option String
      → World S × Outcome
  attempted save fail rest (w, id, some e) = (say (line e) w, returned e)
  attempted save fail rest (w, id, none) = inspected save fail rest (d.exit_code id w.outside) w

module _ {S : Type 0} (d : Docker S) (id shell : String) (env cache : List String)
    (failure : Option Command) (last : ℕ) where
  abbrev pub run_failure : World S → World S
  run_failure w =
      run_extra d (d.red "==> Starting after_failure script...\n") line id shell env failure w

  -- for i, command := range commands; the exit code is that of the command before.
  unfoldable pub run_commands : ℕ → List Command → World S → World S × Outcome
  run_commands i [] w = (w, finished 0)
  run_commands i (c ∷ cs) w = or_return d (ensure_running d id w) (λ w1.
      attempted d (i == last && not (is_none_left cache)) run_failure (run_commands (suc i) cs) (
        exec_cmd d id shell env c
          (if i == 0 && not (is_none_left cache) then restore_cache d w1 else w1)))

module _ {S : Type 0} (d : Docker S) where
  -- From the exit code of the loop on.
  abbrev pub finish :
      Task → String → String → Option Command → World S × Outcome → World S × Option String
  finish t id shell success (w, returned e) = (w, some e)
  finish t id shell success (w, finished zero) = (
    run_extra d (d.green "\r==> Starting after_success script...\r\n") d.red id shell t.env success
        (say d (d.green "\nExit code: 0\r\n") w),
    none,
  )
  finish t id shell success (w, finished (suc code)) = (
    say d (d.red (cat "\nExit code: " (line (decimal (suc code))))) w,
    some (cat "errored: " (decimal (suc code))),
  )

  -- defer cli.ContainerRemove(…)
  abbrev pub removing : String → World S × Option String → World S × Option String
  removing id (w, err) = (record w { outside = (d.remove id w.outside).0 }, err)

  -- From the message "Starting build" on.
  unfoldable pub build : Task → String → String → World S → World S × Option String
  unfolding sort_commands
  build t id shell w =
      let sorted = sort_commands t.commands in
      removing id (
        finish t id shell sorted.success (
          run_commands d id shell t.env (delete_empty t.cache) sorted.failure
            (cache_index 0 sorted.commands 0) 0 sorted.commands
            (say d (d.yellow "==> Starting build...\r\n") w)))

  abbrev pub created :
      S × String × Option String
      → World S
      → (String → World S → World S × Option String)
      → World S × Option String
  created (s, id, some e) w rest = (say d (line e) (record w { outside = s }), some e)
  created (s, id, none) w rest = rest id (record w { outside = s })

  -- The container is started with bash, or where that fails made again with sh.
  abbrev pub started : Task → String → S × Option String → World S → World S × Option String
  started t id (s, none) w = build t id "bash" (record w { outside = s })
  started t id (s, some e) w =
      created (create_container d t ("/bin/sh" ∷ []) s) (record w { outside = s })
        (λ id' w'. build t id' "sh" w')

  abbrev pub begin : Task → String → World S → World S × Option String
  begin t id w =
      if d.is_running id w.outside then build t id "" w else started t id (d.start id w.outside) w

  abbrev pub connected : Task → Option String → World S → World S × Option String
  connected t (some e) w = (w, some e)
  connected t none w = created (create_container d t ("/bin/bash" ∷ []) w.outside) w (begin t)

  unfoldable pub run_container : Task → World S → World S × Option String
  unfolding create_container
  run_container t w = connected t (d.connect w.outside) w
