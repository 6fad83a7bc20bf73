-- ===== src/Worker/Docker/Order.antt =====
-- Which commands worker/docker/docker.go runs, and in which order.
use abstruse.Prelude.{
  cat, join, split, ℕ, zero, suc, String, ◌≡◌, refl, sym, ap, ◌∙◌, Bool, true, false, not, List, [],
  ◌∷◌, ◌++◌, ◌&&◌, Option, none, some, keep, ◌==◌, append-nil, append_assoc, if◌then◌else◌,
}
use abstruse.Pb.{Command}
use abstruse.Worker.Docker.{
  say, Outcome, returned, finished, run_extra, told, log_error, on_start, restore_cache, upload,
  saved, store_cache, ensure_running, inspected, attempted, executed, exec_cmd, or_return,
  run_commands, run_failure, line,
}
use abstruse.Worker.Plan.{Docker, World, is_main, is_failure, is_success, sort_loop, is_none_left}

abbrev pub one_or_none : Option Command → List Command
one_or_none none = []
one_or_none (some c) = c ∷ []

-- The last element that passes the test, or what there was before.
abbrev pub last_of : (Command → Bool) → List Command → Option Command → Option Command
last_of p [] found = found
last_of p (c ∷ cs) found = last_of p cs (if p c then some c else found)

pick :
    (b : Bool) (c : Command) (main rest : List Command)
    → (if b then main ++ c ∷ [] else main) ++ rest ≡ main ++ (if b then c ∷ rest else rest)
pick true c main rest = append_assoc main (c ∷ []) rest
pick false c main rest = refl

pub sort_loop-keep :
    (cs main : List Command) (failure success : Option Command)
    → sort_loop cs main failure success ≡ record {
      commands = main ++ keep is_main cs;
      failure = last_of (λ c. is_failure c.type) cs failure;
      success = last_of (λ c. is_success c.type) cs success;
    }
unfolding sort_loop
sort_loop-keep [] main failure success =
    ap (λ l. record { commands = l; failure = failure; success = success }) (sym (append-nil main))
sort_loop-keep (c ∷ cs) main failure success =
    sort_loop-keep cs _ _ _
    ∙ ap
        (λ l. record {
          commands = l;
          failure = last_of (λ x. is_failure x.type) (c ∷ cs) failure;
          success = last_of (λ x. is_success x.type) (c ∷ cs) success;
        })
        (pick (is_main c) c main (keep is_main cs))

module _ {S : Type 0} (d : Docker S) where
  -- Beginning with `w`, the commands run were as many of `cs` as came to an end: all of them where the
  -- last exit code is zero; up to the one that failed, and then the failure command, where it is not.
  abbrev pub RunsInOrder : Option Command → List Command → World S → World S × Outcome → Type 0
  RunsInOrder failure cs w (w', finished zero) = w'.ran ≡ w.ran ++ cs
  RunsInOrder failure cs w (w', finished (suc n)) =
      (before : List Command) × (c : Command) × (after : List Command) × (cs ≡ before ++ c ∷ after)
      × (w'.ran ≡ w.ran ++ before ++ c ∷ one_or_none failure)
  RunsInOrder failure cs w (w', returned e) =
      (before : List Command) × (after : List Command) × (cs ≡ before ++ after)
      × (w'.ran ≡ w.ran ++ before)

  told_ran : (done : String) (r : World S × Option String) → (told d done r).ran ≡ r.0.ran
  told_ran done (w, none) = refl
  told_ran done (w, some e) = refl

  restore_cache_ran : (w : World S) → (restore_cache d w).ran ≡ w.ran
  restore_cache_ran w = told_ran "done\r\n" _

  upload_ran :
      (file : String) (r : String × Option String) (w : World S) → (upload d file r w).0.ran ≡ w.ran
  upload_ran file (size, some e) w = refl
  upload_ran file (size, none) w = told_ran "done\r\n" _

  saved_ran : (r : S × String × Option String) (w : World S) → (saved d r w).0.ran ≡ w.ran
  saved_ran (s, file, some e) w = refl
  saved_ran (s, file, none) w = upload_ran file (d.file_size file s) (record w { outside = s })

  store_cache_ran : (w : World S) → (store_cache d w).0.ran ≡ w.ran
  store_cache_ran w = saved_ran _ _

  executed_ran :
      (w : World S) (r : S × List String × String × Option String) → (executed d w r).0.ran ≡ w.ran
  executed_ran w (s, out, id, some e) = refl
  executed_ran w (s, out, id, none) = refl

  exec_cmd_ran :
      (id shell : String) (env : List String) (c : Command) (w : World S)
      → (exec_cmd d id shell env c w).0.ran ≡ w.ran ++ c ∷ []
  unfolding exec_cmd
  exec_cmd_ran id shell env c w =
      let cmd = join (split c.command " ") " " in
      let w' = say d (d.yellow (cat "\r==> " (line cmd))) w in
      executed_ran (record w' { ran = w'.ran ++ c ∷ [] })
        (d.exec id (shell ∷ "-ci" ∷ cmd ∷ []) env w'.outside)

  log_error_ran :
      (f : String → String) (r : World S × String × Option String) → (log_error d f r).ran ≡ r.0.ran
  log_error_ran f (w, id, none) = refl
  log_error_ran f (w, id, some e) = refl

  pub run_extra_ran :
      (message : String) (f : String → String) (id shell : String) (env : List String)
      (o : Option Command) (w : World S)
      → (run_extra d message f id shell env o w).ran ≡ w.ran ++ one_or_none o
  run_extra_ran message f id shell env none w = sym (append-nil w.ran)
  run_extra_ran message f id shell env (some c) w =
      log_error_ran f (exec_cmd d id shell env c (say d message w))
      ∙ exec_cmd_ran id shell env c (say d message w)

  on_start_ran : (r : S × Option String) (w : World S) → (on_start d r w).0.ran ≡ w.ran
  on_start_ran (s, none) w = refl
  on_start_ran (s, some e) w = refl

  choice_ran :
      (b : Bool) (x y : World S × Option String) (l : List Command)
      → x.0.ran ≡ l
      → y.0.ran ≡ l
      → (if b then x else y).0.ran ≡ l
  choice_ran true x y l h k = h
  choice_ran false x y l h k = k

  ensure_running_ran : (id : String) (w : World S) → (ensure_running d id w).0.ran ≡ w.ran
  ensure_running_ran id w =
      choice_ran (d.is_running id w.outside) (w, none) (on_start d (d.start id w.outside) w) w.ran
        refl (on_start_ran (d.start id w.outside) w)

  restored_ran : (b : Bool) (w : World S) → (if b then restore_cache d w else w).ran ≡ w.ran
  restored_ran true w = restore_cache_ran w
  restored_ran false w = refl

  RunsInOrder-or_return :
      (failure : Option Command) (cs : List Command) (w : World S) (r : World S × Option String)
      (rest : World S → World S × Outcome)
      → r.0.ran ≡ w.ran
      → ((w' : World S) → w'.ran ≡ w.ran → RunsInOrder failure cs w (rest w'))
      → RunsInOrder failure cs w (or_return d r rest)
  RunsInOrder-or_return failure cs w (w', some e) rest h k =
      ([], cs, refl, h ∙ sym (append-nil w.ran))
  RunsInOrder-or_return failure cs w (w', none) rest h k = k w' h

  RunsInOrder-cons :
      (failure : Option Command) (c : Command) (cs : List Command) (w w' : World S)
      (r : World S × Outcome)
      → w'.ran ≡ w.ran ++ c ∷ []
      → RunsInOrder failure cs w' r
      → RunsInOrder failure (c ∷ cs) w r
  RunsInOrder-cons failure c cs w w' (u, finished zero) e h =
      h ∙ ap (λ l. l ++ cs) e ∙ append_assoc w.ran (c ∷ []) cs
  RunsInOrder-cons failure c cs w w' (u, finished (suc n)) e (before, x, after, p, h) = (
    c ∷ before,
    x,
    after,
    ap (◌∷◌ c) p,
    h
        ∙ ap (λ l. l ++ before ++ x ∷ one_or_none failure) e
        ∙ ap (λ l. l ++ x ∷ one_or_none failure) (append_assoc w.ran (c ∷ []) before),
  )
  RunsInOrder-cons failure c cs w w' (u, returned e') e (before, after, p, h) = (
    c ∷ before,
    after,
    ap (◌∷◌ c) p,
    h ∙ ap (λ l. l ++ before) e ∙ append_assoc w.ran (c ∷ []) before,
  )

  -- The command has been run, and the rest is done from there.
  RunsInOrder-or_return_cons :
      (failure : Option Command) (c : Command) (cs : List Command) (w : World S)
      (r : World S × Option String) (rest : World S → World S × Outcome)
      → r.0.ran ≡ w.ran ++ c ∷ []
      → ((w' : World S) → RunsInOrder failure cs w' (rest w'))
      → RunsInOrder failure (c ∷ cs) w (or_return d r rest)
  RunsInOrder-or_return_cons failure c cs w (w', some e) rest h k = (c ∷ [], cs, refl, h)
  RunsInOrder-or_return_cons failure c cs w (w', none) rest h k =
      RunsInOrder-cons failure c cs w w' (rest w') h (k w')

module _ {S : Type 0} (d : Docker S) (id shell : String) (env cache : List String)
    (failure : Option Command) (last : ℕ) where
  stored_ran : (b : Bool) (w : World S) → (if b then store_cache d w else (w, none)).0.ran ≡ w.ran
  stored_ran true w = store_cache_ran d w
  stored_ran false w = refl

  RunsInOrder-inspected :
      (c : Command) (cs : List Command) (w w' : World S) (save : Bool)
      (rest : World S → World S × Outcome) (code : ℕ × Option String)
      → w'.ran ≡ w.ran ++ c ∷ []
      → ((u : World S) → RunsInOrder d failure cs u (rest u))
      → RunsInOrder d failure
          (c ∷ cs)
          w
          (inspected d save (run_failure d id shell env cache failure last) rest code w')
  RunsInOrder-inspected c cs w w' save rest (code, some e) h k = (c ∷ [], cs, refl, h)
  RunsInOrder-inspected c cs w w' save rest (zero, none) h k =
      RunsInOrder-or_return_cons d failure c cs w _ rest (stored_ran save w' ∙ h) k
  RunsInOrder-inspected c cs w w' save rest (suc code, none) h k = (
    [],
    c,
    cs,
    refl,
    run_extra_ran d _ line id shell env failure w'
        ∙ ap (λ l. l ++ one_or_none failure) h
        ∙ append_assoc w.ran (c ∷ []) (one_or_none failure)
        ∙ ap (λ l. l ++ c ∷ one_or_none failure) (sym (append-nil w.ran)),
  )

  RunsInOrder-attempted :
      (c : Command) (cs : List Command) (w : World S) (save : Bool)
      (rest : World S → World S × Outcome) (r : World S × String × Option String)
      → r.0.ran ≡ w.ran ++ c ∷ []
      → ((u : World S) → RunsInOrder d failure cs u (rest u))
      → RunsInOrder d failure
          (c ∷ cs)
          w
          (attempted d save (run_failure d id shell env cache failure last) rest r)
  RunsInOrder-attempted c cs w save rest (w', x, some e) h k = (c ∷ [], cs, refl, h)
  RunsInOrder-attempted c cs w save rest (w', x, none) h k =
      RunsInOrder-inspected c cs w w' save rest (d.exit_code x w'.outside) h k

  -- The loop runs the commands in their order: all of them where it finishes with the exit code zero; up
  -- to the one that failed, and then the failure command if there is one, where it finishes with another;
  -- and a part from the first one on where an error of docker or of the cache ends it.
  pub RunsInOrder-run_commands :
      (i : ℕ) (cs : List Command) (w : World S)
      → RunsInOrder d failure cs w (run_commands d id shell env cache failure last i cs w)
  unfolding run_commands
  RunsInOrder-run_commands i [] w = sym (append-nil w.ran)
  RunsInOrder-run_commands i (c ∷ cs) w =
      RunsInOrder-or_return d failure (c ∷ cs) w (ensure_running d id w) _
        (ensure_running_ran d id w)
        (λ w1 e.
          let b = i == 0 && not (is_none_left cache) in
          let w2 = if b then restore_cache d w1 else w1 in
          RunsInOrder-attempted c cs w (i == last && not (is_none_left cache))
            (run_commands d id shell env cache failure last (suc i) cs)
            (exec_cmd d id shell env c w2)
            (exec_cmd_ran d id shell env c w2 ∙ ap (λ l. l ++ c ∷ []) (restored_ran d b w1 ∙ e))
            (λ u. RunsInOrder-run_commands (suc i) cs u))
