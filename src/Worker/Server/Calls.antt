-- ===== src/Worker/Server/Calls.antt =====
-- The map of the running jobs of worker/app/server.go holds no job without a call of `StartJob` for it.
use mathlib.Core.Bool.{true≢false}
use abstruse.Prelude.{
  All, if-holds, ℕ, ◌≡◌, inl, inr, refl, sym, ap, ◌∙◌, Bool, true, false, not, List, [], ◌∷◌, ◌++◌,
  Option, none, some, ◌==◌, ==_iff, if◌then◌else◌, or_true_left, or_true_right, either_true,
}
use abstruse.Pb
use abstruse.Worker.Server.{
  Containers, container_name, Call, Server, Event, start, fail, pulled, ran, halt, holds, delete,
  call_at, clean, start_call, return_from, check, run_call, stop_job, has_got, on_call, step, run,
}
use abstruse.Worker.Server.Keys.{
  called, Covered, holds-delete, delete-Covered, called-call_at, called-append, covered, All-called,
}

clean-Covered :
    {D : Type 0} (containers : Containers D) (job : Pb.Job) (s : Server D) (c : Call)
    (rest : List Call)
    → c.job.id ≡ job.id
    → ((id : ℕ) → holds id s.jobs ≡ true → called id (c ∷ rest) ≡ true)
    → Covered (clean containers job s).jobs rest
unfolding clean
clean-Covered containers job s c rest e h = from (holds job.id s.jobs) refl
  where
    from :
        (b : Bool)
        → holds job.id s.jobs ≡ b
        → Covered
            (if b
              then record s {
                jobs = delete job.id s.jobs;
                docker = (containers.stop (container_name job) s.docker).0;
              }
              else s).jobs
            rest
    from true held id there = delete-Covered job.id s.jobs c rest e h id there
    from false free id there = elim (either_true (c.job.id == id) _ (h id there)) [
      | inl here ↦ absurd (
          true≢false
            (sym there ∙ (ap (λ n. holds n s.jobs) (sym ((==_iff _ _).0 here) ∙ e) ∙ free)))
      | inr else_where ↦ else_where
    ]

clean_calls :
    {D : Type 0} (containers : Containers D) (job : Pb.Job) (s : Server D)
    → (clean containers job s).calls ≡ s.calls
unfolding clean
clean_calls {D = D} containers job s =
    if-holds (λ (t : Server D). t.calls ≡ s.calls) (holds job.id s.jobs) refl refl

clean-holds :
    {D : Type 0} (containers : Containers D) (job : Pb.Job) (s : Server D) (id : ℕ)
    → holds id (clean containers job s).jobs ≡ true
    → holds id s.jobs ≡ true
unfolding clean
clean-holds {D = D} containers job s id =
    if-holds (λ (t : Server D). holds id t.jobs ≡ true → holds id s.jobs ≡ true)
      (holds job.id s.jobs) (λ h. (holds-delete id job.id s.jobs h).0) (λ h. h)

-- Every key of the map has a call in progress.
abbrev IsServer : {D : Type 0} → Server D → Type 0
IsServer s = Covered s.jobs s.calls

-- Every key of the map has a call in progress, key by key.
abbrev pub AllCalled : {D : Type 0} → Server D → Type 0
AllCalled s = All (λ id. called id s.calls ≡ true) s.jobs

module _ {D : Type 0} (containers : Containers D) where
  start_call-IsServer :
      (job : Pb.Job) (s : Server D) → IsServer s → IsServer (start_call containers job s)
  unfolding start_call holds
  start_call-IsServer job s h id there =
      let new : Call = record { job = job; checked = false } in
      let calls =
        ap (λ cs. called id (cs ++ new ∷ [])) (clean_calls containers job s)
        ∙ called-append id s.calls new in
      elim (either_true (job.id == id) _ there) [
        | inl here ↦ calls ∙ or_true_right (called id s.calls) here
        | inr before ↦ calls ∙ or_true_left _ (h id (clean-holds containers job s id before))
      ]

  return_from-IsServer :
      (c : Call) (rest : List Call) (s : Server D)
      → Covered s.jobs (c ∷ rest)
      → IsServer (return_from containers c rest s)
  unfolding return_from
  return_from-IsServer c rest s h = clean-Covered containers c.job s c rest refl h

  check-IsServer :
      (c : Call) (rest : List Call) (s : Server D)
      → Covered s.jobs (c ∷ rest)
      → IsServer (check containers c rest s)
  unfolding check
  check-IsServer c rest s h =
      if-holds (λ (t : Server D). IsServer t) (not (holds c.job.id s.jobs))
        (return_from-IsServer c rest s h) (λ id there. h id there)

  run_call-IsServer :
      (c : Call) (rest : List Call) (s : Server D)
      → Covered s.jobs (c ∷ rest)
      → IsServer (run_call containers c rest s)
  unfolding run_call
  run_call-IsServer c rest s h = return_from-IsServer c rest _ h

  stop_job-IsServer :
      (job : Pb.Job) (s : Server D) → IsServer s → IsServer (stop_job containers job s).0
  unfolding stop_job
  stop_job-IsServer job s h =
      if-holds (λ (p : Server D × Bool). IsServer p.0)
        (containers.exists (container_name job) s.docker)
        (λ id there. h id (holds-delete id job.id s.jobs there).0)
        (λ id there. h id (holds-delete id job.id s.jobs there).0)

  on_call-IsServer :
      (o : Option (Call × List Call)) (i : ℕ) (checked : Bool) (s : Server D)
      (f : Call → List Call → Server D → Server D)
      → call_at i s.calls ≡ o
      → ((c : Call) (rest : List Call) → Covered s.jobs (c ∷ rest) → IsServer (f c rest s))
      → IsServer s
      → IsServer (on_call containers o checked f s)
  on_call-IsServer none i checked s f e k h = h
  on_call-IsServer (some (c, rest)) i checked s f e k h =
      if-holds (λ (t : Server D). IsServer t) (has_got c.checked checked)
        (k c rest (λ id there. sym (called-call_at i s.calls rest c id e) ∙ h id there)) h

  step-IsServer : (e : Event) (s : Server D) → IsServer s → IsServer (step containers e s)
  unfolding step
  step-IsServer (start job) s h = start_call-IsServer job s h
  step-IsServer (fail i) s h =
      on_call-IsServer (call_at i s.calls) i false s _ refl
        (λ c rest k. return_from-IsServer c rest s k) h
  step-IsServer (pulled i) s h =
      on_call-IsServer (call_at i s.calls) i false s _ refl (λ c rest k. check-IsServer c rest s k)
        h
  step-IsServer (ran i) s h =
      on_call-IsServer (call_at i s.calls) i true s _ refl
        (λ c rest k. run_call-IsServer c rest s k) h
  step-IsServer (halt job) s h = stop_job-IsServer job s h

  run-IsServer : (es : List Event) (s : Server D) → IsServer s → IsServer (run containers es s)
  unfolding run
  run-IsServer [] s h = h
  run-IsServer (e ∷ es) s h = run-IsServer es (step containers e s) (step-IsServer e s h)

  -- After any list of events, in which calls of `StartJob` and `StopJob` interleave in any order, every job
  -- in the worker's map has a call of `StartJob` in progress, where that was so before: no way out of
  -- `StartJob` leaves its job in the map behind, and stopping a job does not either.
  pub run-AllCalled :
      (es : List Event) (s : Server D) → AllCalled s → AllCalled (run containers es s)
  run-AllCalled es s h =
      let t = run containers es s in
      All-called t.jobs t.calls (run-IsServer es s (covered s.jobs s.calls h))
