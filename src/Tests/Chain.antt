-- ===== src/Tests/Chain.antt =====
-- The theorem on the parts together at a concrete input: a push to an empty queue.
use abstruse.Prelude.{◌≡◌, refl, arith, true, [], none}
use abstruse.Scheduler.Ops.Invariant.{Inv}
use abstruse.Store.Builds.{generate_build}
use abstruse.Webhook.Handler.{trigger}
use abstruse.Pipeline.Queue.{expected, stores, seen, trigger-expected}
use abstruse.Tests.Data.{repository, scheduler, services, red}
use abstruse.Tests.Hooks.{hook, clients}
use abstruse.Tests.Storing.{go_scm, engines, tables}

pub empty-Inv : Inv (scheduler [] [])
empty-Inv = record { once = λ id. ground arith; counted = λ p. refl }

trigger-expected_example :
    seen clients
      (λ rows. none)
      (λ uid rows. none)
      services
      red
      engines
      go_scm
      tables
      4
      true
      (trigger clients
        (stores clients (λ rows. none) (λ uid rows. none) services red engines go_scm tables 4 true)
        repository
        hook
        (scheduler [] []))
    ≡ expected (generate_build engines go_scm tables repository hook []).0 []
trigger-expected_example =
    trigger-expected clients (λ rows. none) (λ uid rows. none) services red engines go_scm tables 4
      true repository hook (scheduler [] []) empty-Inv
