-- ===== src/Scheduler/Ops/Stopping.antt =====
-- What `Stop` of server/scheduler/scheduler.go leaves behind.
use abstruse.Prelude.{
  ℕ, ◌≡◌, refl, sym, ap, subst, ◌∙◌, Bool, String, List, [], ◌∷◌, Option, none, some, arith, count,
  ==_iff, Option-cases, inl, inr,
}
use abstruse.Core.{Job}
use abstruse.Scheduler.Builds.{Services}
use abstruse.Scheduler.Queue.{find_job}
use abstruse.Scheduler.Queue.Laws.{has_id, count-remove_job_self}
use abstruse.Scheduler.Workers.{get_worker}
use abstruse.Scheduler.State.{JobType, Scheduler, lookup, delete, lookup-delete}
use abstruse.Scheduler.Ops.{stop, stop_pending}
use abstruse.Scheduler.Ops.Invariant.{Inv}
use abstruse.Scheduler.Ops.Effects.{stop_queue, stop_of_pending, stop_of_unknown}

pub find_job_absent : (id : ℕ) (js : List Job) → count (has_id id) js ≡ 0 → find_job id js ≡ none
unfolding find_job
find_job_absent id [] h = refl
find_job_absent id (j ∷ js) h = ground (arith, find_job_absent id js)

pub lookup-delete_self : (id : ℕ) (m : List (ℕ × JobType)) → lookup id (delete id m) ≡ none
lookup-delete_self id m = lookup-delete id id m ∙ rw ((==_iff id id).1 refl)

module _ {S : Type 0} (svc : Services S) (red : String → String) where
  pending_gone :
      (o : Option ℕ) (id now : ℕ) (b : Bool) (s : Scheduler S) (j : JobType)
      → lookup id (stop_pending svc red o id j now b s).0.pending ≡ none
  pending_gone none id now b s j = lookup-delete_self id s.pending
  pending_gone (some p) id now b s j = lookup-delete_self id s.pending

  -- Where no id is queued twice, after `Stop` the id is not queued, and if it was not queued before, it
  -- is not pending either.
  pub stop_gone :
      (id now : ℕ) (b : Bool) (s : Scheduler S)
      → Inv s
      → let t = (stop svc red id now b s).0 in
        (find_job id t.queued ≡ none) × (find_job id s.queued ≡ none → lookup id t.pending ≡ none)
  stop_gone id now b s h = (not_queued, not_pending)
    where
      not_queued : find_job id (stop svc red id now b s).0.queued ≡ none
      not_queued =
          subst (λ q. find_job id q ≡ none) (sym (stop_queue svc red id now b s).0)
            (find_job_absent id _ (count-remove_job_self id s.queued (h.once id)))

      not_pending :
          find_job id s.queued ≡ none → lookup id (stop svc red id now b s).0.pending ≡ none
      not_pending e = elim (Option-cases (lookup id s.pending)) [
        | inl f ↦ ap (λ r. lookup id r.0.pending) (stop_of_unknown svc red id now b s e f) ∙ f
        | inr (j, f) ↦
            ap (λ r. lookup id r.0.pending) (stop_of_pending svc red id now b s j e f)
            ∙ pending_gone (get_worker s.heap s.registry j.pb.worker_id) id now b s j
      ]
