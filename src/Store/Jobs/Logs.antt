-- ===== src/Store/Jobs/Logs.antt =====
-- What is written of the log of a job.
use abstruse.Prelude.{
  ℕ, ◌-◌, ◌≤◌, ◌≡◌, refl, sym, subst, String, Bool, true, false, ltb, List, [], length, take, drop,
  ◌++◌, take-append-drop, length-drop, err, if◌then◌else◌, arith,
}
use abstruse.Core.{Job}
use abstruse.Store.Jobs.{JobTable, max_log, cut, shortened, update}

-- The end of a list of bytes that fits into the column.
abbrev IsEnd : List ℕ → List ℕ → Type 0
IsEnd log rest = (length rest ≤ max_log) × ((lost : List ℕ) × (lost ++ rest ≡ log))

cut-IsEnd : (log : List ℕ) → IsEnd log (cut log)
unfolding cut
cut-IsEnd log = by_test (ltb max_log (length log)) refl
  where
    by_test :
        (b : Bool)
        → ltb max_log (length log) ≡ b
        → IsEnd log (if b then drop (length log - max_log) log else log)
    by_test true h = (
      omega (arith, length-drop (length log - max_log) log),
      (take (length log - max_log) log, take-append-drop (length log - max_log) log),
    )
    by_test false h = (ground arith, ([], refl))

module _ {S : Type 0} (table : JobTable S) where
  -- After an error of the first write, the job is written once more, with the end of its log that fits
  -- into the column, where the conversion of bytes to a text and back keeps them.
  update_retried :
      ((log : List ℕ) → table.bytes (table.text log) ≡ log)
      → (job : Job) (s s1 : S) (e : String) → table.updates job s ≡ (err e, s1)
      → (log : String) × (update table job s ≡ table.updates (record job { log = log }) s1)
        × IsEnd (table.bytes job.log) (table.bytes log)
  unfolding update shortened
  update_retried kept job s s1 e h =
      rw h (by_test (ltb max_log (length (table.bytes job.log))) refl)
    where
      by_test :
          (b : Bool)
          → ltb max_log (length (table.bytes job.log)) ≡ b
          → (log : String) × (table.updates
                (if b then record job { log = table.text (cut (table.bytes job.log)) } else job)
                s1
              ≡ table.updates (record job { log = log }) s1)
            × IsEnd (table.bytes job.log) (table.bytes log)
      by_test true t = (
        table.text (cut (table.bytes job.log)),
        refl,
        subst (IsEnd (table.bytes job.log)) (sym (kept (cut (table.bytes job.log))))
            (cut-IsEnd (table.bytes job.log)),
      )
      by_test false t = (job.log, refl, (ground arith, ([], refl)))
