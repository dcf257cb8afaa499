-- ===== src/Ppk/Laws/Running.antt =====
-- A run of the worker over its windows: what it keeps, what it reports, and which windows it takes.
use mathlib.Core.Path.{subst}
use mathlib.Core.List.{append_assoc}
use slope_monitoring.Common.{
  ℕ, zero, suc, ◌≡◌, refl, sym, ap, ◌∙◌, inl, inr, Bool, true, false, Option, none, some, List, [],
  ◌++◌, length, leb, arith, Bool-cases, some-injective,
}
use slope_monitoring.Errors.{Result, ok, err, bind-ok, ok-injective}
use slope_monitoring.Ppk.Jobs.{
  completed, running, Job, Key, find_job, claim_job, complete_job, fail_job, as_completed,
  as_failed, store_values,
}
use slope_monitoring.Ppk.Worker.{
  conclude, after_lease, process_eligible, stop_of, continue, Eligibility, Scope, World, Tables,
  Report, eligible, reported, solved_values, solve_and_store, run_job, is_completed, apply_window,
  process_window, run_windows,
}
use slope_monitoring.Ppk.Laws.Storing.{EpochsUnique, Extends, store_values-Extends}
use slope_monitoring.Ppk.Laws.Ledger.{
  KeepsCompleted, NotCompleted, claim_job-KeepsCompleted, find_job-claim_job,
  update_job-KeepsCompleted, as_completed-KeepsKey, as_failed-KeepsKey,
}

module _ {Measured : Type 0} where
  -- Completed jobs stay as they are, stored solutions stay, and no epoch comes to be stored twice.
  pub record Keeps (t t' : Tables Measured) : Type 0 where
    jobs_kept : KeepsCompleted t.jobs t'.jobs
    rows_kept : Extends t.solutions t'.solutions
    unique_kept : EpochsUnique t.solutions → EpochsUnique t'.solutions

  Keeps-refl : (t : Tables Measured) → Keeps t t
  Keeps-refl t = record {
    jobs_kept = λ l j found done. found;
    rows_kept = ([], refl);
    unique_kept = λ u. u;
  }

  Keeps-trans : (t u v : Tables Measured) → Keeps t u → Keeps u v → Keeps t v
  Keeps-trans t u v h k = record {
    jobs_kept = λ l j found done. k.jobs_kept l j (h.jobs_kept l j found done) done;
    rows_kept = (
      k.rows_kept.0 ++ h.rows_kept.0,
      k.rows_kept.1
          ∙ ap (λ x. k.rows_kept.0 ++ x) h.rows_kept.1
          ∙ sym (append_assoc k.rows_kept.0 h.rows_kept.0 t.solutions),
    );
    unique_kept = λ x. k.unique_kept (h.unique_kept x);
  }

  -- a write to the jobs alone
  jobs-Keeps :
      (t : Tables Measured) (js : List Job)
      → KeepsCompleted t.jobs js
      → Keeps t (record t { jobs = js })
  jobs-Keeps t js h = record { jobs_kept = h; rows_kept = ([], refl); unique_kept = λ u. u }

running-NotCompleted :
    (k : Key) (js : List Job) (j : Job)
    → find_job k js ≡ some j
    → j.status ≡ running
    → NotCompleted (find_job k js)
running-NotCompleted k js j found on i again done =
    let same : j ≡ i = some-injective (sym found ∙ again) in ground (arith, ap (λ x. x.status) same)

module _ {Measured : Type 0} (w : World Measured) (s : Scope) where
  is_completed-NotCompleted : (o : Option Job) → is_completed w s o ≡ false → NotCompleted o
  unfolding is_completed
  is_completed-NotCompleted none h j e done = ground arith
  is_completed-NotCompleted (some i) h j e done =
      let same : i ≡ j = some-injective e in ground (arith, ap (λ x. x.status) same)

  solve_and_store-Keeps :
      (k : Key) (b r : List ℕ) (cursor stop : ℕ) (t : Tables Measured) {t' : Tables Measured}
      → solve_and_store w s k b r cursor stop t ≡ ok t'
      → NotCompleted (find_job k t.jobs)
      → Keeps t t'
  unfolding solve_and_store complete_job
  solve_and_store-Keeps k b r cursor stop t {t'} h open_k =
      let (vs, h0, h1) = bind-ok (solved_values w s b r cursor stop) h in
      let (stored, h2, h3) = bind-ok (store_values w.same_measured vs t.solutions) h1 in
      let (more, unique, all_stored) = store_values-Extends w.same_measured vs t.solutions h2 in
      let jobs' = complete_job k (length vs) (w.finished_at cursor) t.jobs in
      let kept : Keeps t (record { jobs = jobs'; solutions = stored }) = record {
        jobs_kept =
            update_job-KeepsCompleted k (as_completed (length vs) (w.finished_at cursor)) t.jobs
              (as_completed-KeepsKey (length vs) (w.finished_at cursor)) open_k;
        rows_kept = more;
        unique_kept = unique;
      } in
      subst (Keeps t) (ok-injective h3) kept

  conclude-Keeps :
      (k : Key) (cursor : ℕ) (t : Tables Measured) (o : Result (Tables Measured))
      → NotCompleted (find_job k t.jobs)
      → ((t' : Tables Measured) → o ≡ ok t' → Keeps t t')
      → Keeps t (conclude w s k cursor t o).1
  unfolding conclude fail_job
  conclude-Keeps k cursor t (ok stored) open_k h = h stored refl
  conclude-Keeps k cursor t (err e) open_k h = jobs-Keeps t _ (
      update_job-KeepsCompleted k (as_failed (w.shown e) (w.finished_at cursor)) t.jobs
        (as_failed-KeepsKey (w.shown e) (w.finished_at cursor)) open_k)

  run_job-Keeps :
      (k : Key) (b r : List ℕ) (cursor stop : ℕ) (t : Tables Measured)
      → NotCompleted (find_job k t.jobs)
      → Keeps t (run_job w s k b r cursor stop t).1
  unfolding run_job
  run_job-Keeps k b r cursor stop t open_k =
      let started = claim_job k (w.claimed_at cursor) t.jobs in
      let t1 : Tables Measured = record t { jobs = started } in
      let (j, found, on) = find_job-claim_job k (w.claimed_at cursor) t.jobs in
      let open_1 = running-NotCompleted k started j found on in
      Keeps-trans t t1 _
        (jobs-Keeps t started (claim_job-KeepsCompleted k (w.claimed_at cursor) t.jobs open_k))
        (conclude-Keeps k cursor t1 (solve_and_store w s k b r cursor stop t1) open_1
          (λ t' e. solve_and_store-Keeps k b r cursor stop t1 e open_1))

  after_lease-Keeps :
      (k : Key) (b r : List ℕ) (cursor stop : ℕ) (t : Tables Measured) (o : Result (Unit {0}))
      → NotCompleted (find_job k t.jobs)
      → Keeps t (after_lease w s k b r cursor stop t o).1
  unfolding after_lease
  after_lease-Keeps k b r cursor stop t (err e) open_k = Keeps-refl t
  after_lease-Keeps k b r cursor stop t (ok u) open_k = run_job-Keeps k b r cursor stop t open_k

  apply_window-Keeps :
      (k : Key) (b r : List ℕ) (cursor stop : ℕ) (t : Tables Measured)
      → Keeps t (apply_window w s k b r cursor stop t).1
  unfolding apply_window
  apply_window-Keeps k b r cursor stop t = elim (Bool-cases (w.locked cursor)) [
    | inr e ↦ rw e (Keeps-refl t)
    | inl e ↦ elim (Bool-cases (is_completed w s (find_job k t.jobs))) [
      | inl c ↦ rw (e, c) (Keeps-refl t)
      | inr c ↦
          rw (e, c)
            (after_lease-Keeps k b r cursor stop t _
              (is_completed-NotCompleted (find_job k t.jobs) c))
    ]
  ]

  process_eligible-Keeps :
      (apply : Bool) (cursor stop : ℕ) (t : Tables Measured) (o : Result (Eligibility w s))
      → Keeps t (process_eligible w s apply cursor stop t o).1
  unfolding process_eligible
  process_eligible-Keeps apply cursor stop t (err e) = Keeps-refl t
  process_eligible-Keeps apply cursor stop t (ok (reported r)) = Keeps-refl t
  process_eligible-Keeps true cursor stop t (ok (eligible b r)) =
      apply_window-Keeps _ b r cursor stop t
  process_eligible-Keeps false cursor stop t (ok (eligible b r)) = Keeps-refl t

  continue-Keeps :
      (cursor stop : ℕ) (t : Tables Measured) (one : Result Report × Tables Measured)
      (rest : Result (List (ℕ × ℕ × Report)) × Tables Measured)
      → Keeps t one.1
      → Keeps one.1 rest.1
      → Keeps t (continue w s cursor stop one rest).1
  unfolding continue
  continue-Keeps cursor stop t (err e, t1) rest h k = h
  continue-Keeps cursor stop t (ok r, t1) (more, t2) h k = Keeps-trans t t1 t2 h k

  run_windows-Keeps :
      (fuel : ℕ) (apply : Bool) (min_matched width cursor end : ℕ) (t : Tables Measured)
      → Keeps t (run_windows w s fuel apply min_matched width cursor end t).1
  unfolding run_windows process_window
  run_windows-Keeps zero apply min_matched width cursor end t = Keeps-refl t
  run_windows-Keeps (suc fuel) apply min_matched width cursor end t =
      let stop = stop_of w s width cursor end in
      let one = process_window w s apply min_matched cursor stop t in
      elim (Bool-cases (leb end cursor)) [
        | inl e ↦ rw e (Keeps-refl t)
        | inr e ↦ rw e (
            continue-Keeps cursor stop t one _ (process_eligible-Keeps apply cursor stop t _)
              (run_windows-Keeps fuel apply min_matched width stop end one.1))
      ]

  -- However a run ends, by its last window or by an exception, and whatever RTKLIB, the source
  -- database and the clocks answered: a job that was completed before is as it was.
  pub run_windows-completed :
      (fuel : ℕ) (apply : Bool) (min_matched width cursor end : ℕ) (t : Tables Measured) (l : Key)
      (j : Job)
      → find_job l t.jobs ≡ some j
      → j.status ≡ completed
      → find_job l (run_windows w s fuel apply min_matched width cursor end t).1.jobs ≡ some j
  run_windows-completed fuel apply min_matched width cursor end t l j found done =
      (run_windows-Keeps fuel apply min_matched width cursor end t).jobs_kept l j found done

  -- However a run ends, the table of solutions is the rows that it had, unchanged, and new ones; and if
  -- no epoch of a rover was stored twice before the run, none is after it.
  pub run_windows-EpochsUnique :
      (fuel : ℕ) (apply : Bool) (min_matched width cursor end : ℕ) (t : Tables Measured)
      → EpochsUnique t.solutions
      → Extends t.solutions (run_windows w s fuel apply min_matched width cursor end t).1.solutions
        × EpochsUnique (run_windows w s fuel apply min_matched width cursor end t).1.solutions
  run_windows-EpochsUnique fuel apply min_matched width cursor end t unique =
      let kept = run_windows-Keeps fuel apply min_matched width cursor end t in
      (kept.rows_kept, kept.unique_kept unique)
