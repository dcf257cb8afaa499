-- ===== src/Ppk/Laws/Windows.antt =====
-- The windows that a run takes, when it stops, and what a completed window has stored.
use native.Mathlib.Nat.{suc-mul}
use mathlib.Core.Option
use mathlib.Core.Path.{subst}
use slope_monitoring.Common.{
  ℕ, zero, suc, ◌+◌, ◌*◌, ◌≤◌, ◌<◌, ◌≡◌, refl, sym, ap, ◌∙◌, ◌⊎◌, inl, inr, Bool, false, some, List,
  [], ◌∷◌, All, length, leb, arith, Bool-cases,
}
use slope_monitoring.Errors.{Result, ok, err, runtime_error, bind-ok, ok-injective}
use slope_monitoring.Ppk.Jobs.{
  completed, running, Job, Key, find_job, claim_job, complete_job, as_completed, second,
  stale_running_lease, SolutionRow, store_values,
}
use slope_monitoring.Ppk.Worker.{
  Scope, World, Tables, Report, window_completed, solved_values, solve_and_store, conclude, run_job,
  is_completed, check_lease, checked_lease, after_lease, apply_window, process_window, stop_of,
  continue, run_windows,
}
use slope_monitoring.Ppk.Laws.Storing.{IsStored, store_values-Extends}
use slope_monitoring.Ppk.Laws.Ledger.{
  find_job-claim_job, find_job-update_job, as_completed-KeepsKey,
}

-- The windows follow each other from `cursor` to `end`, none longer than `width`, none empty.
abbrev pub Tiles : ℕ → ℕ → ℕ → List (ℕ × ℕ × Report) → Type 0
Tiles width cursor end [] = end ≤ cursor
Tiles width cursor end (x ∷ xs) =
    (x.0 ≡ cursor) × (cursor < x.1) × (x.1 ≤ cursor + width) × (x.1 ≤ end) × Tiles width x.1 end xs

module _ {Measured : Type 0} (w : World Measured) (s : Scope) where
  stop_of-bounds :
      (width cursor end : ℕ)
      → 0 < width
      → cursor < end
      → (cursor < stop_of w s width cursor end)
        × (stop_of w s width cursor end ≤ cursor + width)
        × (stop_of w s width cursor end ≤ end)
  unfolding stop_of
  stop_of-bounds width cursor end h lt = ground arith

  fuel_left :
      (fuel width cursor end : ℕ)
      → end ≤ cursor + suc fuel * width
      → end ≤ stop_of w s width cursor end + fuel * width
  unfolding stop_of
  fuel_left fuel width cursor end h = ground (arith, suc-mul fuel width)

  continue-ok :
      (cursor stop : ℕ) (one : Result Report × Tables Measured)
      (rest : Result (List (ℕ × ℕ × Report)) × Tables Measured) {ws : List (ℕ × ℕ × Report)}
      → (continue w s cursor stop one rest).0 ≡ ok ws
      → (r : Report) × (more : List (ℕ × ℕ × Report)) × (rest.0 ≡ ok more)
        × (ws ≡ (cursor, stop, r) ∷ more)
  unfolding continue
  continue-ok cursor stop (err e, t) rest h = absurd (ground arith)
  continue-ok cursor stop (ok r, t) (o, t') h =
      let (more, e, is) = bind-ok o h in (r, more, e, sym (ok-injective is))

  -- A run with fuel for as many windows as the time from `cursor` to `end` has, the last one possibly
  -- shorter, stops because `end` is reached: where no window raises, the windows that it reports
  -- cover exactly that time.
  pub run_windows-Tiles :
      (fuel : ℕ) (apply : Bool) (min_matched width cursor end : ℕ) (t : Tables Measured)
      {ws : List (ℕ × ℕ × Report)}
      → 0 < width
      → end ≤ cursor + fuel * width
      → (run_windows w s fuel apply min_matched width cursor end t).0 ≡ ok ws
      → Tiles width cursor end ws
  unfolding run_windows
  run_windows-Tiles zero apply min_matched width cursor end t {ws} wide enough h =
      subst (Tiles width cursor end) (ok-injective h) (omega (arith, enough))
  run_windows-Tiles (suc fuel) apply min_matched width cursor end t {ws} wide enough h =
      elim (Bool-cases (leb end cursor)) [
        | inl e ↦
            let none_left : ok [] ≡ ok ws = sym (rw e refl) ∙ h in
            subst (Tiles width cursor end) (ok-injective none_left) (ground arith)
        | inr e ↦
            let stop = stop_of w s width cursor end in
            let one = process_window w s apply min_matched cursor stop t in
            let rest = run_windows w s fuel apply min_matched width stop end one.1 in
            let bounds = stop_of-bounds width cursor end wide (ground arith) in
            let h1 : (continue w s cursor stop one rest).0 ≡ ok ws = sym (rw e refl) ∙ h in
            let (r, more, e1, is) = continue-ok cursor stop one rest h1 in
            subst (Tiles width cursor end) (sym is) (
              refl,
              bounds.0,
              bounds.1,
              bounds.2,
              run_windows-Tiles fuel apply min_matched width stop end one.1 wide
                  (fuel_left fuel width cursor end enough) e1,
            )
      ]

  -- The lock is held by another worker, or there is a job of the window marked as running and less than
  -- half an hour has passed since: the run stops, and has written nothing of the window.
  pub apply_window-stops :
      (k : Key) (b r : List ℕ) (cursor stop : ℕ) (t : Tables Measured)
      → (w.locked cursor ≡ false)
        ⊎ ((j : Job) × (find_job k t.jobs ≡ some j)
            × (j.status ≡ running)
            × (w.clock cursor < j.updated_at + 1800 * second))
      → apply_window w s k b r cursor stop t ≡ (err runtime_error, t)
  unfolding apply_window is_completed checked_lease check_lease stale_running_lease after_lease
  apply_window-stops k b r cursor stop t (inl held) = ground arith
  apply_window-stops k b r cursor stop t (inr (j, found, on, recent)) = ground arith

  -- the job of `k` is completed with the values of the window, which are all in the table
  abbrev pub IsDone : Key → List ℕ → List ℕ → ℕ → ℕ → Tables Measured → Type 0
  IsDone k b r cursor stop t =
      (vs : List (SolutionRow Measured)) × (solved_values w s b r cursor stop ≡ ok vs)
      × All (IsStored w.same_measured t.solutions) vs
      × (j : Job) × (find_job k t.jobs ≡ some j)
      × (j.status ≡ completed)
      × (j.solution_count ≡ length vs)

  solve_and_store-IsDone :
      (k : Key) (b r : List ℕ) (cursor stop : ℕ) (t : Tables Measured) {t' : Tables Measured}
      (j : Job)
      → find_job k t.jobs ≡ some j
      → solve_and_store w s k b r cursor stop t ≡ ok t'
      → IsDone k b r cursor stop t'
  unfolding solve_and_store complete_job as_completed
  solve_and_store-IsDone k b r cursor stop t {t'} j found h =
      let (vs, h0, h1) = bind-ok (solved_values w s b r cursor stop) h in
      let (stored, h2, h3) = bind-ok (store_values w.same_measured vs t.solutions) h1 in
      let count = length vs in
      let now = w.finished_at cursor in
      let written : find_job k (complete_job k count now t.jobs) ≡ some (as_completed count now j) =
        find_job-update_job k (as_completed count now) t.jobs (as_completed-KeepsKey count now)
        ∙ ap (Option.map (as_completed count now)) found in
      let done : IsDone k b r cursor stop
          (record { jobs = complete_job k count now t.jobs; solutions = stored }) =
        (
          vs,
          h0,
          (store_values-Extends w.same_measured vs t.solutions h2).2,
          as_completed count now j,
          written,
          refl,
          refl,
        ) in
      subst (IsDone k b r cursor stop) (ok-injective h3) done

  conclude-completed :
      (k : Key) (cursor : ℕ) (t : Tables Measured) (o : Result (Tables Measured))
      → (conclude w s k cursor t o).0 ≡ window_completed
      → o ≡ ok (conclude w s k cursor t o).1
  unfolding conclude
  conclude-completed k cursor t (ok stored) h = refl
  conclude-completed k cursor t (err e) h = absurd (ground arith)

  run_job-IsDone :
      (k : Key) (b r : List ℕ) (cursor stop : ℕ) (t : Tables Measured)
      → (run_job w s k b r cursor stop t).0 ≡ window_completed
      → IsDone k b r cursor stop (run_job w s k b r cursor stop t).1
  unfolding run_job
  run_job-IsDone k b r cursor stop t h =
      let (j, found, on) = find_job-claim_job k (w.claimed_at cursor) t.jobs in
      let t1 : Tables Measured = record t { jobs = claim_job k (w.claimed_at cursor) t.jobs } in
      solve_and_store-IsDone k b r cursor stop t1 j found
        (conclude-completed k cursor t1 (solve_and_store w s k b r cursor stop t1) h)

  after_lease-IsDone :
      (k : Key) (b r : List ℕ) (cursor stop : ℕ) (t : Tables Measured) (o : Result (Unit {0}))
      → (after_lease w s k b r cursor stop t o).0 ≡ ok window_completed
      → IsDone k b r cursor stop (after_lease w s k b r cursor stop t o).1
  unfolding after_lease
  after_lease-IsDone k b r cursor stop t (err e) h = absurd (ground arith)
  after_lease-IsDone k b r cursor stop t (ok u) h =
      run_job-IsDone k b r cursor stop t (ok-injective h)

  -- A window is reported as completed only when RTKLIB gave values for it that pass all checks, all of
  -- them are in the table of solutions, and the job of the window's fingerprint is completed with
  -- their number.
  pub apply_window-IsDone :
      (k : Key) (b r : List ℕ) (cursor stop : ℕ) (t : Tables Measured)
      → (apply_window w s k b r cursor stop t).0 ≡ ok window_completed
      → IsDone k b r cursor stop (apply_window w s k b r cursor stop t).1
  unfolding apply_window
  apply_window-IsDone k b r cursor stop t h = elim (Bool-cases (w.locked cursor)) [
    | inr e ↦ absurd (ground arith)
    | inl e ↦ elim (Bool-cases (is_completed w s (find_job k t.jobs))) [
      | inl c ↦ absurd (ground arith)
      | inr c ↦
          let o = checked_lease w s cursor (find_job k t.jobs) in
          let h1 : (after_lease w s k b r cursor stop t o).0 ≡ ok window_completed =
            sym (rw (e, c) refl) ∙ h in
          rw (e, c) (after_lease-IsDone k b r cursor stop t o h1)
    ]
  ]
