-- ===== src/Ppk/Laws/Planning.antt =====
-- The windows that a run of the scheduler takes.
use mathlib.Core.Path.{subst}
use slope_monitoring.Common.{
  ℕ, zero, suc, ◌+◌, ◌-◌, ◌*◌, ◌/◌, ◌%◌, ◌≤◌, ◌<◌, ◌≡◌, refl, sym, ap, ◌∙◌, Option, some, List, [],
  ◌∷◌, length, arith,
}
use slope_monitoring.Common.Int.{ℤ, pos, negsuc, pos_part}
use slope_monitoring.Errors.{ok, bind-ok, ok-injective}
use slope_monitoring.Blast.Values.{Timestamp, aware, minute}
use slope_monitoring.Ppk.Hours.{
  hour, hour_start, hours_before, windows, last_end, hours_from, backlog_windows, bound_of,
  planned_windows,
}

-- The windows are the hours from `start` to `end`, in this order.
abbrev pub Hourly : ℕ → List (ℕ × ℕ) → ℕ → Type 0
Hourly start [] end = start ≡ end
Hourly start (x ∷ xs) end = (x.0 ≡ start) × (x.1 ≡ start + hour) × Hourly (start + hour) xs end

hours_before-Hourly :
    (n end : ℕ) → n * hour ≤ end → Hourly (end - n * hour) (hours_before end n) end
unfolding hours_before
hours_before-Hourly zero end h = omega arith
hours_before-Hourly (suc i) end h =
    let next : end - i * hour ≡ end - suc i * hour + hour = omega (arith, h) in
    (
      refl,
      next,
      subst (λ x. Hourly x (hours_before end i) end) next
          (hours_before-Hourly i end (omega (arith, h))),
    )

length-hours_before : (n end : ℕ) → length (hours_before end n) ≡ n
unfolding hours_before
length-hours_before zero end = refl
length-hours_before (suc i) end = ap suc (length-hours_before i end)

hours_from-Hourly : (n start : ℕ) → Hourly start (hours_from start n) (start + n * hour)
unfolding hours_from
hours_from-Hourly zero start = omega arith
hours_from-Hourly (suc n) start =
    let shift : start + hour + n * hour ≡ start + suc n * hour = omega arith in
    (
      refl,
      refl,
      subst (Hourly (start + hour) (hours_from (start + hour) n)) shift
          (hours_from-Hourly n (start + hour)),
    )

length-hours_from : (n start : ℕ) → length (hours_from start n) ≡ n
unfolding hours_from
length-hours_from zero start = refl
length-hours_from (suc n) start = ap suc (length-hours_from n (start + hour))

last_end-Hourly :
    (ws : List (ℕ × ℕ)) (start end : ℕ) {cutoff : ℕ}
    → Hourly start ws end
    → last_end ws ≡ ok cutoff
    → cutoff ≡ end
unfolding last_end
last_end-Hourly [] start end h e = absurd (ground arith)
last_end-Hourly (x ∷ []) start end h e = sym (ok-injective e) ∙ h.1 ∙ h.2
last_end-Hourly (x ∷ y ∷ ys) start end h e = last_end-Hourly (y ∷ ys) (start + hour) end h.2 e

-- `ws` is a sequence of whole UTC hours, one after the other, that ended at least `grace` minutes
-- before `now`.
pub record IsPlan (now grace : ℕ) (ws : List (ℕ × ℕ)) : Type 0 where
  pub start : ℕ
  pub end : ℕ
  pub hourly : Hourly start ws end
  pub aligned : start % hour ≡ 0
  pub closed : end + grace * minute ≤ now
  pub not_empty : 1 ≤ length ws

-- what an accepted grace and backfill give
windows-accepted :
    (now : ℕ) (grace backfill : ℤ) {ws : List (ℕ × ℕ)}
    → windows (aware now) grace backfill ≡ ok ws
    → (g b : ℕ) × (grace ≡ pos g)
      × (backfill ≡ pos b)
      × (g ≤ 180)
      × (1 ≤ b)
      × (b ≤ 6)
      × (ws ≡ hours_before (hour_start (now - g * minute)) b)
unfolding windows
windows-accepted now (pos g) (pos b) h =
    (g, b, refl, refl, ground arith, ground arith, ground arith, ground arith)
windows-accepted now (negsuc g) b h = absurd (ground arith)
windows-accepted now (pos g) (negsuc b) h = absurd (ground arith)

hours_before-IsPlan :
    (now g b : ℕ)
    → 10 * hour ≤ now
    → g ≤ 180
    → 1 ≤ b
    → b ≤ 6
    → (plan : IsPlan now g (hours_before (hour_start (now - g * minute)) b)) × (now
        < plan.end + g * minute + hour)
unfolding hour_start
hours_before-IsPlan now g b late hg h1 h6 =
    let end = now - g * minute - (now - g * minute) % hour in
    (
      record {
        start = end - b * hour;
        end = end;
        hourly = hours_before-Hourly b end (omega (arith, late, hg, h6));
        aligned = omega (arith, late, hg, h6);
        closed = omega (arith, late, hg);
        not_empty = omega (arith, length-hours_before b end, h1);
      },
      omega (arith, late, hg),
    )

-- Without a backlog the scheduler takes as many hours as asked for, the last of which is the latest
-- hour that is over since the minutes of grace.
windows-IsPlan :
    (now : ℕ) (grace backfill : ℤ) {ws : List (ℕ × ℕ)}
    → 10 * hour ≤ now
    → windows (aware now) grace backfill ≡ ok ws
    → (plan : IsPlan now (pos_part grace) ws) × (length ws ≡ pos_part backfill)
      × (now < plan.end + pos_part grace * minute + hour)
windows-IsPlan now grace backfill late h =
    let (g, b, eg, eb, hg, h1, h6, is) = windows-accepted now grace backfill h in
    let (plan, latest) = hours_before-IsPlan now g b late hg h1 h6 in
    rw (is, eg, eb) (plan, length-hours_before b _, latest)

-- an accepted backlog
backlog_windows-accepted :
    (beginning finish max_windows cutoff : ℕ) {ws : List (ℕ × ℕ)}
    → backlog_windows beginning finish max_windows cutoff ≡ ok ws
    → (n : ℕ) × (ws ≡ hours_from beginning n)
      × (beginning + n * hour ≡ finish)
      × (1 ≤ n)
      × (n ≤ max_windows)
      × (finish ≤ cutoff)
      × (beginning % hour ≡ 0)
unfolding backlog_windows
backlog_windows-accepted beginning finish max_windows cutoff h = (
  (finish - beginning) / hour,
  ground arith,
  ground arith,
  ground arith,
  ground arith,
  ground arith,
  ground arith,
)

module _ (fromisoformat : List ℕ → Option Timestamp) where
  -- A backlog that is accepted is the hours from its first to its second bound, at most as many as
  -- allowed, all of them over since the minutes of grace.
  pub planned_windows-IsPlan :
      (now : ℕ) (grace backfill : ℤ) (since until : List ℕ) (max_windows : ℕ) {ws : List (ℕ × ℕ)}
      → 10 * hour ≤ now
      → planned_windows fromisoformat
          (aware now)
          grace
          backfill
          (some since)
          (some until)
          max_windows
        ≡ ok ws
      → (plan : IsPlan now (pos_part grace) ws) × (bound_of fromisoformat since ≡ ok plan.start)
        × (bound_of fromisoformat until ≡ ok plan.end)
        × (length ws ≤ max_windows)
  unfolding planned_windows
  planned_windows-IsPlan now grace backfill since until max_windows late h =
      let (recent, h0, h1) = bind-ok (windows (aware now) grace backfill) h in
      let (beginning, h2, h3) = bind-ok (bound_of fromisoformat since) h1 in
      let (finish, h4, h5) = bind-ok (bound_of fromisoformat until) h3 in
      let (cutoff, h6, h7) = bind-ok (last_end recent) h5 in
      let latest = (windows-IsPlan now grace backfill late h0).0 in
      let last : cutoff ≡ latest.end =
        last_end-Hourly recent latest.start latest.end latest.hourly h6 in
      let (n, is, to_finish, some_hours, at_most, over, whole) =
        backlog_windows-accepted beginning finish max_windows cutoff h7 in
      let plan : IsPlan now (pos_part grace) (hours_from beginning n) = record {
        start = beginning;
        end = finish;
        hourly =
            subst (Hourly beginning (hours_from beginning n)) to_finish
              (hours_from-Hourly n beginning);
        aligned = whole;
        closed = omega (arith, over, last, latest.closed);
        not_empty = omega (arith, length-hours_from n beginning, some_hours);
      } in
      rw is (plan, h2, h4, omega (arith, length-hours_from n beginning, at_most))
