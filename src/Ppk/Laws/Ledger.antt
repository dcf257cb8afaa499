-- ===== src/Ppk/Laws/Ledger.antt =====
-- The job ledger: what a write to one job leaves of the others.
use mathlib.Core.Option
use slope_monitoring.Common.{
  ℕ, String, ◌≡◌, refl, ◌∙◌, inl, inr, true, false, Option, some, List, [], ◌∷◌, eq_iff, arith,
  Bool-cases, Option-cases,
}
use slope_monitoring.Ppk.Jobs.{
  completed, Job, Key, has_key, find_job, update_job, claim_job, running, new_job, restarted,
  as_completed, as_failed,
}

has_key-congr :
    (k l : Key) (i j : Job) → has_key k j ≡ true → has_key l j ≡ true → has_key k i ≡ has_key l i
unfolding has_key
has_key-congr k l i j hk hl = ground (
  arith,
  eq_iff j.site_id k.site_id,
  eq_iff j.site_id l.site_id,
  eq_iff j.rover_device_id k.rover_id,
  eq_iff j.rover_device_id l.rover_id,
  eq_iff j.input_fingerprint k.fingerprint,
  eq_iff j.input_fingerprint l.fingerprint,
)

-- two keys of the same job find the same
find_job-congr :
    (k l : Key) (j : Job) (js : List Job)
    → has_key k j ≡ true
    → has_key l j ≡ true
    → find_job k js ≡ find_job l js
unfolding find_job
find_job-congr k l j [] hk hl = refl
find_job-congr k l j (i ∷ js) hk hl =
    rw (has_key-congr k l i j hk hl, find_job-congr k l j js hk hl) refl

find_job-has_key : (k : Key) (js : List Job) {j : Job} → find_job k js ≡ some j → has_key k j ≡ true
unfolding find_job
find_job-has_key k [] h = absurd (ground arith)
find_job-has_key k (i ∷ js) {j} h = elim (Bool-cases (has_key k i)) [
  | inl e ↦ ground arith
  | inr e ↦ find_job-has_key k js {j = j} (ground arith)
]

-- f changes no column of the key
abbrev pub KeepsKey : (Job → Job) → Type 0
KeepsKey f = (k : Key) (j : Job) → has_key k (f j) ≡ has_key k j

pub find_job-update_job :
    (k : Key) (f : Job → Job) (js : List Job)
    → KeepsKey f
    → find_job k (update_job k f js) ≡ Option.map f (find_job k js)
unfolding find_job update_job
find_job-update_job k f [] keeps = refl
find_job-update_job k f (j ∷ js) keeps = ground (arith, keeps k j, find_job-update_job k f js keeps)

find_job-update_other :
    (k l : Key) (f : Job → Job) (js : List Job) {j : Job}
    → KeepsKey f
    → find_job l js ≡ some j
    → has_key k j ≡ false
    → find_job l (update_job k f js) ≡ some j
unfolding find_job update_job
find_job-update_other k l f [] keeps found other = found
find_job-update_other k l f (i ∷ js) {j} keeps found other =
    let rest = find_job-update_other k l f js {j = j} keeps in ground (arith, keeps l i, rest)

has_key-new_job :
    (k l : Key) (now : ℕ) (j : Job)
    → has_key l (new_job k now) ≡ true
    → has_key l j ≡ true
    → has_key k j ≡ true
unfolding has_key new_job
has_key-new_job k l now j hn hj = ground (
  arith,
  eq_iff k.site_id l.site_id,
  eq_iff k.rover_id l.rover_id,
  eq_iff k.fingerprint l.fingerprint,
)

has_key-new_job_self : (k : Key) (now : ℕ) → has_key k (new_job k now) ≡ true
unfolding has_key new_job
has_key-new_job_self k now = ground (
  arith,
  eq_iff k.site_id k.site_id,
  eq_iff k.rover_id k.rover_id,
  eq_iff k.fingerprint k.fingerprint,
)

restarted-KeepsKey : (now : ℕ) → KeepsKey (restarted now)
unfolding restarted has_key
restarted-KeepsKey now k j = refl

pub as_completed-KeepsKey : (count now : ℕ) → KeepsKey (as_completed count now)
unfolding as_completed has_key
as_completed-KeepsKey count now k j = refl

pub as_failed-KeepsKey : (error : String) (now : ℕ) → KeepsKey (as_failed error now)
unfolding as_failed has_key
as_failed-KeepsKey error now k j = refl

claim_job-other :
    (k l : Key) (now : ℕ) (js : List Job) {j : Job}
    → find_job l js ≡ some j
    → has_key k j ≡ false
    → find_job l (claim_job k now js) ≡ some j
unfolding claim_job find_job
claim_job-other k l now js {j} found other = elim (Option-cases (find_job k js)) [
  | inl e ↦
      let mine = has_key-new_job k l now j in let key = find_job-has_key l js found in ground arith
  | inr (i, e) ↦
      let kept =
        find_job-update_other k l (restarted now) js (restarted-KeepsKey now) found other in
      ground arith
]

-- A job that is found is kept by the writes to another key: `k` is of another job wherever its own
-- entry is not completed and this one is.
abbrev pub KeepsCompleted : List Job → List Job → Type 0
KeepsCompleted js js' =
    (l : Key) (j : Job) → find_job l js ≡ some j → j.status ≡ completed → find_job l js' ≡ some j

abbrev pub NotCompleted : Option Job → Type 0
NotCompleted o = (j : Job) → o ≡ some j → j.status ≡ completed → ⊥

other_key :
    (k l : Key) (js : List Job) {j : Job}
    → NotCompleted (find_job k js)
    → find_job l js ≡ some j
    → j.status ≡ completed
    → has_key k j ≡ false
other_key k l js {j} open_k found done = elim (Bool-cases (has_key k j)) [
  | inl e ↦ absurd (open_k j (find_job-congr k l j js e (find_job-has_key l js found) ∙ found) done)
  | inr e ↦ e
]

pub claim_job-KeepsCompleted :
    (k : Key) (now : ℕ) (js : List Job)
    → NotCompleted (find_job k js)
    → KeepsCompleted js (claim_job k now js)
claim_job-KeepsCompleted k now js open_k l j found done =
    claim_job-other k l now js found (other_key k l js open_k found done)

-- the entry of the key after its claim
pub find_job-claim_job :
    (k : Key) (now : ℕ) (js : List Job)
    → (j : Job) × (find_job k (claim_job k now js) ≡ some j) × (j.status ≡ running)
unfolding claim_job find_job new_job restarted
find_job-claim_job k now js = elim (Option-cases (find_job k js)) [
  | inl e ↦ (new_job k now, ground (arith, has_key-new_job_self k now), refl)
  | inr (i, e) ↦ (
    restarted now i,
    ground (arith, find_job-update_job k (restarted now) js (restarted-KeepsKey now)),
    refl,
  )
]

pub update_job-KeepsCompleted :
    (k : Key) (f : Job → Job) (js : List Job)
    → KeepsKey f
    → NotCompleted (find_job k js)
    → KeepsCompleted js (update_job k f js)
update_job-KeepsCompleted k f js keeps open_k l j found done =
    find_job-update_other k l f js keeps found (other_key k l js open_k found done)
