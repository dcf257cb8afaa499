-- ===== src/Ppk/Jobs.antt =====
-- scripts/ppk_qa_worker.py: the tables of the QA database, the epochs and the leases of the job
-- ledger. Times are microseconds since 1970; a time of week is kept in microseconds too, which is
-- what the six decimals of `round` keep.
use slope_monitoring.Common.{
  ℕ, ◌+◌, ◌-◌, ◌*◌, ◌/◌, ◌%◌, String, Bool, ◌&&◌, Option, none, some, List, [], ◌∷◌, ltb, leb, ◌==◌,
  str_eq, if◌then◌else◌,
}
use slope_monitoring.Errors.{Result, ok, err, value_error, runtime_error, require, ◌>>=◌, ◌>>◌}
use slope_monitoring.Blast.Values.{Timestamp, naive, aware}

pub data Status : Type 0 where
  running completed failed : Status

-- ppk_qa_jobs, with PRIMARY KEY (site_id, rover_device_id, window_start_utc, input_fingerprint)
pub record Job : Type 0 where
  pub site_id : String
  pub rover_device_id : String
  pub window_start_utc : ℕ
  pub input_fingerprint : String
  pub status : Status
  pub attempts : ℕ
  pub solution_count : ℕ
  pub last_error : Option String
  pub updated_at : ℕ

pub record Key : Type 0 where
  pub site_id : String
  pub rover_id : String
  pub window_start : ℕ
  pub fingerprint : String

unfoldable pub has_key : Key → Job → Bool
has_key k j =
    str_eq j.site_id k.site_id
    && str_eq j.rover_device_id k.rover_id
    && j.window_start_utc == k.window_start
    && str_eq j.input_fingerprint k.fingerprint

-- SELECT status, updated_at, attempts FROM ppk_qa_jobs WHERE ...
unfoldable pub find_job : Key → List Job → Option Job
find_job k [] = none
find_job k (j ∷ js) = if has_key k j then some j else find_job k js

-- UPDATE ppk_qa_jobs SET ... WHERE ...
unfoldable pub update_job : Key → (Job → Job) → List Job → List Job
update_job k f [] = []
update_job k f (j ∷ js) = if has_key k j then f j ∷ update_job k f js else j ∷ update_job k f js

-- the row that is inserted
unfoldable pub new_job : Key → ℕ → Job
new_job k now = record {
  site_id = k.site_id;
  rover_device_id = k.rover_id;
  window_start_utc = k.window_start;
  input_fingerprint = k.fingerprint;
  status = running;
  attempts = 1;
  solution_count = 0;
  last_error = none;
  updated_at = now;
}

-- the columns that ON CONFLICT ... DO UPDATE sets
unfoldable pub restarted : ℕ → Job → Job
restarted now j = record j {
  status = running;
  attempts = j.attempts + 1;
  updated_at = now;
  last_error = none;
}

-- INSERT ... VALUES (..., 'RUNNING', 1) ON CONFLICT ... DO UPDATE SET ...
unfoldable pub claim_job : Key → ℕ → List Job → List Job
claim_job k now js = elim (find_job k js) [
  | none ↦ new_job k now ∷ js
  | some j ↦ update_job k (restarted now) js
]

unfoldable pub as_completed : ℕ → ℕ → Job → Job
as_completed count now j = record j { status = completed; solution_count = count; updated_at = now }

unfoldable pub as_failed : String → ℕ → Job → Job
as_failed error now j = record j { status = failed; last_error = some error; updated_at = now }

unfoldable pub complete_job : Key → ℕ → ℕ → List Job → List Job
complete_job k count now js = update_job k (as_completed count now) js

unfoldable pub fail_job : Key → String → ℕ → List Job → List Job
fail_job k error now js = update_job k (as_failed error now) js

abbrev pub second : ℕ
second = 1000000

-- age >= ttl_seconds, with the default of 1800 seconds
unfoldable pub stale_running_lease : Option Timestamp → Timestamp → Result Bool
stale_running_lease (some (aware updated)) (aware now) =
    if ltb now updated then err value_error else ok (leb (1800 * second) (now - updated))
stale_running_lease updated now = err value_error

abbrev pub week_length : ℕ
week_length = 604800 * second

-- GPS_EPOCH, 1980-01-06, less the 18 leap seconds of 2026
abbrev pub gps_zero : ℕ
gps_zero = (315964800 - 18) * second

-- the week and the time of week, of a time in 2026
unfoldable pub gps_epoch_2026 : Timestamp → Result (ℕ × ℕ)
gps_epoch_2026 (naive t) = err value_error
gps_epoch_2026 (aware t) = do
  require (leb (1767225600 * second) t && ltb t (1798761600 * second)) value_error
  let total = t - gps_zero
  ok (total / week_length, total % week_length)

module _ (Measured : Type 0) where
  -- ppk_qa_experimental_solutions; `measured` holds the columns from latitude_deg to ratio, and the
  -- last three columns are constants of the code
  pub record SolutionRow : Type 0 where
    pub source_pos_sha256 : String
    pub site_id : String
    pub base_device_id : String
    pub rover_device_id : String
    pub gps_week : ℕ
    pub gps_tow : ℕ
    pub measured : Measured

module _ {Measured : Type 0} where
  unfoldable pub same_epoch : SolutionRow Measured → SolutionRow Measured → Bool
  same_epoch v r =
      str_eq r.site_id v.site_id
      && str_eq r.rover_device_id v.rover_device_id
      && r.gps_week == v.gps_week
      && r.gps_tow == v.gps_tow

  -- SELECT ... WHERE site_id=$1 AND rover_device_id=$2 AND gps_week=$3 AND gps_tow_s=$4
  unfoldable pub at_epoch :
      SolutionRow Measured → List (SolutionRow Measured) → List (SolutionRow Measured)
  at_epoch v [] = []
  at_epoch v (r ∷ rs) = if same_epoch v r then r ∷ at_epoch v rs else at_epoch v rs

  module _ (same_measured : Measured → Measured → Bool) where
    -- old_values == new_values
    unfoldable pub same_content : SolutionRow Measured → SolutionRow Measured → Bool
    same_content v r =
        str_eq r.source_pos_sha256 v.source_pos_sha256
        && str_eq r.base_device_id v.base_device_id
        && same_measured r.measured v.measured

    -- one round of the loop of the transaction
    unfoldable pub store_value :
        SolutionRow Measured → List (SolutionRow Measured) → Result (List (SolutionRow Measured))
    store_value v rows = elim (at_epoch v rows) [
      | [] ↦ ok (v ∷ rows)
      | r ∷ [] ↦ require (same_content v r) runtime_error >> ok rows
      | r ∷ q ∷ more ↦ err runtime_error
    ]

    unfoldable pub store_values :
        List (SolutionRow Measured)
        → List (SolutionRow Measured)
        → Result (List (SolutionRow Measured))
    store_values [] rows = ok rows
    store_values (v ∷ vs) rows = store_value v rows >>= λ next. store_values vs next
