-- ===== src/Blast/Reconcile.antt =====
-- services/device_config_service/blast_timeout_reconciler.py: `reconcile_once`, one pass over all
-- active triggers. `before` is the order of device ids in the database; `now` and `clock` give the times
-- of the transaction of each base.
use slope_monitoring.Common.{
  ℕ, zero, suc, ◌+◌, String, Bool, true, false, not, ◌&&◌, ◌||◌, Option, none, some, List, [], ◌∷◌,
  length, take, ltb, leb, ◌==◌, str_eq, if◌then◌else◌,
}
use slope_monitoring.Common.Int.{pos}
use slope_monitoring.Errors.{Result, ok, err, value_error, ◌>>=◌}
use slope_monitoring.Blast.Values.{Value, boolean, integer}
use slope_monitoring.Blast.Tables.{ConfigRow, Db}
use slope_monitoring.Blast.Expiry.{expire_one_on_conn}

-- config_value::text IN ('1','true'); the text of a JSON string keeps its quotes
unfoldable pub is_swept : Value → Bool
is_swept (integer (pos n)) = n == 1
is_swept (boolean b) = b
is_swept v = false

abbrev pub Cursor : Type 0
Cursor = ℕ × String

module _ (before : String → String → Bool) where
  -- (updated_at, device_id) > (c.0, c.1)
  unfoldable pub is_after : Cursor → ConfigRow → Bool
  is_after c r = ltb c.0 r.updated_at || (c.0 == r.updated_at && before c.1 r.device_id)

  unfoldable pub is_past_cursor : Option Cursor → ConfigRow → Bool
  is_past_cursor none r = true
  is_past_cursor (some c) r = is_after c r

  unfoldable pub is_candidate : Option Cursor → ConfigRow → Bool
  is_candidate cursor r =
      str_eq r.config_key "TriggerStart" && is_swept r.config_value && is_past_cursor cursor r

  unfoldable pub candidates : Option Cursor → List ConfigRow → List ConfigRow
  candidates cursor [] = []
  candidates cursor (r ∷ rs) =
      if is_candidate cursor r then r ∷ candidates cursor rs else candidates cursor rs

  -- ORDER BY updated_at, device_id
  unfoldable pub in_order : ConfigRow → ConfigRow → Bool
  in_order r q = not (is_after (q.updated_at, q.device_id) r)

  unfoldable pub insert_row : ConfigRow → List ConfigRow → List ConfigRow
  insert_row r [] = r ∷ []
  insert_row r (q ∷ qs) = if in_order r q then r ∷ q ∷ qs else q ∷ insert_row r qs

  unfoldable pub sort_rows : List ConfigRow → List ConfigRow
  sort_rows [] = []
  sort_rows (r ∷ rs) = insert_row r (sort_rows rs)

  -- the SELECT of a page, with its LIMIT
  unfoldable pub page : ℕ → Option Cursor → Db → List ConfigRow
  page limit cursor db = take limit (sort_rows (candidates cursor db.config))

  -- the cursor after the last candidate of a page, r the first
  unfoldable pub last_key : ConfigRow → List ConfigRow → Cursor
  last_key r [] = (r.updated_at, r.device_id)
  last_key r (q ∷ qs) = last_key q qs

  module _ (now clock : String → ℕ) where
    -- one transaction and those after it: how many commands expired, and the tables, which keep what
    -- was committed before an exception
    unfoldable pub expire_then : Result (Bool × Db) → Db → (Db → Result ℕ × Db) → Result ℕ × Db
    expire_then (err e) db later = (err e, db)
    expire_then (ok (true, next)) db later = ((later next).0 >>= λ n. ok (suc n), (later next).1)
    expire_then (ok (false, next)) db later = later next

    -- for candidate in candidates
    unfoldable pub expire_page : List ConfigRow → Db → Result ℕ × Db
    expire_page [] db = (ok 0, db)
    expire_page (r ∷ rs) db =
        expire_then (expire_one_on_conn r.device_id (now r.device_id) (clock r.device_id) db) db
          (expire_page rs)

    unfoldable pub add_count : ℕ → Option (Result ℕ) → Option (Result ℕ)
    add_count n none = none
    add_count n (some r) = some (r >>= λ m. ok (n + m))

    unfoldable pub next_cursor : Option Cursor → List ConfigRow → Option Cursor
    next_cursor cursor [] = cursor
    next_cursor cursor (r ∷ rs) = some (last_key r rs)

    -- what follows a page: the end after an empty or a short one, or the pages after it
    unfoldable pub after_page :
        ℕ → List ConfigRow → Db → Result ℕ × Db → Option (Result ℕ) × Db → Option (Result ℕ) × Db
    after_page limit [] db done rest = (some (ok 0), db)
    after_page limit (r ∷ rs) db (err e, stopped) rest = (some (err e), stopped)
    after_page limit (r ∷ rs) db (ok n, next) rest =
        if ltb (length (r ∷ rs)) limit then (some (ok n), next) else (add_count n rest.0, rest.1)

    -- the loop; `none` says that the fuel, a number of pages, is used up
    unfoldable pub sweep : ℕ → ℕ → Option Cursor → Db → Option (Result ℕ) × Db
    sweep zero limit cursor db = (none, db)
    sweep (suc fuel) limit cursor db =
        let rows = page limit cursor db in
        let done = expire_page rows db in
        let rest = sweep fuel limit (next_cursor cursor rows) done.1 in
        after_page limit rows db done rest

    -- with fuel for a page of each row and one more
    unfoldable pub reconcile_once : ℕ → Db → Option (Result ℕ) × Db
    reconcile_once limit db =
        if leb 1 limit && leb limit 1000
        then sweep (suc (length db.config)) limit none db
        else (some (err value_error), db)
