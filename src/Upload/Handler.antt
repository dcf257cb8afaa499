-- ===== src/Upload/Handler.antt =====
-- apps/api/routers/v1/ingest.py: `upload_data`. Arguments stand for the libraries and for the parts
-- that keep other tables: `decode` for UTF-8, `csv_rows` for the number of csv.reader's records,
-- `parse` for the parser of a route, `config` for the device's contract configuration, and `work`
-- for the outcome of storing the parsed rows and the battery reading.
use slope_monitoring.Common.{ℕ, true, Option, none, some}
use slope_monitoring.Errors.{Result, ok, err, app, ErrorCode, Failure, ◌>>=◌, ◌>>◌}
use slope_monitoring.Upload.Headers.{
  Text, RawHeaders, UploadHeaders, Route, validate_headers, validate_path_file_name,
  validate_record_count, route,
}
use slope_monitoring.Upload.Ledger.{
  UploadRow, Ledger, claimed, duplicate, in_progress, claim_for_processing, mark_processed,
  mark_failed, retain_original_payload, assert_retained_payload_matches,
}

pub data Response : Type 0 where
  accepted duplicate_accepted : Response

module _ (sha256 : Text → Text) (decode : Text → Option Text) (csv_rows : Text → ℕ)
    (parse : Route → Text → Result (Unit {0})) (config : Text → Result (Unit {0}))
    (work : UploadRow → Result (Unit {0})) where
  decoded : Text → Result Text
  decoded body = elim (decode body) [ none ↦ err (app ErrorCode.invalid_csv) | some s ↦ ok s ]

  -- what happens before the claim, none of which touches the ledger
  unfoldable pub checked_headers : Text → RawHeaders → Text → Result UploadHeaders
  unfolding decoded
  checked_headers path raw body = do
    csv ← decoded body
    h ← validate_headers raw
    validate_path_file_name path h
    n ← validate_record_count (csv_rows csv) h.record_count
    r ← route h
    parse r csv
    config h.device_id
    ok h

  -- the answer to a claim of a processed file
  unfoldable pub answer_duplicate : Text → Text → Ledger → Result Response
  answer_duplicate f body l = do
    matched ← assert_retained_payload_matches sha256 f body l
    elim matched [ some true ↦ ok duplicate_accepted | _ ↦ err (app ErrorCode.conflict) ]

  -- the try block: retain the payload, store the rows, and mark the row. `summary` is the text of
  -- the exception.
  unfoldable pub process :
      ℕ → (Failure → Text) → Text → Text → UploadRow → Ledger → Result Response × Ledger
  process now summary f body row l =
      let retained = retain_original_payload sha256 now f body l in
      elim retained.0 [
        | err e ↦ (err e, mark_failed now f (summary e) retained.1)
        | ok p ↦ elim (work row) [
          | err e ↦ (err e, mark_failed now f (summary e) retained.1)
          | ok u ↦ (ok accepted, mark_processed now f retained.1)
        ]
      ]

  unfoldable pub upload_data :
      ℕ → (Failure → Text) → Text → RawHeaders → Text → Ledger → Result Response × Ledger
  unfolding checked_headers answer_duplicate process
  upload_data now summary path raw body l = elim (checked_headers path raw body) [
    | err e ↦ (err e, l)
    | ok h ↦
        let claim = claim_for_processing now h l in
        elim claim.0 [
          | err e ↦ (err e, claim.1)
          | ok (claimed, row) ↦ process now summary h.file_name body row claim.1
          | ok (duplicate, row) ↦ (answer_duplicate h.file_name body claim.1, claim.1)
          | ok (in_progress, row) ↦ (err (app ErrorCode.conflict), claim.1)
        ]
  ]
