-- ===== src/Upload/Ledger.antt =====
-- services/ingestion_service/file_upload_repository.py: the tables file_uploads and
-- file_upload_payloads, both with the file name as their primary key. Each SQL statement runs in a
-- transaction of its own, so the three statements of a claim are functions of their own.
-- `sha256` is hashlib's digest. The CHECK constraint of upload_origin is left out: where it refuses a
-- row, the statement raises and changes nothing.
use slope_monitoring.Common.{
  ℕ, ◌+◌, Bool, true, false, ◌&&◌, Option, none, some, List, [], ◌∷◌, length, take, ◌==◌,
  if◌then◌else◌,
}
use slope_monitoring.Common.Text.{codes, text_eq}
use slope_monitoring.Errors.{Result, ok, err, app, ErrorCode, runtime_error}
use slope_monitoring.Upload.Headers.{Text, UploadHeaders}

pub data Status : Type 0 where
  received processing processed failed : Status

pub record UploadRow : Type 0 where
  pub file_name : Text
  pub device_id : Text
  pub data_type : Text
  pub communication_mode : Text
  pub upload_origin : Text
  pub record_count : ℕ
  pub status : Status
  pub attempts : ℕ
  pub processing_started_at : Option ℕ
  pub processed_at : Option ℕ
  pub failed_at : Option ℕ
  pub last_error : Option Text

pub record PayloadRow : Type 0 where
  pub file_name : Text
  pub payload : Text
  pub sha256 : Text
  pub byte_length : ℕ
  pub stored_at : ℕ

pub record Ledger : Type 0 where
  pub uploads : List UploadRow
  pub payloads : List PayloadRow

-- SELECT * FROM file_uploads WHERE file_name = $1
unfoldable pub find_upload : Text → List UploadRow → Option UploadRow
find_upload f [] = none
find_upload f (r ∷ rs) = if text_eq r.file_name f then some r else find_upload f rs

unfoldable pub find_payload : Text → List PayloadRow → Option PayloadRow
find_payload f [] = none
find_payload f (r ∷ rs) = if text_eq r.file_name f then some r else find_payload f rs

-- UPDATE file_uploads SET ... WHERE file_name = $1
unfoldable pub update_upload : Text → (UploadRow → UploadRow) → List UploadRow → List UploadRow
update_upload f g [] = []
update_upload f g (r ∷ rs) =
    let rest = update_upload f g rs in if text_eq r.file_name f then g r ∷ rest else r ∷ rest

unfoldable pub new_row : ℕ → UploadHeaders → UploadRow
new_row now h = record {
  file_name = h.file_name;
  device_id = h.device_id;
  data_type = h.data_type;
  communication_mode = h.communication_mode;
  upload_origin = h.upload_origin;
  record_count = h.record_count;
  status = processing;
  attempts = 1;
  processing_started_at = some now;
  processed_at = none;
  failed_at = none;
  last_error = none;
}

-- INSERT ... ON CONFLICT (file_name) DO NOTHING RETURNING *
unfoldable pub insert_claim : ℕ → UploadHeaders → Ledger → Option UploadRow × Ledger
unfolding find_upload new_row
insert_claim now h l = elim (find_upload h.file_name l.uploads) [
  | none ↦ (some (new_row now h), record l { uploads = new_row now h ∷ l.uploads })
  | some r ↦ (none, l)
]

unfoldable pub is_failed : UploadRow → Bool
is_failed r = elim r.status [ Status.failed ↦ true | _ ↦ false ]

unfoldable pub restarted : ℕ → UploadRow → UploadRow
restarted now r = record r {
  status = processing;
  attempts = r.attempts + 1;
  processing_started_at = some now;
  processed_at = none;
  failed_at = none;
  last_error = none;
}

-- UPDATE ... WHERE file_name = $1 AND processing_status = 'failed' RETURNING *
unfoldable pub retry_claim : ℕ → Text → Ledger → Option UploadRow × Ledger
unfolding find_upload is_failed restarted update_upload
retry_claim now f l = elim (find_upload f l.uploads) [
  | none ↦ (none, l)
  | some r ↦
      if is_failed r
      then (
        some (restarted now r),
        record l { uploads = update_upload f (restarted now) l.uploads },
      )
      else (none, l)
]

pub data Action : Type 0 where
  claimed duplicate in_progress : Action

-- the SELECT that follows, and the answer from its row
unfoldable pub read_claim : Text → Ledger → Result (Action × UploadRow)
unfolding find_upload
read_claim f l = elim (find_upload f l.uploads) [
  | none ↦ err runtime_error
  | some r ↦ elim r.status [ Status.processed ↦ ok (duplicate, r) | _ ↦ ok (in_progress, r) ]
]

unfoldable pub claim_for_processing :
    ℕ → UploadHeaders → Ledger → Result (Action × UploadRow) × Ledger
unfolding insert_claim retry_claim read_claim
claim_for_processing now h l =
    let inserted = insert_claim now h l in
    let retried = retry_claim now h.file_name inserted.1 in
    elim inserted.0 [
      | some r ↦ (ok (claimed, r), inserted.1)
      | none ↦ elim retried.0 [
        | some r ↦ (ok (claimed, r), retried.1)
        | none ↦ (read_claim h.file_name retried.1, retried.1)
      ]
    ]

unfoldable pub as_processed : ℕ → UploadRow → UploadRow
as_processed now r = record r {
  status = processed;
  processed_at = some now;
  failed_at = none;
  last_error = none;
}

unfoldable pub mark_processed : ℕ → Text → Ledger → Ledger
unfolding as_processed update_upload
mark_processed now f l = record l { uploads = update_upload f (as_processed now) l.uploads }

-- (error_summary or "processing failed")[:2000]
unfoldable pub safe_summary : Text → Text
safe_summary [] = codes "processing failed"
safe_summary (c ∷ s) = take 2000 (c ∷ s)

unfoldable pub as_failed : ℕ → Text → UploadRow → UploadRow
unfolding safe_summary
as_failed now summary r = record r {
  status = failed;
  failed_at = some now;
  processed_at = none;
  last_error = some (safe_summary summary);
}

unfoldable pub mark_failed : ℕ → Text → Text → Ledger → Ledger
unfolding as_failed update_upload
mark_failed now f summary l = record l {
  uploads = update_upload f (as_failed now summary) l.uploads;
}

unfoldable pub same_payload : Text → ℕ → PayloadRow → Bool
same_payload digest size r = text_eq r.sha256 digest && r.byte_length == size

module _ (sha256 : Text → Text) where
  unfoldable pub payload_row : ℕ → Text → Text → PayloadRow
  payload_row now f payload = record {
    file_name = f;
    payload = payload;
    sha256 = sha256 payload;
    byte_length = length payload;
    stored_at = now;
  }

  -- An UploadPayloadMismatchError is `app conflict`: the handler turns it into a ConflictError.
  unfoldable pub retain_original_payload : ℕ → Text → Text → Ledger → Result PayloadRow × Ledger
  unfolding payload_row find_payload same_payload
  retain_original_payload now f payload l = elim (find_payload f l.payloads) [
    | none ↦
        let row = payload_row now f payload in (ok row, record l { payloads = row ∷ l.payloads })
    | some r ↦
        if same_payload (sha256 payload) (length payload) r
        then (ok r, l)
        else (err (app ErrorCode.conflict), l)
  ]

  -- assert_retained_payload_matches: `none` is Python's None
  unfoldable pub assert_retained_payload_matches : Text → Text → Ledger → Result (Option Bool)
  unfolding find_payload same_payload
  assert_retained_payload_matches f payload l = elim (find_payload f l.payloads) [
    | none ↦ ok none
    | some r ↦
        if same_payload (sha256 payload) (length payload) r
        then ok (some true)
        else err (app ErrorCode.conflict)
  ]
