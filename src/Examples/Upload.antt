-- ===== src/Examples/Upload.antt =====
-- Uploads of one file by a base over 4G.
use slope_monitoring.Common.{
  take, ℕ, String, ◌≡◌, refl, Bool, true, false, ◌&&◌, Option, none, some, List, [], ◌∷◌, ◌++◌,
  length, ◌==◌, str_eq, if◌then◌else◌, arith,
}
use slope_monitoring.Common.Text.{codes, text_eq}
use slope_monitoring.Errors.{Result, ok, err, app, ErrorCode, Failure, value_error}
use slope_monitoring.Upload.Headers.{
  Text, RawHeaders, UploadHeaders, Route, validate_headers, route,
}
use slope_monitoring.Upload.Ledger.{
  retry_claim, new_row, restarted, Ledger, UploadRow, PayloadRow, Status, failed, find_payload,
  insert_claim, claim_for_processing, as_failed, mark_failed,
}
use slope_monitoring.Upload.Handler.{
  accepted, duplicate_accepted, checked_headers, process, upload_data,
}
use slope_monitoring.Upload.Laws.Naming
use slope_monitoring.Upload.Laws.Claims
use slope_monitoring.Upload.Laws.Claims.{World, Step, Steps, IsExclusive, hold}
use slope_monitoring.Upload.Laws.Handling
use slope_monitoring.Upload.Laws.Handling.{run, checks}

abbrev file : Text
file = codes "gnss_BASE-01_20260101_1200.csv"

abbrev raw : RawHeaders
raw name =
    if str_eq name "X-Communication-Mode"
    then some (codes "4G")
    else if str_eq name "X-Device-Id"
    then some (codes "BASE-01")
    else if str_eq name "X-Device-Role"
    then some (codes "base")
    else if str_eq name "X-Data-Type"
    then some (codes "gnss")
    else if str_eq name "X-File-Name"
    then some file
    else if str_eq name "X-Record-Count"
    then some (codes "1")
    else if str_eq name "X-ICCID"
    then some (codes "89")
    else none

abbrev headers : UploadHeaders
headers = record {
  communication_mode = codes "4g";
  device_id = codes "BASE-01";
  device_role = codes "base";
  data_type = codes "gnss";
  file_name = file;
  record_count = 1;
  upload_origin = codes "device_auto";
}

raw_valid : validate_headers raw ≡ ok headers
unfolding validate_headers text_eq slope_monitoring.Common.Text.lower
    slope_monitoring.Common.Text.strip slope_monitoring.Common.Text.int_of_text
raw_valid = refl

file_name_determines_example :
    (headers.device_id ≡ headers.device_id) × (headers.data_type ≡ headers.data_type)
file_name_determines_example =
    Naming.file_name_determines raw raw headers headers raw_valid raw_valid refl

-- a digest that keeps the first two bytes, and libraries that accept everything
abbrev digest : Text → Text
digest s = take 2 s

abbrev decode : Text → Option Text
decode s = some s

abbrev rows : Text → ℕ
rows s = 2

abbrev fine : Route → Text → Result (Unit {0})
fine r s = ok tt

abbrev configured : Text → Result (Unit {0})
configured d = ok tt

abbrev stored : UploadRow → Result (Unit {0})
stored r = ok tt

abbrev broken : UploadRow → Result (Unit {0})
broken r = err value_error

abbrev summary : Failure → Text
summary e = codes "ValueError: bad row"

abbrev new : Ledger
new = record { uploads = []; payloads = [] }

abbrev body : Text
body = codes "a,b"

abbrev other : Text
other = codes "a,bc"

abbrev once : Ledger
once = (upload_data digest decode rows fine configured stored 10 summary file raw body new).1

first_upload :
    run digest decode rows fine configured stored 10 summary file raw body new ≡ (ok accepted, once)
unfolding upload_data validate_headers text_eq slope_monitoring.Common.Text.lower
    slope_monitoring.Common.Text.strip slope_monitoring.Common.Text.int_of_text
    slope_monitoring.Upload.Headers.validate_path_file_name
    slope_monitoring.Upload.Headers.validate_record_count route claim_for_processing
    slope_monitoring.Upload.Ledger.retain_original_payload
first_upload = refl

body_checked : checks digest decode rows fine configured stored file raw body ≡ ok headers
unfolding checked_headers validate_headers text_eq slope_monitoring.Common.Text.lower
    slope_monitoring.Common.Text.strip slope_monitoring.Common.Text.int_of_text
    slope_monitoring.Upload.Headers.validate_path_file_name
    slope_monitoring.Upload.Headers.validate_record_count route
body_checked = refl

other_checked : checks digest decode rows fine configured stored file raw other ≡ ok headers
unfolding checked_headers validate_headers text_eq slope_monitoring.Common.Text.lower
    slope_monitoring.Common.Text.strip slope_monitoring.Common.Text.int_of_text
    slope_monitoring.Upload.Headers.validate_path_file_name
    slope_monitoring.Upload.Headers.validate_record_count route
other_checked = refl

upload_again_example :
    run digest decode rows fine configured stored 20 summary file raw other once ≡ (
      if text_eq (digest body) (digest other) && length body == length other
          then ok duplicate_accepted
          else err (app ErrorCode.conflict),
      once,
    )
upload_again_example =
    Handling.upload_again digest decode rows fine configured stored 10 20 summary summary file raw
      body other new once accepted headers first_upload body_checked other_checked

abbrev kept : PayloadRow
kept = record {
  file_name = file;
  payload = body;
  sha256 = digest body;
  byte_length = 3;
  stored_at = 10;
}

kept_found : find_payload file once.payloads ≡ some kept
unfolding find_payload upload_data validate_headers text_eq slope_monitoring.Common.Text.lower
    slope_monitoring.Common.Text.strip slope_monitoring.Common.Text.int_of_text
    slope_monitoring.Upload.Headers.validate_path_file_name
    slope_monitoring.Upload.Headers.validate_record_count route claim_for_processing
    slope_monitoring.Upload.Ledger.retain_original_payload
    slope_monitoring.Upload.Ledger.mark_processed
kept_found = refl

payload_kept_example :
    find_payload file
      (run digest decode rows fine configured stored 20 summary file raw other once).1.payloads
    ≡ some kept
payload_kept_example =
    Handling.payload_kept digest decode rows fine configured stored 20 summary file raw other once
      file kept kept_found

abbrev claimed_row : UploadRow
claimed_row = new_row 10 headers

abbrev claimed_ledger : Ledger
claimed_ledger = record { uploads = claimed_row ∷ []; payloads = [] }

abbrev after_failure : Ledger
after_failure =
    (process digest decode rows fine configured broken 10 summary file body claimed_row
      claimed_ledger).1

-- request 0 claims the file, fails, and request 1 claims it again
abbrev idle : ℕ → Option Text
idle i = none

abbrev first_world : World
first_world = record { ledger = new; holders = idle }

abbrev second_world : World
second_world = record { ledger = claimed_ledger; holders = hold 0 (some file) idle }

abbrev third_world : World
third_world = record {
  ledger = mark_failed 15 file (codes "boom") claimed_ledger;
  holders = hold 0 none (hold 0 (some file) idle);
}

abbrev fourth_world : World
fourth_world = record {
  ledger = (retry_claim 20 file third_world.ledger).1;
  holders = hold 1 (some file) third_world.holders;
}

first_claim : insert_claim 10 headers new ≡ (some claimed_row, claimed_ledger)
unfolding insert_claim
first_claim = refl

abbrev retried : UploadRow
retried = restarted 20 (as_failed 15 (codes "boom") claimed_row)

second_claim : retry_claim 20 file third_world.ledger ≡ (some retried, fourth_world.ledger)
unfolding retry_claim mark_failed text_eq new_row
second_claim = refl

held_first : second_world.holders 0 ≡ some file
unfolding hold
held_first = refl

free_second : third_world.holders 1 ≡ none
unfolding hold
free_second = refl

history : Steps first_world fourth_world
history =
    Steps.next
      (Steps.next (Steps.next Steps.done (Step.inserts 0 10 headers refl first_claim))
        (Step.fails 0 15 file (codes "boom") held_first))
      (Step.retries 1 20 file free_second second_claim)

all_idle : (i : ℕ) → first_world.holders i ≡ none
all_idle i = refl

Steps-IsExclusive_example : IsExclusive fourth_world
Steps-IsExclusive_example = Claims.Steps-IsExclusive first_world fourth_world all_idle history
