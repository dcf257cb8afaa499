-- ===== src/Upload/Headers.antt =====
-- services/ingestion_service/csv_validator.py and the dispatch of protocol_router.py. A request's
-- headers are a function from a header's name; header values are texts as lists of code points, which
-- Starlette decodes as Latin-1, where `\d` of a pattern accepts the ASCII digits only.
use slope_monitoring.Common.{
  ℕ, zero, suc, String, Bool, true, false, ◌&&◌, ◌||◌, Option, none, some, List, [], ◌∷◌, ◌++◌, map,
  any, leb, ◌==◌, if◌then◌else◌,
}
use slope_monitoring.Common.Int.{pos, negsuc}
use slope_monitoring.Common.Text.{codes, strip, lower, text_eq, int_of_text}
use slope_monitoring.Errors.{Result, ok, err, app, ErrorCode, require, ◌>>=◌, ◌>>◌}

abbrev pub Text : Type 0
Text = List ℕ

abbrev pub RawHeaders : Type 0
RawHeaders = String → Option Text

pub record UploadHeaders : Type 0 where
  pub communication_mode : Text
  pub device_id : Text
  pub device_role : Text
  pub data_type : Text
  pub file_name : Text
  pub record_count : ℕ
  pub upload_origin : Text

abbrev pub required_headers : List String
required_headers =
    "X-Communication-Mode" ∷ "X-Device-Id" ∷ "X-Device-Role" ∷ "X-Data-Type" ∷ "X-File-Name"
    ∷ "X-Record-Count" ∷ "X-ICCID" ∷ []

-- raw_headers.get(name) or "": an absent header reads as the empty text, which is falsy too
unfoldable pub header : RawHeaders → String → Text
header raw name = elim (raw name) [ none ↦ [] | some v ↦ v ]

unfoldable pub is_filled : Text → Bool
is_filled [] = false
is_filled (c ∷ s) = true

unfoldable pub require_headers : RawHeaders → List String → Result (Unit {0})
unfolding is_filled header
require_headers raw [] = ok tt
require_headers raw (name ∷ names) =
    if is_filled (header raw name)
    then require_headers raw names
    else err (app ErrorCode.missing_header)

-- the symbols of the pattern of a file name: `re.escape` makes literals, `\d` is a digit
pub data Symbol : Type 0 where
  literal : ℕ → Symbol
  digit : Symbol

unfoldable pub accepts : Symbol → ℕ → Bool
accepts (literal l) c = l == c
accepts digit c = leb 48 c && leb c 57

-- re.fullmatch
unfoldable pub matches : List Symbol → Text → Bool
unfolding accepts
matches [] [] = true
matches [] (c ∷ s) = false
matches (x ∷ xs) [] = false
matches (x ∷ xs) (c ∷ s) = accepts x c && matches xs s

unfoldable pub literals : Text → List Symbol
literals s = map literal s

unfoldable pub digits : ℕ → List Symbol
digits zero = []
digits (suc n) = digit ∷ digits n

-- `_`, the time stamp of the data type, `.csv`
unfoldable pub name_end : Bool → List Symbol
unfolding literals digits
name_end is_gnss =
    literal 95 ∷ digits 8
    ++ literal 95 ∷ (if is_gnss then digits 4 else digits 6)
    ++ literals (codes ".csv")

unfoldable pub name_start : Bool → Text
name_start is_gnss = if is_gnss then codes "gnss_" else codes "accel_"

-- the pattern of validate_file_name
unfoldable pub file_pattern : Text → Text → List Symbol
unfolding literals name_start name_end
file_pattern data_type device_id =
    let is_gnss = text_eq data_type (codes "gnss") in
    literals (name_start is_gnss) ++ (literals device_id ++ name_end is_gnss)

unfoldable pub validate_file_name : UploadHeaders → Result (Unit {0})
unfolding matches file_pattern
validate_file_name h =
    require (matches (file_pattern h.data_type h.device_id) h.file_name) (app ErrorCode.invalid_csv)

unfoldable pub is_triple : UploadHeaders → String → String → String → Bool
is_triple h mode data_type role =
    text_eq h.communication_mode (codes mode)
    && text_eq h.data_type (codes data_type)
    && text_eq h.device_role (codes role)

unfoldable pub validate_upload_combination : UploadHeaders → Result (Unit {0})
unfolding is_triple
validate_upload_combination h =
    require
      (is_triple h "4g" "gnss" "base"
        || is_triple h "4g" "gnss" "rover"
        || is_triple h "4g" "accel" "rover"
        || is_triple h "lora" "gnss" "base"
        || is_triple h "lora" "accel" "rover")
      (app ErrorCode.invalid_csv)

unfoldable pub record_count_of : Text → Result ℕ
record_count_of s = elim (int_of_text s) [
  | none ↦ err (app ErrorCode.missing_header)
  | some (pos n) ↦ ok n
  | some (negsuc n) ↦ err (app ErrorCode.invalid_csv)
]

unfoldable pub origin_of : RawHeaders → Text
origin_of raw =
    lower (strip (elim (raw "X-Upload-Origin") [ none ↦ codes "device_auto" | some v ↦ v ]))

unfoldable pub one_of : Text → List String → Bool
one_of s words = any (λ w. text_eq s (codes w)) words

unfoldable pub normal : RawHeaders → String → Text
unfolding header
normal raw name = lower (strip (header raw name))

unfoldable pub headers_of : RawHeaders → ℕ → UploadHeaders
unfolding header normal origin_of
headers_of raw n = record {
  communication_mode = normal raw "X-Communication-Mode";
  device_id = strip (header raw "X-Device-Id");
  device_role = normal raw "X-Device-Role";
  data_type = normal raw "X-Data-Type";
  file_name = strip (header raw "X-File-Name");
  record_count = n;
  upload_origin = origin_of raw;
}

unfoldable pub validate_headers : RawHeaders → Result UploadHeaders
unfolding header normal require_headers one_of record_count_of headers_of
    validate_upload_combination validate_file_name
validate_headers raw = do
  require_headers raw required_headers
  let mode = normal raw "X-Communication-Mode"
  let role = normal raw "X-Device-Role"
  let data_type = normal raw "X-Data-Type"
  require (one_of mode ("4g" ∷ "lora" ∷ [])) (app ErrorCode.invalid_csv)
  require (one_of role ("base" ∷ "rover" ∷ [])) (app ErrorCode.invalid_csv)
  require (one_of data_type ("gnss" ∷ "accel" ∷ [])) (app ErrorCode.invalid_csv)
  n ← record_count_of (header raw "X-Record-Count")
  let headers = headers_of raw n
  validate_upload_combination headers
  validate_file_name headers
  ok headers

unfoldable pub validate_path_file_name : Text → UploadHeaders → Result (Unit {0})
validate_path_file_name path h = require (text_eq path h.file_name) (app ErrorCode.invalid_csv)

-- `rows` is the number of records that csv.reader yields for the body
unfoldable pub validate_record_count : ℕ → ℕ → Result ℕ
validate_record_count zero expected = err (app ErrorCode.invalid_csv)
validate_record_count (suc actual) expected = do
  require (actual == expected) (app ErrorCode.invalid_csv)
  ok actual

-- the parser that route_and_parse chooses
pub data Route : Type 0 where
  g4_gnss g4_accel lora_gnss lora_accel : Route

unfoldable pub route : UploadHeaders → Result Route
unfolding is_triple
route h =
    if is_triple h "4g" "gnss" "base" || is_triple h "4g" "gnss" "rover"
    then ok g4_gnss
    else if is_triple h "4g" "accel" "rover"
    then ok g4_accel
    else if is_triple h "lora" "gnss" "base"
    then ok lora_gnss
    else if is_triple h "lora" "accel" "rover"
    then ok lora_accel
    else err (app ErrorCode.invalid_csv)
