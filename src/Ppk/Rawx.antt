-- ===== src/Ppk/Rawx.antt =====
-- scripts/ppk_qa_worker.py: join_rawx and rawx_measurement_count. Base64 decoding is a parameter,
-- `none` where it raises.
use slope_monitoring.Common.{
  ℕ, ◌+◌, ◌*◌, String, not, ◌||◌, Option, none, some, List, [], ◌∷◌, ◌++◌, length, take, ltb, ◌==◌,
}
use slope_monitoring.Common.Text.{text_eq}
use slope_monitoring.Errors.{Result, ok, err, value_error, require, ◌>>=◌, ◌>>◌}
use slope_monitoring.Ppk.Bytes.{slice, last_bytes, inner, byte_at, little, checksum}

-- a row of gnss_raw_samples, as the worker selects it
pub record RawRow : Type 0 where
  pub time : ℕ
  pub device_id : String
  pub raw_payload_base64 : String

-- the checks of one frame, in the order of the code
unfoldable pub check_frame : List ℕ → Result (Unit {0})
check_frame frame =
    require (not (ltb (length frame) 8 || not (text_eq (take 2 frame) (181 ∷ 98 ∷ [])))) value_error
    >> (require (length frame == little (slice 4 6 frame) + 8) value_error
        >> (require (text_eq (last_bytes 2 frame) (checksum (inner 2 2 frame))) value_error
            >> require (text_eq (slice 2 4 frame) (2 ∷ 21 ∷ [])) value_error))

module _ (b64decode : String → Option (List ℕ)) where
  -- one round of the loop: the frame of a row
  unfoldable pub frame_of : RawRow → Result (List ℕ)
  frame_of row = elim (b64decode row.raw_payload_base64) [
    | none ↦ err value_error
    | some frame ↦ check_frame frame >> ok frame
  ]

  unfoldable pub join_rawx : List RawRow → Result (List ℕ)
  unfolding frame_of
  join_rawx [] = ok []
  join_rawx (row ∷ rows) = do frame ← frame_of row; rest ← join_rawx rows; ok (frame ++ rest)

  unfoldable pub rawx_measurement_count : RawRow → Result ℕ
  rawx_measurement_count row = do
    frame ← join_rawx (row ∷ [])
    _ ← require (not (ltb (length frame) 24)) value_error
    _ ← require (little (slice 4 6 frame) == 16 + 32 * byte_at 17 frame) value_error
    ok (byte_at 17 frame)
