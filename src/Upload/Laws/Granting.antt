-- ===== src/Upload/Laws/Granting.antt =====
-- What a claim of an upload answers and leaves, by the state of the row it finds.
use slope_monitoring.Common.{
  ℕ, true, false, ◌≤◌, none, some, [], ◌∷◌, length, length-take, ◌≡◌, refl, ap, ◌∙◌, inl, inr,
  Bool-cases, Option-cases, arith,
}
use slope_monitoring.Common.Text.Decimal.{text_eq_refl}
use slope_monitoring.Errors.{ok}
use slope_monitoring.Upload.Headers.{Text, UploadHeaders}
use slope_monitoring.Upload.Ledger.{
  processing, processed, UploadRow, Ledger, find_upload, update_upload, new_row, insert_claim,
  is_failed, restarted, retry_claim, read_claim, claimed, duplicate, claim_for_processing,
  safe_summary,
}
use slope_monitoring.Upload.Laws.Claims.{find_upload-update_upload}

claim_absent :
    (now : ℕ) (h : UploadHeaders) (l : Ledger)
    → find_upload h.file_name l.uploads ≡ none
    → claim_for_processing now h l
      ≡ (ok (claimed, new_row now h), record l { uploads = new_row now h ∷ l.uploads })
unfolding claim_for_processing insert_claim
claim_absent now h l e = ground arith

pub claim_failed :
    (now : ℕ) (h : UploadHeaders) (l : Ledger) (r : UploadRow)
    → find_upload h.file_name l.uploads ≡ some r
    → is_failed r ≡ true
    → claim_for_processing now h l ≡ (
      ok (claimed, restarted now r),
      record l { uploads = update_upload h.file_name (restarted now) l.uploads },
    )
unfolding claim_for_processing insert_claim retry_claim
claim_failed now h l r e f = ground arith

claim_refused :
    (now : ℕ) (h : UploadHeaders) (l : Ledger) (r : UploadRow)
    → find_upload h.file_name l.uploads ≡ some r
    → is_failed r ≡ false
    → claim_for_processing now h l ≡ (read_claim h.file_name l, l)
unfolding claim_for_processing insert_claim retry_claim
claim_refused now h l r e f = ground arith

-- a claim that succeeds leaves the row being processed, and the payloads as they were
pub claimed_lem :
    (now : ℕ) (h : UploadHeaders) (l l' : Ledger) (row : UploadRow)
    → claim_for_processing now h l ≡ (ok (claimed, row), l')
    → (find_upload h.file_name l'.uploads ≡ some row)
      × (row.status ≡ processing)
      × (l'.payloads ≡ l.payloads)
unfolding restarted new_row find_upload read_claim is_failed
claimed_lem now h l l' row e = elim (Option-cases (find_upload h.file_name l.uploads)) [
  | inl absent ↦ ground (arith, claim_absent now h l absent, text_eq_refl h.file_name)
  | inr (r, found) ↦ elim (Bool-cases (is_failed r)) [
    | inl again ↦
        let row_found =
          find_upload-update_upload h.file_name (restarted now) l.uploads r (λ x. refl) found in
        ground (arith, claim_failed now h l r found again)
    | inr settled ↦ absurd (ground (arith, claim_refused now h l r found settled))
  ]
]

-- the claim of a processed file
pub processed_lem :
    (now : ℕ) (h : UploadHeaders) (l : Ledger) (row : UploadRow)
    → find_upload h.file_name l.uploads ≡ some row
    → row.status ≡ processed
    → claim_for_processing now h l ≡ (ok (duplicate, row), l)
unfolding read_claim is_failed
processed_lem now h l row e p = claim_refused now h l row e (ground arith) ∙ ground arith

pub duplicate_lem :
    (now : ℕ) (h : UploadHeaders) (l l' : Ledger) (row : UploadRow)
    → claim_for_processing now h l ≡ (ok (duplicate, row), l')
    → (find_upload h.file_name l.uploads ≡ some row) × (row.status ≡ processed) × (l' ≡ l)
unfolding is_failed read_claim
duplicate_lem now h l l' row e = elim (Option-cases (find_upload h.file_name l.uploads)) [
  | inl absent ↦ absurd (ground (arith, claim_absent now h l absent))
  | inr (r, found) ↦ elim (Bool-cases (is_failed r)) [
    | inl again ↦ absurd (ground (arith, claim_failed now h l r found again))
    | inr settled ↦ ground (arith, claim_refused now h l r found settled)
  ]
]

-- a claim leaves the payloads
pub claim_keeps :
    (now : ℕ) (h : UploadHeaders) (l : Ledger)
    → (claim_for_processing now h l).1.payloads ≡ l.payloads
claim_keeps now h l = elim (Option-cases (find_upload h.file_name l.uploads)) [
  | inl absent ↦ ap (λ x. x.1.payloads) (claim_absent now h l absent)
  | inr (r, found) ↦ elim (Bool-cases (is_failed r)) [
    | inl again ↦ ap (λ x. x.1.payloads) (claim_failed now h l r found again)
    | inr settled ↦ ap (λ x. x.1.payloads) (claim_refused now h l r found settled)
  ]
]

-- the summary of a failure is short
pub safe_summary_lem : (s : Text) → length (safe_summary s) ≤ 2000
unfolding safe_summary
safe_summary_lem [] = ground arith
safe_summary_lem (c ∷ s) = rw (length-take 2000 (c ∷ s)) (ground arith)
