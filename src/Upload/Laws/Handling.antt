-- ===== src/Upload/Laws/Handling.antt =====
-- The answers of `upload_data`: a file is stored once, and its original bytes are kept.
use mathlib.Core.Path.{subst}
use slope_monitoring.Common.{
  ℕ, true, ◌&&◌, Option, some, length, ◌==◌, ◌≡◌, refl, sym, ap, ◌∙◌, inl, inr, Bool-cases,
  Option-cases, arith, if◌then◌else◌,
}
use slope_monitoring.Common.Text.{text_eq}
use slope_monitoring.Common.Text.Decimal.{text_eq_refl}
use slope_monitoring.Errors.{Result, ok, err, app, ErrorCode, Failure, Result-cases, ok-injective}
use slope_monitoring.Upload.Headers.{Text, RawHeaders, UploadHeaders, Route}
use slope_monitoring.Upload.Ledger.{
  processed, UploadRow, PayloadRow, Ledger, find_upload, find_payload, same_payload, claimed,
  duplicate, in_progress, claim_for_processing, mark_processed, mark_failed, as_processed,
  retain_original_payload, assert_retained_payload_matches, payload_row,
}
use slope_monitoring.Upload.Handler.{
  Response, duplicate_accepted, checked_headers, answer_duplicate, process, upload_data,
}
use slope_monitoring.Upload.Laws.Naming.{text_eq-≡}
use slope_monitoring.Upload.Laws.Claims.{find_upload-update_upload}
use slope_monitoring.Upload.Laws.Granting.{claimed_lem, processed_lem, duplicate_lem, claim_keeps}

module _ (sha256 : Text → Text) where
  retained_lem :
      (now : ℕ) (f body : Text) (l l' : Ledger) (p : PayloadRow)
      → retain_original_payload sha256 now f body l ≡ (ok p, l')
      → (find_payload f l'.payloads ≡ some p)
        × (same_payload (sha256 body) (length body) p ≡ true)
        × (l'.uploads ≡ l.uploads)
  unfolding retain_original_payload payload_row find_payload
  retained_lem now f body l l' p e = elim (Option-cases (find_payload f l.payloads)) [
    | inl absent ↦ ground (arith, text_eq_refl (sha256 body), text_eq_refl f)
    | inr (r, found) ↦ elim (Bool-cases (same_payload (sha256 body) (length body) r)) [
      | inl same ↦ ground arith
      | inr other ↦ absurd (ground arith)
    ]
  ]

  module _ (decode : Text → Option Text) (csv_rows : Text → ℕ)
      (parse : Route → Text → Result (Unit {0})) (config : Text → Result (Unit {0}))
      (work : UploadRow → Result (Unit {0})) where
    abbrev pub run :
        ℕ → (Failure → Text) → Text → RawHeaders → Text → Ledger → Result Response × Ledger
    run = upload_data sha256 decode csv_rows parse config work

    abbrev pub checks : Text → RawHeaders → Text → Result UploadHeaders
    checks = checked_headers sha256 decode csv_rows parse config work

    -- the state that an accepted upload leaves behind
    IsStored : Text → Text → Ledger → Type 0
    IsStored f body l =
        ((r : UploadRow) × (find_upload f l.uploads ≡ some r) × (r.status ≡ processed))
        × ((p : PayloadRow) × (find_payload f l.payloads ≡ some p)
            × (same_payload (sha256 body) (length body) p ≡ true))

    process_lem :
        (now : ℕ) (summary : Failure → Text) (f body : Text) (row : UploadRow) (l l' : Ledger)
        (r : Response)
        → (find_upload f l.uploads ≡ some row)
        → process sha256 decode csv_rows parse config work now summary f body row l ≡ (ok r, l')
        → IsStored f body l'
    unfolding process IsStored mark_processed as_processed
    process_lem now summary f body row l l' r found e =
        let retained = retain_original_payload sha256 now f body l in
        elim (Result-cases retained.0) [
          | inl (p, kept) ↦ elim (Result-cases (work row)) [
            | inl (u, worked) ↦
                let after : l' ≡ mark_processed now f retained.1 = ground arith in
                let k = retained_lem now f body l retained.1 p (ground arith) in
                (
                  (
                    as_processed now row,
                    ap (λ x. find_upload f x.uploads) after
                        ∙ find_upload-update_upload f (as_processed now) retained.1.uploads row
                            (λ x. refl) (ap (find_upload f) k.2 ∙ found),
                    refl,
                  ),
                  (p, ap (λ x. find_payload f x.payloads) after ∙ k.0, k.1),
                )
            | inr (x, broken) ↦ absurd (ground arith)
          ]
          | inr (x, refused) ↦ absurd (ground arith)
        ]

    answer_lem :
        (f body : Text) (l : Ledger) (r : Response)
        → answer_duplicate sha256 decode csv_rows parse config work f body l ≡ ok r
        → (p : PayloadRow) × (find_payload f l.payloads ≡ some p)
          × (same_payload (sha256 body) (length body) p ≡ true)
    unfolding answer_duplicate assert_retained_payload_matches
    answer_lem f body l r e = elim (Option-cases (find_payload f l.payloads)) [
      | inl absent ↦ absurd (ground arith)
      | inr (p, found) ↦ (p, found, ground arith)
    ]

    -- an accepted upload passed the checks, and is stored
    stored_lem :
        (now : ℕ) (summary : Failure → Text) (path : Text) (raw : RawHeaders) (body : Text)
        (l l' : Ledger) (r : Response)
        → run now summary path raw body l ≡ (ok r, l')
        → (h : UploadHeaders) × (checks path raw body ≡ ok h) × IsStored h.file_name body l'
    unfolding upload_data IsStored
    stored_lem now summary path raw body l l' r e = elim (Result-cases (checks path raw body)) [
      | inl (h, passed) ↦ elim (Result-cases (claim_for_processing now h l).0) [
        | inl ((claimed, row), c) ↦ (
          h,
          passed,
          process_lem now summary h.file_name body row (claim_for_processing now h l).1 l' r
              (claimed_lem now h l (claim_for_processing now h l).1 row (ground arith)).0
              (ground arith),
        )
        | inl ((duplicate, row), c) ↦
            let claim = claim_for_processing now h l in
            let d = duplicate_lem now h l claim.1 row (ground arith) in
            let a = answer_lem h.file_name body claim.1 r (ground arith) in
            let same : claim.1 ≡ l' = ground arith in
            (
              h,
              passed,
              subst (IsStored h.file_name body) same
                  ((row, ap (λ x. find_upload h.file_name x.uploads) d.2 ∙ d.0, d.1), a),
            )
        | inl ((in_progress, row), c) ↦ absurd (ground arith)
        | inr (x, c) ↦ absurd (ground arith)
      ]
      | inr (x, unfit) ↦ absurd (ground arith)
    ]

    -- After an upload that was accepted, whether as new or as a duplicate, a request with the same
    -- headers and path whose body passes the checks changes nothing in the ledger. It is accepted as
    -- a duplicate when its body has the digest and the length of the accepted one, and refused as a
    -- conflict otherwise.
    pub upload_again :
        (now now' : ℕ) (summary summary' : Failure → Text) (path : Text) (raw : RawHeaders)
        (body body' : Text) (l l' : Ledger) (r : Response) (h : UploadHeaders)
        → run now summary path raw body l ≡ (ok r, l')
        → checks path raw body ≡ ok h
        → checks path raw body' ≡ ok h
        → run now' summary' path raw body' l' ≡ (
          if text_eq (sha256 body) (sha256 body') && length body == length body'
              then ok duplicate_accepted
              else err (app ErrorCode.conflict),
          l',
        )
    unfolding upload_data answer_duplicate assert_retained_payload_matches same_payload IsStored
    upload_again now now' summary summary' path raw body body' l l' r h e c c' =
        let (k, ck, ((row, found, done), (p, kept, same))) =
          stored_lem now summary path raw body l l' r e in
        let agree : k ≡ h = ok-injective (sym ck ∙ c) in
        let claim =
          processed_lem now' h l' row
            (subst (λ x. find_upload x.file_name l'.uploads ≡ some row) agree found) done in
        let kept' = subst (λ x. find_payload x.file_name l'.payloads ≡ some p) agree kept in
        let digest = text_eq-≡ p.sha256 (sha256 body) (ground arith) in
        let size : p.byte_length ≡ length body = ground arith in ground arith

    process_keeps :
        (now : ℕ) (summary : Failure → Text) (f body : Text) (row : UploadRow) (l : Ledger)
        (g : Text) (p : PayloadRow)
        → find_payload g l.payloads ≡ some p
        → find_payload g
            (process sha256 decode csv_rows parse config work now summary f body row l).1.payloads
          ≡ some p
    unfolding process retain_original_payload find_payload mark_processed mark_failed payload_row
    process_keeps now summary f body row l g p kept =
        elim (Option-cases (find_payload f l.payloads)) [
          | inl absent ↦ elim (Bool-cases (text_eq f g)) [
            | inl meet ↦
                absurd (ground (arith, ap (λ x. find_payload x l.payloads) (text_eq-≡ f g meet)))
            | inr apart ↦ ground arith
          ]
          | inr (q, found) ↦ ground arith
        ]

    -- Whatever the answer to an upload, the retained payload of every file that has one stays as it
    -- is.
    pub payload_kept :
        (now : ℕ) (summary : Failure → Text) (path : Text) (raw : RawHeaders) (body : Text)
        (l : Ledger) (f : Text) (p : PayloadRow)
        → find_payload f l.payloads ≡ some p
        → find_payload f (run now summary path raw body l).1.payloads ≡ some p
    unfolding upload_data
    payload_kept now summary path raw body l f p kept = elim (Result-cases (checks path raw body)) [
      | inl (h, passed) ↦
          let claim = claim_for_processing now h l in
          let same = claim_keeps now h l in
          elim (Result-cases claim.0) [
            | inl ((claimed, row), c) ↦
                let stays =
                  process_keeps now summary h.file_name body row claim.1 f p
                    (ap (find_payload f) same ∙ kept) in
                ground arith
            | inl ((duplicate, row), c) ↦ ground arith
            | inl ((in_progress, row), c) ↦ ground arith
            | inr (x, c) ↦ ground arith
          ]
      | inr (x, unfit) ↦ ground arith
    ]
