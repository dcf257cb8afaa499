-- ===== src/Upload/Laws/Claims.antt =====
-- The claims of uploads. Every SQL statement is a step of its own, so the steps of several requests
-- interleave freely: `holders` tells which file a request has claimed and not yet marked.
use mathlib.Core.Path.{subst}
use slope_monitoring.Common.{
  ℕ, false, Option, none, some, List, [], ◌∷◌, ◌==◌, ◌≡◌, refl, sym, ap, ◌∙◌, inl, inr, Bool-cases,
  Option-cases, arith, if◌then◌else◌,
}
use slope_monitoring.Common.Text.{text_eq}
use slope_monitoring.Common.Text.Decimal.{text_eq_refl}
use slope_monitoring.Upload.Headers.{Text, UploadHeaders}
use slope_monitoring.Upload.Ledger.{
  processing, UploadRow, Ledger, find_upload, update_upload, new_row, insert_claim, is_failed,
  restarted, retry_claim, mark_processed, mark_failed, as_processed, as_failed,
}
use slope_monitoring.Upload.Laws.Naming.{text_eq-≡}

pub record World : Type 0 where
  pub ledger : Ledger
  pub holders : ℕ → Option Text

unfoldable pub hold : ℕ → Option Text → (ℕ → Option Text) → ℕ → Option Text
hold i f holders j = if i == j then f else holders j

-- The statements of the requests, in any order. A request that claims a file, by the INSERT or by the
-- UPDATE of a failed row, holds no other; only a request that holds a file marks its row. Statements
-- that change nothing (an INSERT that meets a row, an UPDATE that finds none, a SELECT) are left out.
pub data Step : World → World → Type 0 where
  inserts :
      {w : World} {l : Ledger} {row : UploadRow} (i now : ℕ) (h : UploadHeaders)
      → w.holders i ≡ none
      → insert_claim now h w.ledger ≡ (some row, l)
      → Step w (record { ledger = l; holders = hold i (some h.file_name) w.holders })
  retries :
      {w : World} {l : Ledger} {row : UploadRow} (i now : ℕ) (f : Text)
      → w.holders i ≡ none
      → retry_claim now f w.ledger ≡ (some row, l)
      → Step w (record { ledger = l; holders = hold i (some f) w.holders })
  succeeds :
      {w : World} (i now : ℕ) (f : Text)
      → w.holders i ≡ some f
      → Step w (record { ledger = mark_processed now f w.ledger; holders = hold i none w.holders })
  fails :
      {w : World} (i now : ℕ) (f summary : Text)
      → w.holders i ≡ some f
      → Step w
          (record { ledger = mark_failed now f summary w.ledger; holders = hold i none w.holders })

pub data Steps : World → World → Type 0 where
  done : {w : World} → Steps w w
  next : {u v w : World} → Steps u v → Step v w → Steps u w

-- the row of a file is marked as being processed
abbrev pub IsProcessing : Text → List UploadRow → Type 0
IsProcessing f rows = (r : UploadRow) × (find_upload f rows ≡ some r) × (r.status ≡ processing)

-- every held file is being processed, and by one request
pub record IsExclusive (w : World) : Type 0 where
  pub held : (i : ℕ) (f : Text) → w.holders i ≡ some f → IsProcessing f w.ledger.uploads
  pub one : (i j : ℕ) (f : Text) → w.holders i ≡ some f → w.holders j ≡ some f → i ≡ j

text_eq-sym : (s t : Text) → text_eq s t ≡ text_eq t s
unfolding text_eq
text_eq-sym [] [] = refl
text_eq-sym [] (d ∷ t) = refl
text_eq-sym (c ∷ s) [] = refl
text_eq-sym (c ∷ s) (d ∷ t) = ground (arith, text_eq-sym s t)

-- an update that keeps the name changes the row of its file
pub find_upload-update_upload :
    (f : Text) (g : UploadRow → UploadRow) (rows : List UploadRow) (r : UploadRow)
    → ((x : UploadRow) → (g x).file_name ≡ x.file_name)
    → find_upload f rows ≡ some r
    → find_upload f (update_upload f g rows) ≡ some (g r)
unfolding find_upload update_upload
find_upload-update_upload f g [] r keeps h = absurd (ground arith)
find_upload-update_upload f g (x ∷ rows) r keeps h = elim (Bool-cases (text_eq x.file_name f)) [
  | inl same ↦ let named = ap (λ n. text_eq n f) (keeps x) ∙ same in rw (same, named) (ground arith)
  | inr other ↦ rw (other, other) (find_upload-update_upload f g rows r keeps (ground arith))
]

-- and no other
find_upload-update_upload_other :
    (e f : Text) (g : UploadRow → UploadRow) (rows : List UploadRow)
    → ((x : UploadRow) → (g x).file_name ≡ x.file_name)
    → text_eq f e ≡ false
    → find_upload e (update_upload f g rows) ≡ find_upload e rows
unfolding find_upload update_upload
find_upload-update_upload_other e f g [] keeps h = refl
find_upload-update_upload_other e f g (x ∷ rows) keeps h =
    let rest = find_upload-update_upload_other e f g rows keeps h in
    elim (Bool-cases (text_eq x.file_name f)) [
      | inl same ↦
          let apart = ap (λ n. text_eq n e) (text_eq-≡ x.file_name f same) ∙ h in
          rw (same, keeps x, apart) rest
      | inr other ↦ rw (other, rest) refl
    ]

-- only the row of `f` differs
LeavesOthers : Text → List UploadRow → List UploadRow → Type 0
LeavesOthers f rows rows' =
    (e : Text) → text_eq f e ≡ false → find_upload e rows' ≡ find_upload e rows

-- a claim finds the file not being processed, and leaves it being processed
IsClaim : Text → List UploadRow → List UploadRow → Type 0
IsClaim f rows rows' = (¬ IsProcessing f rows) × IsProcessing f rows' × LeavesOthers f rows rows'

insert_claim-IsClaim :
    (now : ℕ) (h : UploadHeaders) (l l' : Ledger) (row : UploadRow)
    → insert_claim now h l ≡ (some row, l')
    → IsClaim h.file_name l.uploads l'.uploads
unfolding IsClaim LeavesOthers insert_claim new_row find_upload
insert_claim-IsClaim now h l l' row e = elim (Option-cases (find_upload h.file_name l.uploads)) [
  | inl absent ↦
      let after : l'.uploads ≡ new_row now h ∷ l.uploads = ground arith in
      (
        λ p. ground (arith, p.1),
        subst (IsProcessing h.file_name) (sym after)
            (new_row now h, rw (text_eq_refl h.file_name) refl, refl),
        λ d apart. ap (find_upload d) after ∙ rw apart refl,
      )
  | inr (r, found) ↦ absurd (ground arith)
]

retry_claim-IsClaim :
    (now : ℕ) (f : Text) (l l' : Ledger) (row : UploadRow)
    → retry_claim now f l ≡ (some row, l')
    → IsClaim f l.uploads l'.uploads
unfolding IsClaim LeavesOthers retry_claim restarted is_failed
retry_claim-IsClaim now f l l' row e = elim (Option-cases (find_upload f l.uploads)) [
  | inl absent ↦ absurd (ground arith)
  | inr (r, found) ↦
      let after : l'.uploads ≡ update_upload f (restarted now) l.uploads = ground arith in
      (
        λ p. ground (arith, p.1),
        subst (IsProcessing f) (sym after) (
          restarted now r,
          find_upload-update_upload f (restarted now) l.uploads r (λ x. refl) found,
          refl,
        ),
        λ d apart.
            ap (find_upload d) after
            ∙ find_upload-update_upload_other d f (restarted now) l.uploads (λ x. refl) apart,
      )
]

-- no request holds a file that is not being processed
not_held :
    {w : World} {f : Text}
    → IsExclusive w
    → ¬ IsProcessing f w.ledger.uploads
    → (j : ℕ) (d : Text) → f ≡ d
    → ¬ (w.holders j ≡ some d)
not_held {w = w} x fresh j d e h =
    fresh (subst (λ n. IsProcessing n w.ledger.uploads) (sym e) (x.held j d h))

-- a request that holds nothing claims a file
claim-IsExclusive :
    (w : World) (i : ℕ) (f : Text) (l : Ledger)
    → IsExclusive w
    → w.holders i ≡ none
    → IsClaim f w.ledger.uploads l.uploads
    → IsExclusive (record { ledger = l; holders = hold i (some f) w.holders })
unfolding IsClaim LeavesOthers hold
claim-IsExclusive w i f l x free (fresh, held, others) = record {
  held = λ j d h. elim (Bool-cases (i == j)) [
    | inl same ↦ subst (λ n. IsProcessing n l.uploads) (ground arith) held
    | inr other ↦
        let old = x.held j d (ground arith) in
        elim (Bool-cases (text_eq f d)) [
          | inl meet ↦
              absurd (
                fresh (subst (λ n. IsProcessing n w.ledger.uploads) (sym (text_eq-≡ f d meet)) old))
          | inr apart ↦ (old.0, others d apart ∙ old.1, old.2)
        ]
  ];
  one = λ j k d hj hk. elim (Bool-cases (i == j)) [
    | inl a ↦ elim (Bool-cases (i == k)) [
      | inl b ↦ ground arith
      | inr b ↦ absurd (not_held x fresh k d (ground arith) (ground arith))
    ]
    | inr a ↦ elim (Bool-cases (i == k)) [
      | inl b ↦ absurd (not_held x fresh j d (ground arith) (ground arith))
      | inr b ↦ x.one j k d (ground arith) (ground arith)
    ]
  ];
}

-- a request marks the file it holds
mark-IsExclusive :
    (w : World) (i : ℕ) (f : Text) (l : Ledger)
    → IsExclusive w
    → w.holders i ≡ some f
    → LeavesOthers f w.ledger.uploads l.uploads
    → IsExclusive (record { ledger = l; holders = hold i none w.holders })
unfolding LeavesOthers hold
mark-IsExclusive w i f l x holds others = record {
  held = λ j d h.
      let stays : w.holders j ≡ some d = ground arith in
      let old = x.held j d stays in
      elim (Bool-cases (text_eq f d)) [
        | inl meet ↦
            let same = x.one i j d (holds ∙ ap some (text_eq-≡ f d meet)) stays in
            absurd (ground arith)
        | inr apart ↦ (old.0, others d apart ∙ old.1, old.2)
      ];
  one = λ j k d hj hk. x.one j k d (ground arith) (ground arith);
}

pub Step-IsExclusive : (u w : World) → IsExclusive u → Step u w → IsExclusive w
unfolding mark_processed mark_failed as_processed as_failed LeavesOthers
Step-IsExclusive u w x (Step.inserts i now h free e) =
    claim-IsExclusive u i h.file_name _ x free (insert_claim-IsClaim now h u.ledger _ _ e)
Step-IsExclusive u w x (Step.retries i now f free e) =
    claim-IsExclusive u i f _ x free (retry_claim-IsClaim now f u.ledger _ _ e)
Step-IsExclusive u w x (Step.succeeds i now f holds) =
    mark-IsExclusive u i f _ x holds
      (λ d apart. find_upload-update_upload_other d f (as_processed now) _ (λ r. refl) apart)
Step-IsExclusive u w x (Step.fails i now f summary holds) =
    mark-IsExclusive u i f _ x holds
      (λ d apart. find_upload-update_upload_other d f (as_failed now summary) _ (λ r. refl) apart)

-- Whatever way the statements of concurrent upload requests interleave, starting where no request
-- holds a file: every file that a request has claimed and not yet marked is marked as being
-- processed, and no two requests hold the same file.
pub Steps-IsExclusive : (u w : World) → ((i : ℕ) → u.holders i ≡ none) → Steps u w → IsExclusive w
Steps-IsExclusive u w free Steps.done = record {
  held = λ i f h. absurd (ground (arith, free i));
  one = λ i j f h k. absurd (ground (arith, free i));
}
Steps-IsExclusive u w free (Steps.next before last) =
    Step-IsExclusive _ w (Steps-IsExclusive u _ free before) last
