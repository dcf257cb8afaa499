-- ===== src/Ppk/Nav.antt =====
-- scripts/ppk_qa_scheduler.py: the navigation file of a window (validate_nav, nav_for). Parameters
-- stand for gzip, for the lines of the decoded bytes, for `float` of the version, for the pattern of an
-- ephemeris record with its date, and for the digest. A download is an argument, with any outcome.
use slope_monitoring.Common.{
  ℕ, zero, suc, ◌+◌, ◌-◌, ◌*◌, ◌/◌, String, Bool, true, false, not, ◌&&◌, ◌||◌, Option, none, some,
  List, [], ◌∷◌, length, take, ltb, leb, ◌==◌, str_eq, if◌then◌else◌,
}
use slope_monitoring.Common.Text.{codes}
use slope_monitoring.Ppk.Hours.{hour}

pub data Product : Type 0 where
  igs wrd : Product

unfoldable pub same_product : Product → Product → Bool
same_product igs igs = true
same_product wrd wrd = true
same_product p q = false

-- start.date(), as a number of days, which the names of the files carry
unfoldable pub day_of : ℕ → ℕ
day_of start = start / (24 * hour)

-- the files NAME.rnx.gz and NAME.rnx of each day and product
pub record Cache : Type 0 where
  pub packed : ℕ → Product → Option (List ℕ)
  pub plain : ℕ → Product → Option (List ℕ)

-- A result, or what is raised: an exception whose text starts with WAITING_NAV, or another.
pub data Nav (A : Type 0) : Type 0 where
  found : A → Nav A
  waiting : Nav A
  refused : Nav A

-- of download_nav_resumable; `invalid` is a ValueError
pub data Download : Type 0 where
  fetched : List ℕ → Download
  http_error : ℕ → Download
  deadline network invalid : Download

abbrev pub max_packed : ℕ
max_packed = 30 * 1024 * 1024

abbrev pub max_expanded : ℕ
max_expanded = 80 * 1024 * 1024

-- t is at the start of s
unfoldable pub is_prefix : List ℕ → List ℕ → Bool
is_prefix [] s = true
is_prefix (c ∷ t) [] = false
is_prefix (c ∷ t) (d ∷ s) = c == d && is_prefix t s

-- t in s
unfoldable pub contains : List ℕ → List ℕ → Bool
contains t [] = is_prefix t []
contains t (c ∷ s) = is_prefix t (c ∷ s) || contains t s

-- the lines after the first of `lines[:n]` that has the text END OF HEADER
unfoldable pub after_header : ℕ → List (List ℕ) → Option (List (List ℕ))
after_header zero lines = none
after_header (suc n) [] = none
after_header (suc n) (line ∷ lines) =
    let rest = after_header n lines in
    if contains (codes "END OF HEADER") line then some lines else rest

-- a write to one file
unfoldable pub put :
    ℕ → Product → List ℕ → (ℕ → Product → Option (List ℕ)) → ℕ → Product → Option (List ℕ)
put day p bytes files d q = if day == d && same_product p q then some bytes else files d q

module _ (gunzip : List ℕ → Option (List ℕ)) (lines_of : List ℕ → List (List ℕ))
    (in_version_3 : List ℕ → Option Bool) (ephemeris : List ℕ → Option ℕ)
    (sha256 : List ℕ → String) where
  -- bounded_nav_decompress, where `gunzip` gives `none` for EOFError and OSError
  unfoldable pub decompress : List ℕ → Nav (List ℕ)
  decompress packed = if ltb max_packed (length packed) then refused else elim (gunzip packed) [
    | none ↦ refused
    | some out ↦ if ltb max_expanded (length out) then refused else found out
  ]

  -- found += start - 2 hours <= epoch <= end + 2 hours; what is earlier than 1970 is 0
  unfoldable pub nearby : ℕ → ℕ → List (List ℕ) → ℕ
  nearby start end [] = 0
  nearby start end (line ∷ lines) =
      let rest = nearby start end lines in
      elim (ephemeris line) [
        | none ↦ rest
        | some epoch ↦
            if leb (start - 2 * hour) epoch && leb epoch (end + 2 * hour) then suc rest else rest
      ]

  unfoldable pub check_records : ℕ → ℕ → Option (List (List ℕ)) → Option Bool → Nav ℕ
  check_records start end (some records) (some true) =
      if nearby start end records == 0 then waiting else found (nearby start end records)
  check_records start end records version = refused

  unfoldable pub check_lines : ℕ → ℕ → List (List ℕ) → Nav ℕ
  check_lines start end [] = refused
  check_lines start end (first ∷ more) =
      if not (contains (codes "RINEX VERSION / TYPE") first)
      then refused
      else check_records start end (after_header 300 (first ∷ more)) (in_version_3 (take 9 first))

  unfoldable pub validate_nav : List ℕ → ℕ → ℕ → Nav ℕ
  validate_nav raw start end =
      if ltb max_expanded (length raw) then refused else check_lines start end (lines_of raw)

  -- decompression, and the number of nearby records
  unfoldable pub validated : ℕ → ℕ → List ℕ → Nav (List ℕ × ℕ)
  validated start end packed = elim (decompress packed) [
    | waiting ↦ waiting
    | refused ↦ refused
    | found plain ↦ elim (validate_nav plain start end) [
      | waiting ↦ waiting
      | refused ↦ refused
      | found count ↦ found (plain, count)
    ]
  ]

  -- target.exists() and hashlib.sha256(target.read_bytes()).hexdigest() == digest
  unfoldable pub has_digest : String → Option (List ℕ) → Bool
  has_digest digest none = false
  has_digest digest (some bytes) = str_eq (sha256 bytes) digest

  -- the plain copy of validated bytes is written where it is missing or has another digest; what is
  -- returned is the product, the number of records and the digest
  unfoldable pub expand :
      ℕ → Product → Cache → Nav (List ℕ × ℕ) → Nav (Product × ℕ × String) × Cache
  expand day p c waiting = (waiting, c)
  expand day p c refused = (refused, c)
  expand day p c (found v) = (
    found (p, v.1, sha256 v.0),
    if has_digest (sha256 v.0) (c.plain day p)
        then c
        else record c { plain = put day p v.0 c.plain },
  )

  -- a file of the cache is validated on every read
  unfoldable pub use_cached : ℕ → ℕ → Product → List ℕ → Cache → Nav (Product × ℕ × String) × Cache
  use_cached start end p packed c = expand (day_of start) p c (validated start end packed)

  unfoldable pub waits_for : ℕ → Bool
  waits_for code =
      code == 404 || code == 429 || code == 500 || code == 502 || code == 503 || code == 504

  -- a download is promoted to the cache only where it is validated, and then read from it
  unfoldable pub promote_valid :
      ℕ → ℕ → Product → List ℕ → Cache → Nav (List ℕ × ℕ) → Nav (Product × ℕ × String) × Cache
  promote_valid start end p packed c waiting = (waiting, c)
  promote_valid start end p packed c refused = (refused, c)
  promote_valid start end p packed c (found v) =
      use_cached start end p packed (record c { packed = put (day_of start) p packed c.packed })

  unfoldable pub promote : ℕ → ℕ → Product → List ℕ → Cache → Nav (Product × ℕ × String) × Cache
  promote start end p packed c =
      if ltb max_packed (length packed)
      then (refused, c)
      else promote_valid start end p packed c (validated start end packed)

  -- the round for a product that is not in the cache, where a missing primary was dealt with
  unfoldable pub download_product :
      ℕ → ℕ → Product → Download → Cache → Nav (Product × ℕ × String) × Cache
  download_product start end p (fetched packed) c = promote start end p packed c
  download_product start end p (http_error code) c =
      (if waits_for code then waiting else refused, c)
  download_product start end p deadline c = (waiting, c)
  download_product start end p network c = (waiting, c)
  download_product start end p invalid c = (refused, c)

  -- exc.code == 404, for the primary product
  unfoldable pub is_missing : Download → Bool
  is_missing (http_error code) = code == 404
  is_missing d = false

  -- the second loop, where neither product is in the cache
  unfoldable pub nav_online :
      ℕ → ℕ → (Product → Download) → Cache → Nav (Product × ℕ × String) × Cache
  nav_online start end download c =
      if is_missing (download igs)
      then download_product start end wrd (download wrd) c
      else download_product start end igs (download igs) c

  -- the packed files of both products, the primary first; `online` is `not args.no_download`
  unfoldable pub nav_from :
      ℕ
      → ℕ
      → Bool
      → (Product → Download)
      → Cache
      → Option (List ℕ)
      → Option (List ℕ)
      → Nav (Product × ℕ × String) × Cache
  nav_from start end online download c (some packed) other = use_cached start end igs packed c
  nav_from start end online download c none (some packed) = use_cached start end wrd packed c
  nav_from start end online download c none none =
      if online then nav_online start end download c else (waiting, c)

  unfoldable pub nav_for :
      ℕ → ℕ → Bool → (Product → Download) → Cache → Nav (Product × ℕ × String) × Cache
  nav_for start end online download c =
      nav_from start end online download c (c.packed (day_of start) igs)
        (c.packed (day_of start) wrd)
