-- ===== src/Ppk/Laws/Navigation.antt =====
-- What nav_for returns was validated, and what it writes to the cache too.
use mathlib.Core.Path.{subst}
use slope_monitoring.Common.{
  ℕ, String, ◌≡◌, refl, sym, ap, ◌∙◌, ◌⊎◌, inl, inr, Bool, true, false, Option, none, some, List,
  length, arith, Bool-cases, Option-cases, ◌==◌, ◌&&◌, str_eq, eq_iff, if◌then◌else◌,
  some-injective, ltb,
}
use slope_monitoring.Ppk.Nav.{
  Product, igs, wrd, Cache, Nav, found, waiting, refused, Download, http_error, put, same_product,
  validated, use_cached, max_packed, waits_for, fetched, deadline, network, invalid, promote,
  promote_valid, has_digest, day_of, expand, download_product, is_missing, nav_online, nav_from,
  nav_for,
}

module _ (gunzip : List ℕ → Option (List ℕ)) (lines_of : List ℕ → List (List ℕ))
    (in_version_3 : List ℕ → Option Bool) (ephemeris : List ℕ → Option ℕ)
    (sha256 : List ℕ → String) where
  abbrev check : ℕ → ℕ → List ℕ → Nav (List ℕ × ℕ)
  check start end packed = validated gunzip lines_of in_version_3 ephemeris sha256 start end packed

  -- Of the product, the number and the digest that are returned: the packed and the plain file of
  -- the product and the day are in the cache; the packed file is valid, and what it expands to has that
  -- many nearby records and that digest; and the plain file has that digest too.
  pub record IsReady (start end : ℕ) (x : Product × ℕ × String) (c : Cache) : Type 0 where
    pub packed : List ℕ
    pub plain : List ℕ
    pub file : List ℕ
    packed_is : c.packed (day_of start) x.0 ≡ some packed
    file_is : c.plain (day_of start) x.0 ≡ some file
    pub valid : check start end packed ≡ found (plain, x.1)
    digest_is : x.2 ≡ sha256 plain
    same_digest : sha256 file ≡ x.2

  -- a packed file that is in the cache after was there before, or is valid for the window
  abbrev pub AddsValid : ℕ → ℕ → Cache → Cache → Type 0
  AddsValid start end c c' =
      (day : ℕ) (p : Product) (packed : List ℕ)
      → c'.packed day p ≡ some packed
      → (c.packed day p ≡ some packed)
        ⊎ ((plain : List ℕ) × (count : ℕ) × (check start end packed ≡ found (plain, count)))

  -- what a call answers and writes
  pub record IsSound (start end : ℕ) (c : Cache) (r : Nav (Product × ℕ × String) × Cache)
      : Type 0 where
    ready : (x : Product × ℕ × String) → r.0 ≡ found x → IsReady start end x r.1
    pub adds : AddsValid start end c r.1

  abbrev found_or : Product × ℕ × String → Nav (Product × ℕ × String) → Product × ℕ × String
  found_or x (found y) = y
  found_or x n = x

  found-injective : (x y : Product × ℕ × String) → Nav.found x ≡ found y → x ≡ y
  found-injective x y h = ap (found_or x) h

  stopped-IsSound :
      (start end : ℕ) (c : Cache) (r : Nav (Product × ℕ × String))
      → (r ≡ waiting) ⊎ (r ≡ refused)
      → IsSound start end c (r, c)
  stopped-IsSound start end c r h = record {
    ready = λ x e. absurd (ground arith);
    adds = λ day p packed e. inl e;
  }

  put_self :
      (day : ℕ) (p : Product) (bytes : List ℕ) (files : ℕ → Product → Option (List ℕ))
      → put day p bytes files day p ≡ some bytes
  unfolding put same_product
  put_self day igs bytes files = ground arith
  put_self day wrd bytes files = ground arith

  abbrev written : ℕ → Product → List ℕ → Cache → Cache
  written day p plain c =
      if has_digest gunzip lines_of in_version_3 ephemeris sha256 (sha256 plain) (c.plain day p)
      then c
      else record c { plain = put day p plain c.plain }

  -- the plain file after the write, if there is one, has the digest of the bytes
  stored_file :
      (day : ℕ) (p : Product) (plain : List ℕ) (c : Cache)
      → (file : List ℕ) × ((written day p plain c).plain day p ≡ some file)
        × (sha256 file ≡ sha256 plain)
        × ((written day p plain c).packed ≡ c.packed)
  unfolding has_digest
  stored_file day p plain c = elim (Option-cases (c.plain day p)) [
    | inl e ↦ (plain, rw e (put_self day p plain c.plain), refl, rw e refl)
    | inr (old, e) ↦ elim (Bool-cases (str_eq (sha256 old) (sha256 plain))) [
      | inl same ↦
          (old, rw (e, same) e, (eq_iff (sha256 old) (sha256 plain)).0 same, rw (e, same) refl)
      | inr differs ↦
          (plain, rw (e, differs) (put_self day p plain c.plain), refl, rw (e, differs) refl)
    ]
  ]

  expand-IsSound :
      (start end : ℕ) (p : Product) (packed : List ℕ) (c : Cache) (v : Nav (List ℕ × ℕ))
      → c.packed (day_of start) p ≡ some packed
      → check start end packed ≡ v
      → IsSound start end c
          (expand gunzip lines_of in_version_3 ephemeris sha256 (day_of start) p c v)
  unfolding expand
  expand-IsSound start end p packed c waiting held is =
      stopped-IsSound start end c waiting (inl refl)
  expand-IsSound start end p packed c refused held is =
      stopped-IsSound start end c refused (inr refl)
  expand-IsSound start end p packed c (found v) held is =
      let day = day_of start in
      let (file, file_is, same_digest, packed_kept) = stored_file day p v.0 c in
      record {
        ready = λ x e.
            let after =
              (expand gunzip lines_of in_version_3 ephemeris sha256 day p c (found v)).1 in
            let made : IsReady start end (p, v.1, sha256 v.0) after = record {
              packed = packed;
              plain = v.0;
              file = file;
              packed_is = ap (λ f. f day p) packed_kept ∙ held;
              file_is = file_is;
              valid = is;
              digest_is = refl;
              same_digest = same_digest;
            } in
            subst (λ y. IsReady start end y after) (found-injective (p, v.1, sha256 v.0) x e) made;
        adds = λ d q bytes e. inl (ap (λ f. f d q) (sym packed_kept) ∙ e);
      }

  use_cached-IsSound :
      (start end : ℕ) (p : Product) (packed : List ℕ) (c : Cache)
      → c.packed (day_of start) p ≡ some packed
      → IsSound start end c
          (use_cached gunzip lines_of in_version_3 ephemeris sha256 start end p packed c)
  unfolding use_cached
  use_cached-IsSound start end p packed c held = expand-IsSound start end p packed c _ held refl

  put-cases :
      (day d : ℕ) (p q : Product) (bytes : List ℕ) (files : ℕ → Product → Option (List ℕ))
      {b : List ℕ}
      → put day p bytes files d q ≡ some b
      → (b ≡ bytes) ⊎ (files d q ≡ some b)
  unfolding put
  put-cases day d p q bytes files {b} h = elim (Bool-cases (day == d && same_product p q)) [
    | inl e ↦ inl (sym (some-injective (sym (rw e refl) ∙ h)))
    | inr e ↦ inr (sym (rw e refl) ∙ h)
  ]

  promote_valid-IsSound :
      (start end : ℕ) (p : Product) (packed : List ℕ) (c : Cache) (v : Nav (List ℕ × ℕ))
      → check start end packed ≡ v
      → IsSound start end c
          (promote_valid gunzip lines_of in_version_3 ephemeris sha256 start end p packed c v)
  unfolding promote_valid
  promote_valid-IsSound start end p packed c waiting is =
      stopped-IsSound start end c waiting (inl refl)
  promote_valid-IsSound start end p packed c refused is =
      stopped-IsSound start end c refused (inr refl)
  promote_valid-IsSound start end p packed c (found v) is =
      let c1 : Cache = record c { packed = put (day_of start) p packed c.packed } in
      let sound =
        use_cached-IsSound start end p packed c1 (put_self (day_of start) p packed c.packed) in
      record {
        ready = sound.ready;
        adds = λ d q bytes e. elim (sound.adds d q bytes e) [
          | inr valid ↦ inr valid
          | inl new ↦ elim (put-cases (day_of start) d p q packed c.packed new) [
            | inl same ↦ inr (v.0, v.1, ap (check start end) same ∙ is)
            | inr old ↦ inl old
          ]
        ];
      }

  promote-IsSound :
      (start end : ℕ) (p : Product) (packed : List ℕ) (c : Cache)
      → IsSound start end c
          (promote gunzip lines_of in_version_3 ephemeris sha256 start end p packed c)
  unfolding promote
  promote-IsSound start end p packed c = elim (Bool-cases (ltb max_packed (length packed))) [
    | inl e ↦ rw e (stopped-IsSound start end c refused (inr refl))
    | inr e ↦ rw e (promote_valid-IsSound start end p packed c _ refl)
  ]

  download_product-IsSound :
      (start end : ℕ) (p : Product) (d : Download) (c : Cache)
      → IsSound start end c
          (download_product gunzip lines_of in_version_3 ephemeris sha256 start end p d c)
  unfolding download_product
  download_product-IsSound start end p (fetched packed) c = promote-IsSound start end p packed c
  download_product-IsSound start end p (http_error code) c =
      elim (Bool-cases (waits_for gunzip lines_of in_version_3 ephemeris sha256 code)) [
        | inl e ↦ rw e (stopped-IsSound start end c waiting (inl refl))
        | inr e ↦ rw e (stopped-IsSound start end c refused (inr refl))
      ]
  download_product-IsSound start end p deadline c = stopped-IsSound start end c waiting (inl refl)
  download_product-IsSound start end p network c = stopped-IsSound start end c waiting (inl refl)
  download_product-IsSound start end p invalid c = stopped-IsSound start end c refused (inr refl)

  nav_from-IsSound :
      (start end : ℕ) (online : Bool) (download : Product → Download) (c : Cache)
      (first second : Option (List ℕ))
      → c.packed (day_of start) igs ≡ first
      → c.packed (day_of start) wrd ≡ second
      → IsSound start end c (
          nav_from gunzip lines_of in_version_3 ephemeris sha256 start end online download c first
            second)
  unfolding nav_from nav_online
  nav_from-IsSound start end online download c (some packed) second e1 e2 =
      use_cached-IsSound start end igs packed c e1
  nav_from-IsSound start end online download c none (some packed) e1 e2 =
      use_cached-IsSound start end wrd packed c e2
  nav_from-IsSound start end false download c none none e1 e2 =
      stopped-IsSound start end c waiting (inl refl)
  nav_from-IsSound start end true download c none none e1 e2 =
      elim (Bool-cases (is_missing gunzip lines_of in_version_3 ephemeris sha256 (download igs))) [
        | inl m ↦ rw m (download_product-IsSound start end wrd (download wrd) c)
        | inr m ↦ rw m (download_product-IsSound start end igs (download igs) c)
      ]

  nav_for-IsSound :
      (start end : ℕ) (online : Bool) (download : Product → Download) (c : Cache)
      → IsSound start end c
          (nav_for gunzip lines_of in_version_3 ephemeris sha256 start end online download c)
  unfolding nav_for
  nav_for-IsSound start end online download c =
      nav_from-IsSound start end online download c (c.packed (day_of start) igs)
        (c.packed (day_of start) wrd) refl refl

  -- Whatever the server sends and the cache holds: where `nav_for` returns, the packed file of the
  -- returned product and of the day is in the cache and valid for the window, what it expands to has
  -- the returned digest and number of records, and so has the plain file of the cache the digest.
  pub nav_for-IsReady :
      (start end : ℕ) (online : Bool) (download : Product → Download) (c : Cache)
      (x : Product × ℕ × String)
      → (nav_for gunzip lines_of in_version_3 ephemeris sha256 start end online download c).0
        ≡ found x
      → IsReady start end x
          (nav_for gunzip lines_of in_version_3 ephemeris sha256 start end online download c).1
  nav_for-IsReady start end online download c x h =
      (nav_for-IsSound start end online download c).ready x h

  -- Whatever the server sends, and however the call ends: a packed file that is in the cache after it was
  -- there before, or is valid for the window.
  pub nav_for-adds :
      (start end : ℕ) (online : Bool) (download : Product → Download) (c : Cache) (day : ℕ)
      (p : Product) (packed : List ℕ)
      → (nav_for gunzip lines_of in_version_3 ephemeris sha256 start end online download c).1.packed
          day p
        ≡ some packed
      → (c.packed day p ≡ some packed)
        ⊎ ((plain : List ℕ) × (count : ℕ) × (validated gunzip lines_of in_version_3 ephemeris sha256
                start end packed
              ≡ found (plain, count)))
  nav_for-adds start end online download c day p packed h =
      (nav_for-IsSound start end online download c).adds day p packed h
