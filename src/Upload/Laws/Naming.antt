-- ===== src/Upload/Laws/Naming.antt =====
-- The name of an uploaded file determines its device and the kind of its data; the upload's route.
use slope_monitoring.Common.{
  suc, Bool, true, List, [], ◌∷◌, ◌++◌, length, length-append, ◌≡◌, refl, sym, ap, ◌∙◌, ◌⊎◌, inl,
  inr, arith,
}
use mathlib.Core.Path.{subst}
use slope_monitoring.Common.Text.{codes, text_eq}
use slope_monitoring.Errors.{ok-injective, ok, require, bind-ok, Result-cases, then-ok}
use slope_monitoring.Upload.Headers.{
  Text, RawHeaders, UploadHeaders, Symbol, accepts, matches, literals, name_end, name_start,
  file_pattern, validate_file_name, is_triple, validate_upload_combination, header, headers_of,
  record_count_of, require_headers, required_headers, normal, one_of, validate_headers, Route,
  route,
}

pub text_eq-≡ : (s t : Text) → text_eq s t ≡ true → s ≡ t
unfolding text_eq
text_eq-≡ [] [] h = refl
text_eq-≡ [] (d ∷ t) h = absurd (ground arith)
text_eq-≡ (c ∷ s) [] h = absurd (ground arith)
text_eq-≡ (c ∷ s) (d ∷ t) h = let rest = text_eq-≡ s t (ground arith) in ground arith

matches-length : (xs : List Symbol) (s : Text) → matches xs s ≡ true → length s ≡ length xs
unfolding matches
matches-length [] [] h = refl
matches-length [] (c ∷ s) h = absurd (ground arith)
matches-length (x ∷ xs) [] h = absurd (ground arith)
matches-length (x ∷ xs) (c ∷ s) h = ap suc (matches-length xs s (ground arith))

-- a text that matches literals and then `xs` starts with the literals
matches-literals :
    (p : Text) (xs : List Symbol) (s : Text)
    → matches (literals p ++ xs) s ≡ true
    → (rest : Text) × (s ≡ p ++ rest) × (matches xs rest ≡ true)
unfolding matches literals accepts
matches-literals [] xs s h = (s, refl, h)
matches-literals (c ∷ p) xs [] h = absurd (ground arith)
matches-literals (c ∷ p) xs (d ∷ s) h =
    let (rest, e, m) = matches-literals p xs s (ground arith) in (rest, ground arith, m)

append-injective : (a b s t : Text) → a ++ s ≡ b ++ t → length s ≡ length t → a ≡ b
append-injective [] [] s t h k = refl
append-injective [] (y ∷ b) s t h k = absurd (omega (arith, ap length h, length-append b t))
append-injective (x ∷ a) [] s t h k = absurd (omega (arith, ap length h, length-append a s))
append-injective (x ∷ a) (y ∷ b) s t h k =
    let rest = append-injective a b s t (ground arith) k in ground arith

append_left_cancel : (p s t : Text) → p ++ s ≡ p ++ t → s ≡ t
append_left_cancel [] s t h = h
append_left_cancel (c ∷ p) s t h = append_left_cancel p s t (ground arith)

-- the headers that validate_headers returns have passed its two last checks
validated :
    (raw : RawHeaders) (h : UploadHeaders)
    → validate_headers raw ≡ ok h
    → (validate_upload_combination h ≡ ok tt) × (validate_file_name h ≡ ok tt)
unfolding validate_headers
validated raw h e =
    let (h1, e1) = then-ok (require_headers raw required_headers) e in
    let (h2, e2) =
      then-ok (require (one_of (normal raw "X-Communication-Mode") ("4g" ∷ "lora" ∷ [])) _) e1 in
    let (h3, e3) =
      then-ok (require (one_of (normal raw "X-Device-Role") ("base" ∷ "rover" ∷ [])) _) e2 in
    let (h4, e4) =
      then-ok (require (one_of (normal raw "X-Data-Type") ("gnss" ∷ "accel" ∷ [])) _) e3 in
    let (n, h5, e5) = bind-ok (record_count_of (header raw "X-Record-Count")) e4 in
    let (h6, e6) = then-ok (validate_upload_combination (headers_of raw n)) e5 in
    let (h7, e7) = then-ok (validate_file_name (headers_of raw n)) e6 in
    subst (λ x. (validate_upload_combination x ≡ ok tt) × (validate_file_name x ≡ ok tt))
      (ok-injective e7) (h6, h7)

combination_cases :
    (h : UploadHeaders)
    → validate_upload_combination h ≡ ok tt
    → (is_triple h "4g" "gnss" "base" ≡ true)
      ⊎ (is_triple h "4g" "gnss" "rover" ≡ true)
      ⊎ (is_triple h "4g" "accel" "rover" ≡ true)
      ⊎ (is_triple h "lora" "gnss" "base" ≡ true)
      ⊎ (is_triple h "lora" "accel" "rover" ≡ true)
unfolding validate_upload_combination
combination_cases h e = ground arith

-- Headers that validate_headers accepts have a route: the refusal of route_and_parse is not reached.
validate_headers-route :
    (raw : RawHeaders) (h : UploadHeaders)
    → validate_headers raw ≡ ok h
    → (r : Route) × (route h ≡ ok r)
unfolding route
validate_headers-route raw h e =
    let cases = combination_cases h (validated raw h e).0 in
    elim (Result-cases (route h)) [ inl r ↦ r | inr (x, p) ↦ absurd (ground arith) ]

-- the data type is `gnss` or `accel`
data_type_cases :
    (h : UploadHeaders)
    → validate_upload_combination h ≡ ok tt
    → (h.data_type ≡ codes "gnss") ⊎ (h.data_type ≡ codes "accel")
unfolding is_triple
data_type_cases h e = elim (combination_cases h e) [
  | inl a ↦ inl (text_eq-≡ h.data_type (codes "gnss") (ground arith))
  | inr (inl a) ↦ inl (text_eq-≡ h.data_type (codes "gnss") (ground arith))
  | inr (inr (inl a)) ↦ inr (text_eq-≡ h.data_type (codes "accel") (ground arith))
  | inr (inr (inr (inl a))) ↦ inl (text_eq-≡ h.data_type (codes "gnss") (ground arith))
  | inr (inr (inr (inr a))) ↦ inr (text_eq-≡ h.data_type (codes "accel") (ground arith))
]

-- a name that the pattern of a data type and a device matches
IsNamed : Bool → Text → Text → Type 0
IsNamed is_gnss device_id name =
    matches (literals (name_start is_gnss) ++ (literals device_id ++ name_end is_gnss)) name ≡ true

validated_name :
    (raw : RawHeaders) (h : UploadHeaders)
    → validate_headers raw ≡ ok h
    → IsNamed (text_eq h.data_type (codes "gnss")) h.device_id h.file_name
unfolding validate_file_name file_pattern IsNamed
validated_name raw h e = ground (arith, validated raw h e)

same_device : (g : Bool) (a b name : Text) → IsNamed g a name → IsNamed g b name → a ≡ b
unfolding IsNamed
same_device g a b name p q =
    let (r, er, mr) = matches-literals (name_start g) (literals a ++ name_end g) name p in
    let (s, es, ms) = matches-literals (name_start g) (literals b ++ name_end g) name q in
    let (t, et, mt) = matches-literals a (name_end g) r mr in
    let (u, eu, mu) = matches-literals b (name_end g) s ms in
    append-injective a b t u (sym et ∙ append_left_cancel (name_start g) r s (sym er ∙ es) ∙ eu)
      (matches-length (name_end g) t mt ∙ sym (matches-length (name_end g) u mu))

same_kind : (g k : Bool) (a b name : Text) → IsNamed g a name → IsNamed k b name → g ≡ k
unfolding IsNamed name_start
same_kind g k a b name p q =
    let (r, er, mr) = matches-literals (name_start g) (literals a ++ name_end g) name p in
    let (s, es, ms) = matches-literals (name_start k) (literals b ++ name_end k) name q in
    ground (arith, er, es)

by_kind :
    (s t : Text)
    → (s ≡ codes "gnss") ⊎ (s ≡ codes "accel")
    → (t ≡ codes "gnss") ⊎ (t ≡ codes "accel")
    → text_eq s (codes "gnss") ≡ text_eq t (codes "gnss")
    → s ≡ t
unfolding text_eq
by_kind s t (inl x) (inl y) k = x ∙ sym y
by_kind s t (inl x) (inr y) k = absurd (ground arith)
by_kind s t (inr x) (inl y) k = absurd (ground arith)
by_kind s t (inr x) (inr y) k = x ∙ sym y

-- Two accepted requests that upload the same file name are of the same device and data type.
pub file_name_determines :
    (raw raw' : RawHeaders) (a b : UploadHeaders)
    → validate_headers raw ≡ ok a
    → validate_headers raw' ≡ ok b
    → a.file_name ≡ b.file_name
    → (a.device_id ≡ b.device_id) × (a.data_type ≡ b.data_type)
file_name_determines raw raw' a b ea eb same =
    let na = validated_name raw a ea in
    let nb = subst (IsNamed _ b.device_id) (sym same) (validated_name raw' b eb) in
    let kind = same_kind _ _ a.device_id b.device_id a.file_name na nb in
    (
      same_device _ a.device_id b.device_id a.file_name na
          (subst (λ g. IsNamed g b.device_id a.file_name) (sym kind) nb),
      by_kind a.data_type b.data_type (data_type_cases a (validated raw a ea).0)
          (data_type_cases b (validated raw' b eb).0) kind,
    )
