-- ===== src/Ppk/Laws/Fingerprints.antt =====
-- The bytes that a fingerprint hashes determine its parts.
use mathlib.Core.Path.{subst}
use slope_monitoring.Common.{
  ℕ, zero, suc, ◌+◌, ◌*◌, ◌/◌, ◌%◌, ◌<◌, ◌≡◌, refl, sym, ap, ◌∙◌, List, [], ◌∷◌, ◌++◌, All, length,
  take, drop, length-append, arith,
}
use slope_monitoring.Ppk.Fingerprint.{big_bytes, framed, hashed}
use slope_monitoring.Ppk.Laws.Bytes.{take-append, drop-append}

big_value : List ℕ → ℕ → ℕ
big_value [] acc = acc
big_value (x ∷ xs) acc = big_value xs (acc * 256 + x)

big_value-append :
    (xs : List ℕ) (x acc : ℕ) → big_value (xs ++ x ∷ []) acc ≡ big_value xs acc * 256 + x
unfolding big_value
big_value-append [] x acc = refl
big_value-append (y ∷ xs) x acc = big_value-append xs x (acc * 256 + y)

-- what is left of n above `width` bytes
above : ℕ → ℕ → ℕ
above zero n = n
above (suc width) n = above width (n / 256)

big_value-big_bytes : (width n : ℕ) → above width n ≡ 0 → big_value (big_bytes width n) 0 ≡ n
unfolding big_value big_bytes above
big_value-big_bytes zero n h = sym h
big_value-big_bytes (suc width) n h = omega (
  arith,
  big_value-append (big_bytes width (n / 256)) (n % 256) 0,
  big_value-big_bytes width (n / 256) h,
)

length-big_bytes : (width n : ℕ) → length (big_bytes width n) ≡ width
unfolding big_bytes
length-big_bytes zero n = refl
length-big_bytes (suc width) n = omega (
  arith,
  length-append (big_bytes width (n / 256)) ((n % 256) ∷ []),
  length-big_bytes width (n / 256),
)

-- Reads n parts, each after its length in eight bytes.
read_parts : ℕ → List ℕ → List (List ℕ)
read_parts zero bs = []
read_parts (suc n) bs =
    let size = big_value (take 8 bs) 0 in
    take size (drop 8 bs) ∷ read_parts n (drop size (drop 8 bs))

-- the length of a part fits into eight bytes
abbrev pub IsShort : List ℕ → Type 0
IsShort part = length part < 18446744073709551616

eight_bytes : (n : ℕ) → n < 18446744073709551616 → above 8 n ≡ 0
unfolding above
eight_bytes n h = omega arith

read_parts-framed :
    (parts : List (List ℕ)) → All IsShort parts → read_parts (length parts) (framed parts) ≡ parts
unfolding read_parts framed
read_parts-framed [] h = refl
read_parts-framed (part ∷ parts) h =
    let width = length-big_bytes 8 (length part) in
    let head : take 8 (framed (part ∷ parts)) ≡ big_bytes 8 (length part) =
      subst (λ n. take n (framed (part ∷ parts)) ≡ big_bytes 8 (length part)) width
        (take-append (big_bytes 8 (length part)) (part ++ framed parts)) in
    let tail : drop 8 (framed (part ∷ parts)) ≡ part ++ framed parts =
      subst (λ n. drop n (framed (part ∷ parts)) ≡ part ++ framed parts) width
        (drop-append (big_bytes 8 (length part)) (part ++ framed parts)) in
    let size : big_value (big_bytes 8 (length part)) 0 ≡ length part =
      big_value-big_bytes 8 (length part) (eight_bytes (length part) h.0) in
    rw (head, tail, size, take-append part (framed parts), drop-append part (framed parts))
      (ap (λ ps. part ∷ ps) (read_parts-framed parts h.1))

-- Two fingerprints of as many parts hash the same bytes only if the parts are the same, so that a
-- change of an observation, of the navigation file, the configuration, the reference or the scope
-- changes what is hashed, even where bytes only move from one part to the next.
pub hashed-injective :
    (ps qs : List (List ℕ))
    → length ps ≡ length qs
    → All IsShort ps
    → All IsShort qs
    → hashed ps ≡ hashed qs
    → ps ≡ qs
unfolding hashed
hashed-injective ps qs size hp hq h =
    sym (read_parts-framed ps hp)
    ∙ ap (λ bs. read_parts (length ps) (drop 24 bs)) h
    ∙ ap (λ n. read_parts n (framed qs)) size
    ∙ read_parts-framed qs hq
