-- ===== src/Ppk/Laws/Messages.antt =====
-- The frames that the worker accepts are exactly the encoded messages, and the joined bytes keep
-- their boundaries.
use mathlib.Core.Path.{subst}
use slope_monitoring.Common.{
  ℕ, ◌+◌, ◌-◌, ◌*◌, ◌/◌, ◌%◌, ◌≤◌, ◌<◌, ◌≡◌, refl, sym, ap, ◌∙◌, ◌↔◌, true, List, [], ◌∷◌, ◌++◌,
  length, take, drop, All, length-append, length-drop, arith,
}
use slope_monitoring.Common.Text.{text_eq}
use slope_monitoring.Errors.{ok}
use slope_monitoring.Ppk.Bytes.{slice, last_bytes, inner, little, checksum}
use slope_monitoring.Ppk.Rawx.{check_frame}
use slope_monitoring.Ppk.Laws.Bytes.{
  take-append, drop-append, append-take-drop, at_least_six, length-checksum,
}

-- class, id, length and payload of a UBX-RXM-RAWX message
abbrev body : List ℕ → List ℕ
body payload = 2 ∷ 21 ∷ (length payload % 256) ∷ (length payload / 256) ∷ payload

-- the message with this payload, as the receiver encodes it
abbrev pub message : List ℕ → List ℕ
message payload = 181 ∷ 98 ∷ (body payload ++ checksum (body payload))

text_eq_iff : (s t : List ℕ) → (text_eq s t ≡ true) ↔ (s ≡ t)
unfolding text_eq
text_eq_iff [] [] = ground arith
text_eq_iff [] (d ∷ t) = ground arith
text_eq_iff (c ∷ s) [] = ground arith
text_eq_iff (c ∷ s) (d ∷ t) = ground (arith, text_eq_iff s t)

-- the last two bytes of a message are its checksum, and what stands before them its body
cut_end :
    (xs ys : List ℕ)
    → length ys ≡ 2
    → (take (length (xs ++ ys) - 2) (xs ++ ys) ≡ xs)
      × (drop (length (xs ++ ys) - 2) (xs ++ ys) ≡ ys)
cut_end xs ys h =
    let n : length (xs ++ ys) - 2 ≡ length xs = omega (arith, length-append xs ys, h) in
    rw n (take-append xs ys, drop-append xs ys)

pub message_parts :
    (payload : List ℕ)
    → (length (message payload) ≡ length payload + 8)
      × (last_bytes 2 (message payload) ≡ checksum (body payload))
      × (inner 2 2 (message payload) ≡ body payload)
unfolding last_bytes inner
message_parts payload =
    let cut = cut_end (181 ∷ 98 ∷ body payload) (checksum (body payload)) (length-checksum _) in
    (
      omega
          (arith, length-append payload (checksum (body payload)), length-checksum (body payload)),
      cut.1,
      rw cut.0 refl,
    )

-- What the four tests of a frame say.
pub check_frame_iff :
    (frame : List ℕ)
    → (check_frame frame ≡ ok tt) ↔ (
        (8 ≤ length frame)
        × (take 2 frame ≡ 181 ∷ 98 ∷ [])
        × (length frame ≡ little (slice 4 6 frame) + 8)
        × (last_bytes 2 frame ≡ checksum (inner 2 2 frame))
        × (slice 2 4 frame ≡ 2 ∷ 21 ∷ []))
unfolding check_frame
check_frame_iff frame = ground (
  arith,
  text_eq_iff (take 2 frame) (181 ∷ 98 ∷ []),
  text_eq_iff (last_bytes 2 frame) (checksum (inner 2 2 frame)),
  text_eq_iff (slice 2 4 frame) (2 ∷ 21 ∷ []),
)

pub check_frame-message :
    (payload : List ℕ) → length payload < 65536 → check_frame (message payload) ≡ ok tt
unfolding slice little
check_frame-message payload h =
    let parts = message_parts payload in
    (check_frame_iff (message payload)).1 (
      omega (arith, parts.0),
      refl,
      omega (arith, parts.0),
      ap (λ x. x) parts.1 ∙ ap checksum (sym parts.2),
      refl,
    )

-- a frame of the right class and id, cut before its last two bytes
uncut :
    (e f : ℕ) (payload crc : List ℕ)
    → e < 256
    → f < 256
    → length crc ≡ 2
    → check_frame (181 ∷ 98 ∷ 2 ∷ 21 ∷ e ∷ f ∷ (payload ++ crc)) ≡ ok tt
    → (length payload < 65536) × (181 ∷ 98 ∷ 2 ∷ 21 ∷ e ∷ f ∷ (payload ++ crc) ≡ message payload)
unfolding slice little last_bytes inner
uncut e f payload crc he hf hc h =
    let facts = (check_frame_iff _).0 h in
    let cut = cut_end (181 ∷ 98 ∷ 2 ∷ 21 ∷ e ∷ f ∷ payload) crc hc in
    let size : length payload ≡ e + 256 * f =
      omega (arith, facts.2, length-append payload crc, hc) in
    let low : e ≡ length payload % 256 = omega (arith, size) in
    let high : f ≡ length payload / 256 = omega (arith, size) in
    let crc_is : crc ≡ checksum (2 ∷ 21 ∷ e ∷ f ∷ payload) =
      sym cut.1 ∙ facts.3 ∙ ap (λ bs. checksum (drop 2 bs)) cut.0 in
    (omega (arith, size), rw crc_is (rw (low, high) refl))

IsEncoded : List ℕ → Type 0
IsEncoded frame = (payload : List ℕ) × (length payload < 65536) × (frame ≡ message payload)

at_least_six-IsEncoded :
    (a b c d e f : ℕ) (ys : List ℕ)
    → e < 256
    → f < 256
    → check_frame (a ∷ b ∷ c ∷ d ∷ e ∷ f ∷ ys) ≡ ok tt
    → IsEncoded (a ∷ b ∷ c ∷ d ∷ e ∷ f ∷ ys)
unfolding slice IsEncoded
at_least_six-IsEncoded a b c d e f ys he hf h =
    let facts = (check_frame_iff (a ∷ b ∷ c ∷ d ∷ e ∷ f ∷ ys)).0 h in
    let ea : a ≡ 181 = ground (arith, facts.1) in
    let eb : b ≡ 98 = ground (arith, facts.1) in
    let ec : c ≡ 2 = ground (arith, facts.4) in
    let ed : d ≡ 21 = ground (arith, facts.4) in
    let payload = take (length ys - 2) ys in
    let crc = drop (length ys - 2) ys in
    let parts : payload ++ crc ≡ ys = append-take-drop (length ys - 2) ys in
    let size : length crc ≡ 2 = omega (arith, length-drop (length ys - 2) ys, facts.0) in
    let same : 181 ∷ 98 ∷ 2 ∷ 21 ∷ e ∷ f ∷ (payload ++ crc) ≡ a ∷ b ∷ c ∷ d ∷ e ∷ f ∷ ys =
      rw (ea, eb, ec, ed) (ap (λ zs. 181 ∷ 98 ∷ 2 ∷ 21 ∷ e ∷ f ∷ zs) parts) in
    let whole = uncut e f payload crc he hf size (ap check_frame same ∙ h) in
    (payload, whole.0, sym same ∙ whole.1)

message-check_frame :
    (frame : List ℕ) → All (λ b. b < 256) frame → check_frame frame ≡ ok tt → IsEncoded frame
message-check_frame frame bytes h =
    let (a, b, c, d, e, f, ys, is) =
      at_least_six frame (omega (arith, ((check_frame_iff frame).0 h).0)) in
    let small = subst (All (λ x. x < 256)) is bytes in
    subst IsEncoded (sym is) (
      at_least_six-IsEncoded a b c d e f ys small.1.1.1.1.0 small.1.1.1.1.1.0
        (ap check_frame (sym is) ∙ h))

-- A sequence of bytes passes the checks of a frame exactly if it is the encoding of an RXM-RAWX
-- message: sync bytes, class and id, the length of the payload in two little-endian bytes, the
-- payload, and the checksum over all but the sync bytes.
pub check_frame-IsEncoded :
    (frame : List ℕ)
    → All (λ b. b < 256) frame
    → (check_frame frame ≡ ok tt)
      ↔ ((payload : List ℕ) × (length payload < 65536) × (frame ≡ message payload))
unfolding IsEncoded
check_frame-IsEncoded frame bytes = (
  message-check_frame frame bytes,
  λ (payload, size, is). ap check_frame is ∙ check_frame-message payload size,
)
