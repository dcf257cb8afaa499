-- ===== src/Ppk/Laws/Streams.antt =====
-- The joined bytes keep the boundaries of the messages, and the count of measurements of a message.
use mathlib.Core.Path.{subst}
use mathlib.Core.List.{append-nil}
use slope_monitoring.Common.{
  ℕ, zero, suc, ◌+◌, ◌*◌, ◌≤◌, ◌<◌, String, ◌≡◌, refl, sym, ap, ◌∙◌, ◌↔◌, inl, inr, Option, some,
  List, [], ◌∷◌, ◌++◌, map, length, take, drop, arith, Option-cases,
}
use slope_monitoring.Errors.{ok, bind-ok, ok-injective}
use slope_monitoring.Ppk.Bytes.{slice, byte_at, little}
use slope_monitoring.Ppk.Rawx.{RawRow, check_frame, frame_of, join_rawx, rawx_measurement_count}
use slope_monitoring.Ppk.Laws.Bytes.{take-append, drop-append, at_least_six, get_elem?-append_left}
use slope_monitoring.Ppk.Laws.Messages.{
  message, check_frame_iff, check_frame-message, message_parts,
}

-- Reads n messages from a stream, each by the length that its header declares.
unfoldable pub read_messages : ℕ → List ℕ → List (List ℕ)
read_messages zero bs = []
read_messages (suc n) bs =
    let size = little (slice 4 6 bs) + 8 in take size bs ∷ read_messages n (drop size bs)

-- the bytes of the messages, one after the other
abbrev pub concat : List (List ℕ) → List ℕ
concat [] = []
concat (m ∷ ms) = m ++ concat ms

slice-append : (xs ys : List ℕ) → 6 ≤ length xs → slice 4 6 (xs ++ ys) ≡ slice 4 6 xs
unfolding slice
slice-append xs ys h =
    let (a, b, c, d, e, f, zs, is) = at_least_six xs h in
    subst (λ x. slice 4 6 (x ++ ys) ≡ slice 4 6 x) (sym is) refl

declared_length : (payload : List ℕ) → little (slice 4 6 (message payload)) ≡ length payload
unfolding slice little
declared_length payload = omega arith

declared_count :
    (payload : List ℕ) → 16 ≤ length payload → byte_at 17 (message payload) ≡ byte_at 11 payload
unfolding byte_at
declared_count payload h = rw (get_elem?-append_left payload _ 11 (omega (arith, h))) refl

module _ (b64decode : String → Option (List ℕ)) where
  frame_of-ok :
      (row : RawRow) {frame : List ℕ}
      → frame_of b64decode row ≡ ok frame
      → (b64decode row.raw_payload_base64 ≡ some frame) × (check_frame frame ≡ ok tt)
  unfolding frame_of
  frame_of-ok row h = elim (Option-cases (b64decode row.raw_payload_base64)) [
    | inl e ↦ absurd (ground arith)
    | inr (frame, e) ↦ ground arith
  ]

  -- What `join_rawx` returns is the frames of the rows, one after the other, without loss and with
  -- nothing else: reading as many messages as there are rows gives each row's frame back, and these
  -- messages are all of the bytes.
  pub join_rawx-read_messages :
      (rows : List RawRow) {bytes : List ℕ}
      → join_rawx b64decode rows ≡ ok bytes
      → (map (frame_of b64decode) rows ≡ map ok (read_messages (length rows) bytes))
        × (concat (read_messages (length rows) bytes) ≡ bytes)
  unfolding join_rawx read_messages
  join_rawx-read_messages [] h = (refl, ok-injective h)
  join_rawx-read_messages (row ∷ rows) {bytes} h =
      let (frame, is_frame, h1) = bind-ok (frame_of b64decode row) h in
      let (rest, is_rest, h2) = bind-ok (join_rawx b64decode rows) h1 in
      let joined : frame ++ rest ≡ bytes = ok-injective h2 in
      let facts = (check_frame_iff frame).0 (frame_of-ok row is_frame).1 in
      let size : little (slice 4 6 (frame ++ rest)) + 8 ≡ length frame =
        ap (λ s. little s + 8) (slice-append frame rest (omega (arith, facts.0))) ∙ sym facts.2 in
      let later = join_rawx-read_messages rows is_rest in
      subst
        (λ b.
          (map (frame_of b64decode) (row ∷ rows) ≡ map ok (read_messages (suc (length rows)) b))
          × (concat (read_messages (suc (length rows)) b) ≡ b))
        joined
        (rw (size, is_frame, take-append frame rest, drop-append frame rest)
          (ap (λ fs. ok frame ∷ fs) later.0, ap (λ bs. frame ++ bs) later.1))

  join_rawx-message :
      (row : RawRow) (payload : List ℕ)
      → b64decode row.raw_payload_base64 ≡ some (message payload)
      → length payload < 65536
      → join_rawx b64decode (row ∷ []) ≡ ok (message payload)
  unfolding join_rawx frame_of
  join_rawx-message row payload decoded size =
      ground (arith, check_frame-message payload size, append-nil (message payload))

  -- The worker counts n measurements in a message exactly if its payload says so, and has the length
  -- of a header and n measurements.
  rawx_measurement_count-message :
      (row : RawRow) (payload : List ℕ) (n : ℕ)
      → b64decode row.raw_payload_base64 ≡ some (message payload)
      → length payload < 65536
      → (rawx_measurement_count b64decode row ≡ ok n)
        ↔ ((length payload ≡ 16 + 32 * n) × (byte_at 11 payload ≡ n))
  unfolding rawx_measurement_count
  rawx_measurement_count-message row payload n decoded size =
      rw (join_rawx-message row payload decoded size, declared_length payload)
        (ground (arith, (message_parts payload).0, declared_count payload))
