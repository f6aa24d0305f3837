-- ===== src/Codec/Rejection.antt =====
-- infrastructure/peer/codec/frame.go: what ReadFrame makes of frames that are too large or cut off,
-- and that it accepts nothing but encodings.
use mathlib.Core.List.{append_assoc}
use pluginprotocol.Codec.{Frame, validate}
use pluginprotocol.Codec.Reader.{
  Source, Reader, read_full, read_frame, after_header, finish_body, read_body,
  body_length_of_header, truncated,
}
use pluginprotocol.Codec.RoundTrip.{
  reader_of, read_full-append, length-header_of, header_of_fields, validate-payload,
}
use pluginprotocol.Codec.Writer.{header_of, encode, max_uint32}
use pluginprotocol.Errors.{
  GoError, sentinel, eof, unexpected_eof, message_too_large, protocol_violation, is, Result, err,
}
use pluginprotocol.Prelude.{
  lt→ltb, codes, ltb→lt, ltb-false→le, ℕ, ◌<◌, ◌≤◌, ◌≡◌, inl, inr, refl, ap, ◌∙◌, Option, none,
  some, [], ◌∷◌, ◌++◌, ◌==◌, ltb, Bool-cases, Bytes, ℤ, length, length-append, if◌then◌else◌, true,
  false, arith, exceeds,
}

-- ReadFrame of a frame that stands whole on the connection, up to the checks of its header.
read_frame-header_of :
    (frame : Frame) (body : Bytes) (ending : GoError) (bound : ℤ)
    → validate frame ≡ none
    → length frame.payload ≤ max_uint32
    → read_frame (reader_of (header_of frame ++ body) ending bound)
      ≡ read_body
          (reader_of body ending bound)
          (record frame { payload = [] })
          (length frame.payload)
unfolding read_frame after_header
read_frame-header_of frame body ending bound valid short =
    let (fields, size) = header_of_fields frame valid short in
    ap (after_header (reader_of (header_of frame ++ body) ending bound))
      (read_full-append (header_of frame) body 13 ending (length-header_of frame))
    ∙ ap
        (λ (f : Frame).
          read_body (reader_of body ending bound) f (body_length_of_header (header_of frame)))
        fields
    ∙ ap (read_body (reader_of body ending bound) (record frame { payload = [] })) size

-- A frame beyond the reader's bound is refused with nothing of its body read.
pub read_frame_oversized :
    (frame : Frame) (rest : Bytes) (ending : GoError) (bound : ℤ)
    → validate frame ≡ none
    → length frame.payload ≤ max_uint32
    → exceeds (length frame.payload) bound ≡ true
    → read_frame (reader_of (encode frame ++ rest) ending bound)
      ≡ (reader_of (frame.payload ++ rest) ending bound, err (sentinel message_too_large))
read_frame_oversized frame rest ending bound valid short large =
    ap (λ (s : Bytes). read_frame (reader_of s ending bound))
      (append_assoc (header_of frame) frame.payload rest)
    ∙ read_frame-header_of frame (frame.payload ++ rest) ending bound valid short
    ∙ (unfold read_body in rw (validate-payload frame [], valid, large, read_body))

-- A connection that ends before the buffer is full.
read_full_short :
    (n : ℕ) (front : Bytes)
    → length front < n
    → read_full n (record { bytes = front; ending = sentinel eof }) ≡ (
      record { bytes = []; ending = sentinel eof },
      front,
      some (sentinel (if ltb 0 (length front) then unexpected_eof else eof)),
    )
unfolding read_full
read_full_short n front h = ground arith

-- What ReadFrame reports of a connection that ends within a frame of which `front` came: the end of
-- the connection if that is nothing, and otherwise a violation of the protocol.
abbrev pub CutOff : Bytes → Result Frame → Type 0
CutOff front r =
    (e : GoError) × (r ≡ err e)
    × (if ltb 0 (length front) then is e protocol_violation ≡ true else (e ≡ sentinel eof))

cut_header :
    (front : Bytes) (bound : ℤ) (r : Source × Bytes × Option GoError)
    → r ≡ (
      record { bytes = []; ending = sentinel eof },
      front,
      some (sentinel (if ltb 0 (length front) then unexpected_eof else eof)),
    )
    → CutOff front (after_header (reader_of front (sentinel eof) bound) r).1
unfolding after_header
cut_header front bound (s, header, none) h = cc
cut_header [] bound (s, header, some e) h = (sentinel eof, ground arith, refl)
cut_header (b ∷ bs) bound (s, header, some e) h =
    (truncated (sentinel unexpected_eof) (codes "frame header"), ground arith, ground arith)

cut_body :
    (frame : Frame) (part : Bytes) (bound : ℤ) (r : Source × Bytes × Option GoError)
    → r ≡ (
      record { bytes = []; ending = sentinel eof },
      part,
      some (sentinel (if ltb 0 (length part) then unexpected_eof else eof)),
    )
    → (e : GoError) × ((finish_body (reader_of part (sentinel eof) bound) frame r).1 ≡ err e)
      × (is e protocol_violation ≡ true)
unfolding finish_body
cut_body frame part bound (s, body, none) h = cc
cut_body frame part bound (s, body, some e) h =
    (truncated e (codes "frame body"), refl, ground arith)

append-split :
    (xs ys front more : Bytes)
    → xs ++ ys ≡ front ++ more
    → length xs ≤ length front
    → (part : Bytes) × (front ≡ xs ++ part) × (ys ≡ part ++ more)
append-split [] ys front more e h = (front, refl, e)
append-split (x ∷ xs) ys [] more e h = absurd (omega arith)
append-split (x ∷ xs) ys (f ∷ front) more e h =
    let (part, p, q) = append-split xs ys front more (ground arith) (omega arith) in
    (part, ground arith, q)

read_body_goes_on :
    (r : Reader) (frame : Frame) (n : ℕ)
    → validate frame ≡ none
    → exceeds n r.max_body_size ≡ false
    → 0 < n
    → read_body r frame n ≡ finish_body r frame (read_full n r.source)
unfolding read_body
read_body_goes_on r frame n valid fits full =
    let nonzero : (n == 0) ≡ false = ground arith in rw (valid, fits, nonzero, read_body)

cut_within :
    (frame : Frame) (front part more : Bytes) (bound : ℤ)
    → validate frame ≡ none
    → length frame.payload ≤ max_uint32
    → exceeds (length frame.payload) bound ≡ false
    → front ≡ header_of frame ++ part
    → frame.payload ≡ part ++ more
    → 0 < length more
    → CutOff front (read_frame (reader_of front (sentinel eof) bound)).1
cut_within frame front part more bound valid short fits p q cut =
    let bare : Frame = record frame { payload = [] } in
    let longer = ap length q ∙ length-append part more in
    let nonempty = ap length p ∙ length-append (header_of frame) part in
    let (e, failed, violation) =
      cut_body bare part bound _ (read_full_short (length frame.payload) part (omega arith)) in
    let path =
      ap (λ (s : Bytes). read_frame (reader_of s (sentinel eof) bound)) p
      ∙ read_frame-header_of frame part (sentinel eof) bound valid short
      ∙ read_body_goes_on (reader_of part (sentinel eof) bound) bare (length frame.payload)
          (validate-payload frame [] ∙ valid) fits (omega arith) in
    (
      e,
      ap (λ (a : Reader × Result Frame). a.1) path ∙ failed,
      rw (lt→ltb 0 (length front) (omega (arith, length-header_of frame))) violation,
    )

-- A connection that ends within a frame that a peer may send, whose payload is within the reader's
-- bound, is never taken for a frame: after a part of it ReadFrame reports a protocol violation,
-- and io.EOF only if nothing of it came.
pub read_frame_cut :
    (frame : Frame) (front : Bytes) (x : ℕ) (back : Bytes) (bound : ℤ)
    → validate frame ≡ none
    → length frame.payload ≤ max_uint32
    → exceeds (length frame.payload) bound ≡ false
    → encode frame ≡ front ++ (x ∷ back)
    → CutOff front (read_frame (reader_of front (sentinel eof) bound)).1
unfolding read_frame
read_frame_cut frame front x back bound valid short fits e =
    elim (Bool-cases (ltb (length front) 13)) [
      | inl early ↦ cut_header front bound _ (read_full_short 13 front (ltb→lt _ _ early))
      | inr late ↦
          let (part, p, q) =
            append-split (header_of frame) frame.payload front (x ∷ back) e
              (omega (arith, length-header_of frame, ltb-false→le (length front) 13 late)) in
          cut_within frame front part (x ∷ back) bound valid short fits p q (omega arith)
    ]
