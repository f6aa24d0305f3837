-- ===== src/Codec/RoundTrip.antt =====
-- infrastructure/peer/codec/frame.go: what WriteFrame writes, ReadFrame reads.
use mathlib.Core.List.{append_assoc}
use pluginprotocol.Codec.{Frame, validate, max_stream_id}
use pluginprotocol.Codec.BigEndian.{be-put_be}
use pluginprotocol.Codec.Reader.{
  Reader, read_full, read_frame, after_header, finish_body, read_body, frame_of_header,
  body_length_of_header,
}
use pluginprotocol.Codec.Writer.{header_of, encode, max_uint32}
use pluginprotocol.Errors.{GoError, ok}
use pluginprotocol.Prelude.{
  ℕ, ◌≤◌, ◌≡◌, inl, inr, refl, ap, sym, ◌∙◌, none, [], ◌∷◌, ◌++◌, ◌==◌, leb, Bool-cases, Bytes, ℤ,
  length, length-append, true, false, arith, exceeds, take-append_self, drop-append_self,
}

-- A buffer that the source fills exactly.
pub read_full-append :
    (front rest : Bytes) (n : ℕ) (ending : GoError)
    → length front ≡ n
    → read_full n (record { bytes = front ++ rest; ending = ending })
      ≡ (record { bytes = rest; ending = ending }, front, none)
unfolding read_full
read_full-append front rest n ending e =
    let enough : leb (length front) (length (front ++ rest)) ≡ true =
      ground (arith, length-append front rest) in
    rw (← e, enough, take-append_self front rest, drop-append_self front rest)

pub length-header_of : (frame : Frame) → length (header_of frame) ≡ 13
unfolding header_of
length-header_of frame = refl

pub validate_bounds :
    (frame : Frame)
    → validate frame ≡ none
    → (frame.frame_type ≤ 10) × (frame.stream_id ≤ max_stream_id)
unfolding validate
validate_bounds frame e = ground arith

-- The header states the type, the stream ID and the body's length.
pub header_of_fields :
    (frame : Frame)
    → validate frame ≡ none
    → length frame.payload ≤ max_uint32
    → (frame_of_header (header_of frame) ≡ record frame { payload = [] })
      × (body_length_of_header (header_of frame) ≡ length frame.payload)
unfolding header_of
header_of_fields frame valid short =
    let (type_small, id_small) = validate_bounds frame valid in
    let type_read = be-put_be 1 frame.frame_type (omega arith) in
    let id_read = be-put_be 8 frame.stream_id (omega arith) in
    let length_read = be-put_be 4 (length frame.payload) (omega arith) in
    ((λ i. record { frame_type = type_read i; stream_id = id_read i; payload = [] }), length_read)

pub validate-payload :
    (frame : Frame) (payload : Bytes)
    → validate (record frame { payload = payload }) ≡ validate frame
unfolding validate
validate-payload frame payload = refl

abbrev pub reader_of : Bytes → GoError → ℤ → Reader
reader_of bytes ending bound = record {
  source = record { bytes = bytes; ending = ending };
  max_body_size = bound;
}

pub length-eq-zero : (bytes : Bytes) → (length bytes == 0) ≡ true → bytes ≡ []
length-eq-zero [] h = refl
length-eq-zero (b ∷ bs) h = absurd (ground arith)

read_body-append :
    (frame : Frame) (rest : Bytes) (ending : GoError) (bound : ℤ)
    → validate frame ≡ none
    → exceeds (length frame.payload) bound ≡ false
    → read_body
        (reader_of (frame.payload ++ rest) ending bound)
        (record frame { payload = [] })
        (length frame.payload)
      ≡ (reader_of rest ending bound, ok frame)
unfolding read_body finish_body
read_body-append frame rest ending bound valid fits =
    let read = read_full-append frame.payload rest (length frame.payload) ending refl in
    let r = reader_of (frame.payload ++ rest) ending bound in
    let body = ap (finish_body r (record frame { payload = [] })) read in
    elim (Bool-cases (length frame.payload == 0)) [
      | inl zero_length ↦
          let e = length-eq-zero frame.payload zero_length in
          rw (validate-payload frame [], valid, fits, zero_length, read_body)
            (ap
                (λ (p : Bytes).
                  (reader_of (p ++ rest) ending bound, ok (record frame { payload = [] })))
                e
              ∙ ap (λ (p : Bytes). (reader_of rest ending bound, ok (record frame { payload = p })))
                  (sym e))
      | inr full ↦ rw (validate-payload frame [], valid, fits, full, read_body) body
    ]

-- What a peer writes is read as it was: of a frame that a peer may send, whose payload is within
-- the reader's bound and the 32 bits of the header's length, ReadFrame on the bytes that WriteFrame
-- puts on the connection gives the frame and leaves what follows it.
pub read_frame-encode :
    (frame : Frame) (rest : Bytes) (ending : GoError) (bound : ℤ)
    → validate frame ≡ none
    → length frame.payload ≤ max_uint32
    → exceeds (length frame.payload) bound ≡ false
    → read_frame (reader_of (encode frame ++ rest) ending bound)
      ≡ (reader_of rest ending bound, ok frame)
unfolding read_frame after_header
read_frame-encode frame rest ending bound valid short fits =
    let (fields, size) = header_of_fields frame valid short in
    let r = reader_of (encode frame ++ rest) ending bound in
    let behind = reader_of (frame.payload ++ rest) ending bound in
    ap (λ (s : Bytes). after_header r (read_full 13 (record { bytes = s; ending = ending })))
      (append_assoc (header_of frame) frame.payload rest)
    ∙ ap (after_header r) (
        read_full-append (header_of frame) (frame.payload ++ rest) 13 ending
          (length-header_of frame))
    ∙ ap (λ (f : Frame). read_body behind f (body_length_of_header (header_of frame))) fields
    ∙ ap (read_body behind (record frame { payload = [] })) size
    ∙ read_body-append frame rest ending bound valid fits
