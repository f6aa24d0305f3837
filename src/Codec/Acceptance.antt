-- ===== src/Codec/Acceptance.antt =====
-- infrastructure/peer/codec/frame.go: ReadFrame accepts nothing but encodings of frames.
use mathlib.Core.Path.{ap₂}
use mathlib.Core.List.{append_assoc}
use pluginprotocol.Codec.{Frame, validate}
use pluginprotocol.Codec.BigEndian.{IsByte, be, put_be, put_be-be_from}
use pluginprotocol.Codec.Reader.{
  Source, Reader, read_full, read_frame, after_header, finish_body, read_body, frame_of_header,
  body_length_of_header,
}
use pluginprotocol.Codec.RoundTrip.{reader_of, validate-payload}
use pluginprotocol.Codec.Writer.{header_of, encode}
use pluginprotocol.Errors.{GoError, ok}
use pluginprotocol.Prelude.{
  ℕ, ◌≤◌, ◌≡◌, ◌⊎◌, inl, inr, refl, ap, subst, sym, ◌∙◌, Option, none, some, [], ◌∷◌, ◌++◌, Bytes,
  ℤ, length, take, drop, length-drop, length-take_of_le, false, arith, exceeds, take-append-drop,
  take_of_length, All, All-take, All-drop,
}

read_full_inv :
    (n : ℕ) (s : Source) {s' : Source} {got : Bytes}
    → read_full n s ≡ (s', got, none)
    → (s'.bytes ≡ drop n s.bytes) × (got ≡ take n s.bytes) × (n ≤ length s.bytes)
unfolding read_full
read_full_inv n s e = (ground arith, ground arith, ground arith)

drop_nine : (bytes : Bytes) → drop 8 (drop 1 bytes) ≡ drop 9 bytes
drop_nine [] = refl
drop_nine (b ∷ bs) = refl

written : (bs : Bytes) (k : ℕ) → length bs ≡ k → All IsByte bs → put_be k (be bs) ≡ bs
written bs k e h = ap (λ (m : ℕ). put_be m (be bs)) (sym e) ∙ put_be-be_from bs 0 h

-- The header that is written for what was read is the one that stood on the connection.
header_of-fields :
    (header payload : Bytes)
    → All IsByte header
    → length header ≡ 13
    → length payload ≡ body_length_of_header header
    → header_of (record (frame_of_header header) { payload = payload }) ≡ header
unfolding header_of
header_of-fields header payload bytes size fits =
    let tail = drop 1 header in
    let last = drop 9 header in
    let front =
      ap₂ (λ (a : Bytes). λ (b : Bytes). a ++ b)
        (written (take 1 header) 1 (length-take_of_le 1 header (omega arith))
          (All-take IsByte 1 header bytes)) in
    front (
      ap₂ (λ (a : Bytes). λ (b : Bytes). a ++ b)
        (written (take 8 tail) 8 (length-take_of_le 8 tail (omega (arith, length-drop 1 header)))
          (All-take IsByte 8 tail (All-drop IsByte 1 header bytes)))
        (ap (put_be 4) fits
          ∙ written (take 4 last) 4 (length-take_of_le 4 last (omega (arith, length-drop 9 header)))
              (All-take IsByte 4 last (All-drop IsByte 9 header bytes))
          ∙ take_of_length 4 last (omega (arith, length-drop 9 header))
          ∙ sym (drop_nine header))
      ∙ take-append-drop 8 tail)
    ∙ take-append-drop 1 header

read_body_inv :
    (r : Reader) (frame : Frame) (n : ℕ) {r' : Reader} {result : Frame}
    → read_body r frame n ≡ (r', ok result)
    → (validate frame ≡ none)
      × (exceeds n r.max_body_size ≡ false)
      × (((n ≡ 0) × (result ≡ frame) × (r' ≡ r))
          ⊎ (finish_body r frame (read_full n r.source) ≡ (r', ok result)))
unfolding read_body
read_body_inv r frame n e = (ground arith, ground arith, ground arith)

finish_body_inv :
    (r : Reader) (frame : Frame) (n : ℕ) (s : Source) {r' : Reader} {result : Frame}
    → finish_body r frame (read_full n s) ≡ (r', ok result)
    → (result ≡ record frame { payload = take n s.bytes })
      × (r'.source.bytes ≡ drop n s.bytes)
      × (n ≤ length s.bytes)
unfolding finish_body read_full
finish_body_inv r frame n s e = (ground arith, ground arith, ground arith)

read_body_ok :
    (r : Reader) (header : Bytes) (n : ℕ) {r' : Reader} {result : Frame}
    → read_body r (frame_of_header header) n ≡ (r', ok result)
    → (validate (frame_of_header header) ≡ none)
      × (exceeds n r.max_body_size ≡ false)
      × (result ≡ record (frame_of_header header) { payload = take n r.source.bytes })
      × (r'.source.bytes ≡ drop n r.source.bytes)
      × (n ≤ length r.source.bytes)
read_body_ok r header n {r'} {result} e =
    let f = frame_of_header header in
    let (valid, fits, how) = read_body_inv r f n e in
    elim how [
      | inl (zero_length, same, stays) ↦ (
        valid,
        fits,
        same ∙ ap (λ (m : ℕ). record f { payload = take m r.source.bytes }) (sym zero_length),
        ap (λ (q : Reader). q.source.bytes) stays
            ∙ ap (λ (m : ℕ). drop m r.source.bytes) (sym zero_length),
        omega arith,
      )
      | inr finished ↦
          let (same, left, enough) = finish_body_inv r f n r.source finished in
          (valid, fits, same, left, enough)
    ]

accepts_whole :
    (src header : Bytes) (s : Source) (bound : ℤ) {r : Reader} {frame : Frame}
    → All IsByte src
    → s.bytes ≡ drop 13 src
    → header ≡ take 13 src
    → 13 ≤ length src
    → read_body
        (record { source = s; max_body_size = bound })
        (frame_of_header header)
        (body_length_of_header header)
      ≡ (r, ok frame)
    → (src ≡ encode frame ++ r.source.bytes)
      × (validate frame ≡ none)
      × (exceeds (length frame.payload) bound ≡ false)
accepts_whole src header s bound {r} {frame} bytes behind front enough e =
    let n = body_length_of_header header in
    let (valid, fits, same, left, full) = read_body_ok _ header n e in
    let body = take n s.bytes in
    let size : length body ≡ n = length-take_of_le n s.bytes full in
    let header_bytes = subst (All IsByte) (sym front) (All-take IsByte 13 src bytes) in
    let header_size = ap length front ∙ length-take_of_le 13 src enough in
    let rewritten = header_of-fields header body header_bytes header_size size in
    (
      sym (
          ap (λ (f : Frame). encode f ++ r.source.bytes) same
          ∙ ap
              (λ (b : Bytes).
                (header_of (record (frame_of_header header) { payload = body }) ++ body) ++ b)
              left
          ∙ ap (λ (h : Bytes). (h ++ body) ++ drop n s.bytes) rewritten
          ∙ append_assoc header body (drop n s.bytes)
          ∙ ap (◌++◌ header) (take-append-drop n s.bytes ∙ behind)
          ∙ ap (λ (h : Bytes). h ++ drop 13 src) front
          ∙ take-append-drop 13 src),
      ap validate same ∙ validate-payload (frame_of_header header) body ∙ valid,
      ap (λ (f : Frame). exceeds (length f.payload) bound) same
          ∙ ap (λ (m : ℕ). exceeds m bound) size
          ∙ fits,
    )

accepts_after :
    (src : Bytes) (ending : GoError) (bound : ℤ) (got : Source × Bytes × Option GoError)
    {r : Reader} {frame : Frame}
    → All IsByte src
    → read_full 13 (record { bytes = src; ending = ending }) ≡ got
    → after_header (reader_of src ending bound) got ≡ (r, ok frame)
    → (src ≡ encode frame ++ r.source.bytes)
      × (validate frame ≡ none)
      × (exceeds (length frame.payload) bound ≡ false)
unfolding after_header
accepts_after src ending bound (s, header, some x) bytes read e = cc
accepts_after src ending bound (s, header, none) bytes read e =
    let (behind, front, enough) = read_full_inv 13 _ read in
    accepts_whole src header s bound bytes behind front enough e

-- A frame that ReadFrame accepts is the encoding that stood on the connection, is one that a peer
-- may send, and is within the bound; what followed it is left.
pub read_frame_accepts :
    (src : Bytes) (ending : GoError) (bound : ℤ) {r : Reader} {frame : Frame}
    → All IsByte src
    → read_frame (reader_of src ending bound) ≡ (r, ok frame)
    → (src ≡ encode frame ++ r.source.bytes)
      × (validate frame ≡ none)
      × (exceeds (length frame.payload) bound ≡ false)
unfolding read_frame
read_frame_accepts src ending bound bytes e = accepts_after src ending bound _ bytes refl e
