-- ===== src/Codec/Writer/Frames.antt =====
-- infrastructure/peer/codec/frame.go: WriteFrame over a connection that keeps io.Writer's contract.
use mathlib.Core.List.{append-nil, append_assoc}
use pluginprotocol.Codec.{Frame, validate}
use pluginprotocol.Codec.Writer.{
  max_uint32, write_round, write_all_loop, write_all, write_payload, write_frame, header_of, encode,
}
use pluginprotocol.Codec.Writer.Delivery.{
  write_round_cases, write_round_goes_on, write_all_loop-sent,
}
use pluginprotocol.Errors.{
  connection_closed, message_too_large, short_write, protocol_violation, GoError, sentinel,
}
use pluginprotocol.Prelude.{
  ℕ, zero, suc, ◌<◌, ◌≤◌, ◌≡◌, ◌⊎◌, inl, inr, refl, ap, sym, ◌∙◌, Option, none, some, [], ◌∷◌, ◌++◌,
  ◌==◌, Bool-cases, Bytes, ℤ, pos, length, take, drop, length-drop, false, arith, exceeds,
  ltb-false,
}

-- What io.Writer documents of a count: so many bytes of the argument, from its front, were written.
abbrev pub Appends : {T : Type 0} → (T → Bytes → T × ℤ × Option GoError) → (T → Bytes) → Type 0
Appends {T} write sent =
    (t : T) (bytes : Bytes) (n : ℕ)
    → (write t bytes).1 ≡ pos n
    → n ≤ length bytes
    → sent (write t bytes).0 ≡ sent t ++ take n bytes

-- A connection that takes a byte at least of each `Write` and reports no error.
abbrev pub IsReliable : {T : Type 0} → (T → Bytes → T × ℤ × Option GoError) → Type 0
IsReliable {T} write =
    (t : T) (b : ℕ) (bs : Bytes)
    → (n : ℕ) × ((write t (b ∷ bs)).1 ≡ pos n)
      × (0 < n)
      × (n ≤ length (b ∷ bs))
      × ((write t (b ∷ bs)).2 ≡ none)

module _ {T : Type 0} (write : T → Bytes → T × ℤ × Option GoError) where
  write_payload-sent :
      (sent : T → Bytes)
      → Appends write sent
      → (payload : Bytes) (r : Option (T × Option GoError)) {t' : T}
      → write_payload write payload r ≡ some (t', none)
      → (t : T) × (r ≡ some (t, none)) × (sent t' ≡ sent t ++ payload)
  unfolding write_payload write_all
  write_payload-sent sent appends payload none e = cc
  write_payload-sent sent appends payload (some (t, some x)) e = cc
  write_payload-sent sent appends [] (some (t, none)) {t'} e =
      let same : t ≡ t' = cc in (t, refl, rw (← same) (sym (append-nil (sent t))))
  write_payload-sent sent appends (b ∷ bs) (some (t, none)) e =
      let full : (suc (length bs) == 0) ≡ false = ground arith in
      (t, refl, write_all_loop-sent write sent appends (suc (length bs)) t (b ∷ bs) (rw full at e))

  write_all-sent :
      (sent : T → Bytes)
      → Appends write sent
      → (t : T) (bytes : Bytes) {t' : T} → write_all write t bytes ≡ some (t', none)
      → sent t' ≡ sent t ++ bytes
  unfolding write_all
  write_all-sent sent appends t bytes e =
      write_all_loop-sent write sent appends (length bytes) t bytes e

  -- A WriteFrame that reports no error has put the header and the payload of the frame on the
  -- connection, whole, and nothing else, however the connection cut the writes; and the frame was
  -- one that a peer may send, within the bound.
  pub write_frame-sent :
      (sent : T → Bytes)
      → Appends write sent
      → (bound : ℤ) (t : T) (frame : Frame) {t' : T}
      → write_frame write bound t frame ≡ some (t', none)
      → (sent t' ≡ sent t ++ encode frame)
        × (validate frame ≡ none)
        × (exceeds (length frame.payload) bound ≡ false)
        × (length frame.payload ≤ max_uint32)
  unfolding write_frame
  write_frame-sent sent appends bound t frame {t'} e =
      (delivered, ground arith, ground arith, ground arith)
    where
      past_guards :
          write_payload write frame.payload (write_all write t (header_of frame)) ≡ some (t', none)
      past_guards = ground arith

      delivered : sent t' ≡ sent t ++ encode frame
      delivered =
          let (m, he, q) = write_payload-sent sent appends frame.payload _ past_guards in
          q
          ∙ ap (λ (s : Bytes). s ++ frame.payload)
              (write_all-sent sent appends t (header_of frame) he)
          ∙ append_assoc (sent t) (header_of frame) frame.payload

  write_all_loop_reliable :
      IsReliable write
      → (rounds : ℕ) (t : T) (bytes : Bytes) → length bytes ≤ rounds
      → (t' : T) × (write_all_loop write rounds t bytes ≡ some (t', none))
  unfolding write_all_loop
  write_all_loop_reliable ok rounds t [] h = (t, refl)
  write_all_loop_reliable ok zero t (b ∷ bs) h = absurd (omega arith)
  write_all_loop_reliable ok (suc rounds) t (b ∷ bs) h =
      let (n, count, lo, hi, fine) = ok t b bs in
      let (u, written, x) = write t (b ∷ bs) in
      let next = λ (rest : Bytes). write_all_loop write rounds u rest in
      let (t', q) =
        write_all_loop_reliable ok rounds u (drop n (b ∷ bs))
          (omega (arith, length-drop n (b ∷ bs))) in
      (
        t',
        ap (λ (w : ℤ). write_round (b ∷ bs) next u w x) count
            ∙ ap (λ (y : Option GoError). write_round (b ∷ bs) next u (pos n) y) fine
            ∙ write_round_goes_on (b ∷ bs) next u n lo hi
            ∙ q,
      )

  write_all_reliable :
      IsReliable write
      → (t : T) (bytes : Bytes) → (t' : T) × (write_all write t bytes ≡ some (t', none))
  unfolding write_all
  write_all_reliable ok t bytes = write_all_loop_reliable ok (length bytes) t bytes (omega arith)

  -- On a connection that takes a byte at least of each write, WriteFrame of a frame that a peer
  -- may send, within the bound, reports no error.
  pub write_frame_reliable :
      IsReliable write
      → (bound : ℤ) (t : T) (frame : Frame) → validate frame ≡ none
      → exceeds (length frame.payload) bound ≡ false
      → length frame.payload ≤ max_uint32
      → (t' : T) × (write_frame write bound t frame ≡ some (t', none))
  unfolding write_frame write_payload
  write_frame_reliable ok bound t frame valid fits short =
      let (u, header_sent) = write_all_reliable ok t (header_of frame) in
      let (t', body_sent) = write_all_reliable ok u frame.payload in
      elim (Bool-cases (length frame.payload == 0)) [
        | inl empty ↦ (u, rw (fits, ltb-false _ _ short, valid, header_sent, empty))
        | inr full ↦ (t', rw (fits, ltb-false _ _ short, valid, header_sent, full) body_sent)
      ]

  write_all_loop_error :
      (rounds : ℕ) (t : T) (bytes : Bytes) {t' : T} {x : GoError}
      → write_all_loop write rounds t bytes ≡ some (t', some x)
      → (x ≡ sentinel connection_closed) ⊎ (x ≡ sentinel short_write)
  unfolding write_all_loop
  write_all_loop_error rounds t [] e = cc
  write_all_loop_error zero t (b ∷ bs) e = cc
  write_all_loop_error (suc rounds) t (b ∷ bs) {t'} {x} e =
      let (u, written, y) = write t (b ∷ bs) in
      let next = λ (rest : Bytes). write_all_loop write rounds u rest in
      elim (write_round_cases (b ∷ bs) next u written y) [
        | inl (s, q, which) ↦ ground (arith, q, e, which)
        | inr (n, _, _, _, q) ↦ write_all_loop_error rounds u (drop n (b ∷ bs)) (sym q ∙ e)
      ]

  write_payload_error :
      (payload : Bytes) (t : T) (header : Bytes) {t' : T} {x : GoError}
      → write_payload write payload (write_all write t header) ≡ some (t', some x)
      → (x ≡ sentinel connection_closed) ⊎ (x ≡ sentinel short_write)
  unfolding write_payload write_all
  write_payload_error payload t header {t'} {x} e = elim (outcome _ refl) [
    | inl q ↦ q
    | inr (u, q) ↦ write_all_loop_error (length payload) u payload q
  ]
    where
      outcome :
          (r : Option (T × Option GoError))
          → write_all_loop write (length header) t header ≡ r
          → ((x ≡ sentinel connection_closed) ⊎ (x ≡ sentinel short_write))
            ⊎ ((u : T) × (write_all_loop write (length payload) u payload ≡ some (t', some x)))
      outcome none q = cc
      outcome (some (u, some y)) q =
          let r = write_all_loop_error (length header) t header q in inl (ground (arith, r))
      outcome (some (u, none)) q = inr (u, ground arith)

  -- An error that WriteFrame reports is the refusal of a frame, and then nothing was written, or it
  -- is that of a connection that broke.
  write_frame_refuses :
      (bound : ℤ) (t : T) (frame : Frame) {t' : T} {x : GoError}
      → write_frame write bound t frame ≡ some (t', some x)
      → ((t' ≡ t) × ((x ≡ sentinel message_too_large) ⊎ (x ≡ sentinel protocol_violation)))
        ⊎ (x ≡ sentinel connection_closed)
        ⊎ (x ≡ sentinel short_write)
  unfolding write_frame
  write_frame_refuses bound t frame {t'} {x} e =
      ground (arith, write_payload_error frame.payload t (header_of frame) {t' = t'} {x = x})
