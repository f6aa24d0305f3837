-- ===== src/Codec/Writer/Delivery.antt =====
-- infrastructure/peer/codec/frame.go: what writeAll and WriteFrame put on the connection.
use mathlib.Core.List.{append-nil, append_assoc}
use pluginprotocol.Codec.{Frame}
use pluginprotocol.Codec.Writer.{
  write_round, write_all_loop, write_all, write_payload, write_frame, header_of,
}
use pluginprotocol.Errors.{Sentinel, connection_closed, short_write, GoError, sentinel}
use pluginprotocol.Prelude.{
  ℕ, zero, suc, ◌<◌, ◌≤◌, ◌≡◌, ◌≢◌, ◌⊎◌, inl, inr, refl, ap, sym, ◌∙◌, Option, none, some, [], ◌∷◌,
  ◌++◌, ◌==◌, ltb, Bool-cases, Bytes, ℤ, pos, negsuc, length, take, drop, length-drop,
  take-append-drop, arith,
}

-- A round ends with an error, or goes on behind the bytes that were written, one at least.
pub write_round_cases :
    {T : Type 0} (sent : Bytes) (next : Bytes → Option (T × Option GoError)) (t : T) (written : ℤ)
    (e : Option GoError)
    → ((s : Sentinel) × (write_round sent next t written e ≡ some (t, some (sentinel s)))
        × ((s ≡ connection_closed) ⊎ (s ≡ short_write)))
      ⊎ ((n : ℕ) × (written ≡ pos n)
          × (0 < n)
          × (n ≤ length sent)
          × (write_round sent next t written e ≡ next (drop n sent)))
unfolding write_round
write_round_cases sent next t (negsuc n) e = inl (connection_closed, refl, inl refl)
write_round_cases sent next t (pos n) (some x) = inl (connection_closed, refl, inl refl)
write_round_cases sent next t (pos n) none = elim (Bool-cases (ltb (length sent) n)) [
  | inl over ↦ inl (connection_closed, rw over, inl refl)
  | inr fits ↦ elim (Bool-cases (n == 0)) [
    | inl nothing ↦ inl (short_write, rw (fits, nothing), inr refl)
    | inr some_bytes ↦ inr (n, refl, ground arith, ground arith, rw (fits, some_bytes))
  ]
]

pub write_round_goes_on :
    {T : Type 0} (sent : Bytes) (next : Bytes → Option (T × Option GoError)) (t : T) (n : ℕ)
    → 0 < n
    → n ≤ length sent
    → write_round sent next t (pos n) none ≡ next (drop n sent)
unfolding write_round
write_round_goes_on sent next t n lo hi = ground arith

module _ {T : Type 0} (write : T → Bytes → T × ℤ × Option GoError) where
  -- The rounds never run out.
  pub write_all_loop-ne-none :
      (rounds : ℕ) (t : T) (bytes : Bytes)
      → length bytes ≤ rounds
      → write_all_loop write rounds t bytes ≢ none
  unfolding write_all_loop
  write_all_loop-ne-none rounds t [] h = λ e. cc
  write_all_loop-ne-none zero t (b ∷ bs) h = absurd (omega arith)
  write_all_loop-ne-none (suc rounds) t (b ∷ bs) h =
      let (t', written, x) = write t (b ∷ bs) in
      let next = λ (rest : Bytes). write_all_loop write rounds t' rest in
      elim (write_round_cases (b ∷ bs) next t' written x) [
        | inl (s, e, _) ↦ rw e (λ q. cc)
        | inr (n, _, lo, hi, e) ↦ rw e (
            write_all_loop-ne-none rounds t' (drop n (b ∷ bs))
              (omega (arith, length-drop n (b ∷ bs))))
      ]

  -- A success of the loop has written all the bytes, if each `Write` appends as many bytes as it
  -- reports to what was `sent`.
  pub write_all_loop-sent :
      (sent : T → Bytes)
      → ((t : T) (bytes : Bytes) (n : ℕ)
          → (write t bytes).1 ≡ pos n
          → n ≤ length bytes
          → sent (write t bytes).0 ≡ sent t ++ take n bytes)
      → (rounds : ℕ) (t : T) (bytes : Bytes) {t' : T}
      → write_all_loop write rounds t bytes ≡ some (t', none)
      → sent t' ≡ sent t ++ bytes
  unfolding write_all_loop
  write_all_loop-sent sent appends rounds t [] {t'} e =
      let same : t ≡ t' = cc in rw (← same) (sym (append-nil (sent t)))
  write_all_loop-sent sent appends zero t (b ∷ bs) e = cc
  write_all_loop-sent sent appends (suc rounds) t (b ∷ bs) e =
      let (t', written, x) = write t (b ∷ bs) in
      let next = λ (rest : Bytes). write_all_loop write rounds t' rest in
      elim (write_round_cases (b ∷ bs) next t' written x) [
        | inl (s, q, _) ↦ cc q
        | inr (n, count, lo, hi, q) ↦
            write_all_loop-sent sent appends rounds t' (drop n (b ∷ bs)) (sym q ∙ e)
            ∙ ap (λ (s : Bytes). s ++ drop n (b ∷ bs)) (appends t (b ∷ bs) n count hi)
            ∙ append_assoc (sent t) (take n (b ∷ bs)) (drop n (b ∷ bs))
            ∙ ap (◌++◌ (sent t)) (take-append-drop n (b ∷ bs))
      ]

  pub write_payload-ne-none :
      (payload : Bytes) (r : Option (T × Option GoError))
      → r ≢ none
      → write_payload write payload r ≢ none
  unfolding write_payload write_all
  write_payload-ne-none payload none h = absurd (h refl)
  write_payload-ne-none payload (some (t, some e)) h = λ q. cc
  write_payload-ne-none payload (some (t, none)) h = elim (Bool-cases (length payload == 0)) [
    | inl empty ↦ rw empty (λ q. cc)
    | inr full ↦ rw full (write_all_loop-ne-none (length payload) t payload (omega arith))
  ]

  -- WriteFrame returns: whatever the connection does with each `Write`, its loops end.
  pub write_frame-ne-none :
      (bound : ℤ) (t : T) (frame : Frame) → write_frame write bound t frame ≢ none
  unfolding write_frame write_all
  write_frame-ne-none bound t frame = ground (
    arith,
    write_payload-ne-none frame.payload (write_all write t (header_of frame)),
    write_all_loop-ne-none (length (header_of frame)) t (header_of frame),
  )
