-- ===== src/Conn/Session/Ending.antt =====
-- infrastructure/peer/conn/session.go: what the end of a session leaves behind.
use pluginprotocol.Conn.Session.{
  Session, Ports, finish_streams, on_stream, end, settled, cancel_ctx, final_after, terminal_of,
  stream_cause, usable,
}
use pluginprotocol.Conn.Stream.{Stream, finish_stream}
use pluginprotocol.Errors.{GoError, eof, is, Result}
use pluginprotocol.Prelude.{
  ℕ, Bool, true, false, ◌≡◌, ◌≢◌, inl, inr, refl, ap, sym, ◌∙◌, Option, none, some, List, [], ◌∷◌,
  ◌++◌, map, subst, ◌==◌, if◌then◌else◌, arith, Bool-cases, Option-cases,
}
use mathlib.Core.List.{append-nil}
use pluginprotocol.Prelude.Store.{lookup, insert, lookup-insert}

-- Whether the stream under a reference, if there is one, has finished.
unfoldable pub finished_at : ℕ → List (ℕ × Stream) → Bool
finished_at ref objects = elim (lookup ref objects) [ none ↦ true | some live ↦ live.finished ]

-- Whether a map of streams has an entry with this reference.
unfoldable pub holds : ℕ → List (ℕ × ℕ) → Bool
holds ref [] = false
holds ref ((stream_id, r) ∷ m) = let rest = holds ref m in if r == ref then true else rest

module _ {T H P Q : Type 0} where
  on_stream-finishes :
      (ref : ℕ) (at : ℕ) (cause : Option GoError) (s : Session T H P Q)
      → (if ref == at then true else finished_at at s.objects) ≡ true
      → finished_at at (on_stream ref (λ live. finish_stream live cause) s).objects ≡ true
  unfolding on_stream finish_stream finished_at
  on_stream-finishes ref at cause s h = elim (Option-cases (lookup ref s.objects)) [
    | inl q ↦ ground (arith, q)
    | inr (live, q) ↦ ground (arith, q, lookup-insert ref at (finish_stream live cause) s.objects)
  ]

  finish_streams-finishes :
      (m : List (ℕ × ℕ)) (at : ℕ) (cause : Option GoError) (s : Session T H P Q)
      → (if holds at m then true else finished_at at s.objects) ≡ true
      → finished_at at (finish_streams m cause s).objects ≡ true
  unfolding finish_streams holds
  finish_streams-finishes [] at cause s h = h
  finish_streams-finishes ((stream_id, ref) ∷ m) at cause s h =
      finish_streams-finishes m at cause (on_stream ref (λ live. finish_stream live cause) s)
        (elim (Bool-cases (holds at m)) [
          | inl q ↦ ground (arith, q)
          | inr q ↦ rw (q) (
              on_stream-finishes ref at cause s (elim (Bool-cases (ref == at)) [
                | inl e ↦ ground (arith, e)
                | inr e ↦ ground (arith, e, q)
              ]))
        ])

  -- Finishing streams changes nothing but the streams.
  pub finish_streams_keeps :
      (m : List (ℕ × ℕ)) (cause : Option GoError) (s : Session T H P Q)
      → finish_streams m cause s ≡ record s { objects = (finish_streams m cause s).objects }
  unfolding finish_streams on_stream
  finish_streams_keeps [] cause s = refl
  finish_streams_keeps ((stream_id, ref) ∷ m) cause s =
      elim (lookup ref s.objects)
        as (λ found.
          let s' : Session T H P Q = elim found [
            | none ↦ s
            | some live ↦ record s { objects = insert ref (finish_stream live cause) s.objects }
          ] in
          finish_streams m cause s' ≡ record s { objects = (finish_streams m cause s').objects }) [
            | none ↦ finish_streams_keeps m cause s
            | some live ↦
                finish_streams_keeps m cause
                  (record s { objects = insert ref (finish_stream live cause) s.objects })
          ]

-- The terminal cause of a session is never a clean end.
terminal_of-is : (cause : Option GoError) → is (terminal_of cause) eof ≡ false
unfolding terminal_of is
terminal_of-is none = refl
terminal_of-is (some e) = elim (Bool-cases (is e eof)) [
  | inl q ↦ ground (arith, q)
  | inr q ↦ ground (arith, q)
]

abbrev pub is_failure : Option GoError → Bool
is_failure none = false
is_failure (some e) = if is e eof then false else true

module _ {T H P Q : Type 0} where
  -- Whether a session that has ended has its terminal error, and that is not a clean end.
  unfoldable pub has_cause : Session T H P Q → Bool
  unfolding is
  has_cause s = if s.ended then is_failure s.final else true

cancel_ctx-ne : (o : Option GoError) → cancel_ctx o ≢ none
cancel_ctx-ne none q = ground arith
cancel_ctx-ne (some e) q = ground arith

module _ {T H P Q : Type 0} (ports : Ports T H P Q) where
  final_after-is :
      (cause : Option GoError) (s : Session T H P Q)
      → has_cause s ≡ true
      → is (final_after ports s cause) eof ≡ false
  unfolding final_after has_cause
  final_after-is cause s h = elim (Bool-cases s.ended) [
    | inl q ↦ elim (Option-cases s.final) [
      | inl p ↦ ground (arith, q, p)
      | inr (e, p) ↦ ground (arith, q, p)
    ]
    | inr q ↦ ground (arith, q, terminal_of-is cause)
  ]

  -- Every end of a session, of one that has its terminal error if it has ended before, leaves its
  -- maps empty and its context done, hands each caller that waits for a reply, and each that waits
  -- for an acknowledgement, the one terminal error of the session, cancels every inbound call in
  -- flight, and finishes every stream that the session knew. New work is refused with that same
  -- error, which is never a clean end.
  pub end_settles :
      (cause : Option GoError) (s : Session T H P Q)
      → has_cause s ≡ true
      → let failure = final_after ports s cause in
        let after = end ports cause s in
        (usable after ≡ some failure)
        × (has_cause after ≡ true)
        × (is failure eof ≡ false)
        × (after.ctx_err ≢ none)
        × (after.streams ≡ [])
        × (after.calls ≡ [])
        × (after.opens ≡ [])
        × (after.inflight ≡ [])
        × (after.call_outcomes
            ≡ s.call_outcomes ++ map (λ (w : ℕ × ℕ). (w.1, Result.err failure)) s.calls)
        × (after.open_outcomes
            ≡ s.open_outcomes ++ map (λ (w : ℕ × ℕ). (w.1, some failure)) s.opens)
        × (after.cancelled ≡ s.cancelled ++ map (λ (w : ℕ × ℕ). w.1) s.inflight)
        × ((ref : ℕ) → (if holds ref s.streams then finished_at ref after.objects else true) ≡ true)
  unfolding end settled usable
  end_settles cause s h =
      let failure = final_after ports s cause in
      let keeps = finish_streams_keeps s.streams (stream_cause cause) (settled ports cause s) in
      let never_eof = final_after-is cause s h in
      (
        ap usable keeps,
        ap has_cause keeps ∙ (unfold has_cause in ground (arith, never_eof)),
        never_eof,
        λ q. cancel_ctx-ne s.ctx_err (sym (ap (λ (x : Session T H P Q). x.ctx_err) keeps) ∙ q),
        ap (λ (x : Session T H P Q). x.streams) keeps,
        ap (λ (x : Session T H P Q). x.calls) keeps,
        ap (λ (x : Session T H P Q). x.opens) keeps,
        ap (λ (x : Session T H P Q). x.inflight) keeps,
        ap (λ (x : Session T H P Q). x.call_outcomes) keeps,
        ap (λ (x : Session T H P Q). x.open_outcomes) keeps,
        ap (λ (x : Session T H P Q). x.cancelled) keeps,
        λ ref. elim (Bool-cases (holds ref s.streams)) [
          | inl q ↦ rw (q) (
              finish_streams-finishes s.streams ref (stream_cause cause) (settled ports cause s)
                (ground (arith, q)))
          | inr q ↦ rw (q) refl
        ],
      )

  -- The first cause of an end stays: a later end changes neither the error that new work is refused
  -- with nor the outcome of any waiter, and settles and cancels nothing a second time.
  end_first :
      (first later : Option GoError) (s : Session T H P Q)
      → let once = end ports first s in
        let twice = end ports later once in
        (usable twice ≡ usable once)
        × (twice.call_outcomes ≡ once.call_outcomes)
        × (twice.open_outcomes ≡ once.open_outcomes)
        × (twice.cancelled ≡ once.cancelled)
        × (twice.objects ≡ once.objects)
  unfolding end settled usable
  end_first first later s =
      let once : Session T H P Q = end ports first s in
      let keeps : once ≡ record (settled ports first s) { objects = once.objects } =
        finish_streams_keeps s.streams (stream_cause first) (settled ports first s) in
      subst
        (λ (x : Session T H P Q).
          (usable (end ports later x) ≡ usable x)
          × ((end ports later x).call_outcomes ≡ x.call_outcomes)
          × ((end ports later x).open_outcomes ≡ x.open_outcomes)
          × ((end ports later x).cancelled ≡ x.cancelled)
          × ((end ports later x).objects ≡ x.objects))
        (sym keeps) (refl, append-nil _, append-nil _, append-nil _, refl)
