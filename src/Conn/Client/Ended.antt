-- ===== src/Conn/Client/Ended.antt =====
-- infrastructure/peer/conn/session.go: requests and the end of a session.
use pluginprotocol.Codec.{Frame, frame_close}
use pluginprotocol.Conn.Client.{
  Awaited, waits, receives, gives_up, Pending, call_begin, call_end, open_begin, close,
  notify_cancelled,
}
use pluginprotocol.Conn.Session.{
  Session, Ports, usable, discard_call, end, settled, final_after, stream_cause, after_write,
  write_frame_or_end, send_frame,
}
use pluginprotocol.Conn.Session.Ending.{has_cause, end_settles, finish_streams_keeps}
use pluginprotocol.Errors.{GoError, Result, err}
use pluginprotocol.Prelude.{
  ℕ, true, false, ◌≡◌, ◌≢◌, ◌∙◌, refl, ap, sym, subst, Option, none, some, List, [], Bytes, arith,
}
use pluginprotocol.Prelude.Store.{lookup, delete, lookup-delete}

module _ {T H P Q : Type 0} (ports : Ports T H P Q) where
  -- Once a session has ended, for whatever cause, with its terminal error in place if it had ended
  -- before, every new Call and every OpenStream is refused
  -- with the terminal error of the session, and changes nothing.
  pub begin_after_end :
      (cause : Option GoError) (s : Session T H P Q) (method payload : Bytes)
      (ctx_err : Option GoError)
      → has_cause s ≡ true
      → let after = end ports cause s in
        (call_begin ports after method payload ≡ (after, err (final_after ports s cause)))
        × (open_begin ports after method ctx_err ≡ (after, err (final_after ports s cause)))
  unfolding call_begin open_begin
  begin_after_end cause s method payload ctx_err h =
      let refused = (end_settles ports cause s h).0 in
      (rw (refused, call_begin), rw (refused, open_begin))

  deleted : (stream_id : ℕ) (m : List (ℕ × ℕ)) → lookup stream_id (delete stream_id m) ≡ none
  deleted stream_id m = lookup-delete stream_id stream_id m ∙ ground arith

  -- However a Call that was begun ends, by its reply, the end of the session or its caller's
  -- context, the session holds no waiter for its stream ID any more.
  call_end-calls :
      (s : Session T H P Q) (pending : Pending) (outcome : Awaited (Result Bytes))
      {s' : Session T H P Q} {r : Result Bytes}
      → call_end ports s pending outcome ≡ (s', some r)
      → lookup pending.stream_id s'.calls ≡ none
  unfolding call_end discard_call
  call_end-calls s pending waits e = cc
  call_end-calls s pending (gives_up x) {s'} {r} e =
      let told = notify_cancelled ports s pending.stream_id x in
      ap (λ (m : Session T H P Q × Option (Result Bytes)). lookup pending.stream_id m.0.calls)
        (sym e)
      ∙ deleted pending.stream_id told.calls
  call_end-calls s pending (receives answer) {s'} {r} e =
      ap (λ (m : Session T H P Q × Option (Result Bytes)). lookup pending.stream_id m.0.calls)
        (sym e)
      ∙ deleted pending.stream_id s.calls

  after_write-closed :
      (s : Session T H P Q) (r : Option (T × Option GoError))
      → (after_write ports s r).0.closed ≡ s.closed
  unfolding after_write end settled
  after_write-closed s none = refl
  after_write-closed s (some (t, none)) = refl
  after_write-closed s (some (t, some e)) =
      let broken : Session T H P Q = record s { transport = t } in
      ap (λ (x : Session T H P Q). x.closed)
        (finish_streams_keeps s.streams (stream_cause (some e)) (settled ports (some e) broken))

  after_write-has_cause :
      (s : Session T H P Q) (r : Option (T × Option GoError))
      → has_cause s ≡ true
      → has_cause (after_write ports s r).0 ≡ true
  unfolding after_write has_cause
  after_write-has_cause s none h = h
  after_write-has_cause s (some (t, none)) h = h
  after_write-has_cause s (some (t, some e)) h =
      (end_settles ports (some e) (record s { transport = t }) h).1

  write-closed :
      (s : Session T H P Q) (frame : Frame) → (send_frame ports s frame).closed ≡ s.closed
  unfolding write_frame_or_end
  write-closed s frame = after_write-closed s _

  write-has_cause :
      (s : Session T H P Q) (frame : Frame)
      → has_cause s ≡ true
      → has_cause (send_frame ports s frame) ≡ true
  unfolding write_frame_or_end
  write-has_cause s frame h = after_write-has_cause s _ h

  end-closed : (s : Session T H P Q) → (end ports none s).closed ≡ s.closed
  unfolding end settled
  end-closed s =
      ap (λ (x : Session T H P Q). x.closed)
        (finish_streams_keeps s.streams (stream_cause none) (settled ports none s))

  usable-some : (o : Option GoError) (e : GoError) → o ≡ some e → o ≢ none
  usable-some o e q = λ p. cc

  close-again : (s : Session T H P Q) → s.closed ≡ true → close ports s ≡ s
  unfolding close
  close-again s q = rw (q, close)

  -- The first Close ends the session (with its terminal error in place if it had ended before),
  -- whether or not its notice could be written: nothing waits in it and
  -- its context is done; and a second Close does nothing.
  pub close_settles :
      (s : Session T H P Q)
      → has_cause s ≡ true
      → s.closed ≡ false
      → let after = close ports s in
        (usable after ≢ none)
        × (after.ctx_err ≢ none)
        × (after.streams ≡ [])
        × (after.calls ≡ [])
        × (after.opens ≡ [])
        × (after.inflight ≡ [])
        × (close ports after ≡ after)
  unfolding close
  close_settles s h fresh =
      let begun : Session T H P Q = record s { closed = true } in
      let notice : Frame = record { frame_type = frame_close; stream_id = 0; payload = [] } in
      let noticed : Session T H P Q = send_frame ports begun notice in
      let caused : has_cause begun ≡ true = unfold has_cause in h in
      let (refuses, _, _, done, streams, calls, opens, inflight, _, _, _, _) =
        end_settles ports none noticed (write-has_cause begun notice caused) in
      let same : close ports s ≡ end ports none noticed = rw (fresh, close) in
      let again : (end ports none noticed).closed ≡ true =
        end-closed noticed ∙ write-closed begun notice in
      subst
        (λ (x : Session T H P Q).
          (usable x ≢ none)
          × (x.ctx_err ≢ none)
          × (x.streams ≡ [])
          × (x.calls ≡ [])
          × (x.opens ≡ [])
          × (x.inflight ≡ [])
          × (close ports x ≡ x))
        (sym same)
        (
          usable-some _ _ refuses,
          done,
          streams,
          calls,
          opens,
          inflight,
          close-again (end ports none noticed) again,
        )
