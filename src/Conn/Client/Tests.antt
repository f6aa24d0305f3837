-- ===== src/Conn/Client/Tests.antt =====
-- Runs of the requests of infrastructure/peer/conn/session.go at a concrete session.
use pluginprotocol.Conn.Client.{Pending, call_begin, open_begin, close, notify_cancelled}
use pluginprotocol.Conn.Client.Ended.{begin_after_end, close_settles}
use pluginprotocol.Conn.Samples.{ports, busy, busy-has_cause}
use pluginprotocol.Conn.Session.{Session, discard_call, end, final_after, usable}
use pluginprotocol.Errors.{sentinel, canceled, protocol_violation, err}
use pluginprotocol.Prelude.{ℕ, ◌≡◌, ◌≢◌, refl, none, some, [], ◌∷◌, Bytes, codes}

begin_after_end_example :
    let after = end ports (some (sentinel protocol_violation)) busy in
    let failure = final_after ports busy (some (sentinel protocol_violation)) in
    (call_begin ports after (codes "echo") (1 ∷ []) ≡ (after, err failure))
    × (open_begin ports after (codes "echo") none ≡ (after, err failure))
begin_after_end_example =
    begin_after_end ports (some (sentinel protocol_violation)) busy (codes "echo") (1 ∷ []) none
      busy-has_cause

abbrev asked : Pending
asked = record { stream_id = 1; channel = 1 }

abbrev abandoned : Session Bytes ℕ Bytes ℕ
abandoned = discard_call 1 (notify_cancelled ports busy 1 (sentinel canceled))

close_settles_example :
    let after = close ports busy in
    (usable after ≢ none)
    × (after.ctx_err ≢ none)
    × (after.streams ≡ [])
    × (after.calls ≡ [])
    × (after.opens ≡ [])
    × (after.inflight ≡ [])
    × (close ports after ≡ after)
close_settles_example = close_settles ports busy busy-has_cause refl
