-- ===== src/Conn/Tests.antt =====
-- Runs of infrastructure/peer/conn at a concrete connection, protobuf runtime and handler.
use pluginprotocol.Codec.{Frame, frame_stream_open_ack}
use pluginprotocol.Conn.Dispatch.Frames.{read_round}
use pluginprotocol.Conn.Dispatch.Replies.{fails}
use pluginprotocol.Conn.Dispatch.Verdicts.{client_half, OnlyEnds, read_round_violation}
use pluginprotocol.Conn.Messages.{failure_message, end_frame, decode_failure}
use pluginprotocol.Conn.Messages.Failures.{RoundTrips, decode_failure-status_of}
use pluginprotocol.Conn.Session.{
  role_client, role_server, Session, new_session, owns_stream_id, final_after, end, usable,
}
use pluginprotocol.Conn.Session.Ending.{has_cause, holds, finished_at, end_settles}
use pluginprotocol.Conn.Session.Ids.{allocation, allocation_disjoint}
use pluginprotocol.Conn.Stream.{
  new_stream_within, finish_stream, terminal, Received, gets, recv, recv_queue, recv_empty, deliver,
}
use pluginprotocol.Conn.Stream.Finish.{IsFinished, reported, receive, finish_stream_first}
use pluginprotocol.Conn.Stream.Queue.{
  Inbox, InOrder, Reach, here, next, delivers, receives, finishes, new_inbox, Reach-new_inbox,
  recv-fails,
}
use pluginprotocol.Errors.{
  sentinel, Sentinel, eof, canceled, overloaded, stream_closed, protocol_violation, is, Result, ok,
}
use pluginprotocol.Limits.{default_limits}
use pluginprotocol.Prelude.{
  ℕ, ◌≡◌, ◌≢◌, inl, suc, length, refl, true, false, none, some, [], ◌∷◌, ◌++◌, map, Bytes,
  if◌then◌else◌,
}
use pluginprotocol.Status
use pluginprotocol.Status.{status_of, status_overloaded}
use pluginprotocol.Status.Mapping.{Surfaces}
use pluginprotocol.Conn.Samples.{wire, ports, live, busy, busy-has_cause}

failure-RoundTrips : RoundTrips wire.failure (failure_message status_overloaded)
failure-RoundTrips = ([], refl, refl)

decode_failure-status_of_example :
    (s : Sentinel) × (decode_failure wire
        (end_frame wire 3 (status_of (some (sentinel overloaded)))).payload
      ≡ ok (some (sentinel s)))
    × Surfaces (sentinel overloaded) s
unfolding status_of Status.code_of is
decode_failure-status_of_example =
    decode_failure-status_of wire 3 (sentinel overloaded) failure-RoundTrips

end_settles_example :
    let failure = final_after ports busy (some (sentinel eof)) in
    let after = end ports (some (sentinel eof)) busy in
    (usable after ≡ some failure)
    × (has_cause after ≡ true)
    × (is failure eof ≡ false)
    × (after.ctx_err ≢ none)
    × (after.streams ≡ [])
    × (after.calls ≡ [])
    × (after.opens ≡ [])
    × (after.inflight ≡ [])
    × (after.call_outcomes
        ≡ busy.call_outcomes ++ map (λ (w : ℕ × ℕ). (w.1, Result.err failure)) busy.calls)
    × (after.open_outcomes
        ≡ busy.open_outcomes ++ map (λ (w : ℕ × ℕ). (w.1, some failure)) busy.opens)
    × (after.cancelled ≡ busy.cancelled ++ map (λ (w : ℕ × ℕ). w.1) busy.inflight)
    × ((ref : ℕ) → (if holds ref busy.streams then finished_at ref after.objects else true) ≡ true)
end_settles_example = end_settles ports (some (sentinel eof)) busy busy-has_cause

finish_stream_first_example :
    let ended = finish_stream (finish_stream live none) (some (sentinel canceled)) in
    IsFinished ended
    × (ended ≡ finish_stream live none)
    × (terminal ended ≡ reported none)
    × (ended.inbound ≡ live.inbound)
    × ((receive (suc (length live.inbound)) none ended).1
        ≡ map gets live.inbound
          ++ Received.fails (if live.inbound_eof then sentinel eof else reported none) ∷ [])
finish_stream_first_example = finish_stream_first live none (some (sentinel canceled)) none refl

allocation_disjoint_example :
    let client : Session Bytes ℕ Bytes ℕ = new_session role_client default_limits [] [] 0 0 in
    let server : Session Bytes ℕ Bytes ℕ = new_session role_server default_limits [] [] 0 0 in
    (owns_stream_id role_client (allocation 3 client) ≡ true)
    × (owns_stream_id role_server (allocation 3 client) ≡ false)
    × (owns_stream_id role_server (allocation 5 server) ≡ true)
    × (owns_stream_id role_client (allocation 5 server) ≡ false)
    × (allocation 3 client ≢ allocation 5 server)
allocation_disjoint_example = allocation_disjoint Bytes ℕ Bytes ℕ default_limits [] [] 0 3 5 0

abbrev stray : Frame
stray = record { frame_type = 1; stream_id = 7; payload = [] }

read_round_violation_example :
    let (after, flow) = read_round ports 9 true busy (ok stray) in
    (flow ≡ fails (sentinel protocol_violation))
    × (after ≡ end ports (some (sentinel protocol_violation)) busy)
    × OnlyEnds ports busy after
read_round_violation_example =
    read_round_violation ports 9 true busy stray (client_half 3 refl (inl refl) refl)

abbrev late : Frame
late = record { frame_type = frame_stream_open_ack; stream_id = 9; payload = [] }

abbrev delivered_one : Inbox
delivered_one = record {
  stream = record (new_stream_within default_limits 3 [] none) { inbound = (7 ∷ []) ∷ [] };
  accepted = (7 ∷ []) ∷ [];
  received = [];
}

one_delivery : Reach default_limits (new_inbox default_limits 3 [] none) delivered_one
unfolding new_stream_within deliver
one_delivery = next here (
    delivers true (7 ∷ [])
      (record (new_stream_within default_limits 3 [] none) { inbound = (7 ∷ []) ∷ [] }) refl refl)

Reach-new_inbox_example : InOrder delivered_one
Reach-new_inbox_example = Reach-new_inbox default_limits 3 [] none {w = delivered_one} one_delivery

abbrev received_one : Inbox
received_one = record {
  stream = new_stream_within default_limits 3 [] none;
  accepted = (7 ∷ []) ∷ [];
  received = (7 ∷ []) ∷ [];
}

abbrev closed_after : Inbox
closed_after = record received_one { stream = finish_stream received_one.stream none }

one_receipt : Reach default_limits (new_inbox default_limits 3 [] none) closed_after
unfolding new_stream_within recv recv_queue
one_receipt =
    next (next one_delivery (receives none received_one.stream (7 ∷ []) refl refl))
      (finishes none refl)

recv-fails_example : closed_after.received ≡ closed_after.accepted
unfolding recv recv_queue recv_empty finish_stream new_stream_within
recv-fails_example =
    recv-fails default_limits 3 [] none {w = closed_after} none {s = closed_after.stream}
      {e = sentinel stream_closed} one_receipt refl
