-- ===== src/Conn/Stream.antt =====
-- infrastructure/peer/conn/stream.go: one stream. The stream's context is what `ctx.Err()` gives,
-- `none` while it lives. A channel is the list of what it holds, oldest first, with its capacity; a
-- `select` with several ready cases takes one as its argument `prefer_queue` says.
pub mod Queue
pub mod Finish
use pluginprotocol.Codec.{Frame, frame_data as type_data, frame_close_send}
use pluginprotocol.Errors.{
  Sentinel, GoError, sentinel, is, message_too_large, protocol_violation, stream_closed,
  send_queue_full, canceled, eof, Result, ok, err,
}
use pluginprotocol.Limits.{Limits}
use pluginprotocol.Prelude.{
  ℕ, Bool, true, false, ◌&&◌, Option, none, some, List, [], ◌∷◌, ◌++◌, if◌then◌else◌, ltb, Bytes,
  exceeds, length, to_ℕ,
}

-- outboundItem: a message or the close marker, or the barrier of flushOutbound.
pub data Item : Type 0 where
  message : Bytes → Item
  close_marker : Item
  barrier : Item

-- How far the one CloseSend that counts has come: not called, waiting for room for the close marker,
-- waiting for the marker to be written, which `written` reports, or returned.
pub data Closing : Type 0 where
  not_called : Closing
  enqueuing : Closing
  awaiting : Option (Option GoError) → Closing
  returned : Option GoError → Closing

pub record Stream : Type 0 where
  pub id : ℕ
  pub method : Bytes
  pub ctx_err : Option GoError
  pub inbound : List Bytes
  pub inbound_closed : Bool
  pub inbound_eof : Bool
  pub outbound : List Item
  pub depth : ℕ
  pub send_closed : Bool
  pub closing : Closing
  pub finished : Bool
  pub finish_err : Option GoError

-- newStreamWithin, under a parent context that gives `parent`.
unfoldable pub new_stream_within : Limits → ℕ → Bytes → Option GoError → Stream
new_stream_within limits id method parent = record {
  id = id;
  method = method;
  ctx_err = parent;
  inbound = [];
  inbound_closed = false;
  inbound_eof = false;
  outbound = [];
  depth = to_ℕ limits.max_stream_queue_depth;
  send_closed = false;
  closing = not_called;
  finished = false;
  finish_err = none;
}

-- `cancel()` of a context: the first cause stays.
abbrev cancel_ctx : Option GoError → Option GoError
cancel_ctx none = some (sentinel canceled)
cancel_ctx (some e) = some e

unfoldable pub close_inbound_half : Stream → Stream
close_inbound_half s =
    if s.inbound_closed then s else record s { inbound_closed = true; inbound_eof = true }

unfoldable pub close_inbound_final : Stream → Stream
close_inbound_final s = if s.inbound_closed then s else record s { inbound_closed = true }

abbrev pub or_closed : Option GoError → GoError
or_closed none = sentinel stream_closed
or_closed (some e) = e

unfoldable pub finish_stream : Stream → Option GoError → Stream
unfolding close_inbound_final
finish_stream s cause =
    if s.finished
    then s
    else close_inbound_final (record s {
      finished = true;
      finish_err = some (or_closed cause);
      ctx_err = cancel_ctx s.ctx_err;
    })

unfoldable pub terminal : Stream → GoError
terminal s = or_closed s.finish_err

-- What a delivery comes to. `parks` is the read loop waiting for room or for the end of the stream.
pub data Delivery : Type 0 where
  delivered : Stream → Delivery
  refused : GoError → Delivery
  parks : Delivery

-- The `select` of deliver. The queue may have been closed since deliver looked: finishStream ends
-- the context before it waits for the lock that deliver holds.
unfoldable pub deliver_select : Bool → Stream → Bytes → Delivery
deliver_select prefer_queue s payload =
    let queued = delivered (record s { inbound = s.inbound ++ payload ∷ [] }) in
    let room = ltb (length s.inbound) s.depth in
    elim s.ctx_err [
      | none ↦ if room then queued else parks
      | some e ↦ if room && prefer_queue then queued else refused e
    ]

unfoldable pub deliver : Limits → Bool → Stream → Bytes → Delivery
unfolding deliver_select
deliver limits prefer_queue s payload =
    if exceeds (length payload) limits.max_stream_message_bytes
    then refused (sentinel message_too_large)
    else if s.inbound_closed
    then refused (sentinel protocol_violation)
    else deliver_select prefer_queue s payload

-- What Recv comes to. `waits` is a Recv that blocks.
pub data Received : Type 0 where
  gets : Bytes → Received
  fails : GoError → Received
  waits : Received

-- received on a closed and drained queue.
unfoldable pub drained : Stream → GoError
unfolding terminal
drained s = if s.inbound_eof then sentinel eof else terminal s

-- settleCancelled, where `usable` is what the session's usable gives.
unfoldable pub settle_cancelled : Option GoError → Stream → Stream
unfolding finish_stream
settle_cancelled none s = finish_stream s (some (sentinel canceled))
settle_cancelled (some e) s = finish_stream s (some e)

unfoldable pub recv_empty : Option GoError → Stream → Stream × Received
unfolding drained settle_cancelled terminal
recv_empty usable s = if s.inbound_closed then (s, fails (drained s)) else elim s.ctx_err [
  | none ↦ (s, waits)
  | some e ↦ let settled = settle_cancelled usable s in (settled, fails (terminal settled))
]

-- Recv on the queue that the stream holds.
unfoldable pub recv_queue : Option GoError → Stream → List Bytes → Stream × Received
unfolding recv_empty
recv_queue usable s [] = recv_empty usable s
recv_queue usable s (m ∷ ms) = (record s { inbound = ms }, gets m)

unfoldable pub recv : Option GoError → Stream → Stream × Received
unfolding recv_queue
recv usable s = recv_queue usable s s.inbound

-- Send, on the encoding of the message that encodeData gives.
unfoldable pub send : Limits → Stream → Bytes → Result Bytes → Stream × Option GoError
send limits s payload encoded =
    if exceeds (length payload) limits.max_stream_message_bytes
    then (s, some (sentinel message_too_large))
    else elim s.ctx_err [
      | some e ↦ (s, some e)
      | none ↦ elim encoded [
        | err e ↦ (s, some e)
        | ok body ↦
            if s.send_closed
            then (s, some (sentinel stream_closed))
            else if ltb (length s.outbound) s.depth
            then (record s { outbound = s.outbound ++ message body ∷ [] }, none)
            else (s, some (sentinel send_queue_full))
      ]
    ]

unfoldable pub close_send_after_terminal : Stream → Option GoError
unfolding terminal is
close_send_after_terminal s = if is (terminal s) stream_closed then none else s.ctx_err

abbrev closing_called : Closing → Closing
closing_called not_called = enqueuing
closing_called c = c

-- A call of CloseSend: only the first does anything.
unfoldable pub close_send : Stream → Stream
close_send s = record s { send_closed = true; closing = closing_called s.closing }

-- A step of the CloseSend that waits for room in the queue.
unfoldable pub close_send_enqueues : Bool → Stream → Stream
unfolding close_send_after_terminal
close_send_enqueues prefer_queue s =
    let queued = record s { outbound = s.outbound ++ close_marker ∷ []; closing = awaiting none } in
    let room = ltb (length s.outbound) s.depth in
    elim s.ctx_err [
      | none ↦ if room then queued else s
      | some e ↦
          if room && prefer_queue
          then queued
          else record s { closing = returned (close_send_after_terminal s) }
    ]

-- A step of the CloseSend that waits for the marker to be written.
unfoldable pub close_send_awaits : Bool → Stream → Option (Option GoError) → Stream
unfolding close_send_after_terminal
close_send_awaits prefer_written s none = elim s.ctx_err [
  | none ↦ s
  | some e ↦ record s { closing = returned (close_send_after_terminal s) }
]
close_send_awaits prefer_written s (some result) = elim s.ctx_err [
  | none ↦ record s { closing = returned result }
  | some e ↦ record s {
    closing = returned (if prefer_written then result else close_send_after_terminal s);
  }
]

unfoldable pub close_send_step : Bool → Stream → Closing → Stream
unfolding close_send_enqueues close_send_awaits
close_send_step prefer s not_called = s
close_send_step prefer s enqueuing = close_send_enqueues prefer s
close_send_step prefer s (awaiting written) = close_send_awaits prefer s written
close_send_step prefer s (returned e) = s

-- What the pump does in one round of its loop.
pub data Pumped : Type 0 where
  idles : Pumped
  stops : Pumped
  acknowledges : Pumped
  writes : Frame → Pumped
  writes_close : Frame → Pumped

abbrev pub data_frame : ℕ → Bytes → Frame
data_frame id body = record { frame_type = type_data; stream_id = id; payload = body }

abbrev pub close_frame : ℕ → Frame
close_frame id = record { frame_type = frame_close_send; stream_id = id; payload = [] }

unfoldable pub pump_item : Stream → Item → Pumped
pump_item s (message body) = writes (data_frame s.id body)
pump_item s close_marker = writes_close (close_frame s.id)
pump_item s barrier = acknowledges

-- The pump on the queue that the stream holds.
unfoldable pub pump_queue : Bool → Stream → List Item → Stream × Pumped
unfolding pump_item
pump_queue prefer_queue s [] = elim s.ctx_err [ none ↦ (s, idles) | some e ↦ (s, stops) ]
pump_queue prefer_queue s (item ∷ items) =
    let taken : Stream × Pumped = (record s { outbound = items }, pump_item s item) in
    elim s.ctx_err [ none ↦ taken | some e ↦ if prefer_queue then taken else (s, stops) ]

unfoldable pub pump : Bool → Stream → Stream × Pumped
unfolding pump_queue
pump prefer_queue s = pump_queue prefer_queue s s.outbound
