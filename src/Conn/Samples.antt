-- ===== src/Conn/Samples.antt =====
-- A concrete connection, protobuf runtime, handler and session for the tests.
use pluginprotocol.Codec.Body.{Proto}
use pluginprotocol.Conn.Messages.{Wire, failure_message}
use pluginprotocol.Conn.Session.{role_client, Session, Ports}
use pluginprotocol.Conn.Session.Ending.{has_cause}
use pluginprotocol.Conn.Stream.{
  Stream, new_stream_within, finish_stream, terminal, or_closed, recv, recv_queue, recv_empty,
  deliver, Delivery, delivered, deliver_select,
}
use pluginprotocol.Conn.Stream as Streams
use pluginprotocol.Errors.{sentinel, overloaded, ok, err}
use pluginprotocol.Limits.{default_limits}
use pluginprotocol.Prelude.{
  ℕ, ◌+◌, ◌≡◌, refl, true, false, none, some, [], ◌∷◌, ◌++◌, Bytes, codes, pos, length,
}
use pluginprotocol.Status.{status_overloaded}

-- A runtime that can encode one message.
abbrev pub only : {M : Type 0} → M → Proto M
only m = record { encode = λ x. some []; decode = λ body. some (m, []) }

abbrev pub wire : Wire
wire = record {
  call_request = only (record { method = codes "echo"; payload = 1 ∷ [] });
  call_result = only (record { payload = [] });
  failure = only (failure_message status_overloaded);
  open_stream = only (record { method = [] });
  stream_accepted = only (record {});
  data_message = only (record { payload = 7 ∷ [] });
  ping = only (record { nonce = 1 });
  pong = only (record { nonce = 1 });
}

-- A connection that keeps what is written, and a handler that refuses streams and echoes calls.
abbrev pub ports : Ports Bytes ℕ Bytes ℕ
ports = record {
  write = λ t bytes. (t ++ bytes, pos (length bytes), none);
  close = λ t. t;
  wire = wire;
  prepare_call = λ h ctx_err from call. (h, ok call.payload);
  prepare_stream = λ h from live. (h, err (sentinel overloaded));
  serve_call = λ h p call. (h + 1, ok p);
}

abbrev pub live : Stream
live = record {
  id = 3;
  method = codes "watch";
  ctx_err = none;
  inbound = (4 ∷ []) ∷ [];
  inbound_closed = false;
  inbound_eof = false;
  outbound = [];
  depth = 64;
  send_closed = false;
  closing = Streams.not_called;
  finished = false;
  finish_err = none;
}

-- A client with a call, a stream that is being opened, a live stream and an inbound call.
abbrev pub busy : Session Bytes ℕ Bytes ℕ
busy = record {
  role = role_client;
  limits = default_limits;
  remote = codes "spiffe://a";
  transport = [];
  handler = 0;
  next_stream_id = 7;
  objects = (0, live) ∷ [];
  next_ref = 4;
  streams = (3, 0) ∷ [];
  calls = (1, 1) ∷ [];
  opens = (5, 2) ∷ [];
  inflight = (2, 3) ∷ [];
  call_outcomes = [];
  open_outcomes = [];
  cancelled = [];
  ctx_err = none;
  final = none;
  ended = false;
  call_gate = 1;
  stream_gate = 0;
  serving = [];
  streaming = [];
  last_pong = 0;
  closed = false;
}

pub busy-has_cause : has_cause busy ≡ true
unfolding has_cause
busy-has_cause = refl
