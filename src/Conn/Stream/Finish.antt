-- ===== src/Conn/Stream/Finish.antt =====
-- infrastructure/peer/conn/stream.go: how a stream ends.
use pluginprotocol.Conn.Stream.{
  Stream, finish_stream, terminal, recv, recv_queue, recv_empty, drained, Received, gets, fails,
}
use pluginprotocol.Errors.{GoError, sentinel, stream_closed, eof}
use pluginprotocol.Prelude.{
  ℕ, zero, suc, true, false, ◌≡◌, ◌≢◌, refl, ap, Option, none, some, List, [], ◌∷◌, ◌++◌, map,
  Bytes, length, if◌then◌else◌, arith,
}

-- A finished stream has recorded why, its context is done and its queue is closed.
pub record IsFinished (s : Stream) : Type 0 where
  pub once : s.finished ≡ true
  pub recorded : s.finish_err ≢ none
  pub done : s.ctx_err ≢ none
  pub shut : s.inbound_closed ≡ true

-- What a cause is reported as: a clean end as a closed stream.
abbrev pub reported : Option GoError → GoError
reported none = sentinel stream_closed
reported (some e) = e

-- What `n` calls of Recv in a row come to, and the stream after them.
unfoldable pub receive : ℕ → Option GoError → Stream → Stream × List Received
unfolding recv
receive zero usable s = (s, [])
receive (suc n) usable s =
    let (after, first) = recv usable s in
    let (last, others) = receive n usable after in (last, first ∷ others)

-- A closed queue is received in order, and then every Recv fails.
receive_closed :
    (queue : List Bytes) (usable : Option GoError) (s : Stream)
    → s.inbound_closed ≡ true
    → (receive (suc (length queue)) usable (record s { inbound = queue })).1
      ≡ map gets queue ++ fails (if s.inbound_eof then sentinel eof else terminal s) ∷ []
unfolding receive recv recv_queue recv_empty drained terminal
receive_closed [] usable s h = ground arith
receive_closed (m ∷ ms) usable s h =
    ap (λ (rest : List Received). gets m ∷ rest) (receive_closed ms usable s h)

finish_stream_once :
    (s : Stream) (first later : Option GoError)
    → s.finished ≡ false
    → let ended = finish_stream s first in
      IsFinished ended
      × (finish_stream ended later ≡ ended)
      × (terminal ended ≡ reported first)
      × (ended.inbound ≡ s.inbound)
      × (ended.inbound_eof ≡ s.inbound_eof)
unfolding finish_stream terminal
finish_stream_once s first later h = (
  record { once = ground arith; recorded = ground arith; done = ground arith; shut = ground arith },
  ground arith,
  ground arith,
  ground arith,
  ground arith,
)

-- A stream that has not finished, finished for a cause, reports that cause, a clean end as a closed
-- stream, and ignores every later cause; its context is done and its queue closed with its messages
-- kept. Recv then gives those messages in order, whatever the session's state is, and after them
-- fails: with io.EOF where the peer had closed its half before, else with what was reported.
pub finish_stream_first :
    (s : Stream) (first later usable : Option GoError)
    → s.finished ≡ false
    → let ended = finish_stream (finish_stream s first) later in
      IsFinished ended
      × (ended ≡ finish_stream s first)
      × (terminal ended ≡ reported first)
      × (ended.inbound ≡ s.inbound)
      × ((receive (suc (length s.inbound)) usable ended).1
          ≡ map gets s.inbound
            ++ fails (if s.inbound_eof then sentinel eof else reported first) ∷ [])
finish_stream_first s first later usable h =
    let (finished, ignores, ends, kept, same_eof) = finish_stream_once s first later h in
    rw (ignores) (
      finished,
      refl,
      ends,
      kept,
      received (finish_stream s first) finished.shut ends kept same_eof,
    )
  where
    received :
        (e : Stream)
        → e.inbound_closed ≡ true
        → terminal e ≡ reported first
        → e.inbound ≡ s.inbound
        → e.inbound_eof ≡ s.inbound_eof
        → (receive (suc (length s.inbound)) usable e).1
          ≡ map gets s.inbound
            ++ fails (if s.inbound_eof then sentinel eof else reported first) ∷ []
    received e closed ends kept same_eof =
        rw (← kept, ← same_eof, ← ends) (receive_closed e.inbound usable e closed)
