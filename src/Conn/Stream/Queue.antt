-- ===== src/Conn/Stream/Queue.antt =====
-- infrastructure/peer/conn/stream.go: the inbound queue, between the read loop and Recv.
use mathlib.Core.List.{append_assoc, append-nil}
use pluginprotocol.Conn.Stream.{
  Stream, new_stream_within, finish_stream, close_inbound_half, recv, recv_queue, recv_empty, gets,
  fails, delivered, deliver, deliver_select, settle_cancelled,
}
use pluginprotocol.Errors.{canceled, GoError, sentinel}
use pluginprotocol.Limits.{Limits}
use pluginprotocol.Prelude.{
  ◌<◌, ℕ, ◌≤◌, ◌≡◌, refl, ap, sym, subst, ◌∙◌, Bool, Option, none, some, List, [], ◌∷◌, ◌++◌, Bytes,
  length, length-append, arith,
}

-- A stream with the messages that the read loop has put into its queue and those that Recv gave.
pub record Inbox : Type 0 where
  pub stream : Stream
  pub accepted : List Bytes
  pub received : List Bytes

-- What can happen to the queue: a delivery, also one that had waited, a Recv, the peer's close of
-- its half, the end of the stream, and the end of the context that bounds it.
pub data Step (limits : Limits) (w w' : Inbox) : Type 0 where
  delivers :
      (prefer : Bool) (payload : Bytes) (s : Stream)
      → deliver limits prefer w.stream payload ≡ delivered s
      → w' ≡ record w { stream = s; accepted = w.accepted ++ payload ∷ [] }
      → Step limits w w'
  delivers_late :
      (prefer : Bool) (payload : Bytes) (s : Stream)
      → deliver_select prefer w.stream payload ≡ delivered s
      → w' ≡ record w { stream = s; accepted = w.accepted ++ payload ∷ [] }
      → Step limits w w'
  receives :
      (usable : Option GoError) (s : Stream) (m : Bytes)
      → recv usable w.stream ≡ (s, gets m)
      → w' ≡ record w { stream = s; received = w.received ++ m ∷ [] }
      → Step limits w w'
  fails_to_receive :
      (usable : Option GoError) (s : Stream) (e : GoError)
      → recv usable w.stream ≡ (s, fails e)
      → w' ≡ record w { stream = s }
      → Step limits w w'
  half_closes : w' ≡ record w { stream = close_inbound_half w.stream } → Step limits w w'
  finishes :
      (cause : Option GoError)
      → w' ≡ record w { stream = finish_stream w.stream cause }
      → Step limits w w'
  expires :
      (e : GoError)
      → w' ≡ record w { stream = record w.stream { ctx_err = some e } }
      → Step limits w w'

pub data Reach (limits : Limits) (s : Inbox) : Inbox → Type 0 where
  here : Reach limits s s
  next : {w w' : Inbox} → Reach limits s w → Step limits w w' → Reach limits s w'

-- Nothing is lost, made up or put out of order, and the queue never holds more than its bound.
pub record InOrder (w : Inbox) : Type 0 where
  pub order : w.accepted ≡ w.received ++ w.stream.inbound
  pub bound : length w.stream.inbound ≤ w.stream.depth

deliver_select_ok :
    (prefer : Bool) (s : Stream) (payload : Bytes) {s' : Stream}
    → deliver_select prefer s payload ≡ delivered s'
    → (s'.inbound ≡ s.inbound ++ payload ∷ []) × (length s.inbound < s.depth) × (s'.depth ≡ s.depth)
unfolding deliver_select
deliver_select_ok prefer s payload e = (ground arith, ground arith, ground arith)

deliver_ok :
    (limits : Limits) (prefer : Bool) (s : Stream) (payload : Bytes) {s' : Stream}
    → deliver limits prefer s payload ≡ delivered s'
    → deliver_select prefer s payload ≡ delivered s'
unfolding deliver
deliver_ok limits prefer s payload e = ground arith

finish_stream-inbound :
    (s : Stream) (cause : Option GoError)
    → ((finish_stream s cause).inbound ≡ s.inbound) × ((finish_stream s cause).depth ≡ s.depth)
unfolding finish_stream
finish_stream-inbound s cause = (ground arith, ground arith)

recv_queue_gets :
    (usable : Option GoError) (s : Stream) (q : List Bytes) {s' : Stream} {m : Bytes}
    → recv_queue usable s q ≡ (s', gets m)
    → (q ≡ m ∷ s'.inbound) × (s'.depth ≡ s.depth)
unfolding recv_queue recv_empty
recv_queue_gets usable s [] e = absurd (ground arith)
recv_queue_gets usable s (x ∷ xs) e = (ground arith, ground arith)

settle_cancelled-inbound :
    (usable : Option GoError) (s : Stream)
    → ((settle_cancelled usable s).inbound ≡ s.inbound)
      × ((settle_cancelled usable s).depth ≡ s.depth)
unfolding settle_cancelled
settle_cancelled-inbound none s = finish_stream-inbound s (some (sentinel canceled))
settle_cancelled-inbound (some e) s = finish_stream-inbound s (some e)

recv_queue_fails :
    (usable : Option GoError) (s : Stream) (q : List Bytes) {s' : Stream} {e : GoError}
    → recv_queue usable s q ≡ (s', fails e)
    → (q ≡ []) × (s'.inbound ≡ s.inbound) × (s'.depth ≡ s.depth)
unfolding recv_queue recv_empty
recv_queue_fails usable s [] e =
    let settled = settle_cancelled-inbound usable s in (refl, ground arith, ground arith)
recv_queue_fails usable s (x ∷ xs) e = cc

recv_gets :
    (usable : Option GoError) (s : Stream) {s' : Stream} {m : Bytes}
    → recv usable s ≡ (s', gets m)
    → (s.inbound ≡ m ∷ s'.inbound) × (s'.depth ≡ s.depth)
unfolding recv
recv_gets usable s e = recv_queue_gets usable s s.inbound e

recv_fails :
    (usable : Option GoError) (s : Stream) {s' : Stream} {e : GoError}
    → recv usable s ≡ (s', fails e)
    → (s.inbound ≡ []) × (s'.inbound ≡ s.inbound) × (s'.depth ≡ s.depth)
unfolding recv
recv_fails usable s e = recv_queue_fails usable s s.inbound e

close_inbound_half-inbound :
    (s : Stream)
    → ((close_inbound_half s).inbound ≡ s.inbound) × ((close_inbound_half s).depth ≡ s.depth)
unfolding close_inbound_half
close_inbound_half-inbound s = (ground arith, ground arith)

-- A step that leaves the queue alone.
unmoved :
    (w : Inbox) (s : Stream)
    → s.inbound ≡ w.stream.inbound
    → s.depth ≡ w.stream.depth
    → InOrder w
    → InOrder (record w { stream = s })
unmoved w s e d b = record { order = rw e b.order; bound = rw (e, d) b.bound }

put :
    (w : Inbox) (s : Stream) (payload : Bytes)
    → (s.inbound ≡ w.stream.inbound ++ payload ∷ [])
      × (length w.stream.inbound < w.stream.depth)
      × (s.depth ≡ w.stream.depth)
    → InOrder w
    → InOrder (record w { stream = s; accepted = w.accepted ++ payload ∷ [] })
put w s payload (e, room, d) b = record {
  order =
      ap (λ (xs : List Bytes). xs ++ payload ∷ []) b.order
      ∙ append_assoc w.received w.stream.inbound (payload ∷ [])
      ∙ ap (◌++◌ w.received) (sym e);
  bound = omega (arith, ap length e, length-append w.stream.inbound (payload ∷ []));
}

Step-InOrder : {limits : Limits} {w w' : Inbox} → Step limits w w' → InOrder w → InOrder w'
Step-InOrder {limits} {w} (delivers prefer payload s e q) b =
    let late = deliver_ok limits prefer w.stream payload e in
    subst InOrder (sym q) (put w s payload (deliver_select_ok prefer w.stream payload late) b)
Step-InOrder {limits} {w} (delivers_late prefer payload s e q) b =
    subst InOrder (sym q) (put w s payload (deliver_select_ok prefer w.stream payload e) b)
Step-InOrder {limits} {w} (receives usable s m e q) b =
    let (head, d) = recv_gets usable w.stream e in
    subst InOrder (sym q) (record {
      order =
          b.order ∙ ap (◌++◌ w.received) head ∙ sym (append_assoc w.received (m ∷ []) s.inbound);
      bound = omega (arith, ap length head, b.bound);
    })
Step-InOrder {limits} {w} (fails_to_receive usable s x e q) b =
    let (_, same, d) = recv_fails usable w.stream e in subst InOrder (sym q) (unmoved w s same d b)
Step-InOrder {limits} {w} (half_closes q) b =
    let (same, d) = close_inbound_half-inbound w.stream in
    subst InOrder (sym q) (unmoved w (close_inbound_half w.stream) same d b)
Step-InOrder {limits} {w} (finishes cause q) b =
    let (same, d) = finish_stream-inbound w.stream cause in
    subst InOrder (sym q) (unmoved w (finish_stream w.stream cause) same d b)
Step-InOrder {limits} {w} (expires x q) b =
    subst InOrder (sym q) (unmoved w (record w.stream { ctx_err = some x }) refl refl b)

Reach-InOrder : {limits : Limits} {s w : Inbox} → InOrder s → Reach limits s w → InOrder w
Reach-InOrder b here = b
Reach-InOrder b (next walk step) = Step-InOrder step (Reach-InOrder b walk)

abbrev pub new_inbox : Limits → ℕ → Bytes → Option GoError → Inbox
new_inbox limits id method parent = record {
  stream = new_stream_within limits id method parent;
  accepted = [];
  received = [];
}

new_inbox-InOrder :
    (limits : Limits) (id : ℕ) (method : Bytes) (parent : Option GoError)
    → InOrder (new_inbox limits id method parent)
unfolding new_stream_within
new_inbox-InOrder limits id method parent = record { order = refl; bound = omega arith }

-- From a new stream on, whatever happens to it: the messages that were delivered are those that Recv
-- gave and then those that are queued, in order, none lost and none twice, and the queue stays
-- within its bound.
pub Reach-new_inbox :
    (limits : Limits) (id : ℕ) (method : Bytes) (parent : Option GoError) {w : Inbox}
    → Reach limits (new_inbox limits id method parent) w
    → InOrder w
Reach-new_inbox limits id method parent walk =
    Reach-InOrder (new_inbox-InOrder limits id method parent) walk

-- A Recv that fails, for whatever reason and whatever happened to the stream since it was new, has
-- every delivered message behind it.
pub recv-fails :
    (limits : Limits) (id : ℕ) (method : Bytes) (parent : Option GoError) {w : Inbox}
    (usable : Option GoError) {s : Stream} {e : GoError}
    → Reach limits (new_inbox limits id method parent) w
    → recv usable w.stream ≡ (s, fails e)
    → w.received ≡ w.accepted
recv-fails limits id method parent {w} usable walk failed =
    let b = Reach-new_inbox limits id method parent walk in
    sym
      (b.order ∙ ap (◌++◌ w.received) (recv_fails usable w.stream failed).0 ∙ append-nil w.received)
