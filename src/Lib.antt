-- ===== src/Lib.antt =====
-- A model of the peer protocol library: what two plugins agree on when they call each other over
-- one connection, and what the library does with the calls, the streams and the failures of either.
--
-- The parts and their files:
--   * Errors, Status, Limits: domain/peer (peer.go, status.go). A Go error is a sentinel, a
--     foreign value, a wrap or a join, with errors.Is as `is`; nil is `none`. Status has String,
--     Err and StatusOf; Limits has DefaultLimits and WithDefaults.
--   * Registry: application/peer/registry.go. The two maps, as association lists; RegisterCall,
--     RegisterStream, Methods and the lookups. A nil *Registry is `none`.
--   * Router: application/peer/router.go. PrepareCall and PrepareStream resolve, authorize and take
--     a slot; the function that they return, run later, gives it back. A panic of a handler or of
--     the authorizer is an outcome of these parameters.
--   * Codec: infrastructure/peer/codec/frame.go. Frame and its validation, Reader, Writer, and the
--     bodies through the protobuf runtime. Codec.BigEndian is the header's encoding/binary.
--   * Conn.Stream: infrastructure/peer/conn/stream.go. The two bounded queues of a stream and how a
--     stream ends.
--   * Conn.Session: infrastructure/peer/conn/session.go and config.go. The maps of a session, stream
--     IDs, `end`, and the writes that end a session when they fail.
--   * Conn.Messages, Conn.Dispatch: infrastructure/peer/conn/dispatch.go. The read loop: a frame is
--     read (Codec), dispatched to a waiter, a stream or a new call of the handler (for which a
--     Router stands in the program), and answered.
--   * Conn.Client: infrastructure/peer/conn/session.go and dispatch.go. What an endpoint starts
--     itself: Call and OpenStream, each up to its await and from there, Close, and the probes.
--   * Security: infrastructure/peer/security/revocation.go. Encoding is what it uses of
--     encoding/hex and math/big, Crypto is its cryptography; Checkpoint is the durable state with
--     validateCheckpoint and the digests, Records and Bundle are validateLocked, Manager is the
--     RevocationManager. Manager.Runs puts a manager together with the connections that it
--     admitted; any list of its operations is a run.
--     Identity and Profile are identity.go and profile.go beside it.
--   * Builder: the RegistryBuilder of presentation/peer/registry.go, over Registry and Router.
--   * Endpoint: presentation/peer/endpoint.go, from the configuration to the carrier that buildCarrier
--     makes, with the constructors of infrastructure/peer/{tcp,quic,unix,pipe}.
--
-- State is passed explicitly: a record for each struct, and one function for each method, which is
-- one step because the source holds a lock or uses one channel operation. A `select` with two
-- ready cases takes a Boolean that chooses; a call that would block gives a value that says so.
-- What a session holds by reference, streams, channels and contexts, has numbers; the streams
-- stand in a store, so a stream that has left a map is still the stream that its user holds.
-- Interleavings are step relations (Router.Budget, Conn.Stream.Queue).
--
-- Numbers are natural numbers; a stream ID wraps at 2^64 and a header field has its width in
-- bytes. A Go int that may be negative is a ℤ. The loop of writeAll has as many rounds as bytes to
-- write; a round that goes on has written one at least, so they do not run out.
--
-- Parameters, because the code is not in the repository: the io.Reader (the bytes it gives and the
-- error after them), the io.Writer, the protobuf runtime, the handlers and the authorizer of the
-- consumer, and crypto/x509 and crypto/sha256: parsing, signatures, chains and sums,
-- url.Parse, and the resolver of package net. A time is a
-- number of nanoseconds, and one call reads the clock once. A Go map that is used as a set of
-- strings is the list of its elements, which the source sorts before it uses their order.
--
-- Not modelled: what the carriers do with sockets and TLS, Dial, Listen and Sessions of the presentation
-- facade, the generated messages, the goroutine that serves a stream, flushOutbound, the writes of a stream's
-- pump, a nil *Router or *RevocationManager, and the deadlines of fenceLocked, which closes the
-- connections that Apply, Close and the expiry hand to it.
pub mod Builder
pub mod Codec
pub mod Conn
pub mod Endpoint
pub mod Errors
pub mod Limits
pub mod Prelude
pub mod Registry
pub mod Router
pub mod Security
pub mod Status
