-- ===== src/Conn/Dispatch.antt =====
-- infrastructure/peer/conn/dispatch.go: the read loop. A step of the session is one function here;
-- `now` is the clock and `prefer` the choice of a `select` with two ready cases.
pub mod Inbound
pub mod Replies
pub mod Frames
pub mod Verdicts
pub mod Openings
pub mod Gates
mod Tests
