-- ===== src/Codec/Reader.antt =====
-- infrastructure/peer/codec/frame.go: Reader. An io.Reader is the bytes that it still gives and the
-- error that it gives after them.
use pluginprotocol.Codec.{Frame, header_size, validate}
use pluginprotocol.Codec.BigEndian.{be}
use pluginprotocol.Errors.{
  eof, unexpected_eof, protocol_violation, connection_closed, message_too_large, address, GoError,
  sentinel, wrap, is, Result, ok, err,
}
use pluginprotocol.Limits.{default_limits}
use pluginprotocol.Prelude.{
  ℕ, Bool, false, ◌&&◌, ◌||◌, Option, none, some, [], ◌++◌, ◌==◌, ltb, leb, if◌then◌else◌, Bytes,
  codes, ℤ, is_non_positive, exceeds, length, take, drop,
}

pub record Source : Type 0 where
  pub bytes : Bytes
  pub ending : GoError

-- `err == io.EOF`
abbrev is_eof : GoError → Bool
is_eof (sentinel s) = address s == address eof
is_eof _ = false

-- io.ReadFull into a buffer of `n` bytes: the bytes read, and the error.
unfoldable pub read_full : ℕ → Source → Source × Bytes × Option GoError
unfolding address
read_full n s =
    if leb n (length s.bytes)
    then (record s { bytes = drop n s.bytes }, take n s.bytes, none)
    else (
      record s { bytes = [] },
      s.bytes,
      some
          (if is_eof s.ending && ltb 0 (length s.bytes) then sentinel unexpected_eof else s.ending),
    )

pub record Reader : Type 0 where
  pub source : Source
  pub max_body_size : ℤ

unfoldable pub new_reader : Source → ℤ → Reader
new_reader source max_body_size = record {
  source = source;
  max_body_size =
      if is_non_positive max_body_size then default_limits.max_message_bytes else max_body_size;
}

unfoldable pub truncated : GoError → Bytes → GoError
unfolding is
truncated e what =
    if is e eof || is e unexpected_eof
    then wrap (codes "codec: " ++ (what ++ codes " truncated")) (sentinel protocol_violation)
    else wrap (codes "codec: read " ++ what) (sentinel connection_closed)

-- The end of ReadFrame, after the io.ReadFull of the body.
unfoldable pub finish_body :
    Reader → Frame → Source × Bytes × Option GoError → Reader × Result Frame
unfolding truncated
finish_body r frame (s, body, none) =
    (record r { source = s }, ok (record frame { payload = body }))
finish_body r frame (s, body, some e) =
    (record r { source = s }, err (truncated e (codes "frame body")))

abbrev pub frame_of_header : Bytes → Frame
frame_of_header header = record {
  frame_type = be (take 1 header);
  stream_id = be (take 8 (drop 1 header));
  payload = [];
}

abbrev pub body_length_of_header : Bytes → ℕ
body_length_of_header header = be (take 4 (drop 9 header))

-- ReadFrame from the checks of the decoded header on. `r` stands behind the header.
unfoldable pub read_body : Reader → Frame → ℕ → Reader × Result Frame
unfolding finish_body
read_body r frame body_length = elim (validate frame) [
  | some e ↦ (r, err e)
  | none ↦
      if exceeds body_length r.max_body_size
      then (r, err (sentinel message_too_large))
      else if body_length == 0
      then (r, ok frame)
      else finish_body r frame (read_full body_length r.source)
]

-- ReadFrame after the io.ReadFull of the header.
unfoldable pub after_header : Reader → Source × Bytes × Option GoError → Reader × Result Frame
unfolding truncated is
after_header r (s, header, some e) = (
  record r { source = s },
  err (
      if is e eof && (length header == 0)
      then sentinel eof
      else truncated e (codes "frame header")),
)
after_header r (s, header, none) =
    read_body (record r { source = s }) (frame_of_header header) (body_length_of_header header)

unfoldable pub read_frame : Reader → Reader × Result Frame
unfolding after_header
read_frame r = after_header r (read_full header_size r.source)
