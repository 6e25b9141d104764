-- ===== src/Debug.antt =====
-- debug/debug.go: a connection that logs every packet that passes through it.
--
-- A pipe hands the bytes that are read or written on to a reader of packets, which logs them. The input
-- of `work` is what comes through the pipe; how long a write to the pipe waits for its reader is not modelled.
pub mod Logs
use go_muxrpc.Base.{
  ℕ, zero, suc, Bool, true, false, ◌&&◌, not, Option, none, some, List, [], ◌∷◌, ◌++◌, map, ◌==◌,
  if◌then◌else◌,
}
use go_muxrpc.Errors.{Err, eof, equals, Result, ok, err}
use go_muxrpc.Codec.Stream.{Bytes, Input, Output, write}
use go_muxrpc.Codec.Packet.{Packet}
use go_muxrpc.Codec.Reader.{read_packet}
use go_muxrpc.Codec.Flag

-- What `l.Log` is given.
pub data Line : Type 0 where
  packet : Packet → Line
  failed : Err → Line

-- `bytes.Replace(body, "\"", "'", -1)`
unfoldable pub unquoted : Bytes → Bytes
unquoted = map (λ c. if c == 34 then 39 else c)

unfoldable pub line_of : Packet → Line
unfolding unquoted
line_of p = packet (if Flag.get p.flag Flag.json then record p { body = unquoted p.body } else p)

-- The end of the input is no error.
unfoldable pub unless_eof : Err → Option Err
unfolding equals
unless_eof e = if equals e eof then none else some e

-- What it logs, the error that it sends to its channel, and what is left of its input.
abbrev pub Logged : Type 0
Logged = List Line × Option Err × Input

abbrev with_line : Line → Logged → Logged
with_line l (ls, e, i) = (l ∷ ls, e, i)

unfoldable pub after_packet : Input × Result Packet → (Input → Logged) → Logged
unfolding unless_eof line_of
after_packet (i, err e) next = (failed e ∷ [], unless_eof e, i)
after_packet (i, ok p) next = with_line (line_of p) (next i)

-- The loop of `work`, which finds its cancel channel closed after so many rounds.
unfoldable pub work : ℕ → Input → Logged
unfolding after_packet
work zero i = ([], none, i)
work (suc n) i = after_packet (read_packet i) (work n)

abbrev not_eof : Option Err → List Err
not_eof none = []
not_eof (some e) = if equals e eof then [] else e ∷ []

abbrev error_list : Option Err → List Err
error_list none = []
error_list (some e) = e ∷ []

-- `Close`: the errors that it gathers; nil if there are none. The pipes close without an error.
unfoldable pub close_wrapped : Option Err → Option Err → Option Err → List Err
unfolding equals
close_wrapped in_err out_err closed = not_eof in_err ++ (not_eof out_err ++ error_list closed)
