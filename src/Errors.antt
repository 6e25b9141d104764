-- ===== src/Errors.antt =====
-- errors.go, and the error values of the standard library that the code tells apart.
--
-- An error is a sentinel, a typed error, or a text around another error. What a format verb prints
-- besides the wrapped error is left out of the texts. `errors.Is` follows `Unwrap`.
use go_muxrpc.Base.{
  ℕ, Bool, true, false, ◌||◌, List, ◌++◌, Option, none, some, Text, text, text_eq, ◌==◌,
  if◌then◌else◌,
}
pub mod Classes
pub mod Message

-- `CallType` is a string in Go: `other` is any text that no branch of the code names.
pub data CallType : Type 0 where
  async sync source sink duplex : CallType
  other : Text → CallType

pub record CallError : Type 0 where
  pub name : Text
  pub message : Text
  pub stack : Text

-- io.EOF, io.ErrUnexpectedEOF, os.ErrClosed, io.ErrClosedPipe, context.Canceled,
-- context.DeadlineExceeded, ErrSessionTerminated, errSinkClosed and luigi.EOS{}.
pub data Sentinel : Type 0 where
  eof unexpected_eof os_closed closed_pipe canceled deadline_exceeded : Sentinel
  session_terminated sink_closed eos : Sentinel

unfoldable pub sentinel_no : Sentinel → ℕ
sentinel_no eof = 0
sentinel_no unexpected_eof = 1
sentinel_no os_closed = 2
sentinel_no closed_pipe = 3
sentinel_no canceled = 4
sentinel_no deadline_exceeded = 5
sentinel_no session_terminated = 6
sentinel_no sink_closed = 7
sentinel_no eos = 8

unfoldable pub same : Sentinel → Sentinel → Bool
unfolding sentinel_no
same s t = sentinel_no s == sentinel_no t

-- The texts of `path_error`, `op_error` and `syscall_error` are what stands before the inner error.
pub data Err : Type 0 where
  sentinel : Sentinel → Err
  errno : ℕ → Text → Err
  path_error op_error syscall_error : Text → Err → Err
  no_such_method : List Text → Err
  wrong_stream_type : CallType → Err
  call_error : CallError → Err
  new : Text → Err
  wrap : Text → Err → Err

-- Go's `(value, error)`, where the value is not used beside an error.
pub data Result {ℓ} (A : Type ℓ) : Type ℓ where
  ok : A → Result A
  err : Err → Result A

-- `errors.Is(e, target)` at a sentinel.
unfoldable pub errors_is : Err → Sentinel → Bool
unfolding same
errors_is (sentinel s) t = same s t
errors_is (errno n m) t = false
errors_is (path_error m e) t = errors_is e t
errors_is (op_error m e) t = errors_is e t
errors_is (syscall_error m e) t = errors_is e t
errors_is (no_such_method m) t = false
errors_is (wrong_stream_type c) t = false
errors_is (call_error c) t = false
errors_is (new m) t = false
errors_is (wrap m e) t = errors_is e t

-- `e == target`, without unwrapping.
unfoldable pub equals : Err → Sentinel → Bool
unfolding same
equals (sentinel s) t = same s t
equals _ t = false

-- `errors.As(err, &ce)` at `*CallError`.
unfoldable pub as_call_error : Err → Option CallError
as_call_error (path_error m e) = as_call_error e
as_call_error (op_error m e) = as_call_error e
as_call_error (syscall_error m e) = as_call_error e
as_call_error (wrap m e) = as_call_error e
as_call_error (call_error c) = some c
as_call_error _ = none

abbrev epipe : ℕ
epipe = 32

-- `sysErr.Err == os.ErrClosed`, where `err` is an `*os.PathError`.
unfoldable pub is_closed_path : Err → Bool
unfolding equals
is_closed_path (path_error m e) = equals e os_closed
is_closed_path _ = false

-- `err.(*net.OpError).Err.(*os.SyscallError).Err.(syscall.Errno) == syscall.EPIPE`
unfoldable pub is_broken_pipe : Err → Bool
is_broken_pipe (op_error m (syscall_error n (errno k t))) = k == epipe
is_broken_pipe _ = false

unfoldable pub already_closed : Err → Bool
unfolding errors_is is_closed_path is_broken_pipe
already_closed e =
    (errors_is e eof || errors_is e os_closed || errors_is e closed_pipe)
    || is_closed_path e
    || is_broken_pipe e

-- The Go functions take a nil error too.
unfoldable pub is_already_closed : Option Err → Bool
unfolding already_closed
is_already_closed none = false
is_already_closed (some e) = already_closed e

closed_by_peer : Option CallError → Bool
closed_by_peer none = false
closed_by_peer (some c) = text_eq c.message (text "unexpected end of parent stream")

unfoldable pub is_sink_closed : Option Err → Bool
unfolding equals already_closed as_call_error closed_by_peer
is_sink_closed none = false
is_sink_closed (some e) =
    if equals e sink_closed
    then true
    else if equals e session_terminated
    then true
    else if already_closed e
    then true
    else closed_by_peer (as_call_error e)
