-- ===== src/Errors/Message.antt =====
-- `Error()` of the error values, and the texts of call types and methods.
use go_muxrpc.Base.{List, ◌++◌, Text, text, join}
use go_muxrpc.Errors.{
  Err, sentinel, errno, path_error, op_error, syscall_error, no_such_method, wrong_stream_type,
  call_error, new, wrap, Sentinel, eof, unexpected_eof, os_closed, closed_pipe, canceled,
  deadline_exceeded, session_terminated, sink_closed, eos, CallType, async, sync, source, sink,
  duplex, other,
}

unfoldable pub call_type_text : CallType → Text
call_type_text async = text "async"
call_type_text sync = text "sync"
call_type_text source = text "source"
call_type_text sink = text "sink"
call_type_text duplex = text "duplex"
call_type_text (other t) = t

-- `Method.String`
unfoldable pub method_text : List Text → Text
method_text m = join (text ".") m

-- The text of `luigi.EOS{}`, which is not of this repository, is an argument.
module _ (eos_text : Text) where
  sentinel_text : Sentinel → Text
  sentinel_text eof = text "EOF"
  sentinel_text unexpected_eof = text "unexpected EOF"
  sentinel_text os_closed = text "file already closed"
  sentinel_text closed_pipe = text "io: read/write on closed pipe"
  sentinel_text canceled = text "context canceled"
  sentinel_text deadline_exceeded = text "context deadline exceeded"
  sentinel_text session_terminated = text "muxrpc: session terminated"
  sentinel_text sink_closed = text "muxrpc: pour to closed sink"
  sentinel_text eos = eos_text

  unfoldable pub error_text : Err → Text
  unfolding sentinel_text
  error_text (sentinel s) = sentinel_text s
  error_text (errno n m) = m
  error_text (path_error m e) = m ++ error_text e
  error_text (op_error m e) = m ++ error_text e
  error_text (syscall_error m e) = m ++ error_text e
  error_text (no_such_method m) = text "muxrpc: no such command: " ++ method_text m
  error_text (wrong_stream_type t) = text "muxrpc: wrong stream type: " ++ call_type_text t
  error_text (call_error c) = text "muxrpc CallError: " ++ (c.name ++ (text " - " ++ c.message))
  error_text (new m) = m
  error_text (wrap m e) = m ++ error_text e
