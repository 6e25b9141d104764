-- ===== src/Session/Wire/Failure.antt =====
-- A request that is closed with an error, at the side that closes it and at the other.
use go_muxrpc.Base.{ℕ, ◌≡◌, Bool, false, [], text}
use go_muxrpc.Errors.{Err, CallError, ok}
use go_muxrpc.Errors.Message.{error_text}
use go_muxrpc.External.{External}
use go_muxrpc.Codec.Stream.{Bytes}
use go_muxrpc.Codec.Packet.{Packet}
use go_muxrpc.Packets.{end_flag}
use go_muxrpc.Session.State.{Session}
use go_muxrpc.Session.Serve.{is_true}
use go_muxrpc.Session.Invariant.Reach.{Reach}

-- JSON decodes an error that it encoded, and encodes none as `true`: an error is an object.
pub record DecodesErrors (x : External) : Type 0 where
  pub decoded :
      (c : CallError) (b : Bytes) → x.marshal_call_error c ≡ ok b → x.unmarshal_call_error b ≡ ok c
  pub not_true : (c : CallError) (b : Bytes) → x.marshal_call_error c ≡ ok b → is_true b ≡ false

-- An error as it is sent.
abbrev pub as_sent : External → Err → CallError
as_sent x e = record { name = text "Error"; message = error_text x.eos_text e; stack = [] }

abbrev err_packet : ℕ → Bool → Bytes → Packet
err_packet req stream body = record { flag = end_flag stream; req = req; body = body }
