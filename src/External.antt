-- ===== src/External.antt =====
-- What the code takes from elsewhere: encoding/json at the types of the wire, which Go derives from
-- the struct tags by reflection, and the text of `luigi.EOS{}`.
--
-- A JSON encoder or decoder is a function of the bytes alone. `decode_request` is a
-- `json.NewDecoder(rd).Decode(&req)` over the body of a packet: besides its result it says how many
-- bytes of the body the decoder has read.
use go_muxrpc.Base.{ℕ, ◌≡◌, List, Text, length}
use go_muxrpc.Errors.{CallError, CallType, Result, ok}
use go_muxrpc.Codec.Stream.{Bytes}

-- `Request` as JSON: `name`, `args` and `type`. Raw JSON is its bytes.
pub record Call : Type 0 where
  pub name : List Text
  pub args : Bytes
  pub type : CallType

pub record External : Type 0 where
  pub marshal_call_error : CallError → Result Bytes
  pub unmarshal_call_error : Bytes → Result CallError
  pub marshal_call : Call → Result Bytes
  pub decode_call : Bytes → ℕ × Result Call
  pub eos_text : Text

-- A call that was encoded is decoded to itself, and the decoder then has read all of it.
pub record DecodesCalls (x : External) : Type 0 where
  pub decode-marshal :
      (c : Call) (b : Bytes) → x.marshal_call c ≡ ok b → x.decode_call b ≡ (length b, ok c)
