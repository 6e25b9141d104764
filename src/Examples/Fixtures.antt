-- ===== src/Examples/Fixtures.antt =====
-- The inputs that the examples share.
use go_muxrpc.Base.{◌≡◌, refl, ap, true, false, none, List, [], ◌∷◌, Text, length, arith}
use go_muxrpc.Errors.{
  Err, sentinel, eof, new, Result, ok, err, CallType, async, sync, source, sink, duplex, other,
}
use go_muxrpc.External.{External, Call, DecodesCalls}
use go_muxrpc.Codec.Stream.{Bytes, Output}
use go_muxrpc.Codec.Packet.{Packet, is_goodbye}
use go_muxrpc.Codec.RoundTrip.Packets.{IsSendable}
use go_muxrpc.Manifest.{Manifest}
use go_muxrpc.Sink.{ByteSink}
use go_muxrpc.Sink.Closing.{IsReady}
use go_muxrpc.Session.Packer.{Packer}
use go_muxrpc.Session.State.{Request}
use go_muxrpc.Session.Client.{new_call}

abbrev pub eof_error : Err
eof_error = sentinel eof

-- A writer that takes everything, and one packet.
abbrev pub fresh_output : Output
fresh_output = record { sent = []; room = none; closer = none; closed = false }

abbrev pub small_packet : Packet
small_packet = record { flag = 10; req = 7; body = 1 ∷ 2 ∷ [] }

pub small-IsSendable : IsSendable small_packet
unfolding is_goodbye
small-IsSendable = record {
  packet = record {
    flag_byte = omega arith;
    req_word = omega arith;
    body_bytes = (omega arith, (omega arith, tt));
  };
  fits = omega arith;
  not_goodbye = refl;
}

abbrev pub open_sink : ByteSink
open_sink = record { closed = none; stream_err = none; flag = 8; req = 3; body = [] }

pub open-IsReady : IsReady open_sink
open-IsReady = record { open_sink = refl; alive = refl; numbered = omega arith }

-- An encoding that only knows calls of a one-word method without arguments, and writes the word.
unfoldable pub marshal_word : List Text → Bytes → CallType → Result Bytes
marshal_word (n ∷ []) [] async = ok n
marshal_word _ _ _ = err (new [])

abbrev pub word_call : Bytes → Call
word_call b = record { name = b ∷ []; args = []; type = async }

abbrev pub words : External
words = record {
  marshal_call_error = λ c. ok c.message;
  unmarshal_call_error = λ b. ok (record { name = []; message = b; stack = [] });
  marshal_call = λ c. marshal_word c.name c.args c.type;
  decode_call = λ b. (length b, ok (word_call b));
  eos_text = [];
}

word-decodes :
    (n : List Text) (a : Bytes) (t : CallType) (b : Bytes)
    → marshal_word n a t ≡ ok b
    → word_call b ≡ record { name = n; args = a; type = t }
unfolding marshal_word
word-decodes (n ∷ []) [] async b e = ground (arith, e)
word-decodes (n ∷ []) [] sync b e = absurd (cc e)
word-decodes (n ∷ []) [] source b e = absurd (cc e)
word-decodes (n ∷ []) [] sink b e = absurd (cc e)
word-decodes (n ∷ []) [] duplex b e = absurd (cc e)
word-decodes (n ∷ []) [] (other m) b e = absurd (cc e)
word-decodes (n ∷ []) (a ∷ rest) t b e = absurd (cc e)
word-decodes [] a t b e = absurd (cc e)
word-decodes (n ∷ m ∷ ns) a t b e = absurd (cc e)

pub words-DecodesCalls : DecodesCalls words
words-DecodesCalls = record {
  decode-marshal = λ c b e. ap (λ q. (length b, ok q)) (word-decodes c.name c.args c.type b e);
}

abbrev pub ping : Bytes
ping = b'p' ∷ b'i' ∷ b'n' ∷ b'g' ∷ []

abbrev pub ping_request : Request
ping_request = new_call async (ping ∷ []) [] 0 none

abbrev pub packer_of : Bytes → Packer
packer_of b = record {
  input = record { bytes = b; fin = eof_error };
  output = fresh_output;
  closing = false;
  close_err = none;
}

abbrev pub no_manifest : Manifest
no_manifest = record { missing = true; methods = [] }
