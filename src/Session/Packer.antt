-- ===== src/Session/Packer.antt =====
-- packer.go: the connection of a session, and the header of the next packet.
use go_muxrpc.Base.{
  ℕ, ◌-◌, ◌%◌, ◌^◌, Bool, true, false, ◌&&◌, not, Option, none, some, text, if◌then◌else◌,
}
use go_muxrpc.Errors.{Err, sentinel, eof, wrap, errors_is, is_already_closed, Result, ok, err}
use go_muxrpc.Codec.Stream.{Input, Output}
use go_muxrpc.Codec.Stream
use go_muxrpc.Codec.Packet.{Header}
use go_muxrpc.Codec.Reader.{read_header}
use go_muxrpc.Codec.Writer.{wrapped}

-- `closing` is that the channel of that name is closed; `close_err` is the result of that close.
pub record Packer : Type 0 where
  pub input : Input
  pub output : Output
  pub closing : Bool
  pub close_err : Option Err

unfoldable pub new_packer : Input → Output → Packer
new_packer i o = record { input = i; output = o; closing = false; close_err = none }

-- `-x` on an int32.
unfoldable pub neg32 : ℕ → ℕ
neg32 x = (2 ^ 32 - x) % 2 ^ 32

-- What follows the `select`.
header_result : Result Header → Result Header
unfolding errors_is
header_result (err e) =
    if errors_is e eof
    then err (sentinel eof)
    else err (wrap (text "muxrpc: error reading packet ") e)
header_result (ok h) = ok (record h { req = neg32 h.req })

-- The case for the closing channel.
closing_result : Result Header → Result Header
unfolding header_result
closing_result (err e) = err (sentinel eof)
closing_result (ok h) = header_result (ok h)

-- `ctx_first` is the choice of the `select` where both channels are closed.
unfoldable pub selected : Bool → Bool → Option Err → Result Header → Result Header
unfolding closing_result header_result
selected ctx_first closing none r = if closing then closing_result r else header_result r
selected ctx_first closing (some e) r =
    if closing && not ctx_first
    then closing_result r
    else err (wrap (text "muxrpc/packer: read packet canceled: ") e)

-- `NextHeader`; `ctx` is the error of its context.
unfoldable pub next_header : Bool → Option Err → Packer → Packer × Result Header
unfolding selected
next_header ctx_first ctx p =
    let (i, r) = read_header p.input in (record p { input = i }, selected ctx_first p.closing ctx r)

abbrev closed_again : Option Err → Option Err
closed_again e = if is_already_closed e then none else wrapped (text "packer: already closed: ") e

-- `Close`
unfoldable pub close_packer : Packer → Packer × Option Err
close_packer p =
    let (o, e) = Stream.close p.output in
    let e' = wrapped (text "error closing underlying closer: ") e in
    if p.closing
    then (p, closed_again p.close_err)
    else (record p { output = o; closing = true; close_err = e' }, e')
