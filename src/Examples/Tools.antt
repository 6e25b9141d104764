-- ===== src/Examples/Tools.antt =====
-- The commands, the logging connection, the legacy adapters and the contexts.
use go_muxrpc.Base.{
  ℕ, suc, ◌+◌, ◌≡◌, ◌≢◌, refl, true, false, Option, none, some, List, [], ◌∷◌, ◌++◌, text, length,
  arith, ◌⊎◌,
}
use go_muxrpc.Errors.{Err, sentinel, eof, Result, ok}
use go_muxrpc.Codec.Stream.{Bytes, Input}
use go_muxrpc.Codec.Flag
use go_muxrpc.Codec.Packet.{Packet}
use go_muxrpc.Codec.Reader.{read_all}
use go_muxrpc.Codec.Writer.{goodbye}
use go_muxrpc.Codec.RoundTrip.Packets.{input}
use go_muxrpc.Codec.RoundTrip.Sessions.{encodes}
use go_muxrpc.Source.Frames.Queue.{Holds, empty-Holds}
use go_muxrpc.Source.ByteSource.{ByteSource, new_byte_source, more_frames, consume}
use go_muxrpc.Source.Gains.{Gains, consume-Gains}
use go_muxrpc.Dump.{dump}
use go_muxrpc.Dump.Packets.{entries, dump-read_all}
use go_muxrpc.Dump.Recorded.{dump-encodes, dump-ne-none}
use go_muxrpc.Debug.{Line, work, failed}
use go_muxrpc.Debug.Logs.{ShowsAll, work-encodes}
use go_muxrpc.Contexts.{
  CloseCtx, Steps, with_error, with_error_once, stays, then_step, cancels, closes, is_done, err_of,
  do_once, close_channel,
}
use go_muxrpc.Legacy.{Value, next_element}
use go_muxrpc.Legacy.Poured.{
  of_value, poured_body, poured_packet, Sends, next_element_oldest, pour-next_element,
}
use go_muxrpc.Gen.{Func, parse}
use go_muxrpc.Gen.Flags.{look_at}
use go_muxrpc.Gen.RoundTrip.{command_line, parse-command_line}
use go_muxrpc.Examples.Fixtures.{
  eof_error, fresh_output, small_packet, small-IsSendable, open_sink, open-IsReady,
}

-- A recorded connection of one packet.
abbrev recorded : Input
recorded = input (encodes (small_packet ∷ []) ++ (goodbye ++ (9 ∷ []))) eof_error

dump-recorded : dump 7 1 recorded ≡ some (entries 7 1 (small_packet ∷ []), none)
dump-recorded = dump-encodes 7 1 (small_packet ∷ []) (9 ∷ []) eof_error (small-IsSendable, tt)

dump-read_all_example :
    (j : Input) × (ps : List Packet) × (read_all recorded ≡ some (j, ok ps))
    × (entries 7 1 (small_packet ∷ []) ≡ entries 7 1 ps)
dump-read_all_example = dump-read_all 7 1 recorded (entries 7 1 (small_packet ∷ [])) dump-recorded

dump-ne-none_example : dump 0 256 recorded ≢ none
dump-ne-none_example = dump-ne-none 0 256 recorded

work-encodes_example :
    (ls : List Line) × ShowsAll (small_packet ∷ []) ls
    × (work (1 + suc 0) (input (encodes (small_packet ∷ []) ++ (goodbye ++ (9 ∷ []))) eof_error)
        ≡ (ls ++ (failed (sentinel eof) ∷ []), none, input (9 ∷ []) eof_error))
work-encodes_example = work-encodes (small_packet ∷ []) (9 ∷ []) 0 eof_error (small-IsSendable, tt)

-- A context that is cancelled.
abbrev made : CloseCtx
made = with_error (some eof_error)

abbrev cancelled : CloseCtx
cancelled = record made { phase = do_once made.own made.phase }

abbrev ended : CloseCtx
ended = record cancelled { phase = close_channel cancelled.phase }

ends : Steps none made ended
ends = then_step (then_step (stays made) (cancels made)) (closes cancelled)

again : Steps none ended (record ended { phase = do_once ended.own ended.phase })
again = then_step (stays ended) (cancels ended)

with_error_once_example :
    ((is_done ended.phase ≡ false) × (err_of ended.phase ≡ none))
    ⊎ ((is_done ended.phase ≡ true)
        × ((err_of ended.phase ≡ some eof_error)
            ⊎ ((f : Err) × (◌≡◌ {A = Option Err} none (some f)) × (err_of ended.phase ≡ some f)))
        × (is_done (do_once ended.own ended.phase) ≡ true)
        × (err_of (do_once ended.own ended.phase) ≡ err_of ended.phase))
with_error_once_example =
    with_error_once (some eof_error) none ended
      (record ended { phase = do_once ended.own ended.phase }) ends again

-- A decoder that reads nothing and gives the length.
abbrev lengths : Bytes → ℕ × Result ℕ
lengths b = (length b, ok (length b))

abbrev open_source : ByteSource
open_source = new_byte_source none

open-Holds : Holds open_source.buf [] []
unfolding new_byte_source
open-Holds = empty-Holds

pour-next_element_example :
    let p = poured_packet (Value.string (1 ∷ 2 ∷ [])) (1 ∷ 2 ∷ []) open_sink in
    Sends (Value.string (1 ∷ 2 ∷ [])) (1 ∷ 2 ∷ []) open_sink fresh_output
    × (src' : ByteSource) × (consume
          (length p.body)
          p.flag
          (input (p.body ++ (9 ∷ [])) eof_error)
          open_source
        ≡ (input (9 ∷ []) eof_error, src', none))
    × ((next_element lengths more_frames src').1
        ≡ of_value lengths (Value.string (1 ∷ 2 ∷ [])) (1 ∷ 2 ∷ []))
unfolding poured_body Flag.get new_byte_source
pour-next_element_example =
    pour-next_element lengths (Value.string (1 ∷ 2 ∷ [])) (1 ∷ 2 ∷ []) (9 ∷ []) [] open_sink
      fresh_output open_source more_frames eof_error refl open-IsReady (omega arith) refl refl
      (omega arith) refl refl open-Holds

-- A source that has been given one body.
open_unfailed : open_source.failed ≡ none
unfolding new_byte_source
open_unfailed = refl

abbrev given_one : Gains open_source [] [] (1 ∷ 2 ∷ []) 2
given_one =
    (consume-Gains open_source [] [] (1 ∷ 2 ∷ []) [] eof_error 2 open-Holds open_unfailed
      (omega arith) (omega arith)).0

next_element_oldest_example :
    let p = poured_packet (Value.string (3 ∷ [])) (3 ∷ []) open_sink in
    let (i, src', taken) =
      consume (length p.body) p.flag (input (p.body ++ (9 ∷ [])) eof_error) given_one.after in
    let (src'', r) = next_element lengths more_frames src' in
    (i ≡ input (9 ∷ []) eof_error)
    × (taken ≡ none)
    × (r ≡ of_value lengths (Value.string (3 ∷ [])) (1 ∷ 2 ∷ []))
    × (left' : Bytes) × Holds src''.buf left' ([] ++ ((3 ∷ []) ∷ []))
unfolding Flag.get
next_element_oldest_example =
    next_element_oldest lengths (Value.string (3 ∷ [])) (3 ∷ []) (9 ∷ []) [] (1 ∷ 2 ∷ []) []
      open_sink given_one.after more_frames eof_error (omega arith) refl refl (omega arith)
      given_one.unfailed given_one.holds (omega arith)

-- `muxgen -args id:string -outtype bool *myEndpoint async blobs.has`
abbrev blobs_has : Func
blobs_has = record {
  receiver = text "*myEndpoint";
  tipe = text "async";
  method = text "blobs" ∷ text "has" ∷ [];
  args = record { name = text "id"; tipe = text "string" } ∷ [];
  out_type = text "bool";
}

parse-command_line_example : parse (command_line blobs_has) ≡ ok blobs_has
unfolding text look_at
parse-command_line_example =
    parse-command_line blobs_has (text "blobs") (text "has" ∷ []) refl (ground arith) (ground arith)
      (ground arith) refl
