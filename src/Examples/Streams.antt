-- ===== src/Examples/Streams.antt =====
-- Sources, sinks, the manifest and the mux.
use go_muxrpc.Base.{
  joined, ℕ, ◌≤◌, ◌<◌, ◌≡◌, refl, ◌⊎◌, true, false, ◌&&◌, ◌||◌, not, Option, none, some, List, [],
  ◌∷◌, map, All, Text, text, length, take, ◌==◌, if◌then◌else◌, arith,
}
use go_muxrpc.Errors.{Err, sentinel, canceled, new, equals, ok, err}
use go_muxrpc.Errors.Message.{method_text, error_text}
use go_muxrpc.Codec.Stream.{Bytes}
use go_muxrpc.Codec.Packet.{Packet, encode}
use go_muxrpc.Codec.RoundTrip.Sessions.{encodes}
use go_muxrpc.Codec.Flag
use go_muxrpc.Packets.{new_end_okay_packet, new_end_err_packet, end_flag}
use go_muxrpc.Source.Frames.{empty, copy_body}
use go_muxrpc.Source.Frames.Queue.{copy_body-Holds, empty-Holds}
use go_muxrpc.Source.Frames.Script.{Op, receive, read_some, read_whole, run-empty, replies}
use go_muxrpc.Source.Frames.Script
use go_muxrpc.Source.ByteSource.{ByteSource, new_byte_source, source_err, source_closed}
use go_muxrpc.Source.ByteSource.Life.{cancels, Keeps, run-Keeps, new-IsSound, new-ClosedOnce}
use go_muxrpc.Source.Frames.Channels.{ClosedOnce}
use go_muxrpc.Codec.RoundTrip.Packets.{input}
use go_muxrpc.Source.ByteSource.Life
use go_muxrpc.Source.Reader.{read_source_all, read_source_all_lem, reader_error}
use go_muxrpc.Source.Drain.{drain, oks, drain_failed}
use go_muxrpc.Sink.{
  write, close_with_error, is_end, is_stream, set_encoding, type_json, type_string, type_binary,
}
use go_muxrpc.Sink.Closing.{close_err_once, close_okay_stays_open}
use go_muxrpc.Sink.Chunks.{sink_writer_write, sink_writer_write_lem, chunk_size, packet_of}
use go_muxrpc.Sink.Encoding.{set_encoding_flags}
use go_muxrpc.Manifest.{Fields, end, field, str, unmarshal}
use go_muxrpc.Manifest.Paths.{is_plain, leaves, insert_all, unmarshal-leaves}
use go_muxrpc.Mux.{find, handler_of}
use go_muxrpc.Mux.Prefix.{handler_of_longest}
use go_muxrpc.Examples.Fixtures.{eof_error, fresh_output, open_sink, open-IsReady, words, ping}

abbrev script : List Op
script =
    receive (1 ∷ 2 ∷ []) []
    ∷ receive (3 ∷ []) (4 ∷ [])
    ∷ read_some (λ b. (1, none))
    ∷ read_whole
    ∷ []

run-empty_example : Script.run script empty ≡ replies script []
run-empty_example = run-empty script (omega arith, omega arith, (omega arith, omega arith, tt))

-- A source that has got one body, and was then cancelled.
abbrev ended_source : ByteSource
ended_source = record (new_byte_source none) {
  buf = (copy_body 1 (record { bytes = 5 ∷ []; fin = eof_error }) empty).1;
  failed = some eof_error;
  is_closed = true;
}

drain_failed_example : drain 2 source_closed ended_source ≡ (oks ((5 ∷ []) ∷ []), true)
drain_failed_example =
    drain_failed source_closed ended_source eof_error [] ((5 ∷ []) ∷ []) refl
      (copy_body-Holds empty [] [] (5 ∷ []) [] eof_error empty-Holds (omega arith) (omega arith)).2

read_source_all_lem_example :
    read_source_all 2 (source_closed ∷ source_closed ∷ []) 4 [] ended_source
    ≡ some (5 ∷ [], reader_error (source_err ended_source))
read_source_all_lem_example =
    read_source_all_lem 2 3 ((5 ∷ []) ∷ []) (source_closed ∷ source_closed ∷ []) [] eof_error []
      ended_source
      (copy_body-Holds empty [] [] (5 ∷ []) [] eof_error empty-Holds (omega arith) (omega arith)).2
      refl (omega arith) (omega arith)

-- A look, a wait for a frame that then comes, and two ends.
abbrev lived : List Life.Step
lived =
    Life.looks
    ∷ Life.waits
    ∷ Life.consumes 1 2 (input (7 ∷ []) eof_error)
    ∷ cancels none
    ∷ cancels (some (sentinel canceled))
    ∷ []

run-Keeps_example :
    let bs = new_byte_source none in
    (bs' : ByteSource) × (Life.run lived bs ≡ some bs') × Keeps bs bs' × ClosedOnce bs'.buf
run-Keeps_example = run-Keeps lived (new_byte_source none) (new-IsSound none) (new-ClosedOnce none)

abbrev failure : Err
failure = new (1 ∷ [])

abbrev failure_packet : Packet
failure_packet = record { flag = end_flag true; req = 3; body = 1 ∷ [] }

failure_built : new_end_err_packet words 3 (is_stream open_sink) failure ≡ ok failure_packet
unfolding new_end_err_packet error_text Flag.get
failure_built = refl

close_err_once_example :
    let (bs', o', r) = close_with_error words false (some failure) open_sink fresh_output in
    (r ≡ none)
    × (o' ≡ record fresh_output { sent = encode failure_packet })
    × ((b : Bytes) → write b bs' o' ≡ (bs', o', err failure))
    × ((again : Option Err) → close_with_error words false again bs' o' ≡ (bs', o', some failure))
unfolding equals
close_err_once_example =
    close_err_once words failure failure_packet open_sink fresh_output refl refl failure_built
      (omega arith) refl

close_okay_stays_open_example :
    let p = new_end_okay_packet 3 (is_stream open_sink) in
    let (bs', o', r) = close_with_error words false none open_sink fresh_output in
    (bs' ≡ open_sink) × (o' ≡ record fresh_output { sent = encode p }) × (r ≡ none)
unfolding is_end
close_okay_stays_open_example =
    close_okay_stays_open words none open_sink fresh_output open-IsReady refl refl

sink_writer_write_lem_example :
    let p = sink_writer_write (5 ∷ 6 ∷ []) open_sink fresh_output in
    (blocks : List Bytes) × (joined blocks ≡ 5 ∷ 6 ∷ [])
    × All (λ b. length b ≤ chunk_size) blocks
    × (p.1.sent ≡ encodes (map (packet_of open_sink) blocks))
    × (p.2 ≡ 2)
    × (p.3 ≡ none)
sink_writer_write_lem_example =
    sink_writer_write_lem (5 ∷ 6 ∷ []) open_sink fresh_output open-IsReady refl

set_encoding_flags_example :
    ((type_json < 2) × (set_encoding 2 open_sink ≡ none))
    ⊎ ((f : ℕ) × (set_encoding 2 open_sink ≡ some (record open_sink { flag = f }))
        × (Flag.get f Flag.string ≡ (2 == type_string || Flag.get 8 Flag.string))
        × (Flag.get f Flag.json
            ≡ (2 == type_json || not (2 == type_binary) && Flag.get 8 Flag.json))
        × (Flag.get f Flag.end_err ≡ Flag.get 8 Flag.end_err)
        × (Flag.get f Flag.stream ≡ Flag.get 8 Flag.stream))
set_encoding_flags_example = set_encoding_flags 2 open_sink (omega arith)

abbrev one_method : Fields
one_method = field ping (str ping) end

unmarshal-leaves_example : unmarshal one_method [] ≡ (
    if is_plain one_method
    then (insert_all (leaves one_method []) [], none)
    else ([], some (new (text "unhandled type in map: "))))
unmarshal-leaves_example = unmarshal-leaves one_method []

abbrev handlers : List (Text × ℕ)
handlers = (ping, 1) ∷ []

handler_of_longest_example :
    let m = ping ∷ ping ∷ [] in
    ((h : ℕ)
      → handler_of m handlers ≡ some h
      → (k : ℕ) × (0 < k)
        × (k ≤ length m)
        × (find (method_text (take k m)) handlers ≡ some h)
        × ((j : ℕ) → k < j → j ≤ length m → find (method_text (take j m)) handlers ≡ none))
    × (handler_of m handlers ≡ none
        → (j : ℕ) → 0 < j
        → j ≤ length m
        → find (method_text (take j m)) handlers ≡ none)
handler_of_longest_example = handler_of_longest (ping ∷ ping ∷ []) handlers
