-- ===== src/Lib.antt =====
-- go-muxrpc: remote calls and streams that share one connection.
--
-- A connection carries packets: a header of nine bytes, with flags, a length and the number of a
-- request, and a body. A session takes packets off its connection one after the other, makes a
-- request of the first packet of an unknown negative number, gives the bodies of later ones to the
-- source of their request, and closes a request at its end packet. Calls of this side get positive
-- numbers, which the other side sees negated.
--
-- The files and the code that they model:
--
-- Base, and the files below it: shared names, tests and lists over native numbers, maps, texts.
-- Errors (errors.go): error values as a data type; errors_is, equals and as_call_error are errors.Is,
--   == and errors.As. Errors/Message has Error() of each.
-- Codec (codec/): Flag (Set, Clear, Get), Packet (the wire format), Stream (io.Reader and io.Writer, as
--   the bytes that are still to come and those that were accepted), Reader (ReadHeader, ReadPacket,
--   ReadBodyInto, ReadAllPackets), Writer (WritePacket, Close).
-- External: encoding/json at the types of the wire, as functions that are parameters.
-- Packets (stream.go): the packets that a stream sends.
-- Manifest (rpc_manifest.go): the flat map of methods and Handled.
-- Source (stream2_source.go): Frames is the buffer of bodies behind their lengths, with its two counters
--   and its waiting channels; ByteSource is Cancel, Next, Reader, Bytes and consume. Drain is the loop of a
--   consumer, and Reader is srcReader of rwc.go.
-- Sink (stream2_sink.go, and the encodings of request.go): Write, SetEncoding, CloseWithError. Chunks is
--   sinkWriter of rwc.go. Source/Gains is a body that joins an open source.
-- Session: Open (rpc_server.go: Handle and its options; endpoint.go: HasMethod), Packer (packer.go), State
--   (rpc_server.go: the maps, closeStream, Terminate), Serve/Fetch (maybeDiscardPacket, fetchRequest,
--   parseNewRequest), Serve (serve), Client (rpc_client.go: start and the four kinds of calls), Retrieve
--   (retreiveManifest, with its deferred cancel), Requests (request.go: Return, CloseWithError, Close).
--   Invariant is about the sessions that are reached by such steps, those of handlers included. Wire joins
--   two sessions: the bytes that one has sent are the input of the other; Answer follows an async call to its value, HangUp
--   a regular end and Failure an error to the session that hears it, and Streams the bodies of a stream
--   to their consumer, from a handler to its caller (Called) and from a caller to the handler (Written).
-- Mux (handler.go, typemux/): the handlers by the names of their methods, and the stubs of typemux.
-- Legacy (stream2_legacy.go): the adapters for luigi's streams, over Source and Sink.
-- Contexts (ctx.go): withError, with the steps of its sync.Once and its goroutine.
-- Mocks (stream2_mock.go): the source and the sink for tests.
-- Debug (debug/debug.go): the logger of a logging connection, as the loop over the bytes that come through
--   its pipe, and Close.
-- Dump (cmd/muxdump/main.go): the loop over a recorded connection.
-- Gen (cmd/muxgen/muxgen.go): Flags is the command line, Templates the code that is generated.
-- Examples: small inputs, and the theorems at them.
--
-- State is passed explicitly. A step is what the code does under a lock; Next of a source is several
-- steps. The choice of a select is an argument. A session stores its requests by id, so a request that
-- has left the map can still be seen by those who hold it. After a handler of typemux the request is looked
-- up in the store, since the handler and its stub share one pointer.
--
-- Integers: a byte is a number below 256, a uint32 and an int32 are their bit patterns below 2 ^ 32, and
-- wrap-around is written out. Fuel: read_all has a round for each byte of its input and one more, and
-- serve takes its rounds as an argument; both are shown to be enough where the rounds are more than the
-- bytes, since each round takes the nine bytes of a header.
-- The loop of muxdump has the rounds of read_all, and the logger of Debug takes as an argument the round in
-- which it finds that it was cancelled.
--
-- Not modelled: encoding/json (a parameter), logging, the order in which the goroutines of Handle and of
-- the handlers run (each step of theirs is a function on the session), the generated fakes, the templates
-- of errgone, codec/makeBug.go, rpctrace and debug/dump.go, which only connect files and processes, the
-- example, how muxdump lays out what it prints, and the pipes of the logging connection: a write through
-- them waits for the logger. In Gen texts are ASCII, and what the verb %#v prints is a parameter. Time
-- enters as an argument that says whether the last packet of a stream misses its ten seconds.
pub mod Base
pub mod Errors
pub mod Codec
pub mod External
pub mod Packets
pub mod Manifest
pub mod Source
pub mod Sink
pub mod Session
pub mod Mux
pub mod Legacy
pub mod Contexts
pub mod Mocks
pub mod Debug
pub mod Dump
pub mod Gen
pub mod Examples
