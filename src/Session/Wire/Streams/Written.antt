-- ===== src/Session/Wire/Streams/Written.antt =====
-- A call on whose sink the caller writes, from the call to the last body that its handler is given.
use go_muxrpc.External.{External}
use go_muxrpc.Codec.Flag
use go_muxrpc.Session.State.{Session}
use go_muxrpc.Session.Invariant.Reach.{Reach}
use go_muxrpc.Session.Wire.Streams.Delivered.{Delivered}
