-- ===== src/Session/Wire/Deliver.antt =====
-- A data packet of one side as the other side takes it: its body joins the source of the request.
use go_muxrpc.Base.{
  ℕ, ◌-◌, ◌+◌, ◌^◌, ◌≤◌, ◌<◌, ◌≡◌, refl, ap, ◌∙◌, Bool, false, none, some, List, ◌++◌, append_assoc,
  Text, length, arith,
}
use go_muxrpc.Base.Assoc.{member}
use go_muxrpc.Errors.{Err}
use go_muxrpc.External.{External}
use go_muxrpc.Codec.Stream.{Bytes}
use go_muxrpc.Codec.Packet.{Packet, Header, IsWord, encode, header_of, header_bytes, is_goodbye}
use go_muxrpc.Codec.Writer.{max_buffer_size}
use go_muxrpc.Codec.RoundTrip.Packets.{input}
use go_muxrpc.Codec.Flag
use go_muxrpc.Source.Frames.Queue.{Holds, IsFrame}
use go_muxrpc.Source.ByteSource.{consume}
use go_muxrpc.Source.Gains.{Gains, consume-Gains}
use go_muxrpc.Session.Packer.{next_header, neg32}
use go_muxrpc.Session.State.{Session, Request, active, set_request, set_input}
use go_muxrpc.Session.Serve.{
  go_on, found, fetch_request, consumed, fetched, data_kept, serve_data, serve_packet, serve_header,
  serve_round,
}
use go_muxrpc.Session.Wire.Take.{keep-unmet, next_header-call}

fetch-active :
    (x : External) (handled : List Text → Bool) (h : Header) (s : Session) (r : Request)
    → active h.req s ≡ some r
    → fetch_request x handled h s ≡ (s, found r)
unfolding fetch_request
fetch-active x handled h s r a = rw (a, fetch_request) refl

-- A data packet for an active request whose source is open: the loop takes exactly its body off the
-- connection and goes on, and nothing changes but that the source has the body behind those that it
-- held, and the flags of the packet.
pub serve_packet-data :
    (x : External) (late : Bool) (handled : List Text → Bool) (h : Header) (s : Session)
    (r : Request) (left : Bytes) (q : List Bytes) (b rest : Bytes) (fin : Err)
    → Flag.get h.flag Flag.end_err ≡ false
    → active h.req s ≡ some r
    → member h.req s.reqs_closed ≡ false
    → r.source.failed ≡ none
    → Holds r.source.buf left q
    → IsFrame b
    → length q + 1 < 2 ^ 32
    → s.packer.input ≡ input (b ++ rest) fin
    → h.len ≡ length b
    → (g : Gains r.source left q b h.flag) × (serve_packet x late handled h s
        ≡ (set_request (record r { source = g.after }) (set_input (input rest fin) s), go_on))
unfolding serve_packet serve_data data_kept fetched consumed
serve_packet-data x late handled h s r left q b rest fin no_end a m f holds fits room here len =
    let (g, taken) = consume-Gains r.source left q b rest fin h.flag holds f fits room in
    (
      g,
      rw no_end (
          ap (data_kept x late handled h) (keep-unmet h s m)
          ∙ ap (fetched x late h) (fetch-active x handled h s r a)
          ∙ ap (λ c. consumed x late r c s)
              (ap (λ n. consume n h.flag s.packer.input r.source) len
                ∙ ap (λ i. consume (length b) h.flag i r.source) here
                ∙ taken)),
    )

-- A packet that comes first on the connection of a live session.
pub serve_round-packet :
    (x : External) (late : Bool) (handled : List Text → Bool) (ctx_first : Bool) (p : Packet)
    (more : Bytes) (fin : Err) (s : Session)
    → length p.body ≤ max_buffer_size
    → IsWord p.req
    → is_goodbye (header_of p) ≡ false
    → s.packer.input ≡ input (encode p ++ more) fin
    → s.serve_err ≡ none
    → serve_round x late handled ctx_first s
      ≡ serve_packet x late handled
          (record (header_of p) { req = neg32 p.req })
          (record s { packer = record s.packer { input = input (p.body ++ more) fin } })
unfolding serve_round serve_header
serve_round-packet x late handled ctx_first p more fin s fits word no_goodbye here live =
    ap (λ e. serve_header x late handled (next_header ctx_first e s.packer) s) live
    ∙ ap (λ q. serve_header x late handled q s)
        (next_header-call (header_of p) (p.body ++ more) fin ctx_first s.packer (omega arith) word
          no_goodbye
          (here ∙ ap (λ b. input b fin) (append_assoc (header_bytes (header_of p)) p.body more)))

-- A packet with a number is not the goodbye.
not_goodbye : (h : Header) → 0 < h.req → is_goodbye h ≡ false
unfolding is_goodbye
not_goodbye h pos = ground arith

-- The packet of a body for request `id` of the side that receives it.
abbrev pub body_packet : ℕ → ℕ → Bytes → Packet
body_packet flag id b = record { flag = flag; req = 2 ^ 32 - id; body = b }

-- One round on a body that comes first, for an active request whose source is open.
pub serve_round-body :
    (x : External) (late : Bool) (handled : List Text → Bool) (ctx_first : Bool) (flag id : ℕ)
    (left : Bytes) (q : List Bytes) (b more : Bytes) (fin : Err) (r : Request) (s : Session)
    → Flag.get flag Flag.end_err ≡ false
    → 0 < id
    → id < 2 ^ 32
    → length b ≤ max_buffer_size
    → active id s ≡ some r
    → member id s.reqs_closed ≡ false
    → r.source.failed ≡ none
    → Holds r.source.buf left q
    → length q + 1 < 2 ^ 32
    → s.serve_err ≡ none
    → s.packer.input ≡ input (encode (body_packet flag id b) ++ more) fin
    → (g : Gains r.source left q b flag) × (serve_round x late handled ctx_first s
        ≡ (set_request (record r { source = g.after }) (set_input (input more fin) s), go_on))
unfolding set_input active
serve_round-body x late handled ctx_first flag id left q b more fin r s no_end pos small fits a m f
      holds room live here =
    let p : Packet = body_packet flag id b in
    let h : Header = record (header_of p) { req = id } in
    let s' = set_input (input (b ++ more) fin) s in
    let (g, served) =
      serve_packet-data x late handled h s' r left q b more fin no_end a m f holds (omega arith)
        room refl (omega arith) in
    (
      g,
      serve_round-packet x late handled ctx_first p more fin s fits (omega arith)
            (not_goodbye (header_of p) (omega arith)) here live
          ∙ ap (λ k. serve_packet x late handled (record (header_of p) { req = k }) s') back
          ∙ served,
    )
  where
    back : neg32 (2 ^ 32 - id) ≡ id
    back = unfold neg32 in omega (arith, pos, small)
