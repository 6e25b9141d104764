-- ===== src/Source/Gains.antt =====
-- A packet whose body joins a source that is open.
use go_muxrpc.Base.{
  ℕ, ◌+◌, ◌^◌, ◌<◌, ◌≡◌, refl, ap, ◌∙◌, Option, none, some, List, [], ◌∷◌, ◌++◌, length, text,
}
use go_muxrpc.Errors.{Err, wrap}
use go_muxrpc.Codec.Stream.{Bytes}
use go_muxrpc.Codec.RoundTrip.Packets.{input}
use go_muxrpc.Source.Frames.{copy_body}
use go_muxrpc.Source.Frames.Queue.{Holds, IsFrame, copy_body-Holds}
use go_muxrpc.Source.ByteSource.{ByteSource, consume, consume_open}

-- A source with one more body.
pub record Gains (bs : ByteSource) (left : Bytes) (q : List Bytes) (b : Bytes) (flag : ℕ)
    : Type 0 where
  pub after : ByteSource
  pub holds : Holds after.buf left (q ++ (b ∷ []))
  pub unfailed : after.failed ≡ none
  pub flagged : after.hdr_flag ≡ flag
  pub same_closed : after.is_closed ≡ bs.is_closed

pub consume-Gains :
    (bs : ByteSource) (left : Bytes) (q : List Bytes) (b rest : Bytes) (fin : Err) (flag : ℕ)
    → Holds bs.buf left q
    → bs.failed ≡ none
    → IsFrame b
    → length q + 1 < 2 ^ 32
    → (g : Gains bs left q b flag) × (consume (length b) flag (input (b ++ rest) fin) bs
        ≡ (input rest fin, g.after, none))
unfolding consume
consume-Gains bs left q b rest fin flag h f fits room =
    let (e, i, h') = copy_body-Holds bs.buf left q b rest fin h fits room in
    let after : ByteSource = record bs {
      buf = (copy_body (length b) (input (b ++ rest) fin) bs.buf).1;
      hdr_flag = flag;
    } in
    (
      record { after = after; holds = h'; unfailed = f; flagged = refl; same_closed = refl },
      opened ∙ (λ j. (i j, after, e j)),
    )
  where
    opened : consume (length b) flag (input (b ++ rest) fin) bs ≡ (
        let (i', fb, e) = copy_body (length b) (input (b ++ rest) fin) bs.buf in
        (i', record bs { buf = fb; hdr_flag = flag }, e))
    opened =
        ap
          (λ (o : Option Err). elim o [
            | some e ↦
                (input (b ++ rest) fin, bs, some (wrap (text "muxrpc: byte source canceled: ") e))
            | none ↦ consume_open (length b) flag (input (b ++ rest) fin) bs
          ])
          f
