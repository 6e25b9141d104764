-- ===== src/Codec/Stream.antt =====
-- The `io` streams that the codec reads from and writes to, and the functions of the standard
-- library over them.
use go_muxrpc.Base.{
  ℕ, ◌-◌, Bool, true, List, [], ◌∷◌, ◌++◌, Option, none, some, leb, length, take, drop,
  if◌then◌else◌,
}
use go_muxrpc.Errors.{Err, sentinel, eof, unexpected_eof, equals, Result, ok, err}

abbrev pub Bytes : Type 0
Bytes = List ℕ

-- What a reader will still deliver: bytes, and then an error for ever.
pub record Input : Type 0 where
  pub bytes : Bytes
  pub fin : Err

-- `io.ReadFull` on a short input.
unfoldable pub short_read : Bytes → Err → Err
unfolding equals
short_read [] fin = fin
short_read (b ∷ bs) fin = if equals fin eof then sentinel unexpected_eof else fin

unfoldable pub read_full : ℕ → Input → Input × Result Bytes
unfolding short_read
read_full n i =
    if leb n (length i.bytes)
    then (record i { bytes = drop n i.bytes }, ok (take n i.bytes))
    else (record i { bytes = [] }, err (short_read i.bytes i.fin))

-- `io.Copy(w, io.LimitReader(r, n))` to a writer that does not fail: the bytes that it copied, and
-- its error. The end of the input is no error to it.
unfoldable pub copy_error : ℕ → Input → Option Err
unfolding equals
copy_error n i =
    if leb n (length i.bytes) then none else if equals i.fin eof then none else some i.fin

unfoldable pub copy_n : ℕ → Input → Input × Bytes × Option Err
unfolding copy_error
copy_n n i = (record i { bytes = drop n i.bytes }, take n i.bytes, copy_error n i)

-- A writer: what it has accepted, and how many more bytes it accepts before it fails, if it does.
pub record Output : Type 0 where
  pub sent : Bytes
  pub room : Option (ℕ × Err)
  -- `Close` of the underlying value: no closer, or its result.
  pub closer : Option (Option Err)
  pub closed : Bool

abbrev write_room : Option (ℕ × Err) → Bytes → Output → Output × Option Err
write_room none b o = (record o { sent = o.sent ++ b }, none)
write_room (some (n, e)) b o =
    if leb (length b) n
    then (record o { sent = o.sent ++ b; room = some (n - length b, e) }, none)
    else (record o { sent = o.sent ++ take n b; room = some (0, e) }, some e)

-- `w.Write(b)`
unfoldable pub write : Bytes → Output → Output × Option Err
write b o = write_room o.room b o

abbrev close_with : Option (Option Err) → Output → Output × Option Err
close_with none o = (o, none)
close_with (some r) o = (record o { closed = true }, r)

-- `if c, ok := w.(io.Closer); ok { c.Close() }`
unfoldable pub close : Output → Output × Option Err
close o = close_with o.closer o
