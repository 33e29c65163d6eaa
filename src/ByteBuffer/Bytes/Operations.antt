-- ===== src/ByteBuffer/Bytes/Operations.antt =====
-- Sequences of the operations of Packets/ByteBuffer.h on one buffer.
use subiaoserver.Common.{ℕ, true, List, [], ◌∷◌, All, Exec, ◌>>=◌, ◌>>◌, pure, modify}
use subiaoserver.Common.Words.{UInt, IsByte}
use subiaoserver.Common.Keeps.{Ends, Keeps, Keeps-pure, Keeps-bind, Keeps-then, Keeps-modify}
use subiaoserver.ByteBuffer.{
  ByteBuffer, clear, clearheader, append, write, write_string, put, put_value, read, read_bytes,
  read_skip, read_string, resize, set_rpos, set_wpos,
}
use subiaoserver.ByteBuffer.Checksum.{add_check_sum}
use subiaoserver.ByteBuffer.Escape.{jt808encode, jt808decode}
use subiaoserver.ByteBuffer.Bytes.{
  HoldsBytes, zero-IsByte, All-vector_resize, append-Keeps, write-Keeps, write_string-Keeps,
  put-Keeps, put_value-Keeps, clearheader-Keeps, read-Keeps, read_bytes-Keeps, read_skip-Keeps,
}
use subiaoserver.ByteBuffer.Bytes.Coding.{
  read_string-Keeps, add_check_sum-Keeps, jt808encode-Keeps, jt808decode-Keeps,
}

-- A call, with its arguments.
pub data Operation : Type 0 where
  appends : (src : List ℕ) → Operation
  writes : (t : UInt) (value : ℕ) → Operation
  writes_string : (value : List ℕ) → Operation
  puts : (pos : ℕ) (src : List ℕ) → Operation
  puts_value : (t : UInt) (pos value : ℕ) → Operation
  reads : (t : UInt) → Operation
  reads_bytes : (len : ℕ) → Operation
  reads_string : Operation
  skips : (n : ℕ) → Operation
  moves_rpos : (pos : ℕ) → Operation
  moves_wpos : (pos : ℕ) → Operation
  resizes : (newsize : ℕ) → Operation
  clears : Operation
  clears_header : Operation
  checksums : Operation
  encodes : Operation
  decodes : Operation

-- What a call does to the buffer; what it returns is dropped.
abbrev pub perform : Operation → Exec ByteBuffer (Unit {0})
perform (appends src) = append src
perform (writes t value) = write t value
perform (writes_string value) = write_string value
perform (puts pos src) = put pos src
perform (puts_value t pos value) = put_value t pos value
perform (reads t) = do _ ← read t; pure tt
perform (reads_bytes len) = do _ ← read_bytes len; pure tt
perform reads_string = do _ ← read_string; pure tt
perform (skips n) = read_skip n
perform (moves_rpos pos) = modify (set_rpos pos)
perform (moves_wpos pos) = modify (set_wpos pos)
perform (resizes newsize) = modify (resize newsize)
perform clears = modify clear
perform clears_header = clearheader
perform checksums = do _ ← add_check_sum true; pure tt
perform encodes = do _ ← jt808encode; pure tt
perform decodes = do _ ← jt808decode; pure tt

pub perform_all : List Operation → Exec ByteBuffer (Unit {0})
perform_all [] = pure tt
perform_all (o ∷ os) = do perform o; perform_all os

-- The arrays and the characters that a call is given are bytes.
abbrev pub TakesBytes : Operation → Type 0
TakesBytes (appends src) = All IsByte src
TakesBytes (writes t value) = Unit
TakesBytes (writes_string value) = All IsByte value
TakesBytes (puts pos src) = All IsByte src
TakesBytes (puts_value t pos value) = Unit
TakesBytes (reads t) = Unit
TakesBytes (reads_bytes len) = Unit
TakesBytes reads_string = Unit
TakesBytes (skips n) = Unit
TakesBytes (moves_rpos pos) = Unit
TakesBytes (moves_wpos pos) = Unit
TakesBytes (resizes newsize) = Unit
TakesBytes clears = Unit
TakesBytes clears_header = Unit
TakesBytes checksums = Unit
TakesBytes encodes = Unit
TakesBytes decodes = Unit

Keeps-drop :
    {A : Type 0} (m : Exec ByteBuffer A)
    → Keeps HoldsBytes m
    → Keeps HoldsBytes (m >>= (λ _. pure tt))
Keeps-drop m k = Keeps-bind m _ k (λ a. Keeps-pure tt)

perform-Keeps : (o : Operation) → TakesBytes o → Keeps HoldsBytes (perform o)
unfolding resize clear
perform-Keeps (appends src) h = append-Keeps src h
perform-Keeps (writes t value) h = write-Keeps t value
perform-Keeps (writes_string value) h = write_string-Keeps value h
perform-Keeps (puts pos src) h = put-Keeps pos src h
perform-Keeps (puts_value t pos value) h = put_value-Keeps t pos value
perform-Keeps (reads t) h = Keeps-drop _ (read-Keeps t)
perform-Keeps (reads_bytes len) h = Keeps-drop _ (read_bytes-Keeps len)
perform-Keeps reads_string h = Keeps-drop _ read_string-Keeps
perform-Keeps (skips n) h = read_skip-Keeps n
perform-Keeps (moves_rpos pos) h = Keeps-modify _ (λ b k. k)
perform-Keeps (moves_wpos pos) h = Keeps-modify _ (λ b k. k)
perform-Keeps (resizes newsize) h =
    Keeps-modify _ (λ b k. (All-vector_resize newsize b.storage zero-IsByte k.0, k.1))
perform-Keeps clears h = Keeps-modify _ (λ b k. (tt, k.1))
perform-Keeps clears_header h = clearheader-Keeps
perform-Keeps checksums h = Keeps-drop _ (add_check_sum-Keeps true)
perform-Keeps encodes h = Keeps-drop _ jt808encode-Keeps
perform-Keeps decodes h = Keeps-drop _ jt808decode-Keeps

perform_all-Keeps : (os : List Operation) → All TakesBytes os → Keeps HoldsBytes (perform_all os)
unfolding perform_all
perform_all-Keeps [] h = Keeps-pure tt
perform_all-Keeps (o ∷ os) h = Keeps-then _ _ (perform-Keeps o h.0) (perform_all-Keeps os h.1)

pub perform_all-HoldsBytes :
    (os : List Operation) (b : ByteBuffer)
    → All TakesBytes os
    → HoldsBytes b
    → Ends HoldsBytes (perform_all os b)
perform_all-HoldsBytes os b h k = (perform_all-Keeps os h).at b k
