-- ===== src/ByteBuffer/Overloads.antt =====
-- Functions of Packets/ByteBuffer.h that hand their arguments on to another one.
use subiaoserver.Common.{
  ℕ, ◌+◌, ◌^◌, ◌<◌, ◌≡◌, ◌≢◌, sym, ap, ◌∙◌, arith, List, [], ◌∷◌, length, length-append, ◌==◌,
  if◌then◌else◌, Option, none, some, done, throws, exception, Exec, ◌>>◌, pure,
}
use subiaoserver.Common.Words.{
  UInt, uint8, uint16, uint32, uint64, sizeof, le_bytes, length-le_bytes,
}
use subiaoserver.ByteBuffer.{ByteBuffer, size, append, write, write_string, read_string}
use subiaoserver.ByteBuffer.Access.{append-push}
use subiaoserver.ByteBuffer.Streams.{Values, bytes_of, write_all, write_all-push}
use mathlib.Core.List.{map}

-- `operator<<(const char *)`: a null pointer is written as an empty string.
pub write_c_string : Option (List ℕ) → Exec ByteBuffer (Unit {0})
unfolding write write_string
write_c_string none = write uint8 0
write_c_string (some str) = write_string str

-- `append(const char *, size_t)`.
pub append_chars : List ℕ → Exec ByteBuffer (Unit {0})
unfolding append
append_chars src = append src

-- The elements of an array lie one behind the other.
abbrev pub array : UInt → List ℕ → Values
array t vs = map (λ v. (t, v)) vs

-- `append(const T *, size_t)` of unsigned integers.
pub append_array : UInt → List ℕ → Exec ByteBuffer (Unit {0})
unfolding append
append_array t vs = append (bytes_of (array t vs))

-- `read_skip<std::string>()` and the like.
pub skip_string : Exec ByteBuffer (Unit {0})
unfolding read_string
skip_string = do read_string; pure tt

pub eraseheader : Exec ByteBuffer (Unit {0})
eraseheader b = if size b == 0 then throws exception b else done tt b

sizeof_pos : (t : UInt) → 0 < sizeof t
sizeof_pos uint8 = omega arith
sizeof_pos uint16 = omega arith
sizeof_pos uint32 = omega arith
sizeof_pos uint64 = omega arith

filled : (t : UInt) (v : ℕ) (vs : List ℕ) → bytes_of (array t (v ∷ vs)) ≢ []
filled t v vs e =
    let len = length-append (le_bytes (sizeof t) v) (bytes_of (array t vs)) in
    let some_bytes = sizeof_pos t in
    absurd (
      omega
        (arith, ap (λ (xs : List ℕ). length xs) e, len, length-le_bytes (sizeof t) v, some_bytes))

-- An array that is not empty is appended as its elements are written one by one, behind a storage
-- that stays below 2 ^ 64 bytes.
pub append_array-write_all :
    (t : UInt) (v : ℕ) (vs : List ℕ) (b : ByteBuffer)
    → b.wpos ≡ size b
    → size b + length (bytes_of (array t (v ∷ vs))) < 2 ^ 64
    → append_array t (v ∷ vs) b ≡ write_all (array t (v ∷ vs)) b
unfolding append_array
append_array-write_all t v vs b e room =
    let bs = bytes_of (array t (v ∷ vs)) in
    append-push bs b (filled t v vs) e room ∙ sym (write_all-push (array t (v ∷ vs)) b e room)
