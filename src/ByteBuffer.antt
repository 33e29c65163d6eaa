-- ===== src/ByteBuffer.antt =====
-- Packets/ByteBuffer.h: the storage with its two cursors, and what reads and writes it.
-- `_datasize` is left out: `clear` sets it and nothing reads it. So is the capacity, which only
-- says when the vector allocates.
pub mod Access
pub mod Memcpy
pub mod Streams
pub mod Containers
pub mod Maps
pub mod Numbers
pub mod Overloads
pub mod Bytes
pub mod Strings
pub mod Overwriting
pub mod Operators
pub mod PackedGuid
pub mod PackedTime
pub mod Printing
pub mod Checksum
pub mod Escape
use subiaoserver.Common.{
  ℕ, zero, suc, ◌+◌, ◌-◌, ◌*◌, ◌%◌, ◌^◌, Bool, true, false, List, [], ◌∷◌, ◌++◌, ltb, leb, ◌==◌,
  if◌then◌else◌, length, take, drop, replicate, get_or, Outcome, done, throws, undefined, Exec,
  ◌>>=◌, ◌>>◌, pure, diverges, ◌&&◌, exception, position_exception, source_exception,
}
use subiaoserver.Common.Words.{UInt, uint8, uint16, uint32, uint64, sizeof, le_bytes, le_value}
use subiaoserver.Endian.{endian_convert}

pub record ByteBuffer : Type 0 where
  pub rpos : ℕ
  pub wpos : ℕ
  pub storage : List ℕ
  pub escbuffer : List ℕ

-- `ByteBuffer()` and `ByteBuffer(size_t reserve)`, which differ in the capacity.
abbrev pub byte_buffer : ByteBuffer
byte_buffer = record { rpos = 0; wpos = 0; storage = []; escbuffer = [] }

-- The copy constructor does not copy `_Escbuffer`.
unfoldable pub copy : ByteBuffer → ByteBuffer
copy buf = record { rpos = buf.rpos; wpos = buf.wpos; storage = buf.storage; escbuffer = [] }

abbrev pub size : ByteBuffer → ℕ
size b = length b.storage

pub empty : ByteBuffer → Bool
empty b = size b == 0

-- A sum of two `size_t`.
abbrev pub size_add : ℕ → ℕ → ℕ
size_add a b = (a + b) % 2 ^ 64

-- `vector::resize` with zeros, and `memcpy` into the storage at `pos`.
abbrev pub vector_resize : ℕ → List ℕ → List ℕ
vector_resize n xs = take n xs ++ replicate (n - length xs) 0

abbrev pub grow : ℕ → List ℕ → List ℕ
grow newsize xs = if ltb (length xs) newsize then vector_resize newsize xs else xs

abbrev pub memcpy : ℕ → List ℕ → List ℕ → List ℕ
memcpy pos src xs = take pos xs ++ (src ++ drop (pos + length src) xs)

unfoldable pub clear : ByteBuffer → ByteBuffer
clear b = record b { storage = []; rpos = 0; wpos = 0 }

-- Erasing past the end and `pop_back` on an empty vector are undefined.
unfoldable pub clearheader : Exec ByteBuffer (Unit {0})
clearheader b =
    if leb (size b) b.rpos
    then undefined
    else done tt
        (record b { storage = take (size b - b.rpos - 1) (drop b.rpos b.storage); rpos = 0 })

-- `append(const uint8 *src, size_t cnt)`; the sum that wraps writes past the storage.
unfoldable pub append : List ℕ → Exec ByteBuffer (Unit {0})
append src b =
    let cnt = length src in
    let newsize = size_add b.wpos cnt in
    if cnt == 0
    then throws (source_exception b.wpos (size b) cnt) b
    else if ltb newsize b.wpos
    then undefined
    else done tt (record b { storage = memcpy b.wpos src (grow newsize b.storage); wpos = newsize })

-- `operator<<` of the unsigned integers: `append<T>(value)`.
unfoldable pub write : UInt → ℕ → Exec ByteBuffer (Unit {0})
write t value = append (le_bytes (sizeof t) value)

-- `operator<<(const std::string &)`: the characters, if there are any, and a zero.
unfoldable pub write_string : List ℕ → Exec ByteBuffer (Unit {0})
unfolding write append
write_string [] = write uint8 0
write_string (c ∷ cs) = do append (c ∷ cs); write uint8 0

-- `append(const ByteBuffer &)` copies `wpos` bytes of the other storage.
pub append_buffer : ByteBuffer → Exec ByteBuffer (Unit {0})
unfolding append
append_buffer other b =
    if other.wpos == 0
    then done tt b
    else if size other == 0
    then throws exception b
    else if ltb (size other) other.wpos
    then undefined
    else append (take other.wpos other.storage) b

-- `put(size_t pos, const uint8 *src, size_t cnt)`.
unfoldable pub put : ℕ → List ℕ → Exec ByteBuffer (Unit {0})
put pos src b =
    let cnt = length src in
    if ltb (size b) (size_add pos cnt)
    then throws (position_exception true pos cnt (size b)) b
    else if ltb (size b) (pos + cnt)
    then undefined
    else done tt (record b { storage = memcpy pos src b.storage })

-- `put<T>(size_t pos, T value)`.
unfoldable pub put_value : UInt → ℕ → ℕ → Exec ByteBuffer (Unit {0})
unfolding put endian_convert
put_value t pos value = put pos (le_bytes (sizeof t) (endian_convert t value))

-- `operator[]`, for reading.
pub at : ℕ → Exec ByteBuffer ℕ
at pos b =
    if leb (size b) pos
    then throws (position_exception false pos 1 (size b)) b
    else done (get_or b.storage pos 0) b

-- `read<T>(size_t pos) const`.
unfoldable pub read_at : UInt → ℕ → Exec ByteBuffer ℕ
unfolding endian_convert
read_at t pos b =
    if ltb (size b) (size_add pos (sizeof t))
    then throws (position_exception false pos (sizeof t) (size b)) b
    else if ltb (size b) (pos + sizeof t)
    then undefined
    else done (endian_convert t (le_value (take (sizeof t) (drop pos b.storage)))) b

abbrev pub advance : ℕ → ByteBuffer → ByteBuffer
advance n b = record b { rpos = size_add b.rpos n }

-- `read<T>()`, and with it `operator>>` of the unsigned integers.
unfoldable pub read : UInt → Exec ByteBuffer ℕ
unfolding read_at
read t b = (do r ← read_at t b.rpos; (λ s. done r (advance (sizeof t) s))) b

-- `read(uint8 *dest, size_t len)`.
unfoldable pub read_bytes : ℕ → Exec ByteBuffer (List ℕ)
read_bytes len b =
    if ltb (size b) (size_add b.rpos len)
    then throws (position_exception false b.rpos len (size b)) b
    else if ltb (size b) (b.rpos + len)
    then undefined
    else done (take len (drop b.rpos b.storage)) (advance len b)

unfoldable pub read_skip : ℕ → Exec ByteBuffer (Unit {0})
read_skip skip b =
    if ltb (size b) (size_add b.rpos skip)
    then throws (position_exception false b.rpos skip (size b)) b
    else done tt (advance skip b)

-- `operator>>(bool &)`: a `char` above 0, so a byte with its top bit set reads as false.
pub read_bool : Exec ByteBuffer Bool
unfolding read
read_bool = do c ← read uint8; pure (ltb 0 c && ltb c 128)

-- The loop of `operator>>(std::string &)`; each round reads one byte.
unfoldable pub read_string_loop : ℕ → List ℕ → Exec ByteBuffer (List ℕ)
unfolding read
read_string_loop zero value b = diverges
read_string_loop (suc fuel) value b = elim (ltb b.rpos (size b)) [
  | false ↦ done value b
  | true ↦
      (do
        c ← read uint8
        (λ s. elim (c == 0) [
          | true ↦ done value s
          | false ↦ read_string_loop fuel (value ++ c ∷ []) s
        ]))
        b
]

unfoldable pub read_string : Exec ByteBuffer (List ℕ)
unfolding read_string_loop
read_string b = read_string_loop (size b + 1) [] b

-- `contents()`, as the bytes that its pointer leads to.
unfoldable pub contents : Exec ByteBuffer (List ℕ)
contents b = if size b == 0 then throws exception b else done b.storage b

abbrev pub set_rpos : ℕ → ByteBuffer → ByteBuffer
set_rpos rpos_ b = record b { rpos = rpos_ }

abbrev pub set_wpos : ℕ → ByteBuffer → ByteBuffer
set_wpos wpos_ b = record b { wpos = wpos_ }

pub rfinish : ByteBuffer → ByteBuffer
rfinish b = record b { rpos = b.wpos }

unfoldable pub resize : ℕ → ByteBuffer → ByteBuffer
resize newsize b =
    let storage = vector_resize newsize b.storage in
    record b { storage = storage; rpos = 0; wpos = length storage }
