-- ===== src/Endian.antt =====
-- The byte orders: `swap_endian` of src/Connection.cpp, `ByteConverter` of include/ByteConverter.h
-- and the conversions of include/Endian.h, on a little-endian host.
pub mod Laws
use subiaoserver.Common.{ℕ, zero, suc, ◌+◌, List, [], ◌∷◌, get_or, set, tail}
use subiaoserver.Common.Words.{UInt, uint16, uint32, uint64, sizeof, le_bytes, le_value}

-- `dest.u8[k] = source.u8[sizeof(T) - k - 1]` for k from 0 on: the index is the rounds left.
swap_bytes : ℕ → List ℕ → List ℕ
swap_bytes zero source = []
swap_bytes (suc r) source = get_or source r 0 ∷ swap_bytes r source

unfoldable pub swap_endian : UInt → ℕ → ℕ
unfolding swap_bytes
swap_endian t u = le_value (swap_bytes (sizeof t) (le_bytes (sizeof t) u))

-- `convert<T>`: the ends change places, and the rest goes on one byte further in.
pub convert : ℕ → List ℕ → List ℕ
convert zero val = val
convert (suc zero) val = val
convert (suc (suc t)) val =
    let last = get_or val (t + 1) 0 in
    let swapped = set (set val 0 last) (t + 1) (get_or val 0 0) in
    get_or swapped 0 0 ∷ convert t (tail swapped)

-- `ByteConverter::apply`.
pub apply : UInt → ℕ → ℕ
unfolding convert
apply t val = le_value (convert (sizeof t) (le_bytes (sizeof t) val))

-- `TRINITY_ENDIAN == TRINITY_LITTLEENDIAN`: the first does nothing, the second swaps.
unfoldable pub endian_convert : UInt → ℕ → ℕ
endian_convert t val = val

pub endian_convert_reverse : UInt → ℕ → ℕ
unfolding apply
endian_convert_reverse t val = apply t val

-- `htobe64`, `htobe32` and `htobe16` of the C library put the highest byte first, and
-- `be64toh`, `be32toh` and `be16toh` undo that.
pub host_to_network : UInt → ℕ → ℕ
unfolding swap_endian
host_to_network t host = swap_endian t host

pub network_to_host : UInt → ℕ → ℕ
unfolding swap_endian
network_to_host t net = swap_endian t net
