-- ===== src/ByteBuffer/Printing.antt =====
-- Packets/ByteBuffer.cpp: the texts of the exceptions, and `hexlike`.
pub mod Hex
pub mod Messages
use subiaoserver.Common.{
  ℕ, zero, suc, ◌+◌, ◌-◌, ◌*◌, ◌/◌, ◌%◌, ◌^◌, Bool, true, false, List, [], ◌∷◌, ◌++◌, ltb, ◌==◌,
  if◌then◌else◌, ◌&&◌, not, done, throws, undefined, diverges, Exec, ◌>>=◌, pure,
  ByteBufferException, exception, position_exception, source_exception,
}
use subiaoserver.Common.Words.{uint8}
use subiaoserver.Common.Text.{codes, decimal}
use subiaoserver.ByteBuffer.{ByteBuffer, size, read_at}

-- `what()`. A plain `ByteBufferException` has no text.
unfoldable pub message : ByteBufferException → List ℕ
unfolding decimal
message exception = []
message (position_exception add pos size value_size) =
    codes "Attempted to "
    ++ ((if add then codes "put" else codes "get")
        ++ (codes " value with size: "
            ++ (decimal value_size
                ++ (codes " in ByteBuffer (pos: "
                    ++ (decimal pos ++ (codes " size: " ++ (decimal size ++ codes ")")))))))
message (source_exception pos size value_size) =
    codes "Attempted to put a "
    ++ ((if ltb 0 value_size then codes "NULL-pointer" else codes "zero-sized value")
        ++ (codes " in ByteBuffer (pos: "
            ++ (decimal pos ++ (codes " size: " ++ (decimal size ++ codes ")")))))

unfoldable pub hex_digit : ℕ → ℕ
hex_digit d = if ltb d 10 then b'0' + d else b'A' + (d - 10)

-- `snprintf(buf, 3, "%02X", …)` of a byte.
unfoldable pub hex_byte : ℕ → List ℕ
unfolding hex_digit
hex_byte v = hex_digit (v / 16) ∷ hex_digit (v % 16) ∷ []

-- What the two tests of a round append, and what they make of `j` and `k`.
unfoldable pub separator : ℕ → ℕ → ℕ → List ℕ × ℕ × ℕ
separator i j k =
    if i == j * 8 % 2 ^ 32 && not (i == k * 16 % 2 ^ 32)
    then (codes "| ", (j + 1) % 2 ^ 32, k)
    else if i == k * 16 % 2 ^ 32
    then (codes "\n", (j + 1) % 2 ^ 32, (k + 1) % 2 ^ 32)
    else ([], j, k)

-- `for (uint32 i = 0; i < size(); ++i)`.
unfoldable pub hex_loop : ℕ → ℕ → ℕ → ℕ → List ℕ → Exec ByteBuffer (List ℕ)
unfolding read_at separator hex_byte
hex_loop zero i j k o b = diverges
hex_loop (suc fuel) i j k o b = elim (ltb i (size b)) [
  | false ↦ done o b
  | true ↦
      (do
        v ← read_at uint8 i
        (λ s.
            let sep = separator i j k in
            hex_loop fuel ((i + 1) % 2 ^ 32) (sep.1) (sep.2)
              (o ++ (sep.0 ++ (hex_byte v ++ codes " "))) s))
        b
]

-- What is printed.
unfoldable pub hexlike : Bool → Exec ByteBuffer (List ℕ)
unfolding hex_loop
hexlike out_string b =
    if out_string
    then ((do o ← hex_loop (size b + 1) 0 1 1 []; pure (o ++ codes "  \n")) b)
    else done [] b

-- A byte in `std::hex`.
unfoldable pub raw_number : ℕ → List ℕ
raw_number v =
    let digit = λ (d : ℕ). if ltb d 10 then b'0' + d else b'a' + (d - 10) in
    if ltb v 16 then digit v ∷ [] else digit (v / 16) ∷ digit (v % 16) ∷ []

unfoldable pub raw_numbers : List ℕ → List ℕ
unfolding raw_number
raw_numbers [] = []
raw_numbers (v ∷ vs) = raw_number v ++ (codes " " ++ raw_numbers vs)

-- `printRawData` of src/Connection.cpp, which nothing calls.
unfoldable pub print_raw_data : List ℕ → List ℕ
unfolding raw_numbers
print_raw_data data_ = raw_numbers data_ ++ codes "\n"
