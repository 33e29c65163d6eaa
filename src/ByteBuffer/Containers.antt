-- ===== src/ByteBuffer/Containers.antt =====
-- `operator<<` and `operator>>` of `std::vector` and `std::list` in Packets/ByteBuffer.h, for
-- elements of any type that has them.
pub mod RoundTrip
use subiaoserver.Common.{
  ℕ, zero, suc, ◌%◌, ◌^◌, List, [], ◌∷◌, length, done, Exec, ◌>>=◌, ◌>>◌, pure,
}
use subiaoserver.Common.Words.{UInt, uint32}
use subiaoserver.ByteBuffer.{ByteBuffer, write, read, write_string, read_string}

-- The two operators of a type. A value that is read is returned; what its variable holds at a throw
-- is left out.
pub record Operators (A : Type 0) : Type 0 where
  pub put : A → Exec ByteBuffer (Unit {0})
  pub get : Exec ByteBuffer A

abbrev pub of_uint : UInt → Operators ℕ
of_uint t = record { put = write t; get = read t }

abbrev pub of_string : Operators (List ℕ)
of_string = record { put = write_string; get = read_string }

module _ {A : Type 0} (o : Operators A) where
  unfoldable pub put_each : List A → Exec ByteBuffer (Unit {0})
  put_each [] = pure tt
  put_each (v ∷ vs) = do o.put v; put_each vs

  -- `while (vsize--)`, with the rounds left.
  unfoldable pub get_each : ℕ → Exec ByteBuffer (List A)
  get_each zero = pure []
  get_each (suc vsize) = do v ← o.get; vs ← get_each vsize; pure (v ∷ vs)

  unfoldable pub put_vector : List A → Exec ByteBuffer (Unit {0})
  unfolding put_each
  put_vector vs = do write uint32 (length vs % 2 ^ 32); put_each vs

  unfoldable pub get_vector : Exec ByteBuffer (List A)
  unfolding get_each
  get_vector = do vsize ← read uint32; get_each vsize

abbrev pub of_vector : {A : Type 0} → Operators A → Operators (List A)
of_vector o = record { put = put_vector o; get = get_vector o }
