-- ===== src/ByteBuffer/Printing/Messages.antt =====
-- The text of an exception, where a read finds too few bytes.
use subiaoserver.Common.{
  ℕ, ◌+◌, ◌^◌, ◌<◌, ◌≡◌, refl, arith, List, ◌++◌, length, throws, ByteBufferException,
  position_exception, false,
}
use subiaoserver.Common.Words.{UInt, sizeof}
use subiaoserver.Common.Text.{codes, decimal, number_from, number_from-decimal}
use subiaoserver.ByteBuffer.{ByteBuffer, size, read}
use subiaoserver.ByteBuffer.Access.{Unread, read-short}
use subiaoserver.ByteBuffer.Printing.{message}

-- Reading an integer where fewer bytes are left than its type has, and no position wraps, throws,
-- and leaves the buffer as it was; the text of the exception names the size of the storage as the
-- size of the value, and the size of the value as that of the storage, and the digits of the
-- position and of the size are those of these numbers.
pub message-read :
    (t : UInt) (b : ByteBuffer) (xs : List ℕ)
    → Unread b xs
    → size b + sizeof t < 2 ^ 64
    → length xs < sizeof t
    → (e : ByteBufferException) × (read t b ≡ throws e b)
      × (message e
          ≡ codes "Attempted to get value with size: "
            ++ (decimal (size b)
                ++ (codes " in ByteBuffer (pos: "
                    ++ (decimal b.rpos ++ (codes " size: " ++ (decimal (sizeof t) ++ codes ")"))))))
      × (number_from 0 (decimal (size b)) ≡ size b)
      × (number_from 0 (decimal b.rpos) ≡ b.rpos)
unfolding message
message-read t b xs u h short = (
  position_exception false b.rpos (sizeof t) (size b),
  read-short t b xs u h short,
  refl,
  number_from-decimal (size b) (omega (arith, h)),
  number_from-decimal b.rpos (omega (arith, h, u.within, u.addressable)),
)
