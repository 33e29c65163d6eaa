-- ===== src/Connection/Unused.antt =====
-- Functions of src/Connection.cpp that nothing calls: `Connection::start`, `sendpacket` and the
-- handlers of acknowledgements, which print a text.
use subiaoserver.Common.{
  ℕ, ◌≡◌, refl, arith, Bool, true, false, List, [], ◌∷◌, ◌++◌, ◌+◌, length, length-append,
  length-drop, drop, ◌≤◌, if◌then◌else◌, ◌>>◌, done, throws, undefined, diverges, Exec, modify,
}
use subiaoserver.Common.Text.{codes}
use subiaoserver.ByteBuffer.{contents, memcpy}
use subiaoserver.WorldPacket.{WorldPacket}
use subiaoserver.Connection.{Connection, manager_stop}

-- What stands on the console.
abbrev printf : List ℕ → Exec (List ℕ) (Unit {0})
printf text = modify (λ console. console ++ text)

unfoldable pub handlecheckpacket_ack : Exec (List ℕ) (Unit {0})
handlecheckpacket_ack = printf (codes "checkpacket_ack**********\n")

unfoldable pub handlerestorepacket_ack : Exec (List ℕ) (Unit {0})
handlerestorepacket_ack = printf (codes "handlerestorepacket_ack**********\n")

unfoldable pub handlereadconfigpacket_ack : Exec (List ℕ) (Unit {0})
handlereadconfigpacket_ack = printf (codes "handlereadconfigpacket_ack**********\n")

unfoldable pub handleactivesetconfigpacket_ack : Exec (List ℕ) (Unit {0})
handleactivesetconfigpacket_ack = printf (codes "handleactivesetconfigpacket_ack**********\n")

unfoldable pub handlelarmdata : Exec (List ℕ) (Unit {0})
handlelarmdata = printf (codes "hand 0x50 acked \n")

unfoldable pub handlphotonowack : Exec (List ℕ) (Unit {0})
handlphotonowack = printf (codes "photo now acked\n")

-- A connection with its `data_`, and the rooms of the reads into it that are outstanding.
pub record Reading : Type 0 where
  pub connection : Connection
  pub data_ : List ℕ
  pub asked : List ℕ

-- `Connection::start`: at least 3 bytes are read into the 3 of `data_`.
unfoldable pub start_data : Exec Reading (Unit {0})
start_data r = done tt (record r { data_ = 0 ∷ 0 ∷ 0 ∷ []; asked = r.asked ++ 3 ∷ [] })

-- The read that was begun first has ended, with the bytes that it has put into `data_`. Its handler
-- stops the connection on an error and does nothing otherwise.
unfoldable pub data_handler : Bool → List ℕ → Exec Reading (Unit {0})
data_handler ec bs r =
    let s = record r { data_ = memcpy 0 bs r.data_; asked = drop 1 r.asked } in
    if ec then done tt (record s { connection = manager_stop r.connection }) else done tt s

-- `sendpacket`, with the `boost::asio::write` of the socket as an argument. Nothing is written of an
-- empty packet, whose `contents()` throws.
unfoldable pub sendpacket :
    {S : Type 0} → (List ℕ → Exec S (Unit {0})) → WorldPacket → Exec S (Unit {0})
unfolding contents
sendpacket write packet s = elim (contents packet.buffer) [
  | done bytes _ ↦ write bytes s
  | throws e _ ↦ throws e s
  | undefined ↦ undefined
  | diverges ↦ diverges
]

length-three : (bs : List ℕ) → length bs ≤ 3 → length (memcpy 0 bs (0 ∷ 0 ∷ 0 ∷ [])) ≡ 3
length-three bs fits = omega (
  arith,
  fits,
  length-append bs (drop (0 + length bs) (0 ∷ 0 ∷ 0 ∷ [])),
  length-drop {A = ℕ} (0 + length bs) (0 ∷ 0 ∷ 0 ∷ []),
)

-- The 3 bytes of `data_` stay 3, whatever fits has been read.
pub data_handler-fits :
    (ec : Bool) (bs : List ℕ) (r : Reading)
    → length bs ≤ 3
    → (r' : Reading) × ((do start_data; data_handler ec bs) r ≡ done tt r')
      × (length r'.data_ ≡ 3)
      × (r'.asked ≡ drop 1 (r.asked ++ 3 ∷ []))
unfolding start_data data_handler
data_handler-fits true bs r fits = (_, refl, length-three bs fits, refl)
data_handler-fits false bs r fits = (_, refl, length-three bs fits, refl)
