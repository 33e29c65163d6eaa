-- ===== src/Connection/Receive/Reassembly.antt =====
-- `read_handler`, chunk by chunk: what is kept, and what is dispatched.
use subiaoserver.Common.{
  ℕ, ◌+◌, ◌-◌, ◌^◌, ◌≤◌, ◌<◌, ◌≡◌, ◌≢◌, refl, sym, ap, ◌∙◌, arith, List, [], ◌∷◌, ◌++◌, append-nil,
  append_assoc, length, length-append, All, take, get_or, Outcome, throws, undefined, diverges,
  and_then, done, Exec, ◌>>◌, modify,
}
use subiaoserver.ByteBuffer.{size_add, memcpy}
use subiaoserver.ByteBuffer.Escape.Spec.{escape, length-escape}
use subiaoserver.ByteBuffer.Memcpy.{take-memcpy, get_or-memcpy, length-memcpy}
use subiaoserver.Connection.{Connection}
use subiaoserver.Connection.Receive.{
  process_input, received, readmedia, process_message, read_handler,
}
use subiaoserver.Connection.Media.{Library}
use subiaoserver.Connection.Receive.Message.{wire, opened, process_message-wire}

-- The chunks in which bytes arrive, one `async_read_some` after the other.
pub deliver : Library → List (List ℕ) → Exec Connection (Unit {0})
deliver lib [] c = done tt c
deliver lib (bs ∷ chunks) c = (do read_handler lib (received bs); deliver lib chunks) c

abbrev pub concat : List (List ℕ) → List ℕ
concat [] = []
concat (bs ∷ chunks) = bs ++ concat chunks

-- A chunk that is kept: it holds a byte, and its last byte is no sync byte.
abbrev pub IsKept : List ℕ → Type 0
IsKept bs = (bs ≢ []) × (get_or bs (length bs - 1) 0 ≢ 0x7e)

-- The last byte of a chunk is a sync byte.
abbrev pub Completes : List ℕ → Type 0
Completes bs = (bs ≢ []) × (get_or bs (length bs - 1) 0 ≡ 0x7e)

-- The connections that differ from `c` in what has been received and asked for, and no more.
abbrev pub IsReceiving : Connection → Connection → Type 0
IsReceiving c d = d ≡ record c {
  total_bytes_read = d.total_bytes_read;
  buf = d.buf;
  host = record (c.host) { reading = d.host.reading };
}

IsReceiving-trans : (c d e : Connection) → IsReceiving c d → IsReceiving d e → IsReceiving c e
IsReceiving-trans c d e h k =
    k
    ∙ ap {A = Connection}
        (λ x. record x {
          total_bytes_read = e.total_bytes_read;
          buf = e.buf;
          host = record (x.host) { reading = e.host.reading };
        })
        h

length-pos : (bs : List ℕ) → bs ≢ [] → 0 < length bs
length-pos [] ne = absurd (ne refl)
length-pos (b ∷ bs) ne = omega arith

abbrev pub restart : Connection → Connection
restart d = readmedia 0 (record d { total_bytes_read = 0 })

-- The dispatch of the first `count` bytes of the buffer, after which it is filled from the front.
pub dispatch : Library → ℕ → Exec Connection (Unit {0})
dispatch lib count = do process_message lib count; modify restart

module _ (lib : Library) (c : Connection) (bs : List ℕ)
    (room : c.total_bytes_read ≤ length c.buf) where
  filled : Connection
  filled = record c { buf = memcpy c.total_bytes_read bs c.buf }

  last_byte :
      bs ≢ []
      → get_or (memcpy c.total_bytes_read bs c.buf) (c.total_bytes_read + length bs - 1) 0
        ≡ get_or bs (length bs - 1) 0
  last_byte ne =
      let some_byte = length-pos bs ne in
      let e : c.total_bytes_read + length bs - 1 ≡ c.total_bytes_read + (length bs - 1) =
        omega arith in
      rw e (get_or-memcpy c.total_bytes_read (length bs - 1) bs c.buf room (omega arith))

  keep : IsKept bs → read_handler lib (received bs) c ≡ done tt (readmedia (length bs) filled)
  unfolding read_handler filled
  keep (ne, other) = ground (arith, last_byte ne, length-pos bs ne)

  complete :
      Completes bs
      → read_handler lib (received bs) c ≡ dispatch lib (c.total_bytes_read + length bs) filled
  unfolding read_handler filled dispatch
  complete (ne, sync) = ground (arith, last_byte ne, length-pos bs ne)

-- A kept chunk stands behind what was there before, and the handler asks for more.
keep_more :
    (lib : Library) (c : Connection) (bs : List ℕ)
    → IsKept bs
    → c.total_bytes_read ≤ length c.buf
    → c.total_bytes_read + length bs < 2 ^ 64
    → (d : Connection) × (read_handler lib (received bs) c ≡ done tt d)
      × (d.total_bytes_read ≡ c.total_bytes_read + length bs)
      × (take d.total_bytes_read d.buf ≡ take c.total_bytes_read c.buf ++ bs)
      × (d.total_bytes_read ≤ length d.buf)
      × IsReceiving c d
unfolding readmedia filled
keep_more lib c bs kept room small =
    let total : size_add c.total_bytes_read (length bs) ≡ c.total_bytes_read + length bs =
      omega arith in
    (
      readmedia (length bs) (filled lib c bs room),
      keep lib c bs room kept,
      total,
      rw total (take-memcpy c.total_bytes_read bs c.buf room),
      rw total (length-memcpy c.total_bytes_read bs c.buf room),
      refl,
    )

keep_all :
    (lib : Library) (chunks rest : List (List ℕ)) (c : Connection)
    → All IsKept chunks
    → c.total_bytes_read ≤ length c.buf
    → c.total_bytes_read + length (concat chunks) < 2 ^ 64
    → (d : Connection) × (deliver lib (chunks ++ rest) c ≡ deliver lib rest d)
      × (d.total_bytes_read ≡ c.total_bytes_read + length (concat chunks))
      × (take d.total_bytes_read d.buf ≡ take c.total_bytes_read c.buf ++ concat chunks)
      × (d.total_bytes_read ≤ length d.buf)
      × IsReceiving c d
unfolding deliver
keep_all lib [] rest c kept room small =
    (c, refl, omega arith, sym (append-nil (take c.total_bytes_read c.buf)), room, refl)
keep_all lib (bs ∷ chunks) rest c (kept, all_kept) room small =
    let sum = length-append bs (concat chunks) in
    let (c1, run1, total1, there1, room1, same1) = keep_more lib c bs kept room (omega arith) in
    let (d, run, total, there, room2, same) =
      keep_all lib chunks rest c1 all_kept room1 (omega (arith, total1, sum)) in
    (
      d,
      rw run1 run,
      omega (arith, total, total1, sum),
      there ∙ rw there1 (append_assoc (take c.total_bytes_read c.buf) bs (concat chunks)),
      room2,
      IsReceiving-trans c c1 d same1 same,
    )

and_then-deliver :
    (lib : Library) (o : Outcome Connection (Unit {0})) → and_then o (λ _. deliver lib []) ≡ o
unfolding deliver
and_then-deliver lib (done _ d) = refl
and_then-deliver lib (throws e d) = refl
and_then-deliver lib undefined = refl
and_then-deliver lib diverges = refl

deliver-last :
    (lib : Library) (bs : List ℕ) (c : Connection)
    → deliver lib (bs ∷ []) c ≡ read_handler lib (received bs) c
unfolding deliver
deliver-last lib bs c = and_then-deliver lib (read_handler lib (received bs) c)

pub reassembly :
    (lib : Library) (chunks : List (List ℕ)) (last : List ℕ) (c : Connection)
    → (k s0 s1 m0 m1 t op : ℕ) (payload : List ℕ) → c.total_bytes_read ≡ 0
    → c.readpacket.buffer.escbuffer ≡ []
    → All IsKept chunks
    → Completes last
    → concat chunks ++ last ≡ wire k (s0 ∷ s1 ∷ m0 ∷ m1 ∷ t ∷ op ∷ payload)
    → length payload < 2 ^ 32
    → (d : Connection) × IsReceiving c d
      × (deliver lib (chunks ++ last ∷ []) c
          ≡ (do process_input lib; modify restart) (opened k s0 s1 m0 m1 t op payload d))
unfolding dispatch filled
reassembly lib chunks last c k s0 s1 m0 m1 t op payload empty esc kept completes message small =
    let bs = k ∷ s0 ∷ s1 ∷ m0 ∷ m1 ∷ t ∷ op ∷ payload in
    let sum = length-append (concat chunks) last in
    let whole = ap length message in
    let frame = length-append (escape bs) (0x7e ∷ []) in
    let few : length (concat chunks) + length last < 2 ^ 64 =
      omega (arith, sum, whole, frame, length-escape bs) in
    let (d, run, total, there, room, same) =
      keep_all lib chunks (last ∷ []) c kept (omega (arith, empty)) (omega (arith, empty)) in
    let e = filled lib d last room in
    let count = d.total_bytes_read + length last in
    let received_all : take count e.buf ≡ wire k (s0 ∷ s1 ∷ m0 ∷ m1 ∷ t ∷ op ∷ payload) =
      take-memcpy d.total_bytes_read last d.buf room ∙ rw (there, empty) message in
    let esc_same : e.readpacket.buffer.escbuffer ≡ [] =
      ap (λ x. x.readpacket.buffer.escbuffer) same ∙ esc in
    (
      e,
      IsReceiving-trans c d e same refl,
      run
          ∙ deliver-last lib last d
          ∙ rw (
            complete lib d last room completes,
            process_message-wire lib e count k s0 s1 m0 m1 t op payload esc_same received_all small,
          ),
    )
