-- ===== src/Connection/Reads.antt =====
-- Reads of `readpacket` into variables of the connection, into the global variables, and into
-- local variables.
use subiaoserver.Common.{
  ℕ, ◌^◌, ◌+◌, ◌<◌, ◌≡◌, List, ◌++◌, length, done, throws, undefined, diverges, Exec,
}
use subiaoserver.ByteBuffer.{ByteBuffer, size}
use subiaoserver.ByteBuffer.Access.{Unread}
use subiaoserver.ByteBuffer.Operators.{Op, run_ops}
use subiaoserver.ByteBuffer.Operators.Feed.{
  demand, feed, past, run_ops-feed, run_ops-Throws, Throws,
}
use subiaoserver.Connection.{Connection, put_buffer, on_readpacket}

pub on_readpacket-done :
    {A : Type 0} (m : Exec ByteBuffer A) (c : Connection) (a : A) (b : ByteBuffer)
    → m c.readpacket.buffer ≡ done a b
    → on_readpacket m c ≡ done a (put_buffer c b)
unfolding on_readpacket
on_readpacket-done m c a b e = rw (e, on_readpacket)

module _ {S : Type 0} where
  -- `part` and `put` say where the variables are.
  unfoldable pub read_into :
      (Connection → S) → (Connection → S → Connection) → List (Op S) → Exec Connection (Unit {0})
  read_into part put ops c = elim (run_ops ops (c.readpacket.buffer, part c)) [
    | done _ (b, s) ↦ done tt (put (put_buffer c b) s)
    | throws e (b, s) ↦ throws e (put (put_buffer c b) s)
    | undefined ↦ undefined
    | diverges ↦ diverges
  ]

  -- Local variables are returned.
  unfoldable pub read_locals : S → List (Op S) → Exec Connection S
  read_locals locals ops c = elim (run_ops ops (c.readpacket.buffer, locals)) [
    | done _ (b, s) ↦ done s (put_buffer c b)
    | throws e (b, s) ↦ throws e (put_buffer c b)
    | undefined ↦ undefined
    | diverges ↦ diverges
  ]

  module _ (part : Connection → S) (put : Connection → S → Connection) (ops : List (Op S)) where
    pub read_into-feed :
        (c : Connection) (bs rest : List ℕ)
        → Unread c.readpacket.buffer (bs ++ rest)
        → length bs ≡ demand ops
        → read_into part put ops c
          ≡ done tt
              (put (put_buffer c (past (demand ops) c.readpacket.buffer)) (feed ops bs (part c)))
    unfolding read_into
    read_into-feed c bs rest u e =
        rw (run_ops-feed ops c.readpacket.buffer (part c) bs rest u e, read_into)

    pub read_into-Throws :
        (c : Connection) (bs : List ℕ)
        → Unread c.readpacket.buffer bs
        → size c.readpacket.buffer + demand ops < 2 ^ 64
        → length bs < demand ops
        → Throws (read_into part put ops c)
    unfolding read_into
    read_into-Throws c bs u h short =
        let (e, (b, s), r) = run_ops-Throws ops c.readpacket.buffer (part c) bs u h short in
        (e, put (put_buffer c b) s, rw (r, read_into))

  pub read_locals-feed :
      (locals : S) (ops : List (Op S)) (c : Connection) (bs rest : List ℕ)
      → Unread c.readpacket.buffer (bs ++ rest)
      → length bs ≡ demand ops
      → read_locals locals ops c
        ≡ done (feed ops bs locals) (put_buffer c (past (demand ops) c.readpacket.buffer))
  unfolding read_locals
  read_locals-feed locals ops c bs rest u e =
      rw (run_ops-feed ops c.readpacket.buffer locals bs rest u e, read_locals)

  pub read_locals-Throws :
      (locals : S) (ops : List (Op S)) (c : Connection) (bs : List ℕ)
      → Unread c.readpacket.buffer bs
      → size c.readpacket.buffer + demand ops < 2 ^ 64
      → length bs < demand ops
      → Throws (read_locals locals ops c)
  unfolding read_locals
  read_locals-Throws locals ops c bs u h short =
      let (e, (b, s), r) = run_ops-Throws ops c.readpacket.buffer locals bs u h short in
      (e, put_buffer c b, rw (r, read_locals))
