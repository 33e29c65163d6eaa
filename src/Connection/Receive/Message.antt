-- ===== src/Connection/Receive/Message.antt =====
-- `process_message`: a framed message in the receive buffer becomes a packet that is dispatched.
use subiaoserver.Common.{
  ℕ, ◌+◌, ◌^◌, ◌<◌, ◌≡◌, refl, ap, ◌∙◌, arith, List, [], ◌∷◌, ◌++◌, length, length-append, take,
  done,
}
use mathlib.Core.Path.{subst}
use subiaoserver.Common.Words.{le_value}
use subiaoserver.ByteBuffer.{size, clear}
use subiaoserver.ByteBuffer.Access.{Unread}
use subiaoserver.ByteBuffer.Escape.{jt808decode}
use subiaoserver.ByteBuffer.Escape.Spec.{unescape, escape, unescape_frame, length-escape}
use subiaoserver.ByteBuffer.Escape.RoundTrip.{jt808decode-unescape, jt808decode_terminated}
use subiaoserver.ByteBuffer.Operators.Feed.{Throws}
use subiaoserver.Connection.{Connection, put_buffer}
use subiaoserver.Connection.Reads.{on_readpacket-done, read_into-feed, read_into-Throws}
use subiaoserver.Connection.Receive.{set_header, header_ops, process_input, process_message}
use subiaoserver.Connection.Media.{Library}

-- A message between two sync bytes: a checksum `k`, the header and the rest.
abbrev pub wire : ℕ → List ℕ → List ℕ
wire k bs = 0x7e ∷ (escape (k ∷ bs) ++ 0x7e ∷ [])

-- The connection once the header of a message has been read.
abbrev pub opened : ℕ → ℕ → ℕ → ℕ → ℕ → ℕ → ℕ → List ℕ → Connection → Connection
opened k s0 s1 m0 m1 t op payload c = record c {
  header = record {
    s_jt808sync = 0x7e;
    s_checksum = k;
    s_sequencemsgcnt = le_value (s0 ∷ s1 ∷ []);
    s_manufacture_id = le_value (m0 ∷ m1 ∷ []);
    s_terminalcode_id = t;
    s_opcode = op;
  };
  readpacket = record (c.readpacket) {
    buffer = record {
      rpos = 8;
      wpos = length payload + 9;
      storage = 0x7e ∷ k ∷ s0 ∷ s1 ∷ m0 ∷ m1 ∷ t ∷ op ∷ (payload ++ 0x7e ∷ []);
      escbuffer = [];
    };
  };
}

-- A framed message with a payload below 2 ^ 32 bytes that lies in the receive buffer is decoded, if
-- the escape buffer is empty, its header is read, and it is dispatched with its payload unread; the
-- checksum, whatever it is, is not compared.
pub process_message-wire :
    (lib : Library) (c : Connection) (count k s0 s1 m0 m1 t op : ℕ) (payload : List ℕ)
    → c.readpacket.buffer.escbuffer ≡ []
    → take count c.buf ≡ wire k (s0 ∷ s1 ∷ m0 ∷ m1 ∷ t ∷ op ∷ payload)
    → length payload < 2 ^ 32
    → process_message lib count c ≡ process_input lib (opened k s0 s1 m0 m1 t op payload c)
unfolding process_message clear
process_message-wire lib c count k s0 s1 m0 m1 t op payload e there small =
    let bs = k ∷ s0 ∷ s1 ∷ m0 ∷ m1 ∷ t ∷ op ∷ payload in
    let decoded : List ℕ = 0x7e ∷ (bs ++ 0x7e ∷ []) in
    let b1 = record (clear c.readpacket.buffer) { storage = take count c.buf } in
    let b2 = record b1 { storage = decoded; wpos = length decoded } in
    let room = length-append (escape bs) (0x7e ∷ []) in
    let tail = length-append payload (0x7e ∷ []) in
    let addressable : size b1 + 1 < 2 ^ 64 = rw there (omega (arith, room, length-escape bs)) in
    let decode : jt808decode b1 ≡ done (length decoded) b2 =
      jt808decode-unescape b1 e addressable ∙ rw (there, unescape_frame bs) refl in
    let first : List ℕ = 0x7e ∷ k ∷ s0 ∷ s1 ∷ m0 ∷ m1 ∷ t ∷ op ∷ [] in
    let unread : Unread b2 (first ++ (payload ++ 0x7e ∷ [])) = record {
      addressable = omega (arith, tail);
      within = omega arith;
      rest = refl;
    } in
    let read =
      read_into-feed (λ d. d.header) set_header header_ops (put_buffer c b2) first
        (payload ++ 0x7e ∷ []) unread refl in
    rw (on_readpacket-done jt808decode (put_buffer c b1) (length decoded) b2 decode, read)
      (ap (process_input lib) (ground (arith, tail)))

-- A message below 2 ^ 32 bytes that ends in a sync byte and is decoded to fewer than 8 bytes makes
-- the handler throw, if the escape buffer is empty.
pub process_message-Throws :
    (lib : Library) (c : Connection) (count : ℕ) (xs : List ℕ)
    → c.readpacket.buffer.escbuffer ≡ []
    → take count c.buf ≡ xs ++ 0x7e ∷ []
    → length (unescape (xs ++ 0x7e ∷ [])).0 < 8
    → length xs < 2 ^ 32
    → Throws (process_message lib count c)
unfolding process_message clear
process_message-Throws lib c count xs e there short small =
    let b1 = record (clear c.readpacket.buffer) { storage = take count c.buf } in
    let ys = (unescape (xs ++ 0x7e ∷ [])).0 in
    let b2 = record b1 { storage = ys; wpos = length ys } in
    let addressable : size b1 + 1 < 2 ^ 64 =
      rw there (omega (arith, length-append xs (0x7e ∷ []))) in
    let decode : jt808decode b1 ≡ done (length ys) b2 =
      subst
        (λ zs.
          jt808decode b1
          ≡ done (length (unescape zs).0)
              (record b1 { storage = (unescape zs).0; wpos = length (unescape zs).0 }))
        there (jt808decode_terminated b1 xs e addressable there) in
    let unread : Unread b2 ys = record {
      addressable = omega arith;
      within = omega arith;
      rest = refl;
    } in
    let (x, s, read) =
      read_into-Throws (λ d. d.header) set_header header_ops (put_buffer c b2) ys unread
        (omega arith) short in
    (x, s, rw (on_readpacket-done jt808decode (put_buffer c b1) (length ys) b2 decode, read))
