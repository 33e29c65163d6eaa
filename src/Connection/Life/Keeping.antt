-- ===== src/Connection/Life/Keeping.antt =====
-- What a connection keeps of the bytes it has received.
use subiaoserver.Common.{
  ℕ, ◌+◌, ◌-◌, ◌^◌, ◌≤◌, ◌<◌, ◌≡◌, sym, arith, List, [], ◌++◌, length, length-append, length-take,
  length-drop, take, drop, get_or, ◌==◌, Outcome, done, throws, undefined, diverges, ◌>>◌,
}
use mathlib.Core.Path.{subst}
use subiaoserver.Common.Keeps.{Keeps-then}
use subiaoserver.Common.Halts.{Halts-then, Leads, Leads-if, Leads-Ends, Leads-and_then}
use subiaoserver.ByteBuffer.{ByteBuffer, size, memcpy, clear}
use subiaoserver.ByteBuffer.Escape.{jt808decode}
use subiaoserver.ByteBuffer.Escape.Spec.{unescape}
use subiaoserver.ByteBuffer.Escape.RoundTrip.{jt808decode-unescape}
use subiaoserver.Connection.{Connection, put_buffer, on_readpacket}
use subiaoserver.Connection.Reads.{read_into}
use subiaoserver.Connection.Packets.{LocalTime}
use subiaoserver.Connection.Media.{Library}
use subiaoserver.Connection.Kept.{Frame, frame, Sides, Survives, read_into-Keeps}
use subiaoserver.Connection.Halting.{read_into-Halts, process_input-Halts, beat-Halts}
use subiaoserver.Connection.Receive.{
  received, readmedia, set_header, header_ops, process_input, process_message, read_handler, beat,
}
use subiaoserver.Connection.Receive.Dispatch.{process_input-Keeps, beat-Keeps}

-- The escape buffer is empty, and no more than `n` bytes are kept.
abbrev pub IsSmall : ℕ → Frame → Type 0
IsSmall n f = (f.escbuffer ≡ []) × (length f.bytes ≤ n)

abbrev pub HasSmall : ℕ → Connection → Type 0
HasSmall n c = IsSmall n (frame c)

-- Decoding a storage that is not too large ends, with an empty escape buffer.
abbrev IsUnescaped : ByteBuffer → Type 0
IsUnescaped b = b.escbuffer ≡ []

jt808decode-Leads :
    (b : ByteBuffer) → b.escbuffer ≡ [] → size b + 1 < 2 ^ 64 → Leads IsUnescaped (jt808decode b)
jt808decode-Leads b e small =
    subst (Leads IsUnescaped) (sym (jt808decode-unescape b e small))
      (Leads-if IsUnescaped (unescape b.storage).1 _ _ e tt)

module _ (n : ℕ) where
  abbrev pub Small : Sides → Type 0
  Small s = IsSmall n s.incoming

  pub Small-Survives : Survives Small
  Small-Survives = record { grows = λ s p is_frame h. h }

  decode-Leads :
      (c : Connection)
      → HasSmall n c
      → size c.readpacket.buffer + 1 < 2 ^ 64
      → Leads (HasSmall n) (on_readpacket jt808decode c)
  unfolding on_readpacket
  decode-Leads c h small =
      elim (jt808decode c.readpacket.buffer)
          as (λ r.
            Leads IsUnescaped r
            → Leads (HasSmall n) (elim r [
              | done a b ↦ done a (put_buffer c b)
              | throws e b ↦ throws e (put_buffer c b)
              | undefined ↦ undefined
              | diverges ↦ diverges
            ])) [
              | done a b ↦ λ e. (e, h.1)
              | throws x b ↦ λ e. tt
              | undefined ↦ λ e. tt
              | diverges ↦ λ e. e
            ]
        (jt808decode-Leads c.readpacket.buffer h.0 small)

  dispatch-Leads :
      (lib : Library) (c : Connection)
      → HasSmall n c
      → Leads
          (HasSmall n)
          ((do read_into (λ c. c.header) set_header header_ops; process_input lib) c)
  dispatch-Leads lib c h =
      Leads-Ends (HasSmall n) _
        ((Halts-then _ _ (read_into-Halts _ _ _) (process_input-Halts lib)).at c)
        ((Keeps-then _ _ (read_into-Keeps Small Small-Survives _ _ _ (λ c s h. h))
            (process_input-Keeps Small Small-Survives lib)).at
          c h)

  process_message-Leads :
      (lib : Library) (count : ℕ) (c : Connection)
      → HasSmall n c
      → n + 1 < 2 ^ 64
      → Leads (HasSmall n) (process_message lib count c)
  unfolding process_message clear
  process_message-Leads lib count c h small =
      let c1 = put_buffer c (record (clear c.readpacket.buffer) { storage = take count c.buf }) in
      Leads-and_then (HasSmall n) (HasSmall n) (on_readpacket jt808decode c1) _
        (decode-Leads c1 h (omega (arith, h.1, small, length-take count c.buf)))
        (λ a s k. dispatch-Leads lib s k)

  pub beat-Leads : (t : LocalTime) (c : Connection) → HasSmall n c → Leads (HasSmall n) (beat t c)
  beat-Leads t c h =
      Leads-Ends (HasSmall n) _ ((beat-Halts t).at c) ((beat-Keeps Small Small-Survives t).at c h)

length-memcpy_any :
    (pos : ℕ) (src xs : List ℕ) → length (memcpy pos src xs) ≤ length xs + length src
length-memcpy_any pos src xs = omega (
  arith,
  length-append (take pos xs) (src ++ drop (pos + length src) xs),
  length-append src (drop (pos + length src) xs),
  length-take pos xs,
  length-drop (pos + length src) xs,
)

weaken :
    (n m : ℕ) (r : Outcome Connection (Unit {0}))
    → n ≤ m
    → Leads (HasSmall n) r
    → Leads (HasSmall m) r
weaken n m (done a c) le h = (h.0, omega (arith, h.1))
weaken n m (throws e c) le h = tt
weaken n m undefined le h = tt
weaken n m diverges le h = h

pub received-Leads :
    (n : ℕ) (lib : Library) (bs : List ℕ) (c : Connection)
    → HasSmall n c
    → n + length bs + 1 < 2 ^ 64
    → Leads (HasSmall (n + length bs)) (read_handler lib (received bs) c)
unfolding read_handler readmedia
received-Leads n lib bs c h small =
    let c' = record c { buf = memcpy c.total_bytes_read bs c.buf } in
    let count = c.total_bytes_read + length bs in
    let P = HasSmall (n + length bs) in
    let h' : P c' = (h.0, omega (arith, h.1, length-memcpy_any c.total_bytes_read bs c.buf)) in
    Leads-if P (count == 0) _ _ tt (
      Leads-if P (get_or c'.buf (count - 1) 0 == 0x7e) _ _
        (Leads-and_then P P (process_message lib count c') _
          (process_message-Leads (n + length bs) lib count c' h' small) (λ a s k. k))
        h')
