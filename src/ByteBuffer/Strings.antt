-- ===== src/ByteBuffer/Strings.antt =====
-- `operator<<(const std::string &)` and `operator>>(std::string &)`.
use subiaoserver.Common.{
  ℕ, zero, suc, ◌+◌, ◌^◌, ◌<◌, ◌≡◌, ◌≢◌, refl, ap, ◌∙◌, arith, true, List, [], ◌∷◌, ◌++◌,
  append_assoc, append-nil, length, length-append, All, ◌==◌, ltb, if◌then◌else◌, done, ◌>>◌,
  drop-append, lt→ltb,
}
use subiaoserver.Common.Words.{uint8}
use subiaoserver.ByteBuffer.{ByteBuffer, size, read_string_loop, read_string, write_string}
use subiaoserver.ByteBuffer.Access.{Unread, push, append-push, write-push}
use subiaoserver.ByteBuffer.Operators.Feed.{past, read-past, past-Unread}
use subiaoserver.ByteBuffer.Streams.{push-push}

-- The string in front of some bytes: up to the first zero, or all of them.
abbrev pub string_of : List ℕ → List ℕ
string_of [] = []
string_of (c ∷ cs) = if c == 0 then [] else c ∷ string_of cs

-- How many bytes it takes, a zero behind it included.
abbrev pub string_size : List ℕ → ℕ
string_size [] = 0
string_size (c ∷ cs) = if c == 0 then 1 else suc (string_size cs)

read_string_loop_lem :
    (fuel : ℕ) (value xs : List ℕ) (b : ByteBuffer)
    → Unread b xs
    → length xs < fuel
    → read_string_loop fuel value b ≡ done (value ++ string_of xs) (past (string_size xs) b)
unfolding read_string_loop
read_string_loop_lem zero value xs b u enough = absurd (omega arith)
read_string_loop_lem (suc fuel) value [] b u enough = ground (arith, u.within, append-nil value)
read_string_loop_lem (suc fuel) value (c ∷ cs) b u enough =
    let one = read-past b 1 (c ∷ []) cs u (omega arith) uint8 refl in
    let more : ltb b.rpos (size b) ≡ true = lt→ltb b.rpos (size b) (omega (arith, u.within)) in
    let later = past-Unread b 1 (c ∷ []) cs u (omega arith) in
    let rest = read_string_loop_lem fuel (value ++ c ∷ []) cs (past 1 b) later (omega arith) in
    ground (arith, one, more, rest, append_assoc value (c ∷ []) (string_of cs), append-nil value)

-- Reading a string ends wherever the read cursor stands in a storage below 2 ^ 64 bytes, without an
-- exception: it gives the bytes up to the first zero, or up to the end, and leaves the cursor
-- behind them.
pub read_string-string_of :
    (b : ByteBuffer) (xs : List ℕ)
    → Unread b xs
    → read_string b ≡ done (string_of xs) (past (string_size xs) b)
unfolding read_string
read_string-string_of b xs u = read_string_loop_lem (size b + 1) [] xs b u (omega (arith, u.within))

pub string_of-append :
    (cs ys : List ℕ)
    → All (λ c. c ≢ 0) cs
    → (string_of (cs ++ 0 ∷ ys) ≡ cs) × (string_size (cs ++ 0 ∷ ys) ≡ length cs + 1)
string_of-append [] ys h = (refl, omega arith)
string_of-append (c ∷ cs) ys h = ground (arith, h.0, string_of-append cs ys h.1)

pub write_string-push :
    (cs : List ℕ) (b : ByteBuffer)
    → b.wpos ≡ size b
    → size b + length cs + 1 < 2 ^ 64
    → write_string cs b ≡ done tt (push (cs ++ 0 ∷ []) b)
unfolding write_string
write_string-push [] b e fits = write-push uint8 0 b e (omega arith)
write_string-push (c ∷ cs) b e fits =
    rw (append-push (c ∷ cs) b (λ x. absurd (cc x)) e (omega arith)) (
      write-push uint8 0 (push (c ∷ cs) b) (omega (arith, length-append b.storage (c ∷ cs)))
        (omega (arith, length-append b.storage (c ∷ cs)))
      ∙ ap (done tt) (push-push (c ∷ cs) (0 ∷ []) b))

-- A string without a zero that is written behind a storage that has been read, and that stays below
-- 2 ^ 64 bytes, is read back, with the read cursor at the end.
pub read_string-write_string :
    (cs : List ℕ) (b : ByteBuffer)
    → All (λ c. c ≢ 0) cs
    → b.wpos ≡ size b
    → b.rpos ≡ size b
    → size b + length cs + 1 < 2 ^ 64
    → (do write_string cs; read_string) b ≡ done cs (past (length cs + 1) (push (cs ++ 0 ∷ []) b))
read_string-write_string cs b h e r fits =
    let all = length-append cs (0 ∷ []) in
    let (whole, taken) = string_of-append cs [] h in
    let unread : Unread (push (cs ++ 0 ∷ []) b) (cs ++ 0 ∷ []) = record {
      addressable = omega (arith, all, length-append b.storage (cs ++ 0 ∷ []));
      within = omega (arith, all, length-append b.storage (cs ++ 0 ∷ []));
      rest = drop-append b.storage (cs ++ 0 ∷ []) b.rpos r;
    } in
    rw (
      write_string-push cs b e fits,
      read_string-string_of (push (cs ++ 0 ∷ []) b) (cs ++ 0 ∷ []) unread,
      whole,
      taken,
    )
