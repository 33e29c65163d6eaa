-- ===== src/ByteBuffer/Containers/RoundTrip.antt =====
-- Operators that read back what they write, and containers of them.
use subiaoserver.Common.{
  ℕ, ◌+◌, ◌%◌, ◌^◌, ◌<◌, ◌≡◌, ◌≢◌, refl, ap, ◌∙◌, arith, List, [], ◌∷◌, ◌++◌, append-nil,
  append_assoc, length, length-append, All, take_all, drop_all, drop-append, done, ◌>>◌,
}
use subiaoserver.Common.Words.{
  UInt, uint32, sizeof, InRange, le_bytes, length-le_bytes, le_value-le_bytes,
}
use subiaoserver.ByteBuffer.{ByteBuffer, size}
use subiaoserver.ByteBuffer.Access.{Unread, push, write-push}
use subiaoserver.ByteBuffer.Strings.{string_of-append, write_string-push, read_string-string_of}
use subiaoserver.ByteBuffer.Streams.{push-push}
use subiaoserver.ByteBuffer.Operators.Feed.{past, past-Unread, read-past}
use subiaoserver.ByteBuffer.Containers.{
  Operators, of_uint, of_string, of_vector, put_each, get_each, put_vector, get_vector,
}
use native.Mathlib.Nat.{add_assoc, add-zero}

-- What the operators of a type promise of the values that `fits` admits: `put` writes the encoding
-- behind the storage, and `get` takes it from where the read cursor stands.
pub record IsSerial {A : Type 0} (o : Operators A) (encoding : A → List ℕ) (fits : A → Type 0)
    : Type 0 where
  pub put-push :
      (a : A) (b : ByteBuffer)
      → fits a
      → b.wpos ≡ size b
      → size b + length (encoding a) < 2 ^ 64
      → o.put a b ≡ done tt (push (encoding a) b)
  pub get-past :
      (a : A) (b : ByteBuffer) (rest : List ℕ)
      → fits a
      → Unread b (encoding a ++ rest)
      → o.get b ≡ done a (past (length (encoding a)) b)

module _ {A : Type 0} (o : Operators A) (encoding : A → List ℕ) (fits : A → Type 0)
    (s : IsSerial o encoding fits) where
  -- What is written behind a storage that has been read is read back.
  pub get-put :
      (a : A) (b : ByteBuffer)
      → fits a
      → b.wpos ≡ size b
      → b.rpos ≡ size b
      → size b + length (encoding a) < 2 ^ 64
      → (do o.put a; o.get) b ≡ done a (past (length (encoding a)) (push (encoding a) b))
  get-put a b h e r room =
      let bs = encoding a in
      let grown = length-append b.storage bs in
      let unread : Unread (push bs b) (bs ++ []) = rw append-nil (record {
        addressable = omega (arith, grown);
        within = omega (arith, grown);
        rest = drop-append b.storage bs b.rpos r;
      }) in
      rw (s.put-push a b h e room, s.get-past a (push bs b) [] h unread)

pub of_uint-IsSerial : (t : UInt) → IsSerial (of_uint t) (le_bytes (sizeof t)) (InRange t)
of_uint-IsSerial t = record {
  put-push = λ v b h e room. write-push t v b e (omega (arith, length-le_bytes (sizeof t) v));
  get-past = λ v b rest h u.
      let bs = le_bytes (sizeof t) v in
      let len = length-le_bytes (sizeof t) v in
      ground (
        arith,
        read-past b (sizeof t) bs rest u (omega (arith, len)) t refl,
        take_all (sizeof t) bs,
        le_value-le_bytes (sizeof t) v h,
        len,
      );
}

abbrev pub string_encoding : List ℕ → List ℕ
string_encoding cs = cs ++ 0 ∷ []

-- A string that holds no zero.
abbrev pub IsText : List ℕ → Type 0
IsText = All (λ c. c ≢ 0)

pub of_string-IsSerial : IsSerial of_string string_encoding IsText
of_string-IsSerial = record {
  put-push = λ cs b h e room. write_string-push cs b e (omega (arith, length-append cs (0 ∷ [])));
  get-past = λ cs b rest h u.
      let (whole, taken) = string_of-append cs rest h in
      let u' : Unread b (cs ++ (0 ∷ rest)) = rw append_assoc at u in
      rw (read_string-string_of b (cs ++ 0 ∷ rest) u', whole, taken)
        (ground (arith, length-append cs (0 ∷ [])));
}

module _ {A : Type 0} (encoding : A → List ℕ) where
  abbrev pub encodings : List A → List ℕ
  encodings [] = []
  encodings (v ∷ vs) = encoding v ++ encodings vs

  abbrev pub vector_encoding : List A → List ℕ
  vector_encoding vs = le_bytes 4 (length vs) ++ encodings vs

abbrev pub VectorFits : {A : Type 0} → (A → Type 0) → List A → Type 0
VectorFits fits vs = (length vs < 2 ^ 32) × All fits vs

module _ {A : Type 0} (o : Operators A) (encoding : A → List ℕ) (fits : A → Type 0)
    (s : IsSerial o encoding fits) where
  put_each-push :
      (vs : List A) (b : ByteBuffer)
      → All fits vs
      → b.wpos ≡ size b
      → size b + length (encodings encoding vs) < 2 ^ 64
      → put_each o vs b ≡ done tt (push (encodings encoding vs) b)
  unfolding put_each
  put_each-push [] b h e room = rw (add-zero, append-nil)
  put_each-push (v ∷ vs) b h e room =
      let bs = encoding v in
      let all = length-append bs (encodings encoding vs) in
      let grown = length-append b.storage bs in
      rw (s.put-push v b h.0 e (omega arith)) (
        put_each-push vs (push bs b) h.1 (omega (arith, grown)) (omega (arith, grown))
        ∙ ap (done tt) (push-push bs (encodings encoding vs) b))

  get_each-past :
      (vs : List A) (b : ByteBuffer) (rest : List ℕ)
      → All fits vs
      → Unread b (encodings encoding vs ++ rest)
      → get_each o (length vs) b ≡ done vs (past (length (encodings encoding vs)) b)
  unfolding get_each
  get_each-past [] b rest h u = rw add-zero
  get_each-past (v ∷ vs) b rest h u =
      let bs = encoding v in
      let u' : Unread b (bs ++ (encodings encoding vs ++ rest)) = rw append_assoc at u in
      let later : Unread (past (length bs) b) (encodings encoding vs ++ rest) =
        rw (drop_all (length bs) bs (omega arith)) at
          (past-Unread b (length bs) bs (encodings encoding vs ++ rest) u' (omega arith)) in
      rw
        (
          s.get-past v b (encodings encoding vs ++ rest) h.0 u',
          get_each-past vs (past (length bs) b) rest h.1 later,
        )
        (rw (length-append bs (encodings encoding vs), add_assoc))

  -- The operators of vectors keep the promise that those of the elements keep.
  pub of_vector-IsSerial : IsSerial (of_vector o) (vector_encoding encoding) (VectorFits fits)
  unfolding put_vector get_vector
  of_vector-IsSerial = record {
    put-push = λ vs b h e room.
        let bs = le_bytes 4 (length vs) in
        let counted : length vs % 2 ^ 32 ≡ length vs = omega (arith, h.0) in
        let grown = length-append b.storage bs in
        rw (counted, write-push uint32 (length vs) b e (omega arith))
          (put_each-push vs (push bs b) h.1 (omega (arith, grown)) (omega (arith, grown))
            ∙ ap (done tt) (push-push bs (encodings encoding vs) b));
    get-past = λ vs b rest h u.
        let bs = le_bytes 4 (length vs) in
        let later = past-Unread b 4 bs (encodings encoding vs ++ rest) u (omega arith) in
        rw
          (
            read-past b 4 bs (encodings encoding vs ++ rest) u (omega arith) uint32 refl,
            le_value-le_bytes 4 (length vs) h.0,
            get_each-past vs (past 4 b) rest h.1 later,
          )
          (ground arith);
  }

  -- A vector of fewer than 2 ^ 32 elements, whose operators promise to read back what they write,
  -- is read back as it was written behind a storage that has been read, and that stays below 2 ^ 64
  -- bytes, and both cursors stand behind it.
  pub get_vector-put_vector :
      (vs : List A) (b : ByteBuffer)
      → VectorFits fits vs
      → b.wpos ≡ size b
      → b.rpos ≡ size b
      → size b + length (vector_encoding encoding vs) < 2 ^ 64
      → (do put_vector o vs; get_vector o) b
        ≡ done vs
            (past (length (vector_encoding encoding vs)) (push (vector_encoding encoding vs) b))
  get_vector-put_vector =
      get-put (of_vector o) (vector_encoding encoding) (VectorFits fits) of_vector-IsSerial
