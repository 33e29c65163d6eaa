-- ===== src/ByteBuffer/Maps/RoundTrip.antt =====
-- Maps whose keys and values are read back are read back.
use subiaoserver.Common.{
  ℕ, ◌+◌, ◌%◌, ◌^◌, ◌<◌, ◌≡◌, refl, ap, ◌∙◌, arith, Bool, true, false, List, [], ◌∷◌, ◌++◌,
  append-nil, append_assoc, length, length-append, All, All-append, drop_all, drop-append, done,
  ◌>>◌,
}
use subiaoserver.Common.Words.{uint32, le_bytes, le_value-le_bytes}
use subiaoserver.ByteBuffer.{ByteBuffer, size, read}
use subiaoserver.ByteBuffer.Access.{Unread, push, write-push}
use subiaoserver.ByteBuffer.Streams.{push-push}
use subiaoserver.ByteBuffer.Operators.Feed.{past, past-Unread, read-past}
use subiaoserver.ByteBuffer.Containers.{Operators}
use subiaoserver.ByteBuffer.Containers.RoundTrip.{IsSerial}
use subiaoserver.ByteBuffer.Maps.{insert, put_pairs, put_map, get_pairs, get_map}
use native.Mathlib.Nat.{add-zero}

module _ {K : Type 0} (less : K → K → Bool) where
  -- The key `k` is behind `k'`.
  abbrev pub Behind : K → K → Type 0
  Behind k' k = (less k' k ≡ true) × (less k k' ≡ false)

module _ {K V : Type 0} (less : K → K → Bool) where
  -- Each key is behind all keys before it.
  abbrev pub IsMap : List (K × V) → Type 0
  IsMap [] = Unit
  IsMap ((k, v) ∷ m) = All (λ e. Behind less k e.0) m × IsMap m

  insert-end :
      (k : K) (v : V) (m : List (K × V))
      → All (λ e. Behind less e.0 k) m
      → insert less k v m ≡ m ++ (k, v) ∷ []
  unfolding insert
  insert-end k v [] h = refl
  insert-end k v ((k', v') ∷ m) h = rw (h.0.1, h.0.0, insert-end k v m h.1)

  -- Each key of `m` is behind all keys of `read`.
  abbrev Follows : List (K × V) → List (K × V) → Type 0
  Follows read m = All (λ e. All (λ a. Behind less a.0 e.0) read) m

  Follows-end :
      (k : K) (v : V) (read m : List (K × V))
      → Follows read m
      → All (λ e. Behind less k e.0) m
      → Follows (read ++ (k, v) ∷ []) m
  Follows-end k v read [] f h = tt
  Follows-end k v read (e ∷ m) f h =
      (All-append _ read ((k, v) ∷ []) f.0 (h.0, tt), Follows-end k v read m f.1 h.1)

module _ {K V : Type 0} (key_encoding : K → List ℕ) (value_encoding : V → List ℕ) where
  abbrev pub pairs_encoding : List (K × V) → List ℕ
  pairs_encoding [] = []
  pairs_encoding ((k, v) ∷ m) = key_encoding k ++ (value_encoding v ++ pairs_encoding m)

  abbrev pub map_encoding : List (K × V) → List ℕ
  map_encoding m = le_bytes 4 (length m) ++ pairs_encoding m

module _ {K V : Type 0} (less : K → K → Bool) (keys : Operators K) (key_encoding : K → List ℕ)
    (key_fits : K → Type 0) (values : Operators V) (value_encoding : V → List ℕ)
    (value_fits : V → Type 0) (ks : IsSerial keys key_encoding key_fits)
    (vs : IsSerial values value_encoding value_fits) where
  pairs : List (K × V) → List ℕ
  pairs = pairs_encoding key_encoding value_encoding

  abbrev pub Fits : List (K × V) → Type 0
  Fits m = All (λ e. key_fits e.0 × value_fits e.1) m

  put_pairs-push :
      (m : List (K × V)) (b : ByteBuffer)
      → Fits m
      → b.wpos ≡ size b
      → size b + length (pairs m) < 2 ^ 64
      → put_pairs keys values m b ≡ done tt (push (pairs m) b)
  unfolding put_pairs pairs
  put_pairs-push [] b h e room = rw (add-zero, append-nil)
  put_pairs-push ((k, v) ∷ m) b h e room =
      let kb = key_encoding k in
      let vb = value_encoding v in
      let all = length-append kb (vb ++ pairs m) in
      let rest = length-append vb (pairs m) in
      let grown = length-append b.storage kb in
      let b1 = push kb b in
      let grown1 = length-append b1.storage vb in
      rw (ks.put-push k b h.0.0 e (omega arith), vs.put-push v b1 h.0.1 (omega arith) (omega arith))
        (put_pairs-push m (push vb b1) h.1 (omega arith) (omega arith)
          ∙ ap (done tt) (
              ap (push (pairs m)) (push-push kb vb b)
              ∙ push-push (kb ++ vb) (pairs m) b
              ∙ rw append_assoc))

  get_pairs-past :
      (m read : List (K × V)) (b : ByteBuffer) (rest : List ℕ)
      → Fits m
      → Follows less read m
      → IsMap less m
      → Unread b (pairs m ++ rest)
      → get_pairs keys values less (length m) read b ≡ done (read ++ m) (past (length (pairs m)) b)
  unfolding get_pairs pairs
  get_pairs-past [] read b rest h f s u = rw (add-zero, append-nil)
  get_pairs-past ((k, v) ∷ m) read b rest h f s u =
      let kb = key_encoding k in
      let vb = value_encoding v in
      let u1 : Unread b (kb ++ (vb ++ (pairs m ++ rest))) = rw (append_assoc, append_assoc) at u in
      let u2 : Unread (past (length kb) b) (vb ++ (pairs m ++ rest)) =
        rw (drop_all (length kb) kb (omega arith)) at
          (past-Unread b (length kb) kb _ u1 (omega arith)) in
      let u3 : Unread (past (length vb) (past (length kb) b)) (pairs m ++ rest) =
        rw (drop_all (length vb) vb (omega arith)) at
          (past-Unread (past (length kb) b) (length vb) vb _ u2 (omega arith)) in
      let later =
        get_pairs-past m (read ++ (k, v) ∷ []) (past (length vb) (past (length kb) b)) rest h.1
          (Follows-end less k v read m f.1 s.0) s.1 u3 in
      rw
        (
          ks.get-past k b _ h.0.0 u1,
          vs.get-past v (past (length kb) b) _ h.0.1 u2,
          insert-end less k v read f.0,
          later,
        )
        (ground (
          arith,
          append_assoc read ((k, v) ∷ []) m,
          length-append kb (vb ++ pairs m),
          length-append vb (pairs m),
        ))

  Follows-nil : (m : List (K × V)) → Follows less [] m
  Follows-nil [] = tt
  Follows-nil (e ∷ m) = (tt, Follows-nil m)

  -- A map of fewer than 2 ^ 32 pairs in the strict order of their keys, the operators of whose keys
  -- and values promise to read back what they write, is read back as it was written behind a
  -- storage that has been read, and that stays below 2 ^ 64 bytes, and both cursors stand behind
  -- it.
  pub get_map-put_map :
      (m : List (K × V)) (b : ByteBuffer)
      → length m < 2 ^ 32
      → Fits m
      → IsMap less m
      → b.wpos ≡ size b
      → b.rpos ≡ size b
      → size b + length (map_encoding key_encoding value_encoding m) < 2 ^ 64
      → (do put_map keys values m; get_map keys values less) b
        ≡ done m (
            past
              (length (map_encoding key_encoding value_encoding m))
              (push (map_encoding key_encoding value_encoding m) b))
  unfolding put_map get_map pairs
  get_map-put_map m b few h s e r room =
      let count = le_bytes 4 (length m) in
      let all = count ++ pairs m in
      let counted : length m % 2 ^ 32 ≡ length m = omega (arith, few) in
      let grown = length-append b.storage count in
      let full = length-append b.storage all in
      let written : put_map keys values m b ≡ done tt (push all b) =
        rw (counted, write-push uint32 (length m) b e (omega arith))
          (put_pairs-push m (push count b) h (omega (arith, grown)) (omega (arith, grown))
            ∙ ap (done tt) (push-push count (pairs m) b)) in
      let unread : Unread (push all b) (count ++ (pairs m ++ [])) = rw append-nil (record {
        addressable = omega (arith, full);
        within = omega (arith, full);
        rest = drop-append b.storage all b.rpos r;
      }) in
      let later = past-Unread (push all b) 4 count (pairs m ++ []) unread (omega arith) in
      rw
        (
          written,
          read-past (push all b) 4 count (pairs m ++ []) unread (omega arith) uint32 refl,
          le_value-le_bytes 4 (length m) few,
          get_pairs-past m [] (past 4 (push all b)) [] h (Follows-nil m) s later,
        )
        (ground arith)
