-- ===== src/Protocol/Amf0/Codec/Safe.antt =====
-- The readers of src/protocol/srs_protocol_amf0.cpp on any bytes at all.
use srs_simple.Base.{
  ℕ, zero, suc, ◌+◌, ◌≡◌, refl, sym, subst, ◌≤◌, ◌<◌, Bool, not, ◌||◌, some, List, [], ◌∷◌, ◌==◌,
  leb, length, length-append, take, drop, ErrorCode, ok, arith, inl, inr, Bool-cases,
}
use srs_simple.Kernel.Buffer.{
  Buffer, M, ◌>>=◌, ◌>>◌, pure, empty, read_1bytes, read_2bytes, read_4bytes, read_8bytes,
  read_string, left,
}
use srs_simple.Kernel.Buffer.Cursor.{cursor, cursor_view}
use srs_simple.Kernel.Buffer.Reads.{>>=-ok}
use srs_simple.Kernel.Buffer.Safe.{
  Good, Safe, Safe-bind, Safe-pure, Safe-if, Safe-guard, Safe-last, Safe-mono, Safe-map,
  Takes-read_1bytes, Takes-read_2bytes, Takes-read_4bytes, Takes-read_8bytes, Takes-read_string,
}
use srs_simple.Protocol.Amf0.{
  Any, Properties, string, boolean, number, null, undefined, object_eof, object, ecma_array, set,
}
use srs_simple.Protocol.Amf0.Codec.{
  fail, is_object_eof, of_marker, discovery_marker, discovery, read_marker, read_utf8,
  read_object_eof, read_property, read_round, read_properties, read, read_any,
}
use srs_simple.Protocol.Amf0.Codec.Peek.{
  eof_flag, Peeks-is_object_eof, discovery_marker-cursor, discovery_marker-end,
}

Safe-fail : (A : Type 0) (n k : ℕ) (e : ErrorCode) → Safe n k (fail {A = A} e)
unfolding Safe fail
Safe-fail A n k e b v h = tt

-- A look ahead on any buffer: the same call on its two lists.
is_object_eof_total :
    (b : Buffer) → b.p ≤ length b.bytes → (t : Bool) × (is_object_eof b ≡ ok (t, b))
is_object_eof_total b h = (
  eof_flag (drop b.p b.bytes),
  subst (λ c. is_object_eof c ≡ ok (eof_flag (drop b.p b.bytes), c)) (sym (cursor_view b h))
      (Peeks-is_object_eof (drop b.p b.bytes) (take b.p b.bytes)),
)

Safe-peek_eof :
    {A : Type 0} (n k : ℕ) (f : Bool → M A)
    → ((t : Bool) → Safe n k (f t))
    → Safe n k (is_object_eof >>= f)
unfolding Safe
Safe-peek_eof n k f hf b v h =
    let (t, e) = is_object_eof_total b v in
    subst (Good k b) (sym (>>=-ok is_object_eof f b e)) (hf t b v h)

Safe-of_marker : (n m : ℕ) → Safe n 0 (of_marker m)
unfolding Safe of_marker fail
Safe-of_marker n m b v h = ground arith

Good-discovery_marker :
    (pre post : List ℕ) → Good 0 (cursor pre post) (discovery_marker (cursor pre post))
unfolding Safe
Good-discovery_marker pre [] = subst (Good 0 (cursor pre [])) (sym (discovery_marker-end pre)) tt
Good-discovery_marker pre (x ∷ xs) =
    subst (Good 0 (cursor pre (x ∷ xs))) (sym (discovery_marker-cursor x pre xs)) (
      Safe-of_marker (2 + length xs) x (cursor pre (x ∷ xs))
        (omega (arith, length-append pre (x ∷ xs))) (omega (arith, length-append pre (x ∷ xs))))

Safe-discovery_marker : (n : ℕ) → Safe n 0 discovery_marker
unfolding Safe
Safe-discovery_marker n b v h =
    subst (λ c. Good 0 c (discovery_marker c)) (sym (cursor_view b v))
      (Good-discovery_marker (take b.p b.bytes) (drop b.p b.bytes))

Safe-discovery : (n : ℕ) → Safe n 0 discovery
unfolding discovery
Safe-discovery n =
    Safe-peek_eof n 0 _ (λ t. Safe-if n 0 t _ _ (Safe-pure n _) (Safe-discovery_marker n))

Safe-read_marker : (n m : ℕ) → Safe n 1 (read_marker m)
unfolding read_marker
Safe-read_marker n m =
    Safe-guard n 1 n 0 _ read_1bytes _ (omega arith) Takes-read_1bytes
      (λ x. Safe-if n 0 (x == m) _ _ (Safe-pure n tt) (Safe-fail _ n 0 _))

Safe-read_utf8 : (n : ℕ) (s : List ℕ) → Safe n 2 (read_utf8 s)
unfolding read_utf8
Safe-read_utf8 n s = Safe-guard n 2 n 0 _ read_2bytes _ (omega arith) Takes-read_2bytes (λ len.
    Safe-if n 0 ((len == 0) || leb 32768 len) _ _ (Safe-pure n s) (
      Safe-mono n n len 0 _ (omega arith) (omega arith)
        (Safe-last n len _ (read_string len) (Takes-read_string len))))

Safe-read_object_eof : (n : ℕ) → Safe n 2 read_object_eof
unfolding read_object_eof
Safe-read_object_eof n = Safe-guard n 2 n 0 _ read_2bytes _ (omega arith) Takes-read_2bytes (λ temp.
    Safe-if n 0 (temp == 0) _ _
      (Safe-mono n n 1 0 _ (omega arith) (omega arith) (Safe-read_marker n 9)) (Safe-fail _ n 0 _))

module _ (any : M Any) (bound : ℕ) (any-Safe : Safe bound 1 any) where
  Safe-read_property :
      (f : ℕ) (next : Properties → M Properties) (ps : Properties)
      → f ≤ bound
      → ((qs : Properties) → Safe f 0 (next qs))
      → Safe (suc f) 0 (read_property any next ps)
  unfolding read_property
  Safe-read_property f next ps le h = Safe-mono (suc f) (suc f) 3 0 _ (omega arith) (omega arith) (
      Safe-bind (suc f) 2 f 1 (read_utf8 []) _ (omega arith) (Safe-read_utf8 (suc f) []) (λ name.
        Safe-bind f 1 f 0 any (λ value. next (set name (some value) ps)) (omega arith)
          (Safe-mono bound f 1 1 any le (omega arith) any-Safe)
          (λ value. h (set name (some value) ps))))

  Safe-read_properties :
      (fuel : ℕ) (ps : Properties) → fuel ≤ bound → Safe fuel 0 (read_properties any fuel ps)
  unfolding Safe read_properties read_round
  Safe-read_properties zero ps le b v h = absurd (omega arith)
  Safe-read_properties (suc f) ps le b v h = elim (Bool-cases (empty b)) [
    | inl e ↦ rw e (refl, omega arith, v)
    | inr e ↦ rw e (
        Safe-peek_eof (suc f) 0 (read_round any (read_properties any f) ps)
          (λ t.
            Safe-if (suc f) 0 t _ _
              (Safe-mono (suc f) (suc f) 2 0 _ (omega arith) (omega arith)
                (Safe-map (suc f) 2 read_object_eof (λ _. ps) (Safe-read_object_eof (suc f))))
              (Safe-read_property f (read_properties any f) ps (omega arith)
                (λ qs. Safe-read_properties f qs (omega arith))))
          b v h)
  ]

  after_marker :
      (k m : ℕ) (rest : M Any) → Safe bound k rest → Safe (suc bound) 1 (read_marker m >> rest)
  after_marker k m rest h =
      Safe-mono (suc bound) (suc bound) (1 + k) 1 _ (omega arith) (omega arith) (
        Safe-bind (suc bound) 1 bound k (read_marker m) (λ _. rest) (omega arith)
          (Safe-read_marker (suc bound) m) (λ _. h))

  -- A marker, and the properties behind it.
  Safe-read : (v : Any) → Safe (suc bound) 1 (read any bound v)
  unfolding read
  Safe-read (string s) =
      after_marker 2 2 (read_utf8 s >>= λ t. pure (string t))
        (Safe-map bound 2 (read_utf8 s) string (Safe-read_utf8 bound s))
  Safe-read (boolean t) = after_marker (1 + 0) 1 _ (
      Safe-guard bound 1 bound 0 _ read_1bytes _ (omega arith) Takes-read_1bytes
        (λ n. Safe-pure bound (boolean (not (n == 0)))))
  Safe-read (number d) = after_marker (8 + 0) 0 _ (
      Safe-guard bound 8 bound 0 _ read_8bytes _ (omega arith) Takes-read_8bytes
        (λ n. Safe-pure bound (number n)))
  Safe-read null = after_marker 0 5 (pure null) (Safe-pure bound null)
  Safe-read undefined = after_marker 0 6 (pure undefined) (Safe-pure bound undefined)
  Safe-read object_eof =
      Safe-mono (suc bound) (suc bound) 2 1 _ (omega arith) (omega arith) (
        Safe-map (suc bound) 2 read_object_eof (λ _. object_eof) (Safe-read_object_eof (suc bound)))
  Safe-read (object ps) = after_marker 0 3 _ (
      Safe-map bound 0 (read_properties any bound ps) object
        (Safe-read_properties bound ps (omega arith)))
  Safe-read (ecma_array c ps) = after_marker (4 + 0) 8 _ (
      Safe-guard bound 4 bound 0 _ read_4bytes _ (omega arith) Takes-read_4bytes (λ n.
        Safe-map bound 0 (read_properties any bound ps) (ecma_array n)
          (Safe-read_properties bound ps (omega arith))))

Safe-read_any : (fuel : ℕ) → Safe fuel 1 (read_any fuel)
unfolding Safe read_any
Safe-read_any zero b v h = absurd (omega arith)
Safe-read_any (suc fuel) b v h =
    Safe-bind (suc fuel) 0 (suc fuel) 1 discovery (read (read_any fuel) fuel) (omega arith)
      (Safe-discovery (suc fuel)) (Safe-read (read_any fuel) fuel (Safe-read_any fuel)) b v h

-- read_any(stream) on any bytes, valid or not, with fuel for the bytes left: it returns a value,
-- with the cursor moved by a byte at least, still inside the buffer, and the bytes unchanged, or it
-- answers an error code. It ends, no srs_assert fails, and nothing outside the buffer is read.
pub read_any-safe :
    (fuel : ℕ) (b : Buffer) → b.p ≤ length b.bytes → left b < fuel → Good 1 b (read_any fuel b)
unfolding Safe left
read_any-safe fuel b v h = Safe-read_any fuel b v (omega arith)
