-- ===== src/Kernel/Format/Rules.antt =====
-- Parsers of src/kernel/srs_kernel_codec.cpp on any bytes: which steps are safe whatever stands in
-- the buffer, and how far they move the cursor.
use srs_simple.Base.{
  ℕ, ◌+◌, ◌≡◌, ◌≤◌, refl, sym, subst, Bool, true, false, leb, if◌then◌else◌, leb→le, le→leb, List,
  length, take, drop, Outcome, ok, err, aborted, fault, stuck, ErrorCode, arith, inl, inr,
  Bool-cases,
}
use srs_simple.Base.Int.{ℤ}
use srs_simple.Kernel.Buffer.{Buffer, M, require_or, skip}
use srs_simple.Kernel.Buffer.Safe.{Takes}
use srs_simple.Kernel.Format.{Parser, after, ◌>>=◌, ◌>>◌, pure, lift, modify, head_left, head_bytes}
use srs_simple.Kernel.Format.Sps.Total.{require_or-ok, require_or-err}

module _ {S : Type 0} (Keeps : S → Type 0) (bytes : List ℕ) where
  -- The call ends with an error code, or with the cursor from a place on, inside the same bytes, and
  -- with a state that keeps what it must.
  abbrev pub Good : {A : Type 0} → ℕ → Outcome (A × Buffer) × S → Type 0
  Good lo (ok (a, c), s) = (c.bytes ≡ bytes) × (lo ≤ c.p) × (c.p ≤ length bytes) × Keeps s
  Good lo (err e, s) = Unit
  Good lo (aborted, s) = ⊥
  Good lo (fault, s) = ⊥
  Good lo (stuck, s) = ⊥

  abbrev at : ℕ → Buffer
  at p = record { bytes = bytes; p = p }

  -- With q bytes left, a parser is good and moves by k.
  unfoldable pub Safe : {A : Type 0} → ℕ → ℕ → Parser S A → Type 0
  Safe q k m = (s : S) (p : ℕ) → p + q ≤ length bytes → Keeps s → Good (p + k) (m s (at p))

  pub Safe-pure : {A : Type 0} (q : ℕ) (a : A) → Safe q 0 (pure a)
  unfolding Safe
  Safe-pure q a s p h v = (refl, omega arith, omega arith, v)

  pub Safe-require :
      {A : Type 0} (q k : ℕ) (e : ErrorCode) (m : Parser S A)
      → Safe q k m
      → Safe 0 k (lift (require_or q e) >> m)
  unfolding Safe
  Safe-require q k e m hm s p h v = elim (Bool-cases (leb (p + q) (length bytes))) [
    | inl t ↦
        subst (λ (o : Outcome (Unit {0} × Buffer)). Good (p + k) (after (λ _. m) o s))
          (sym (require_or-ok q e (at p) t)) (hm s p (leb→le (p + q) (length bytes) t) v)
    | inr t ↦
        subst (λ (o : Outcome (Unit {0} × Buffer)). Good (p + k) (after (λ _. m) o s))
          (sym (require_or-err q e (at p) t)) tt
  ]

  pub Safe-take :
      {A B : Type 0} (n q k : ℕ) (m : M A) (f : A → Parser S B)
      → Takes n m
      → ((a : A) → Safe q k (f a))
      → Safe (n + q) (n + k) (lift m >>= f)
  unfolding Safe
  Safe-take n q k m f hm hf s p h v =
      let t = hm (at p) (omega (arith, h)) in
      subst (λ (o : Outcome (_ × Buffer)). Good (p + (n + k)) (after f o s)) (sym t.1)
        (subst (λ j. Good j (f t.0 s (at (p + n)))) (omega arith)
          (hf t.0 s (p + n) (omega (arith, h)) v))

  pub Safe-head_left :
      {B : Type 0} (q k : ℕ) (f : List ℕ → Parser S B)
      → ((p : ℕ) → Safe q k (f (drop p bytes)))
      → Safe q k (lift head_left >>= f)
  unfolding Safe head_left
  Safe-head_left q k f hf s p h v = hf p s p h v

  pub Safe-head_bytes :
      {B : Type 0} (n q k : ℕ) (f : List ℕ → Parser S B)
      → n ≤ q
      → ((p : ℕ) → Safe q k (f (take n (drop p bytes))))
      → Safe q k (lift (head_bytes n) >>= f)
  unfolding Safe head_bytes
  Safe-head_bytes n q k f l hf s p h v =
      subst
        (λ (t : Bool).
          Good (p + k) (after f (if t then ok (take n (drop p bytes), at p) else fault) s))
        (sym (le→leb (p + n) (length bytes) (omega (arith, l, h)))) (hf p s p h v)

  pub Safe-modify :
      {B : Type 0} (q k : ℕ) (g : S → S) (m : Parser S B)
      → ((s : S) → Keeps s → Keeps (g s))
      → Safe q k m
      → Safe q k (modify g >> m)
  unfolding Safe
  Safe-modify q k g m hg hm s p h v = hm (g s) p h (hg s v)

  pub Safe-skip_last : (n : ℕ) → Safe n n (lift (skip (ℤ.pos n)))
  unfolding Safe skip
  Safe-skip_last n s p h v =
      subst (λ (t : Bool). Good (p + n) ((if t then ok (tt, at (p + n)) else aborted), s))
        (sym (le→leb (p + n) (length bytes) h)) (refl, omega arith, h, v)

  pub Safe-skip :
      {B : Type 0} (n q k : ℕ) (m : Parser S B)
      → Safe q k m
      → Safe (n + q) (n + k) (lift (skip (ℤ.pos n)) >> m)
  unfolding Safe skip
  Safe-skip n q k m hm s p h v =
      subst
        (λ (t : Bool).
          Good (p + (n + k)) (after (λ _. m) (if t then ok (tt, at (p + n)) else aborted) s))
        (sym (le→leb (p + n) (length bytes) (omega (arith, h))))
        (subst (λ j. Good j (m s (at (p + n)))) (omega arith) (hm s (p + n) (omega (arith, h)) v))

  Good-less : {A : Type 0} (l k : ℕ) (r : Outcome (A × Buffer) × S) → l ≤ k → Good k r → Good l r
  Good-less l k (ok (a, c), s) h g = (g.0, omega (arith, h, g.1), g.2, g.3)
  Good-less l k (err e, s) h g = tt
  Good-less l k (aborted, s) h g = g
  Good-less l k (fault, s) h g = g
  Good-less l k (stuck, s) h g = g

  -- Behind a good call, at the place where it left the cursor.
  pub Good-after :
      {A B : Type 0} (lo k : ℕ) (f : A → Parser S B) (r : Outcome (A × Buffer) × S)
      → Good lo r
      → ((a : A) (s : S) (p : ℕ) → lo ≤ p → p ≤ length bytes → Keeps s → Good k (f a s (at p)))
      → Good k (after f r.0 r.1)
  Good-after lo k f (ok (a, c), s) g h =
      subst (λ (d : Buffer). Good k (f a s d)) (λ i. record { bytes = sym g.0 i; p = c.p })
        (h a s c.p g.1 g.2 g.3)
  Good-after lo k f (err e, s) g h = tt
  Good-after lo k f (aborted, s) g h = g
  Good-after lo k f (fault, s) g h = g
  Good-after lo k f (stuck, s) g h = g

  Good-bind :
      {A B : Type 0} (lo : ℕ) (f : A → Parser S B) (r : Outcome (A × Buffer) × S)
      → Good lo r
      → ((a : A) → Safe 0 0 (f a))
      → Good lo (after f r.0 r.1)
  unfolding Safe
  Good-bind lo f r g h = Good-after lo lo f r g (λ a s p l b v.
      Good-less lo (p + 0) (f a s (at p)) (omega (arith, l)) (h a s p (omega (arith, b)) v))

  pub Safe-bind :
      {A B : Type 0} (q k : ℕ) (m : Parser S A) (f : A → Parser S B)
      → Safe q k m
      → ((a : A) → Safe 0 0 (f a))
      → Safe q k (m >>= f)
  unfolding Safe
  Safe-bind q k m f hm hf s p h v = Good-bind (p + k) f (m s (at p)) (hm s p h v) hf

  pub Safe-if :
      {A : Type 0} (q k : ℕ) (t : Bool) (m m' : Parser S A)
      → Safe q k m
      → Safe q k m'
      → Safe q k (if t then m else m')
  Safe-if q k true m m' h h' = h
  Safe-if q k false m m' h h' = h'

  -- More bytes left, or less progress.
  pub Safe-mono :
      {A : Type 0} (q q' k k' : ℕ) (m : Parser S A) → q ≤ q' → k' ≤ k → Safe q k m → Safe q' k' m
  unfolding Safe
  Safe-mono q q' k k' m hq hk hm s p h v =
      Good-less (p + k') (p + k) (m s (at p)) (omega (arith, hk)) (hm s p (omega (arith, h, hq)) v)
