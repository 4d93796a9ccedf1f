-- ===== src/Kernel/Buffer/Safe.antt =====
-- Readers of src/kernel/srs_kernel_buffer.cpp on any bytes at all: which calls are safe whatever
-- stands in the buffer, and how far they move the cursor.
use srs_simple.Base.{
  ℕ, ◌+◌, ◌≡◌, refl, sym, ap, subst, ◌∙◌, ◌≤◌, ◌<◌, Bool, true, false, leb, if◌then◌else◌, le→leb,
  leb→le, length, take, drop, get_elem?-lt, Outcome, ErrorCode, ok, err, aborted, fault, stuck,
  arith, inl, inr, Bool-cases,
}
use srs_simple.Kernel.Buffer.{
  Buffer, M, ◌>>=◌, ◌>>◌, pure, next, next_bytes, assert_require, require_or, read_1bytes,
  read_2bytes, read_3bytes, read_4bytes, read_8bytes, read_string, require,
}
use srs_simple.Kernel.Buffer.Reads.{>>=-ok}
use srs_simple.Kernel.Buffer.Writes.{>>-ok, >>-err}

-- With n bytes left, m takes just n and returns a value.
abbrev pub Takes : {A : Type 0} → ℕ → M A → Type 0
Takes {A} n m =
    (b : Buffer) → b.p + n ≤ length b.bytes → (a : A) × (m b ≡ ok (a, record b { p = b.p + n }))

-- The call ends well: with a value, k bytes further at least, inside the buffer and with the bytes
-- as they were, or with an error code.
abbrev pub Good : {A : Type 0} → ℕ → Buffer → Outcome (A × Buffer) → Type 0
Good k b (ok (a, c)) = (c.bytes ≡ b.bytes) × (b.p + k ≤ c.p) × (c.p ≤ length c.bytes)
Good k b (err e) = Unit {0}
Good k b aborted = ⊥
Good k b fault = ⊥
Good k b stuck = ⊥

-- So it is for every buffer with fewer than n bytes left.
unfoldable pub Safe : {A : Type 0} → ℕ → ℕ → M A → Type 0
Safe n k m = (b : Buffer) → b.p ≤ length b.bytes → length b.bytes < b.p + n → Good k b (m b)

Good-weaken :
    {A : Type 0} (k l : ℕ) (b c : Buffer) (r : Outcome (A × Buffer))
    → c.bytes ≡ b.bytes
    → b.p + k ≤ c.p
    → Good l c r
    → Good (k + l) b r
Good-weaken k l b c (ok (a, d)) e h g = (g.0 ∙ e, omega arith, g.2)
Good-weaken k l b c (err x) e h g = tt
Good-weaken k l b c aborted e h g = g
Good-weaken k l b c fault e h g = g
Good-weaken k l b c stuck e h g = g

Good-bind :
    {A B : Type 0} (n k j l : ℕ) (b : Buffer) (r : Outcome (A × Buffer)) (f : A → M B)
    → n ≤ j + k
    → length b.bytes < b.p + n
    → Good k b r
    → ((a : A) → Safe j l (f a))
    → Good (k + l) b (◌>>=◌ (λ _. r) f b)
unfolding Safe
Good-bind n k j l b (ok (a, c)) f le h g hf =
    Good-weaken k l b c (f a c) g.0 g.1 (hf a c g.2 (omega (arith, ap length g.0)))
Good-bind n k j l b (err x) f le h g hf = tt
Good-bind n k j l b aborted f le h g hf = g
Good-bind n k j l b fault f le h g hf = g
Good-bind n k j l b stuck f le h g hf = g

pub Safe-bind :
    {A B : Type 0} (n k j l : ℕ) (m : M A) (f : A → M B)
    → n ≤ j + k
    → Safe n k m
    → ((a : A) → Safe j l (f a))
    → Safe n (k + l) (m >>= f)
unfolding Safe
Safe-bind n k j l m f le hm hf b v h = Good-bind n k j l b (m b) f le h (hm b v h) hf

pub Safe-pure : {A : Type 0} (n : ℕ) (a : A) → Safe n 0 (pure a)
unfolding Safe
Safe-pure n a b v h = (refl, omega arith, v)

pub Safe-if :
    {A : Type 0} (n k : ℕ) (t : Bool) (m m' : M A)
    → Safe n k m
    → Safe n k m'
    → Safe n k (if t then m else m')
unfolding Safe
Safe-if n k true m m' h h' = h
Safe-if n k false m m' h h' = h'

-- A check and the read that it allows.
pub Safe-guard :
    {A B : Type 0} (n k j l : ℕ) (e : ErrorCode) (m : M A) (f : A → M B)
    → n ≤ j + k
    → Takes k m
    → ((a : A) → Safe j l (f a))
    → Safe n (k + l) (require_or k e >> (m >>= f))
unfolding Safe require_or require
Safe-guard n k j l e m f le hm hf b v h = elim (Bool-cases (leb (b.p + k) (length b.bytes))) [
  | inl t ↦
      let (a, r) = hm b (leb→le (b.p + k) (length b.bytes) t) in
      subst (Good (k + l) b) (sym (>>-ok (require_or k e) (m >>= f) b (rw t) ∙ >>=-ok m f b r)) (
        Good-weaken k l b (record b { p = b.p + k }) (f a (record b { p = b.p + k })) refl
          (omega arith)
          (hf a (record b { p = b.p + k }) (leb→le (b.p + k) (length b.bytes) t) (omega arith)))
  | inr t ↦ subst (Good (k + l) b) (sym (>>-err (require_or k e) (m >>= f) b {e = e} (rw t))) tt
]

moved_by : (b : Buffer) (q : ℕ) → b.p ≡ q → ◌≡◌ {A = Buffer} b (record b { p = q })
moved_by b q h i = record { bytes = b.bytes; p = h i }

pub Takes-pure : {A : Type 0} (a : A) → Takes 0 (pure a)
Takes-pure a b h = (a, ap (λ c. ok (a, c)) (moved_by b (b.p + 0) (omega arith)))

pub Takes-next : Takes 1 next
unfolding next
Takes-next b h = let (x, e) = get_elem?-lt b.bytes b.p (omega arith) in (x, rw (e, next))

pub Takes-bind :
    {A B : Type 0} (n k : ℕ) (m : M A) (f : A → M B)
    → Takes n m
    → ((a : A) → Takes k (f a))
    → Takes (n + k) (m >>= f)
Takes-bind n k m f hm hf b h =
    let (a, e) = hm b (omega arith) in
    let (c, e') = hf a (record b { p = b.p + n }) (omega arith) in
    (c, >>=-ok m f b e ∙ e' ∙ ap (λ q. ok (c, record b { p = q })) (omega arith))

pub Takes-assert : {A : Type 0} (n : ℕ) (m : M A) → Takes n m → Takes n (assert_require n >> m)
unfolding assert_require require
Takes-assert n m hm b h =
    let (a, e) = hm b h in
    (a, >>-ok (assert_require n) m b (rw (le→leb (b.p + n) (length b.bytes) h)) ∙ e)

-- One more byte.
Takes-byte :
    {A : Type 0} (k : ℕ) (f : ℕ → M A) → ((x : ℕ) → Takes k (f x)) → Takes (1 + k) (next >>= f)
Takes-byte k f h = Takes-bind 1 k next f Takes-next h

pub Takes-read_1bytes : Takes 1 read_1bytes
unfolding read_1bytes
Takes-read_1bytes = Takes-assert 1 next Takes-next

pub Takes-read_2bytes : Takes 2 read_2bytes
unfolding read_2bytes
Takes-read_2bytes = Takes-assert 2 _ (Takes-byte 1 _ (λ x1. Takes-byte 0 _ (λ x0. Takes-pure _)))

pub Takes-read_3bytes : Takes 3 read_3bytes
unfolding read_3bytes
Takes-read_3bytes =
    Takes-assert 3 _
      (Takes-byte 2 _ (λ x2. Takes-byte 1 _ (λ x1. Takes-byte 0 _ (λ x0. Takes-pure _))))

pub Takes-read_4bytes : Takes 4 read_4bytes
unfolding read_4bytes
Takes-read_4bytes = Takes-assert 4 _ (
    Takes-byte 3 _
      (λ x3. Takes-byte 2 _ (λ x2. Takes-byte 1 _ (λ x1. Takes-byte 0 _ (λ x0. Takes-pure _)))))

pub Takes-read_8bytes : Takes 8 read_8bytes
unfolding read_8bytes
Takes-read_8bytes = Takes-assert 8 _ (
    Takes-byte 7 _ (λ x7. Takes-byte 6 _ (λ x6. Takes-byte 5 _ (λ x5. Takes-byte 4 _ (λ x4.
      Takes-byte 3 _ (λ x3.
        Takes-byte 2 _ (λ x2. Takes-byte 1 _ (λ x1. Takes-byte 0 _ (λ x0. Takes-pure _)))))))))

Takes-next_bytes : (len : ℕ) → Takes len (next_bytes len)
unfolding next_bytes
Takes-next_bytes len b h = (take len (drop b.p b.bytes), rw (le→leb (b.p + len) (length b.bytes) h))

pub Takes-read_string : (len : ℕ) → Takes len (read_string len)
unfolding read_string
Takes-read_string len = Takes-assert len (next_bytes len) (Takes-next_bytes len)

-- A guarded read at the end of a reader.
pub Safe-last :
    {A : Type 0} (n k : ℕ) (e : ErrorCode) (m : M A) → Takes k m → Safe n k (require_or k e >> m)
unfolding Safe require_or require
Safe-last n k e m hm b v h = elim (Bool-cases (leb (b.p + k) (length b.bytes))) [
  | inl t ↦
      let (a, r) = hm b (leb→le (b.p + k) (length b.bytes) t) in
      subst (Good k b) (sym (>>-ok (require_or k e) m b (rw t) ∙ r))
        (refl, omega arith, leb→le (b.p + k) (length b.bytes) t)
  | inr t ↦ subst (Good k b) (sym (>>-err (require_or k e) m b {e = e} (rw t))) tt
]

Good-less :
    {A : Type 0} (k l : ℕ) (b : Buffer) (r : Outcome (A × Buffer)) → l ≤ k → Good k b r → Good l b r
Good-less k l b (ok (a, c)) h g = (g.0, omega arith, g.2)
Good-less k l b (err e) h g = tt
Good-less k l b aborted h g = g
Good-less k l b fault h g = g
Good-less k l b stuck h g = g

-- Fewer bytes left, or less progress.
pub Safe-mono : {A : Type 0} (n n' k k' : ℕ) (m : M A) → n' ≤ n → k' ≤ k → Safe n k m → Safe n' k' m
unfolding Safe
Safe-mono n n' k k' m hn hk hm b v h = Good-less k k' b (m b) hk (hm b v (omega arith))

-- A last step that only wraps the result.
pub Safe-map :
    {A B : Type 0} (n k : ℕ) (m : M A) (g : A → B) → Safe n k m → Safe n k (m >>= λ v. pure (g v))
Safe-map n k m g hm =
    Safe-mono n n (k + 0) k _ (omega arith) (omega arith)
      (Safe-bind n k n 0 m (λ v. pure (g v)) (omega arith) hm (λ a. Safe-pure n (g a)))
