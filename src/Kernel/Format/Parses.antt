-- ===== src/Kernel/Format/Parses.antt =====
-- Parsers of src/kernel/srs_kernel_codec.cpp on bytes that are known: `Parses post m s out v s'` says
-- that m, in the state s and with `out` and then `post` at the cursor, passes `out`, returns v and
-- leaves s'.
use srs_simple.Base.{
  ℕ, ◌+◌, ◌≡◌, ◌≤◌, sym, ap, subst, ◌∙◌, Bool, le→leb, if◌then◌else◌, List, [], ◌++◌, append_assoc,
  append-nil, length, length-append, take, drop, take-append_length, drop-append_length, Outcome,
  ok, err, fault, aborted, ErrorCode, arith,
}
use srs_simple.Base.Int.{ℤ}
use srs_simple.Kernel.Buffer.{Buffer, M, require_or, skip}
use srs_simple.Kernel.Buffer.Cursor.{cursor, require_or-cursor}
use srs_simple.Kernel.Buffer.Reads.{Reads}
use srs_simple.Kernel.Format.{Parser, after, ◌>>=◌, ◌>>◌, pure, lift, modify, head_left, head_bytes}

pub Reads-skip : (x : List ℕ) → Reads (skip (ℤ.pos (length x))) x tt
unfolding skip
Reads-skip x pre post =
    ap
      (λ (t : Bool).
        if t
        then ok (tt, record { bytes = pre ++ (x ++ post); p = length pre + length x })
        else aborted)
      (le→leb (length pre + length x) (length (pre ++ (x ++ post)))
        (omega (arith, length-append pre (x ++ post), length-append x post)))
    ∙ (λ i.
        ok
          (tt, record { bytes = sym (append_assoc pre x post) i; p = sym (length-append pre x) i }))

module _ {S : Type 0} where
  unfoldable pub Parses : {A : Type 0} → List ℕ → Parser S A → S → List ℕ → A → S → Type 0
  Parses post m s out v s' =
      (pre : List ℕ) → m s (cursor pre (out ++ post)) ≡ (ok (v, cursor (pre ++ out) post), s')

  pub Parses-pure : {A : Type 0} (post : List ℕ) (s : S) (a : A) → Parses post (pure a) s [] a s
  unfolding Parses
  Parses-pure post s a pre = ap (λ l. (ok (a, cursor l post), s)) (sym (append-nil pre))

  pub Parses-bind :
      {A B : Type 0} (post : List ℕ) (m : Parser S A) (f : A → Parser S B) (o1 o2 : List ℕ)
      (s s1 s2 : S) (a : A) (v : B)
      → Parses (o2 ++ post) m s o1 a s1
      → Parses post (f a) s1 o2 v s2
      → Parses post (m >>= f) s (o1 ++ o2) v s2
  unfolding Parses
  Parses-bind post m f o1 o2 s s1 s2 a v hm hf pre =
      ap (λ l. after f (m s (cursor pre l)).0 (m s (cursor pre l)).1) (append_assoc o1 o2 post)
      ∙ ap (λ (r : Outcome (_ × Buffer) × S). after f r.0 r.1) (hm pre)
      ∙ hf (pre ++ o1)
      ∙ ap (λ l. (ok (v, cursor l post), s2)) (append_assoc pre o1 o2)

  pub Parses-lift :
      {A : Type 0} (post : List ℕ) (m : M A) (out : List ℕ) (s : S) (a : A)
      → Reads m out a
      → Parses post (lift m) s out a s
  unfolding Parses
  Parses-lift post m out s a h pre = ap (λ (o : Outcome (_ × Buffer)). (o, s)) (h pre post)

  -- A read, and what depends on it.
  pub Parses-read :
      {A B : Type 0} (post : List ℕ) (m : M A) (f : A → Parser S B) (o1 o2 : List ℕ) (s s' : S)
      (a : A) (v : B)
      → Reads m o1 a
      → Parses post (f a) s o2 v s'
      → Parses post (lift m >>= f) s (o1 ++ o2) v s'
  Parses-read post m f o1 o2 s s' a v hm hf =
      Parses-bind post (lift m) f o1 o2 s s s' a v (Parses-lift (o2 ++ post) m o1 s a hm) hf

  pub Parses-require :
      {B : Type 0} (post : List ℕ) (n : ℕ) (e : ErrorCode) (m : Parser S B) (out : List ℕ)
      (s s' : S) (v : B)
      → n ≤ length out
      → Parses post m s out v s'
      → Parses post (lift (require_or n e) >> m) s out v s'
  unfolding Parses
  Parses-require post n e m out s s' v l h pre =
      ap (λ (o : Outcome (Unit {0} × Buffer)). after (λ _. m) o s)
        (require_or-cursor n e pre (out ++ post)
          ∙ ap (λ t. if t then ok (tt, cursor pre (out ++ post)) else err e)
              (le→leb n (length (out ++ post)) (omega (arith, l, length-append out post))))
      ∙ h pre

  pub Parses-modify :
      {B : Type 0} (post : List ℕ) (g : S → S) (m : Parser S B) (out : List ℕ) (s s' : S) (v : B)
      → Parses post m (g s) out v s'
      → Parses post (modify g >> m) s out v s'
  unfolding Parses
  Parses-modify post g m out s s' v h pre = h pre

  pub Parses-head_left :
      {B : Type 0} (post : List ℕ) (f : List ℕ → Parser S B) (out : List ℕ) (s s' : S) (v : B)
      → Parses post (f (out ++ post)) s out v s'
      → Parses post (lift head_left >>= f) s out v s'
  unfolding Parses head_left
  Parses-head_left post f out s s' v h pre =
      ap (λ l. f l s (cursor pre (out ++ post))) (drop-append_length pre (out ++ post)) ∙ h pre

  pub Parses-head_bytes :
      {B : Type 0} (post x : List ℕ) (f : List ℕ → Parser S B) (out : List ℕ) (s s' : S) (v : B)
      → Parses post (f x) s (x ++ out) v s'
      → Parses post (lift (head_bytes (length x)) >>= f) s (x ++ out) v s'
  unfolding Parses head_bytes
  Parses-head_bytes post x f out s s' v h pre =
      ap
        (λ (t : Bool).
          after f
            (if t
              then ok (
                take (length x) (drop (length pre) (pre ++ ((x ++ out) ++ post))),
                cursor pre ((x ++ out) ++ post),
              )
              else fault)
            s)
        (le→leb (length pre + length x) (length (pre ++ ((x ++ out) ++ post))) (
          omega (
            arith,
            length-append pre ((x ++ out) ++ post),
            length-append (x ++ out) post,
            length-append x out,
          )))
      ∙ ap (λ l. f l s (cursor pre ((x ++ out) ++ post)))
          (ap (take (length x))
              (drop-append_length pre ((x ++ out) ++ post) ∙ append_assoc x out post)
            ∙ take-append_length x (out ++ post))
      ∙ h pre

  -- A step over bytes, and what follows.
  pub Parses-skip :
      {B : Type 0} (post x : List ℕ) (m : Parser S B) (out : List ℕ) (s s' : S) (v : B)
      → Parses post m s out v s'
      → Parses post (lift (skip (ℤ.pos (length x))) >> m) s (x ++ out) v s'
  Parses-skip post x m out s s' v h =
      Parses-read post (skip (ℤ.pos (length x))) (λ _. m) x out s s' tt v (Reads-skip x) h

  -- A state that is another one.
  pub Parses-state :
      {A : Type 0} (post : List ℕ) (m : Parser S A) (out : List ℕ) (s s' s2 : S) (v : A)
      → s' ≡ s2
      → Parses post m s out v s'
      → Parses post m s out v s2
  Parses-state post m out s s' s2 v e h = subst (λ q. Parses post m s out v q) e h
