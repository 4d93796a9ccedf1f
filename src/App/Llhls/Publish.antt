-- ===== src/App/Llhls/Publish.antt =====
-- What publishing a part does to SrsLlHlsStorage (src/app/srs_app_llhls.cpp).
use srs_simple.Base.{
  ℕ, suc, ◌-◌, ◌≡◌, refl, sym, ap, subst, ◌∙◌, ◌⊎◌, inl, inr, Bool, not, ltb, List, [], ◌∷◌, ◌&&◌,
  length, Option, none, some, Option-cases, if_cases, arith,
}
use srs_simple.Base.Int.{ℤ, pos, sub_ℕ}
use srs_simple.App.Llhls.{
  Segment, Storage, init, back, on_back, is_open, new_segment, add_part, complete, complete_tail,
  shrink, open_segment, push_part, set_latest, close_if, append_part, on_unpublish,
  refresh_playlist,
}
use srs_simple.App.Llhls.Window.{
  IsSegment, IsWindow, add_part-IsSegment, on_back-IsWindow, append-IsWindow, on_back-append,
  back-on_back, back-append, back-msn, shrink-IsWindow,
}

-- The part number of the last part of the last segment.
abbrev pub IsTail : Option Segment → ℤ → Type 0
IsTail none psn = Unit
IsTail (some s) psn = psn ≡ pos (length s.parts - 1)

-- The segments have consecutive numbers up to next_msn, and the latest position is the last part
-- that was added.
pub record IsStorage {C : Type 0} (t : Storage C) : Type 0 where
  pub first : ℕ
  pub window : IsWindow first t.segments t.next_msn
  pub latest : t.latest_msn ≡ sub_ℕ t.next_msn 1
  pub tail : IsTail (back t.segments) t.latest_psn

IsTail-on_back :
    (f : Segment → Segment) (ss : List Segment) (psn : ℤ)
    → ((s : Segment) → length (f s).parts ≡ length s.parts)
    → IsTail (back ss) psn
    → IsTail (back (on_back f ss)) psn
IsTail-on_back f [] psn m h = tt
IsTail-on_back f (s ∷ []) psn m h = h ∙ ap (λ n. pos (n - 1)) (sym (m s))
IsTail-on_back f (s ∷ s' ∷ []) psn m h = IsTail-on_back f (s' ∷ []) psn m h
IsTail-on_back f (s ∷ s' ∷ s'' ∷ ss) psn m h = IsTail-on_back f (s' ∷ s'' ∷ ss) psn m h

IsTail-shrink :
    (m : ℕ) (ss : List Segment) (psn : ℤ) → IsTail (back ss) psn → IsTail (back (shrink m ss)) psn
unfolding shrink
IsTail-shrink m [] psn h = tt
IsTail-shrink m (s ∷ []) psn h =
    if_cases (λ ts. IsTail (back ts) psn) (ltb m 1 && s.completed) [] (s ∷ []) (λ _. tt) (λ _. h)
IsTail-shrink m (s ∷ s' ∷ ss) psn h =
    if_cases (λ ts. IsTail (back ts) psn) (ltb m (length (s ∷ s' ∷ ss)) && s.completed)
      (shrink m (s' ∷ ss)) (s ∷ s' ∷ ss) (λ _. IsTail-shrink m (s' ∷ ss) psn h) (λ _. h)

init-IsStorage : {C : Type 0} (max_segments : ℕ) (c : C) → IsStorage (init max_segments c)
unfolding init
init-IsStorage max_segments c = record { first = 0; window = refl; latest = refl; tail = tt }

complete-IsSegment : (s : Segment) → IsSegment s → IsSegment (complete s)
unfolding complete
complete-IsSegment s g = record {
  some_part = g.some_part;
  numbered = g.numbered;
  summed = g.summed;
}

complete_tail_lem :
    (s : Segment)
    → ((complete_tail s).msn ≡ s.msn)
      × (length (complete_tail s).parts ≡ length s.parts)
      × (IsSegment s → IsSegment (complete_tail s))
unfolding complete_tail complete
complete_tail_lem s =
    if_cases {A = Segment}
      (λ u. (u.msn ≡ s.msn) × (length u.parts ≡ length s.parts) × (IsSegment s → IsSegment u))
      (not s.completed && ltb 0 (length s.parts)) _ _ (λ _. (refl, refl, complete-IsSegment s))
      (λ _. (refl, refl, λ g. g))

pub pos-last : (m n : ℕ) → suc m ≡ n → pos m ≡ sub_ℕ n 1
pos-last m n e = ground (arith, e)

module _ {C : Type 0} where
  set_latest-IsStorage :
      (t : Storage C) (k : ℕ) (s : Segment)
      → IsWindow k t.segments t.next_msn
      → back t.segments ≡ some s
      → IsStorage (set_latest (back t.segments) t)
  unfolding set_latest
  set_latest-IsStorage t k s w e =
      subst (λ o. IsStorage (set_latest o t)) (sym e)
        record {
          first = k;
          window = w;
          latest = pos-last s.msn t.next_msn (back-msn k t.segments t.next_msn s w e).0;
          tail = subst (λ o. IsTail o (pos (length s.parts - 1))) (sym e) refl;
        }

  -- The last segment with the new part, behind open_segment.
  pub record IsPushed (f : Segment → Segment) (t : Storage C) (ss : List Segment) (n : ℕ)
      : Type 0 where
    pub first : ℕ
    pub window : IsWindow first ss n
    pub last : Segment
    pub at_back : back ss ≡ some (f last)
    pub origin :
        ((back t.segments ≡ some last) × (n ≡ t.next_msn))
        ⊎ ((last ≡ new_segment t.next_msn) × (n ≡ suc t.next_msn))

  pub push-IsPushed :
      (payload : List ℕ) (duration : ℤ) (independent : Bool) (t : Storage C)
      → IsStorage t
      → IsPushed
          (add_part payload duration independent)
          t
          (on_back (add_part payload duration independent) (open_segment t).segments)
          (open_segment t).next_msn
  unfolding open_segment new_segment add_part
  push-IsPushed payload duration independent t v =
      if_cases {A = Storage C} (λ u. IsPushed f t (on_back f u.segments) u.next_msn)
        (is_open (back t.segments)) _ _
        (λ e. elim (Option-cases (back t.segments)) [
          | inl q ↦ absurd (ground (arith, e, q))
          | inr (s, q) ↦ record {
            first = v.first;
            window = on_back-IsWindow f v.first t.segments t.next_msn (λ _. refl) adds v.window;
            last = s;
            at_back = back-on_back f t.segments s q;
            origin = inl (q, refl);
          }
        ])
        (λ e. record {
          first = v.first;
          window =
              subst (λ ss. IsWindow v.first ss (suc t.next_msn))
                (sym (on_back-append f t.segments fresh))
                (append-IsWindow v.first t.segments t.next_msn (f fresh) e refl
                  (add_part-IsSegment payload duration independent fresh (tt, refl)) v.window);
          last = fresh;
          at_back = ap back (on_back-append f t.segments fresh) ∙ back-append t.segments (f fresh);
          origin = inr (refl, refl);
        })
    where
      f : Segment → Segment
      f = add_part payload duration independent

      fresh : Segment
      fresh = new_segment t.next_msn

      adds : (s : Segment) → IsSegment s → IsSegment (f s)
      adds s g = add_part-IsSegment payload duration independent s (g.numbered, g.summed)

  close_if-IsStorage : (c : Bool) (t : Storage C) → IsStorage t → IsStorage (close_if c t)
  unfolding close_if complete
  close_if-IsStorage c t v =
      if_cases IsStorage c _ _
        (λ _.
          let w = shrink-IsWindow t.max_segments v.first (on_back complete t.segments) t.next_msn (
            on_back-IsWindow complete v.first t.segments t.next_msn (λ _. refl) complete-IsSegment
              v.window) in
          record {
            first = w.0;
            window = w.2;
            latest = v.latest;
            tail =
                IsTail-shrink t.max_segments (on_back complete t.segments) t.latest_psn
                  (IsTail-on_back complete t.segments t.latest_psn (λ _. refl) v.tail);
          })
        (λ _. v)

  -- push_part and what it is about: the storage with the new part in the last segment.
  push_part-IsStorage :
      (payload : List ℕ) (duration : ℤ) (independent : Bool) (t : Storage C)
      → IsStorage t
      → IsStorage (push_part payload duration independent (open_segment t))
  unfolding push_part
  push_part-IsStorage payload duration independent t v =
      let g = push-IsPushed payload duration independent t v in
      set_latest-IsStorage
        (record (open_segment t) {
          segments = on_back (add_part payload duration independent) (open_segment t).segments;
        })
        g.first (add_part payload duration independent g.last) g.window g.at_back

  module _ (generate : C → List Segment → Bool → List ℕ) where
    refresh-IsStorage : (t : Storage C) → IsStorage t → IsStorage (refresh_playlist generate t)
    unfolding refresh_playlist
    refresh-IsStorage t v = record {
      first = v.first;
      window = v.window;
      latest = v.latest;
      tail = v.tail;
    }

    -- append_part keeps the storage valid: the segments have consecutive numbers up to next_msn, each
    -- but the last is completed and each has a part, the parts of each are numbered from 0 and its
    -- duration is the sum of theirs, and the latest position is that of the last part.
    pub append_part-IsStorage :
        (payload : List ℕ) (duration : ℤ) (independent close_segment : Bool) (t : Storage C)
        → IsStorage t
        → IsStorage (append_part generate payload duration independent close_segment t)
    unfolding append_part
    append_part-IsStorage payload duration independent close_segment t v =
        refresh-IsStorage _ (
          close_if-IsStorage close_segment _ (push_part-IsStorage payload duration independent t v))

    pub on_unpublish-IsStorage : (t : Storage C) → IsStorage t → IsStorage (on_unpublish generate t)
    unfolding on_unpublish complete_tail complete
    on_unpublish-IsStorage t v = refresh-IsStorage _ record {
      first = v.first;
      window =
          on_back-IsWindow complete_tail v.first t.segments t.next_msn
            (λ s. (complete_tail_lem s).0) (λ s. (complete_tail_lem s).2) v.window;
      latest = v.latest;
      tail =
          IsTail-on_back complete_tail t.segments t.latest_psn (λ s. (complete_tail_lem s).1)
            v.tail;
    }
