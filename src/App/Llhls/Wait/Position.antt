-- ===== src/App/Llhls/Wait/Position.antt =====
-- The position of the latest part, and what it says of reached (src/app/srs_app_llhls.cpp).
use srs_simple.Base.{
  ℕ, zero, suc, ◌+◌, ◌-◌, ◌≤◌, ◌≡◌, refl, sym, ap, subst, ◌∙◌, ◌⊎◌, inl, inr, Bool, true, false,
  not, if◌then◌else◌, List, length, length-append, Option, some, [], ◌∷◌, if_cases, arith,
}
use srs_simple.Base.Int.{ℤ, pos, negsuc, sub_ℕ, ltb_ℤ, leb_ℤ, eqb_ℤ}
use srs_simple.App.Llhls.{
  Segment, Storage, reached, is_expired, front_msn, append_part, add_part, new_segment,
  open_segment, push_part, set_latest, close_if, refresh_playlist, on_back, on_unpublish,
}
use srs_simple.App.Llhls.Window.{IsWindow, IsWindow-le, back-msn}
use srs_simple.App.Llhls.Publish.{
  IsStorage, IsTail, IsPushed, push-IsPushed, pos-last, append_part-IsStorage,
  on_unpublish-IsStorage,
}

-- reached, by the latest position alone.
unfoldable pub behind : ℤ → ℤ → ℤ → ℤ → Bool
behind latest_msn latest_psn msn psn =
    if ltb_ℤ latest_msn (pos 0)
    then false
    else (if not (eqb_ℤ latest_msn msn)
        then ltb_ℤ msn latest_msn
        else leb_ℤ (if ltb_ℤ psn (pos 0) then pos 0 else psn) latest_psn)

behind-part :
    (m p : ℤ) (l : ℤ) (a : ℕ) → behind l (pos a) m p ≡ true → behind l (pos (suc a)) m p ≡ true
unfolding behind
behind-part m p (negsuc l) a h = ground (arith, h)
behind-part (negsuc m) p (pos l) a h = ground (arith, h)
behind-part (pos m) (negsuc p) (pos l) a h = ground (arith, h)
behind-part (pos m) (pos p) (pos l) a h = ground (arith, h)

behind-segment :
    (m p : ℤ) (n : ℕ) (q : ℤ) → behind (sub_ℕ n 1) q m p ≡ true → behind (pos n) (pos 0) m p ≡ true
unfolding behind
behind-segment m p zero q h = cc
behind-segment (negsuc m) p (suc n) q h = ground (arith, h)
behind-segment (pos m) p (suc n) q h = ground (arith, h)

-- A part before the window is before the latest one.
expired-behind :
    (m : ℤ) (l f : ℕ) (rest : Bool)
    → f ≤ l
    → (if is_expired m (some f)
        then true
        else (if not (eqb_ℤ (pos l) m) then ltb_ℤ m (pos l) else rest))
      ≡ (if not (eqb_ℤ (pos l) m) then ltb_ℤ m (pos l) else rest)
expired-behind (negsuc m) l f rest h = ground (arith, h)
expired-behind (pos m) l f rest h = ground (arith, h)

module _ {C : Type 0} where
  pub reached-behind :
      (t : Storage C) (msn psn : ℤ)
      → IsStorage t
      → reached t msn psn ≡ behind t.latest_msn t.latest_psn msn psn
  unfolding reached behind
  reached-behind t msn psn v = by_window t.segments v.window
    where
      n : ℕ
      n = t.next_msn

      by_window :
          (ss : List Segment)
          → IsWindow v.first ss n
          → (if ltb_ℤ t.latest_msn (pos 0)
              then false
              else (if is_expired msn (front_msn ss)
                  then true
                  else (if not (eqb_ℤ t.latest_msn msn)
                      then ltb_ℤ msn t.latest_msn
                      else leb_ℤ (if ltb_ℤ psn (pos 0) then pos 0 else psn) t.latest_psn)))
            ≡ behind t.latest_msn t.latest_psn msn psn
      by_window [] w = refl
      by_window (s ∷ ss) w =
          ap (λ x. if ltb_ℤ t.latest_msn (pos 0) then false else x)
            (subst
              (λ l.
                (if is_expired msn (some s.msn)
                  then true
                  else (if not (eqb_ℤ l msn) then ltb_ℤ msn l else rest))
                ≡ (if not (eqb_ℤ l msn) then ltb_ℤ msn l else rest))
              (sym latest)
              (expired-behind msn (v.first + length ss) s.msn rest (omega (arith, w.0))))
        where
          rest : Bool
          rest = leb_ℤ (if ltb_ℤ psn (pos 0) then pos 0 else psn) t.latest_psn

          latest : t.latest_msn ≡ pos (v.first + length ss)
          latest =
              v.latest
              ∙ sym (
                  pos-last (v.first + length ss) n
                    (omega (arith, IsWindow-le v.first (s ∷ ss) n w)))

  -- Where append_part puts the latest position.
  IsNext : Storage C → ℤ → ℤ → Type 0
  IsNext t msn psn =
      ((msn ≡ t.latest_msn) × (a : ℕ) × (t.latest_psn ≡ pos a) × (psn ≡ pos (suc a)))
      ⊎ ((msn ≡ pos t.next_msn) × (psn ≡ pos 0))

  set_latest-some :
      (o : Option Segment) (s : Segment) (t : Storage C)
      → o ≡ some s
      → ((set_latest o t).latest_msn ≡ pos s.msn)
        × ((set_latest o t).latest_psn ≡ pos (length s.parts - 1))
  unfolding set_latest
  set_latest-some o s t e =
      (ap (λ x. (set_latest x t).latest_msn) e, ap (λ x. (set_latest x t).latest_psn) e)

  push-IsNext :
      (payload : List ℕ) (duration : ℤ) (independent : Bool) (t : Storage C)
      → IsStorage t
      → let u = push_part payload duration independent (open_segment t) in
        IsNext t u.latest_msn u.latest_psn
  unfolding IsNext push_part add_part new_segment
  push-IsNext payload duration independent t v = elim g.origin [
    | inl (e, _) ↦
        let m = back-msn v.first t.segments t.next_msn g.last v.window e in
        inl (
          l.0 ∙ pos-last g.last.msn t.next_msn m.0 ∙ sym v.latest,
          length g.last.parts - 1,
          subst (λ o. IsTail o t.latest_psn) e v.tail,
          l.1 ∙ ap pos (omega (arith, m.1.some_part, length-append g.last.parts (_ ∷ []))),
        )
    | inr (e, _) ↦ inr (
      l.0 ∙ ap (λ s. pos s.msn) e,
      l.1 ∙ ap pos (omega (arith, length-append g.last.parts (_ ∷ []), ap (λ s. length s.parts) e)),
    )
  ]
    where
      f : Segment → Segment
      f = add_part payload duration independent

      g : IsPushed f t (on_back f (open_segment t).segments) (open_segment t).next_msn
      g = push-IsPushed payload duration independent t v

      l :
          let u = push_part payload duration independent (open_segment t) in
          (u.latest_msn ≡ pos g.last.msn) × (u.latest_psn ≡ pos (length (f g.last).parts - 1))
      l = set_latest-some _ (f g.last) _ g.at_back

  close_if-latest :
      (c : Bool) (t : Storage C)
      → ((close_if c t).latest_msn ≡ t.latest_msn) × ((close_if c t).latest_psn ≡ t.latest_psn)
  unfolding close_if
  close_if-latest c t =
      if_cases {A = Storage C} (λ u. (u.latest_msn ≡ t.latest_msn) × (u.latest_psn ≡ t.latest_psn))
        c _ _ (λ _. (refl, refl)) (λ _. (refl, refl))

  behind-IsNext :
      (t : Storage C) (l q m p : ℤ)
      → IsStorage t
      → IsNext t l q
      → behind t.latest_msn t.latest_psn m p ≡ true
      → behind l q m p ≡ true
  unfolding IsNext
  behind-IsNext t l q m p v (inl (e, a, old, new)) h =
      subst (λ x. behind x q m p ≡ true) (sym e)
        (subst (λ x. behind t.latest_msn x m p ≡ true) (sym new)
          (behind-part m p t.latest_msn a (subst (λ x. behind t.latest_msn x m p ≡ true) old h)))
  behind-IsNext t l q m p v (inr (e, new)) h =
      subst (λ x. behind x q m p ≡ true) (sym e)
        (subst (λ x. behind (pos t.next_msn) x m p ≡ true) (sym new)
          (behind-segment m p t.next_msn t.latest_psn
            (subst (λ x. behind x t.latest_psn m p ≡ true) v.latest h)))

  module _ (generate : C → List Segment → Bool → List ℕ) where
    -- A part that has been published stays so, also when its segment has left the window.
    pub reached-append_part :
        (payload : List ℕ) (duration : ℤ) (independent close_segment : Bool) (t : Storage C)
        (m p : ℤ)
        → IsStorage t
        → reached t m p ≡ true
        → reached (append_part generate payload duration independent close_segment t) m p ≡ true
    unfolding append_part refresh_playlist
    reached-append_part payload duration independent close_segment t m p v h =
        let pushed : Storage C = push_part payload duration independent (open_segment t) in
        let c = close_if-latest close_segment pushed in
        reached-behind _ m p
          (append_part-IsStorage generate payload duration independent close_segment t v)
        ∙ ap (λ x. behind x (close_if close_segment pushed).latest_psn m p) c.0
        ∙ ap (λ x. behind pushed.latest_msn x m p) c.1
        ∙ behind-IsNext t pushed.latest_msn pushed.latest_psn m p v
            (push-IsNext payload duration independent t v) (sym (reached-behind t m p v) ∙ h)

    pub reached-on_unpublish :
        (t : Storage C) (m p : ℤ)
        → IsStorage t
        → reached (on_unpublish generate t) m p ≡ reached t m p
    unfolding on_unpublish refresh_playlist
    reached-on_unpublish t m p v =
        reached-behind _ m p (on_unpublish-IsStorage generate t v) ∙ sym (reached-behind t m p v)
