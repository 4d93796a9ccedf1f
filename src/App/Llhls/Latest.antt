-- ===== src/App/Llhls/Latest.antt =====
-- The latest part of SrsLlHlsStorage (src/app/srs_app_llhls.cpp).
use srs_simple.Base.{
  ltb, ltb→lt, ℕ, suc, ◌+◌, ◌-◌, ◌<◌, ◌≡◌, refl, ap, subst, ◌∙◌, Bool, List, [], ◌∷◌, length,
  length-append, get_elem?, get_elem?-append_length, Option, none, some, if_cases, arith,
}
use srs_simple.Base.Int.{ℤ, pos}
use srs_simple.App.Llhls.{
  Segment, Storage, back, on_back, add_part, complete, is_open, open_segment, push_part, set_latest,
  close_if, append_part, refresh_playlist, find, get_part, part_of,
}
use srs_simple.App.Llhls.Window.{IsWindow, back-on_back, back-msn, back-shrink, IsWindow-le}
use srs_simple.App.Llhls.Publish.{IsTail, IsStorage, push-IsPushed, append_part-IsStorage}

get_elem?-back : (s : Segment) (ss : List Segment) → get_elem? (s ∷ ss) (length ss) ≡ back (s ∷ ss)
get_elem?-back s [] = refl
get_elem?-back s (s' ∷ ss) = get_elem?-back s' ss

-- The number of the last segment finds it.
pub find-back :
    (k : ℕ) (ss : List Segment) (n : ℕ) (s : Segment)
    → IsWindow k ss n
    → back ss ≡ some s
    → find ss (pos s.msn) ≡ some s
unfolding find
find-back k [] n s w e = cc
find-back k (s' ∷ ss) n s w e =
    if_cases (λ o. o ≡ some s) (ltb s.msn s'.msn) none (get_elem? (s' ∷ ss) (s.msn - s'.msn))
      (λ x. absurd (omega (arith, ltb→lt s.msn s'.msn x, l, (back-msn k (s' ∷ ss) n s w e).0, w.0)))
      (λ _. ap (λ i. get_elem? (s' ∷ ss) i) i ∙ get_elem?-back s' ss ∙ e)
  where
    l : k + suc (length ss) ≡ n
    l = IsWindow-le k (s' ∷ ss) n w

    i : s.msn - s'.msn ≡ length ss
    i = omega (arith, l, (back-msn k (s' ∷ ss) n s w e).0, w.0)

module _ {C : Type 0} where
  latest_part :
      (u : Storage C) (s : Segment)
      → IsStorage u
      → back u.segments ≡ some s
      → (u.latest_psn ≡ pos (length s.parts - 1))
        × (get_part u u.latest_msn u.latest_psn ≡ get_elem? s.parts (length s.parts - 1))
  unfolding get_part
  latest_part u s v e =
      let m = back-msn v.first u.segments u.next_msn s v.window e in
      let q : u.latest_msn ≡ pos s.msn = ground (arith, v.latest, m.0) in
      let p : u.latest_psn ≡ pos (length s.parts - 1) =
        subst (λ o. IsTail o u.latest_psn) e v.tail in
      (
        p,
        ap (λ x. part_of (find u.segments x) u.latest_psn) q
            ∙ ap (λ o. part_of o u.latest_psn)
                (find-back v.first u.segments u.next_msn s v.window e)
            ∙ ap (λ x. part_of (some s) x) p,
      )

  set_latest-segments :
      (o : Option Segment) (t : Storage C)
      → ((set_latest o t).segments ≡ t.segments) × ((set_latest o t).max_segments ≡ t.max_segments)
  unfolding set_latest
  set_latest-segments none t = (refl, refl)
  set_latest-segments (some s) t = (refl, refl)

  -- The last segment is still there, if now completed.
  close_if-back :
      (c : Bool) (t : Storage C) (s : Segment)
      → 0 < t.max_segments
      → back t.segments ≡ some s
      → (s' : Segment) × (back (close_if c t).segments ≡ some s') × (s'.parts ≡ s.parts)
  unfolding close_if complete
  close_if-back c t s h e =
      if_cases {A = Storage C}
        (λ u. (s' : Segment) × (back u.segments ≡ some s') × (s'.parts ≡ s.parts)) c _ _
        (λ _. (
          complete s,
          back-shrink t.max_segments (on_back complete t.segments) h
              ∙ back-on_back complete t.segments s e,
          refl,
        ))
        (λ _. (s, e, refl))

  open_segment-max_segments : (t : Storage C) → (open_segment t).max_segments ≡ t.max_segments
  unfolding open_segment
  open_segment-max_segments t =
      if_cases {A = Storage C} (λ u. u.max_segments ≡ t.max_segments) (is_open (back t.segments)) _
        _ (λ _. refl) (λ _. refl)

  module _ (generate : C → List Segment → Bool → List ℕ) where
    -- The part that append_part published is the one at the latest position, where the window may
    -- have a segment.
    pub get_part-append_part :
        (payload : List ℕ) (duration : ℤ) (independent close_segment : Bool) (t : Storage C)
        → IsStorage t
        → 0 < t.max_segments
        → let u = append_part generate payload duration independent close_segment t in
          (n : ℕ) × (u.latest_psn ≡ pos n)
          × (get_part u u.latest_msn u.latest_psn
              ≡ some (record {
                psn = n;
                duration = duration;
                independent = independent;
                payload = payload;
              }))
    unfolding append_part push_part refresh_playlist add_part
    get_part-append_part payload duration independent close_segment t v h =
        let g = push-IsPushed payload duration independent t v in
        let pushed : Storage C = push_part payload duration independent (open_segment t) in
        let room : 0 < pushed.max_segments =
          omega (arith, h, open_segment-max_segments t, (set_latest-segments _ _).1) in
        let last =
          close_if-back close_segment pushed _ room
            (ap back (set_latest-segments _ _).0 ∙ g.at_back) in
        let r =
          latest_part (append_part generate payload duration independent close_segment t) last.0
            (append_part-IsStorage generate payload duration independent close_segment t v)
            last.1 in
        let n : length last.0.parts - 1 ≡ length g.last.parts =
          omega (arith, ap length last.2, length-append g.last.parts (_ ∷ [])) in
        (
          length g.last.parts,
          r.0 ∙ ap pos n,
          r.1
              ∙ ap (λ i. get_elem? last.0.parts i) n
              ∙ ap (λ ps. get_elem? ps (length g.last.parts)) last.2
              ∙ get_elem?-append_length g.last.parts _ [],
        )
