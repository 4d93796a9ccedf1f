-- ===== src/App/Llhls/Window.antt =====
-- The segments of SrsLlHlsStorage (src/app/srs_app_llhls.cpp): their numbers have no gap, and all but
-- the last are completed.
use srs_simple.Base.{
  ℕ, suc, ◌+◌, ◌<◌, ◌≤◌, ◌≡◌, refl, sym, ap, subst, Bool, length-append, ◌∙◌, true, false, ltb,
  List, [], ◌∷◌, ◌++◌, ◌&&◌, length, some, if_cases, arith,
}
use srs_simple.Base.Int.{ℤ, pos, ◌+ℤ◌}
use srs_simple.App.Llhls.{Part, Segment, back, on_back, is_open, add_part, shrink}

-- The parts are numbered from k.
abbrev pub IsNumbered : ℕ → List Part → Type 0
IsNumbered k [] = Unit
IsNumbered k (p ∷ ps) = (p.psn ≡ k) × IsNumbered (suc k) ps

abbrev pub sum_durations : ℤ → List Part → ℤ
sum_durations d [] = d
sum_durations d (p ∷ ps) = sum_durations (d +ℤ p.duration) ps

-- A segment has a part, its parts are numbered from 0, and its duration is the sum of theirs.
pub record IsSegment (s : Segment) : Type 0 where
  pub some_part : 0 < length s.parts
  pub numbered : IsNumbered 0 s.parts
  pub summed : s.duration ≡ sum_durations (pos 0) s.parts

-- A segment before another one is completed.
abbrev pub IsSealed : Segment → List Segment → Type 0
IsSealed s [] = Unit
IsSealed s (s' ∷ ss) = s.completed ≡ true

-- The segments have the numbers from k to n - 1.
abbrev pub IsWindow : ℕ → List Segment → ℕ → Type 0
IsWindow k [] n = k ≡ n
IsWindow k (s ∷ ss) n = (s.msn ≡ k) × IsSegment s × IsSealed s ss × IsWindow (suc k) ss n

IsNumbered-append :
    (k : ℕ) (ps : List Part) (p : Part)
    → IsNumbered k ps
    → p.psn ≡ k + length ps
    → IsNumbered k (ps ++ (p ∷ []))
IsNumbered-append k [] p h e = (omega (arith, e), tt)
IsNumbered-append k (q ∷ ps) p h e = (h.0, IsNumbered-append (suc k) ps p h.1 (omega (arith, e)))

sum_durations-append :
    (d : ℤ) (ps : List Part) (p : Part)
    → sum_durations d (ps ++ (p ∷ [])) ≡ sum_durations d ps +ℤ p.duration
sum_durations-append d [] p = refl
sum_durations-append d (q ∷ ps) p = sum_durations-append (d +ℤ q.duration) ps p

-- Also the segment that has no part yet.
abbrev pub IsPartly : Segment → Type 0
IsPartly s = IsNumbered 0 s.parts × (s.duration ≡ sum_durations (pos 0) s.parts)

pub add_part-IsSegment :
    (payload : List ℕ) (duration : ℤ) (independent : Bool) (s : Segment)
    → IsPartly s
    → IsSegment (add_part payload duration independent s)
unfolding add_part
add_part-IsSegment payload duration independent s h = record {
  some_part = omega (arith, length-append s.parts (_ ∷ []));
  numbered = IsNumbered-append 0 s.parts _ h.0 (omega arith);
  summed = ap (λ d. d +ℤ duration) h.1 ∙ sym (sum_durations-append (pos 0) s.parts _);
}

-- A change of the last segment that keeps its number.
pub on_back-IsWindow :
    (f : Segment → Segment) (k : ℕ) (ss : List Segment) (n : ℕ)
    → ((s : Segment) → (f s).msn ≡ s.msn)
    → ((s : Segment) → IsSegment s → IsSegment (f s))
    → IsWindow k ss n
    → IsWindow k (on_back f ss) n
on_back-IsWindow f k [] n m g h = h
on_back-IsWindow f k (s ∷ []) n m g h = (m s ∙ h.0, g s h.1, tt, h.3)
on_back-IsWindow f k (s ∷ s' ∷ []) n m g h =
    (h.0, h.1, h.2, on_back-IsWindow f (suc k) (s' ∷ []) n m g h.3)
on_back-IsWindow f k (s ∷ s' ∷ s'' ∷ ss) n m g h =
    (h.0, h.1, h.2, on_back-IsWindow f (suc k) (s' ∷ s'' ∷ ss) n m g h.3)

-- A new segment behind a last one that is not open.
pub append-IsWindow :
    (k : ℕ) (ss : List Segment) (n : ℕ) (s : Segment)
    → is_open (back ss) ≡ false
    → s.msn ≡ n
    → IsSegment s
    → IsWindow k ss n
    → IsWindow k (ss ++ (s ∷ [])) (suc n)
append-IsWindow k [] n s o e g h = (e ∙ sym h, g, tt, ap suc h)
append-IsWindow k (s' ∷ []) n s o e g h =
    (h.0, h.1, ground (arith, o), (e ∙ sym h.3, g, tt, ap suc h.3))
append-IsWindow k (s' ∷ s'' ∷ ss) n s o e g h =
    (h.0, h.1, h.2, append-IsWindow (suc k) (s'' ∷ ss) n s o e g h.3)

pub on_back-append :
    (f : Segment → Segment) (ss : List Segment) (s : Segment)
    → on_back f (ss ++ (s ∷ [])) ≡ ss ++ (f s ∷ [])
on_back-append f [] s = refl
on_back-append f (s' ∷ []) s = refl
on_back-append f (s' ∷ s'' ∷ ss) s = ap (λ l. s' ∷ l) (on_back-append f (s'' ∷ ss) s)

pub back-on_back :
    (f : Segment → Segment) (ss : List Segment) (s : Segment)
    → back ss ≡ some s
    → back (on_back f ss) ≡ some (f s)
back-on_back f [] s h = cc
back-on_back f (s' ∷ []) s h = cc
back-on_back f (s' ∷ s'' ∷ []) s h = back-on_back f (s'' ∷ []) s h
back-on_back f (s' ∷ s'' ∷ s3 ∷ ss) s h = back-on_back f (s'' ∷ s3 ∷ ss) s h

pub back-append : (ss : List Segment) (s : Segment) → back (ss ++ (s ∷ [])) ≡ some s
back-append [] s = refl
back-append (s' ∷ []) s = refl
back-append (s' ∷ s'' ∷ ss) s = back-append (s'' ∷ ss) s

pub IsWindow-le : (k : ℕ) (ss : List Segment) (n : ℕ) → IsWindow k ss n → k + length ss ≡ n
IsWindow-le k [] n h = omega (arith, h)
IsWindow-le k (s ∷ ss) n h = omega (arith, IsWindow-le (suc k) ss n h.3)

pub back-msn :
    (k : ℕ) (ss : List Segment) (n : ℕ) (s : Segment)
    → IsWindow k ss n
    → back ss ≡ some s
    → (suc s.msn ≡ n) × IsSegment s
back-msn k [] n s h e = cc
back-msn k (s' ∷ []) n s h e =
    let q : s' ≡ s = cc in
    subst (λ u. (suc u.msn ≡ n) × IsSegment u) q (omega (arith, h.0, h.3), h.1)
back-msn k (s' ∷ s'' ∷ ss) n s h e = back-msn (suc k) (s'' ∷ ss) n s h.3 e

-- shrink takes segments from the front only.
pub shrink-IsWindow :
    (m k : ℕ) (ss : List Segment) (n : ℕ)
    → IsWindow k ss n
    → (k' : ℕ) × (k ≤ k') × IsWindow k' (shrink m ss) n
unfolding shrink
shrink-IsWindow m k [] n h = (k, omega arith, h)
shrink-IsWindow m k (s ∷ ss) n h =
    if_cases (λ ts. (k' : ℕ) × (k ≤ k') × IsWindow k' ts n) (ltb m (length (s ∷ ss)) && s.completed)
      _ _ (λ _. let d = shrink-IsWindow m (suc k) ss n h.3 in (d.0, omega (arith, d.1), d.2))
      (λ _. (k, omega arith, h))

-- Behind shrink the window has the segments that it may have, where all of them are completed.
pub length-shrink :
    (m k : ℕ) (ss : List Segment) (n : ℕ)
    → IsWindow k ss n
    → is_open (back ss) ≡ false
    → length (shrink m ss) ≤ m
unfolding shrink
length-shrink m k [] n h o = omega arith
length-shrink m k (s ∷ []) n h o =
    if_cases (λ ts. length ts ≤ m) (ltb m 1 && s.completed) [] (s ∷ []) (λ _. omega arith)
      (λ e. ground (arith, e, o))
length-shrink m k (s ∷ s' ∷ ss) n h o =
    if_cases (λ ts. length ts ≤ m) (ltb m (length (s ∷ s' ∷ ss)) && s.completed)
      (shrink m (s' ∷ ss)) (s ∷ s' ∷ ss) (λ _. length-shrink m (suc k) (s' ∷ ss) n h.3 o)
      (λ e. ground (arith, e, h.2))

-- The last segment stays, where there may be one.
pub back-shrink : (m : ℕ) (ss : List Segment) → 0 < m → back (shrink m ss) ≡ back ss
unfolding shrink
back-shrink m [] h = refl
back-shrink m (s ∷ []) h =
    if_cases (λ ts. back ts ≡ some s) (ltb m 1 && s.completed) _ _ (λ e. absurd (ground (arith, e)))
      (λ _. refl)
back-shrink m (s ∷ s' ∷ ss) h =
    if_cases (λ ts. back ts ≡ back (s' ∷ ss)) (ltb m (length (s ∷ s' ∷ ss)) && s.completed) _ _
      (λ _. back-shrink m (s' ∷ ss) h) (λ _. refl)
