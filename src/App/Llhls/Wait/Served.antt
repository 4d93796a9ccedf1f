-- ===== src/App/Llhls/Wait/Served.antt =====
-- What becomes of a request that SrsLlHlsStorage::wait_for (src/app/srs_app_llhls.cpp) holds.
use srs_simple.Base.{
  ℕ, ◌≡◌, refl, sym, ap, subst, ◌∙◌, Bool, true, false, not, ◌||◌, if◌then◌else◌, List, if_cases,
  arith,
}
use srs_simple.Base.Int.{ℤ}
use srs_simple.App.Llhls.{Segment, Storage, reached, on_publish, set_init, update_config}
use srs_simple.App.Llhls.Publish.{IsStorage, append_part-IsStorage, on_unpublish-IsStorage}
use srs_simple.App.Llhls.Wait.{
  Hold, held, notified, answered, notify_all, is_over, resume, Step, part, unpublish, new_init,
  publish, configure, spurious, wake, timeout_held, timeout_notified, Run, stay, then_step,
}
use srs_simple.App.Llhls.Wait.Position.{reached-append_part, reached-on_unpublish}

or_right : (a b : Bool) → (a || b) ≡ false → b ≡ false
or_right true b h = cc
or_right false b h = h

resume_if : (a b : Bool) → b ≡ true → (if a || b then answered b else held) ≡ answered true
resume_if true b h = ap answered h
resume_if false true h = refl
resume_if false false h = cc

module _ {C : Type 0} (msn psn : ℤ) where
  abbrev HasNotLost : Storage C → Hold → Type 0
  HasNotLost t held = is_over msn psn t ≡ false
  HasNotLost t notified = Unit
  HasNotLost t (answered b) = Unit

  resume-HasNotLost : (t : Storage C) → HasNotLost t (resume msn psn t)
  unfolding resume
  resume-HasNotLost t = if_cases (HasNotLost t) (is_over msn psn t) _ _ (λ _. tt) (λ e. e)

  notify-HasNotLost : (t : Storage C) (h : Hold) → HasNotLost t (notify_all h)
  notify-HasNotLost t held = tt
  notify-HasNotLost t notified = tt
  notify-HasNotLost t (answered b) = tt

  publish-HasNotLost : (t : Storage C) (h : Hold) → HasNotLost t h → HasNotLost (on_publish t) h
  unfolding is_over on_publish reached
  publish-HasNotLost t held e = or_right (not t.active) (reached t msn psn) e
  publish-HasNotLost t notified e = tt
  publish-HasNotLost t (answered b) e = tt

  configure-HasNotLost :
      (m : ℕ) (c : C) (t : Storage C) (h : Hold)
      → HasNotLost t h
      → HasNotLost (update_config m c t) h
  unfolding is_over update_config reached
  configure-HasNotLost m c t held e = e
  configure-HasNotLost m c t notified e = tt
  configure-HasNotLost m c t (answered b) e = tt

  -- Behind the step that published its part, an unanswered request is about to answer true.
  abbrev pub IsServed : Storage C → Hold → Type 0
  IsServed t held = ⊥
  IsServed t notified = resume msn psn t ≡ answered true
  IsServed t (answered b) = b ≡ true

  resume-reached : (t : Storage C) → reached t msn psn ≡ true → resume msn psn t ≡ answered true
  unfolding resume is_over
  resume-reached t h = resume_if (not t.active) (reached t msn psn) h

  IsServed-later :
      (t u : Storage C) (h : Hold) → reached u msn psn ≡ true → IsServed t h → IsServed u h
  IsServed-later t u held r s = absurd s
  IsServed-later t u notified r s = resume-reached u r
  IsServed-later t u (answered b) r s = s

  IsServed-notify : (t : Storage C) (h : Hold) → IsServed t h → IsServed t (notify_all h)
  IsServed-notify t held s = absurd s
  IsServed-notify t notified s = s
  IsServed-notify t (answered b) s = s

  module _ (generate : C → List Segment → Bool → List ℕ) where
    Step-HasNotLost :
        {t u : Storage C} {h k : Hold}
        → Step msn psn generate t h u k
        → HasNotLost t h
        → HasNotLost u k
    Step-HasNotLost (part {t} {h} a b c d) e = notify-HasNotLost _ h
    Step-HasNotLost (unpublish {t} {h}) e = notify-HasNotLost _ h
    Step-HasNotLost (new_init {t} {h} v) e = notify-HasNotLost _ h
    Step-HasNotLost (publish {t} {h}) e = publish-HasNotLost t h e
    Step-HasNotLost (configure {t} {h} m c) e = configure-HasNotLost m c t h e
    Step-HasNotLost spurious e = tt
    Step-HasNotLost (wake {t}) e = resume-HasNotLost t
    Step-HasNotLost timeout_held e = tt
    Step-HasNotLost timeout_notified e = tt

    Run-HasNotLost :
        {t u : Storage C} {h k : Hold}
        → Run msn psn generate t h u k
        → HasNotLost t h
        → HasNotLost u k
    Run-HasNotLost stay e = e
    Run-HasNotLost (then_step r s) e = Step-HasNotLost s (Run-HasNotLost r e)

    Step-IsStorage :
        {t u : Storage C} {h k : Hold} → Step msn psn generate t h u k → IsStorage t → IsStorage u
    unfolding set_init on_publish update_config
    Step-IsStorage (part {t} a b c d) v = append_part-IsStorage generate a b c d t v
    Step-IsStorage (unpublish {t}) v = on_unpublish-IsStorage generate t v
    Step-IsStorage (new_init x) v = record {
      first = v.first;
      window = v.window;
      latest = v.latest;
      tail = v.tail;
    }
    Step-IsStorage publish v = record {
      first = v.first;
      window = v.window;
      latest = v.latest;
      tail = v.tail;
    }
    Step-IsStorage (configure m c) v = record {
      first = v.first;
      window = v.window;
      latest = v.latest;
      tail = v.tail;
    }
    Step-IsStorage spurious v = v
    Step-IsStorage wake v = v
    Step-IsStorage timeout_held v = v
    Step-IsStorage timeout_notified v = v

    Run-IsStorage :
        {t u : Storage C} {h k : Hold} → Run msn psn generate t h u k → IsStorage t → IsStorage u
    Run-IsStorage stay v = v
    Run-IsStorage (then_step r s) v = Step-IsStorage s (Run-IsStorage r v)

    Step-reached :
        {t u : Storage C} {h k : Hold}
        → Step msn psn generate t h u k
        → IsStorage t
        → reached t msn psn ≡ true
        → reached u msn psn ≡ true
    unfolding reached set_init on_publish update_config
    Step-reached (part {t} a b c d) v e = reached-append_part generate a b c d t msn psn v e
    Step-reached (unpublish {t}) v e = reached-on_unpublish generate t msn psn v ∙ e
    Step-reached (new_init x) v e = e
    Step-reached publish v e = e
    Step-reached (configure m c) v e = e
    Step-reached spurious v e = e
    Step-reached wake v e = e
    Step-reached timeout_held v e = e
    Step-reached timeout_notified v e = e

    Step-IsServed :
        {t u : Storage C} {h k : Hold}
        → Step msn psn generate t h u k
        → reached t msn psn ≡ true
        → reached u msn psn ≡ true
        → IsServed t h
        → IsServed u k
    Step-IsServed (part {t} {h} a b c d) e f s = IsServed-notify _ h (IsServed-later t _ h f s)
    Step-IsServed (unpublish {t} {h}) e f s = IsServed-notify _ h (IsServed-later t _ h f s)
    Step-IsServed (new_init {t} {h} x) e f s = IsServed-notify _ h (IsServed-later t _ h f s)
    Step-IsServed (publish {t} {h}) e f s = IsServed-later t _ h f s
    Step-IsServed (configure {t} {h} m c) e f s = IsServed-later t _ h f s
    Step-IsServed spurious e f s = absurd s
    Step-IsServed (wake {t}) e f s = subst (IsServed t) (sym s) refl
    Step-IsServed timeout_held e f s = absurd s
    Step-IsServed timeout_notified e f s = e

    -- No wake-up is lost: from the moment a request enters wait_for, whatever the other threads do and
    -- in whatever order, it is blocked only while the stream is active and its part is not published.
    pub wait_for-not_lost :
        (t u : Storage C)
        → Run msn psn generate t (resume msn psn t) u held
        → is_over msn psn u ≡ false
    wait_for-not_lost t u r = Run-HasNotLost r (resume-HasNotLost t)

    -- A request is unanswered.
    abbrev pub IsPending : Hold → Type 0
    IsPending held = Unit
    IsPending notified = Unit
    IsPending (answered b) = ⊥

    pending-IsServed :
        (t : Storage C) (h : Hold)
        → HasNotLost t h
        → IsPending h
        → reached t msn psn ≡ true
        → IsServed t h
    unfolding is_over
    pending-IsServed t held l p e =
        absurd (ground (arith, or_right (not t.active) (reached t msn psn) l, e))
    pending-IsServed t notified l p e = resume-reached t e
    pending-IsServed t (answered b) l p e = absurd p

    Run-IsServed :
        {u v : Storage C} {i k : Hold}
        → IsStorage u
        → reached u msn psn ≡ true
        → IsServed u i
        → Run msn psn generate u i v k
        → IsServed v k × (reached v msn psn ≡ true)
    Run-IsServed s e d stay = (d, e)
    Run-IsServed s e d (then_step r q) =
        let w = Run-IsServed s e d r in
        let f = Step-reached q (Run-IsStorage r s) w.1 in (Step-IsServed q w.1 f w.0, f)

    -- A request that is unanswered when its part is published, is never blocked again: whatever the
    -- other threads do from there, its next test of the predicate answers true, and so does a timeout
    -- that comes first. This holds from any valid storage, also when the part leaves the window or the
    -- stream ends and starts again before the request runs.
    pub wait_for-IsServed :
        (t u v : Storage C) (h k : Hold)
        → IsStorage t
        → Run msn psn generate t (resume msn psn t) u h
        → IsPending h
        → reached u msn psn ≡ true
        → Run msn psn generate u h v k
        → IsServed v k
    wait_for-IsServed t u v h k s r p e q =
        (Run-IsServed (Run-IsStorage r s) e
          (pending-IsServed u h (Run-HasNotLost r (resume-HasNotLost t)) p e) q).0
