-- ===== src/App/Llhls/Wait.antt =====
-- SrsLlHlsStorage::wait_for (src/app/srs_app_llhls.cpp), the request that is held until a part is
-- published, as steps of the storage and of one request. A wait on the condition gives up the lock,
-- a notification makes the request runnable, and it tests its predicate again when it has the lock.
pub mod Position
pub mod Served
use srs_simple.Base.{ℕ, ◌≡◌, refl, Bool, true, false, ◌||◌, not, if◌then◌else◌, List}
use srs_simple.Base.Int.{ℤ}
use srs_simple.App.Llhls.{
  Segment, Storage, reached, append_part, on_publish, on_unpublish, set_init, update_config,
}

-- Where a request is: blocked on the condition, about to test its predicate, or done with a result.
pub data Hold : Type 0 where
  held notified : Hold
  answered : Bool → Hold

abbrev pub notify_all : Hold → Hold
notify_all held = notified
notify_all notified = notified
notify_all (answered b) = answered b

module _ {C : Type 0} (msn psn : ℤ) where
  -- The predicate of the wait.
  unfoldable pub is_over : Storage C → Bool
  is_over t = not t.active || reached t msn psn

  -- With the lock: the test, and then the result or the next wait.
  unfoldable pub resume : Storage C → Hold
  resume t = if is_over t then answered (reached t msn psn) else held

  module _ (generate : C → List Segment → Bool → List ℕ) where
    -- One step of another thread, or of the request.
    pub data Step : Storage C → Hold → Storage C → Hold → Type 0 where
      part :
          {t : Storage C} {h : Hold} (payload : List ℕ) (duration : ℤ)
          (independent close_segment : Bool)
          → Step t h
              (append_part generate payload duration independent close_segment t)
              (notify_all h)
      unpublish : {t : Storage C} {h : Hold} → Step t h (on_unpublish generate t) (notify_all h)
      new_init : {t : Storage C} {h : Hold} (v : List ℕ) → Step t h (set_init v t) (notify_all h)
      publish : {t : Storage C} {h : Hold} → Step t h (on_publish t) h
      configure :
          {t : Storage C} {h : Hold} (max_segments : ℕ) (chunklist : C)
          → Step t h (update_config max_segments chunklist t) h
      spurious : {t : Storage C} → Step t held t notified
      wake : {t : Storage C} → Step t notified t (resume t)
      timeout_held : {t : Storage C} → Step t held t (answered (reached t msn psn))
      timeout_notified : {t : Storage C} → Step t notified t (answered (reached t msn psn))

    pub data Run : Storage C → Hold → Storage C → Hold → Type 0 where
      stay : {t : Storage C} {h : Hold} → Run t h t h
      then_step : {t u v : Storage C} {h i k : Hold} → Run t h u i → Step u i v k → Run t h v k
