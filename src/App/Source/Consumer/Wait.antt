-- ===== src/App/Source/Consumer/Wait.antt =====
-- src/app/srs_app_source.cpp: the waiting of a player for messages, against the enqueue of the
-- publisher. Both hold the lock of the consumer.
use srs_simple.Base.{
  ℕ, ◌≡◌, ◌⊎◌, Bool, true, false, if◌then◌else◌, [], ◌∷◌, ◌++◌, length, ok, refl, sym, subst,
  if_cases, ◌≤◌, inl, inr, Bool-cases, arith,
}
use srs_simple.Base.Int.{ℤ, pos, ◌-ℤ◌, ◌≤ℤ◌, ltb_ℤ}
use srs_simple.Kernel.Flv.{Message}
use srs_simple.App.Source.Jitter.{JitterAlgorithm, correct}
use srs_simple.App.Source.Queue.{Queue, size, duration}
use srs_simple.App.Source.Queue.Enqueue.{enqueue-Kept, Kept}
use srs_simple.App.Source.Consumer.{Consumer, is_enough, fire, enqueue, wait_enter}

-- More messages than this number, over a time longer than this.
unfoldable pub HasMore : ℤ → ℤ → Queue → Type 0
HasMore n t q =
    (ltb_ℤ n (pos (length q.msgs)) ≡ true) × (ltb_ℤ t (q.av_end_time -ℤ q.av_start_time) ≡ true)

unfoldable pub HasAtMost : ℤ → ℤ → Queue → Type 0
HasAtMost n t q = (pos (length q.msgs) ≤ℤ n) ⊎ ((q.av_end_time -ℤ q.av_start_time) ≤ℤ t)

enough-HasMore : (c : Consumer) → is_enough c ≡ true → HasMore c.mw_min_msgs c.mw_duration c.queue
unfolding is_enough HasMore size duration
enough-HasMore c h = (ground (arith, h), ground (arith, h))

enough-HasAtMost :
    (c : Consumer) → is_enough c ≡ false → HasAtMost c.mw_min_msgs c.mw_duration c.queue
unfolding is_enough HasAtMost size duration
enough-HasAtMost c h = elim (Bool-cases (ltb_ℤ c.mw_min_msgs (pos (length c.queue.msgs)))) [
  | inl y ↦ inr (ground (arith, h, y))
  | inr n ↦ inl (ground (arith, n))
]

-- A player that waits is not left waiting with more than it asked for.
unfoldable pub IsWaiting : Consumer → Type 0
IsWaiting c = (c.mw_waiting ≡ false) ⊎ HasAtMost c.mw_min_msgs c.mw_duration c.queue

-- From c to d with a notification: the player waited, waits no more, and has more than it asked
-- for. With none: it waits where it did, and only while it has no more than it asked for.
unfoldable pub Fired : Consumer → Consumer → Bool → Type 0
Fired c d notified =
    ((notified ≡ true)
      × (c.mw_waiting ≡ true)
      × (d.mw_waiting ≡ false)
      × HasMore c.mw_min_msgs c.mw_duration d.queue)
    ⊎ ((notified ≡ false)
        × (d.mw_waiting ≡ c.mw_waiting)
        × ((c.mw_waiting ≡ false) ⊎ HasAtMost c.mw_min_msgs c.mw_duration d.queue))

fire-Fired : (c : Consumer) → Fired c (fire c).0 (fire c).1 × ((fire c).0.queue ≡ c.queue)
unfolding Fired fire
fire-Fired c =
    let woken = record c { mw_waiting = false } in
    let P : Consumer × Bool → Type 0 = λ r. Fired c r.0 r.1 × (r.0.queue ≡ c.queue) in
    if_cases {A = Consumer × Bool} P c.mw_waiting
      (if is_enough c then (woken, true) else (c, false)) (c, false)
      (λ w.
        if_cases {A = Consumer × Bool} P (is_enough c) (woken, true) (c, false)
          (λ y. (inl (refl, w, refl, enough-HasMore c y), refl))
          (λ n. (inr (refl, refl, inr (enough-HasAtMost c n)), refl)))
      (λ w. (inr (refl, refl, inl w), refl))

-- Where the queue of a player has a positive limit, two units of fuel are enough for enqueue to
-- take the message, corrected by the jitter, behind those of the queue, of which an overflow
-- leaves the latest sequence headers. It notifies the player just where that waited and its queue
-- now has more messages than it asked for, over a longer time: then the player waits no more.
-- Else a player that waits goes on waiting, with no more messages or no longer time than that.
pub enqueue-Fired :
    (fuel : ℕ) (c : Consumer) (m : Message) (ag : JitterAlgorithm)
    → 2 ≤ fuel
    → pos 1 ≤ℤ c.queue.max_queue_size
    → (d : Consumer) × (notified : Bool) × (is_overflow : Bool) × (enqueue fuel c m ag
        ≡ ok (d, notified))
      × Kept (c.queue.msgs ++ ((correct c.jitter m ag).1 ∷ [])) d.queue is_overflow
      × Fired c d notified
unfolding enqueue Fired
enqueue-Fired fuel c m ag f h =
    let j = correct c.jitter m ag in
    let (q, o, e, d, k) = enqueue-Kept fuel c.queue j.1 f h in
    let c' = record c { jitter = j.0; queue = q } in
    let (fired, same) = fire-Fired c' in
    (
      (fire c').0,
      (fire c').1,
      o,
      rw e refl,
      subst (λ r. Kept (c.queue.msgs ++ (j.1 ∷ [])) r o) (sym same) k,
      fired,
    )

-- wait, up to the block on the condition, goes on to it just where it marks the player as
-- waiting, and that is only while the queue has no more than it asked for.
pub wait_enter-IsWaiting :
    (c : Consumer) (n t : ℤ)
    → c.mw_waiting ≡ false
    → IsWaiting (wait_enter c n t).0 × ((wait_enter c n t).1 ≡ (wait_enter c n t).0.mw_waiting)
unfolding wait_enter IsWaiting
wait_enter-IsWaiting c n t h =
    let c' = record c { mw_min_msgs = n; mw_duration = t } in
    let wakes = record c' { mw_waiting = true } in
    if_cases {A = Consumer × Bool} (λ r. IsWaiting r.0 × (r.1 ≡ r.0.mw_waiting)) (is_enough c')
      (c', false) (wakes, true) (λ y. (inl h, sym h))
      (λ no_more. (inr (enough-HasAtMost c' no_more), refl))
