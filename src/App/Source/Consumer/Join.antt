-- ===== src/App/Source/Consumer/Join.antt =====
-- src/app/srs_app_source.cpp: what a player that joins finds in its queue.
use srs_simple.Base.{
  ℕ, zero, ◌≡◌, inl, inr, Bool, true, false, List, [], ◌∷◌, ◌++◌, Option, none, some, Outcome, ok,
  and_then, Bool-cases, arith, refl, subst, ◌∙◌, ◌≤◌,
}
use srs_simple.Base.Int.{pos, ◌≤ℤ◌}
use srs_simple.Kernel.Flv.{Message, is_av}
use srs_simple.App.Source.Jitter.{
  Jitter, JitterAlgorithm, full, zero, off, correct, correct_full, correct_zero,
}
use srs_simple.App.Source.Queue.{Queue, duration}
use srs_simple.App.Source.Queue.Enqueue.{enqueue-limited, Kept}
use srs_simple.App.Source.Consumer.{
  Consumer, MetaCache, fire, enqueue, feed, enqueue_all, enqueue_if, dumps,
}

-- A message but for its time, which the jitter correction may change.
unfoldable pub content : Message → Message
content m = record m { timestamp = pos 0 }

unfoldable pub to_list : Bool → Option Message → List Message
to_list false o = []
to_list true none = []
to_list true (some m) = m ∷ []

-- Message after message comes behind the queue, each the same but for its time, and the queue keeps
-- it or overflows to its sequence headers, and does not last longer than its limit.
unfoldable pub Fed : List Message → Queue → Queue → Type 0
Fed [] q r = (r ≡ q)
Fed (m ∷ ms) q r =
    (n : Message) × (p : Queue) × (is_overflow : Bool) × (content n ≡ content m)
    × Kept (q.msgs ++ (n ∷ [])) p is_overflow
    × (duration p ≤ℤ q.max_queue_size)
    × (p.max_queue_size ≡ q.max_queue_size)
    × Fed ms p r

Fed-append : (ms ns : List Message) (q p r : Queue) → Fed ms q p → Fed ns p r → Fed (ms ++ ns) q r
unfolding Fed
Fed-append [] ns q p r e h = subst (λ x. Fed ns x r) e h
Fed-append (m ∷ ms) ns q p r (n, p', o, c, k, d, l, rest) h =
    (n, p', o, c, k, d, l, Fed-append ms ns p' p r rest h)

-- The call succeeds and feeds `ms` to the queue of `c`, whose limit stays.
unfoldable pub Extends : Consumer → List Message → Outcome Consumer → Type 0
Extends c ms o =
    (d : Consumer) × (o ≡ ok d)
    × Fed ms c.queue d.queue
    × (d.queue.max_queue_size ≡ c.queue.max_queue_size)

content-correct :
    (j : Jitter) (m : Message) (ag : JitterAlgorithm) → content (correct j m ag).1 ≡ content m
unfolding content correct correct_full correct_zero
content-correct j m full = elim (Bool-cases (is_av m)) [ inl a ↦ rw a refl | inr a ↦ rw a refl ]
content-correct j m zero = refl
content-correct j m off = refl

fire-queue : (c : Consumer) → (fire c).0.queue ≡ c.queue
unfolding fire
fire-queue c = ground arith

module _ (fuel : ℕ) (f : 2 ≤ fuel) where
  pub Extends-feed :
      (c : Consumer) (m : Message) (ag : JitterAlgorithm)
      → pos 1 ≤ℤ c.queue.max_queue_size
      → Extends c (m ∷ []) (feed fuel c m ag)
  unfolding Extends Fed feed enqueue
  Extends-feed c m ag h =
      let j = correct c.jitter m ag in
      let (q, o, e, d, k, l) = enqueue-limited fuel c.queue j.1 f h in
      let c' = record c { jitter = j.0; queue = q } in
      (
        (fire c').0,
        rw e refl,
        (j.1, q, o, content-correct c.jitter m ag, k, d, l, fire-queue c'),
        rw (fire-queue c') l,
      )

  pub Extends-none : (c : Consumer) → Extends c [] (ok c)
  unfolding Extends Fed
  Extends-none c = (c, refl, refl, refl)

  -- One part behind another.
  pub Extends-then :
      (c : Consumer) (ms ns : List Message) (o : Outcome Consumer) (g : Consumer → Outcome Consumer)
      → Extends c ms o
      → ((d : Consumer) → d.queue.max_queue_size ≡ c.queue.max_queue_size → Extends d ns (g d))
      → Extends c (ms ++ ns) (and_then o g)
  unfolding Extends
  Extends-then c ms ns o g (d, e, s, l) h =
      let (d', e', s', l') = h d l in
      (d', rw e e', Fed-append ms ns c.queue d.queue d'.queue s s', l' ∙ l)

  pub Extends-enqueue_all :
      (ms : List Message) (c : Consumer) (ag : JitterAlgorithm)
      → pos 1 ≤ℤ c.queue.max_queue_size
      → Extends c ms (enqueue_all fuel c ms ag)
  unfolding enqueue_all
  Extends-enqueue_all [] c ag h = Extends-none c
  Extends-enqueue_all (m ∷ ms) c ag h =
      Extends-then c (m ∷ []) ms (feed fuel c m ag) (λ d. enqueue_all fuel d ms ag)
        (Extends-feed c m ag h) (λ d e. Extends-enqueue_all ms d ag (rw e h))

  Extends-enqueue_if :
      (b : Bool) (o : Option Message) (c : Consumer) (ag : JitterAlgorithm)
      → pos 1 ≤ℤ c.queue.max_queue_size
      → Extends c (to_list b o) (enqueue_if fuel b o c ag)
  unfolding enqueue_if to_list
  Extends-enqueue_if false o c ag h = Extends-none c
  Extends-enqueue_if true none c ag h = Extends-none c
  Extends-enqueue_if true (some m) c ag h = Extends-feed c m ag h

  pub Extends-dumps :
      (m : MetaCache) (c : Consumer) (ag : JitterAlgorithm) (dm ds : Bool)
      → pos 1 ≤ℤ c.queue.max_queue_size
      → Extends c
          (to_list dm m.meta ++ (to_list ds m.audio ++ to_list ds m.video))
          (dumps fuel m c ag dm ds)
  unfolding dumps
  Extends-dumps m c ag dm ds h =
      Extends-then c (to_list dm m.meta) (to_list ds m.audio ++ to_list ds m.video)
        (enqueue_if fuel dm m.meta c ag)
        (λ c1. and_then (enqueue_if fuel ds m.audio c1 ag) (λ c2. enqueue_if fuel ds m.video c2 ag))
        (Extends-enqueue_if dm m.meta c ag h)
        (λ c1 e.
          Extends-then c1 (to_list ds m.audio) (to_list ds m.video)
            (enqueue_if fuel ds m.audio c1 ag) (λ c2. enqueue_if fuel ds m.video c2 ag)
            (Extends-enqueue_if ds m.audio c1 ag (rw e h))
            (λ c2 e2. Extends-enqueue_if ds m.video c2 ag (rw (e2, e) h)))
