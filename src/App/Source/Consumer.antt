-- ===== src/App/Source/Consumer.antt =====
-- src/app/srs_app_source.cpp: SrsLiveConsumer, the queue of one player, and the loops that feed
-- it: the dumps of a queue, of the metadata and of the cached frames. Every operation
-- runs under the lock of the consumer, so it is one step. The fuel is that of the queue's loop.
pub mod Join
pub mod Wait
use srs_simple.Base.{
  ℕ, zero, suc, Bool, true, false, ◌&&◌, not, if◌then◌else◌, List, [], ◌∷◌, ◌++◌, Option, none,
  some, Outcome, ok, aborted, and_then, leb, ◌==◌,
}
use srs_simple.Base.Int.{ℤ, pos, negsuc, ltb_ℤ, leb_ℤ, eqb_ℤ}
use srs_simple.Kernel.Flv.{Message}
use srs_simple.App.Source.Jitter
use srs_simple.App.Source.Jitter.{Jitter, JitterAlgorithm, correct}
use srs_simple.App.Source.Queue
use srs_simple.App.Source.Queue.{Queue, duration, size}
use srs_simple.App.Source.Gop.{GopCache}

pub record Consumer : Type 0 where
  pub jitter : Jitter
  pub queue : Queue
  pub should_update_source_id : Bool
  pub mw_waiting : Bool
  pub mw_min_msgs : ℤ
  pub mw_duration : ℤ

unfoldable pub init : Consumer
init = record {
  jitter = Jitter.init;
  queue = Queue.init;
  should_update_source_id = false;
  mw_waiting = false;
  mw_min_msgs = pos 0;
  mw_duration = pos 0;
}

unfoldable pub set_queue_size : Consumer → ℤ → Consumer
set_queue_size c queue_size = record c { queue = Queue.set_queue_size c.queue queue_size }

unfoldable pub update_source_id : Consumer → Consumer
update_source_id c = record c { should_update_source_id = true }

-- match_min_msgs && duration > mw_duration.
unfoldable pub is_enough : Consumer → Bool
is_enough c = ltb_ℤ c.mw_min_msgs (pos (size c.queue)) && ltb_ℤ c.mw_duration (duration c.queue)

-- enqueue(), the part under mw_waiting; the Bool says whether mw_wait is notified.
unfoldable pub fire : Consumer → Consumer × Bool
fire c =
    if c.mw_waiting
    then (if is_enough c then (record c { mw_waiting = false }, true) else (c, false))
    else (c, false)

unfoldable pub enqueue : ℕ → Consumer → Message → JitterAlgorithm → Outcome (Consumer × Bool)
enqueue fuel c msg ag =
    let r = correct c.jitter msg ag in
    and_then (Queue.enqueue fuel c.queue r.1)
      (λ q. ok (fire (record c { jitter = r.0; queue = q.0 })))

-- SrsMessageArray has room for `max` messages.
unfoldable pub dump_packets : Consumer → ℤ → ℤ → Outcome (List Message × Consumer)
dump_packets c max (negsuc n) = aborted
dump_packets c max (pos count) =
    if ltb_ℤ (pos 0) max
    then (let most =
          if count == 0 then max else (if ltb_ℤ (pos count) max then pos count else max) in
        and_then (Queue.dump_packets c.queue most)
          (λ r. ok (r.0, record c { should_update_source_id = false; queue = r.1 })))
    else aborted

-- wait() up to the wait on the condition; the Bool says whether it gets there.
unfoldable pub wait_enter : Consumer → ℤ → ℤ → Consumer × Bool
wait_enter c nb_msgs msgs_duration =
    let c' = record c { mw_min_msgs = nb_msgs; mw_duration = msgs_duration } in
    if is_enough c' then (c', false) else (record c' { mw_waiting = true }, true)

-- wait() from there on, woken or timed out.
unfoldable pub wait_leave : Consumer → Consumer
wait_leave c = record c { mw_waiting = false }

-- consumer->enqueue(msg, ag), where the notification is of no matter.
unfoldable pub feed : ℕ → Consumer → Message → JitterAlgorithm → Outcome Consumer
feed fuel c msg ag = and_then (enqueue fuel c msg ag) (λ r. ok r.0)

-- The loop of SrsGopCache::dump and of SrsMessageQueue::dump_packets(consumer).
unfoldable pub enqueue_all : ℕ → Consumer → List Message → JitterAlgorithm → Outcome Consumer
enqueue_all fuel c [] ag = ok c
enqueue_all fuel c (msg ∷ msgs) ag = and_then (feed fuel c msg ag) (λ d. enqueue_all fuel d msgs ag)

unfoldable pub gop_dump : ℕ → GopCache → Consumer → JitterAlgorithm → Outcome Consumer
gop_dump fuel g c ag = enqueue_all fuel c g.gop_cache ag

-- SrsMetaCache.
pub record MetaCache : Type 0 where
  pub meta : Option Message
  pub video : Option Message
  pub audio : Option Message

unfoldable pub clear : MetaCache
clear = record { meta = none; video = none; audio = none }

unfoldable pub update_ash : MetaCache → Message → MetaCache
update_ash m msg = record m { audio = some msg }

unfoldable pub update_vsh : MetaCache → Message → MetaCache
update_vsh m msg = record m { video = some msg }

-- if (test && msg) enqueue(msg).
unfoldable pub enqueue_if :
    ℕ → Bool → Option Message → Consumer → JitterAlgorithm → Outcome Consumer
enqueue_if fuel false o c ag = ok c
enqueue_if fuel true none c ag = ok c
enqueue_if fuel true (some msg) c ag = feed fuel c msg ag

-- dumps(consumer, ag, dm, ds).
unfoldable pub dumps : ℕ → MetaCache → Consumer → JitterAlgorithm → Bool → Bool → Outcome Consumer
dumps fuel m c ag dm ds =
    and_then (enqueue_if fuel dm m.meta c ag)
      (λ c1. and_then (enqueue_if fuel ds m.audio c1 ag) (λ c2. enqueue_if fuel ds m.video c2 ag))
