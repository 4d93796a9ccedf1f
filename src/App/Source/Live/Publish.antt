-- ===== src/App/Source/Live/Publish.antt =====
-- src/app/srs_app_source.cpp: publishing and joining at SrsLiveSource.
use srs_simple.Base.{
  ℕ, ◌≡◌, ◌≤◌, Bool, true, false, not, if◌then◌else◌, List, [], ◌++◌, Outcome, ok, err, aborted,
  fault, stuck, ErrorCode, arith, refl, if_cases, ◌∙◌,
}
use srs_simple.Base.Int.{ℤ, pos, ◌≤ℤ◌}
use srs_simple.Kernel.Flv.{Message}
use srs_simple.App.Source.Jitter.{JitterAlgorithm}
use srs_simple.App.Source.Queue
use srs_simple.App.Source.Consumer
use srs_simple.App.Source.Consumer.{Consumer, dumps, gop_dump, enqueue_all}
use srs_simple.App.Source.Consumer.Join.{
  Extends, to_list, Extends-none, Extends-then, Extends-enqueue_all, Extends-dumps,
}
use srs_simple.App.Source.Live.{
  LiveSource, HubOps, consumer_dumps, on_publish, after_hub, on_source_id_changed,
}

-- What a player that joins is given.
unfoldable pub greeting : {S : Type 0} → LiveSource S → Bool → Bool → Bool → List Message
greeting s ds dm dg =
    (to_list dm s.meta.meta ++ (to_list ds s.meta.audio ++ to_list ds s.meta.video))
    ++ (if dg then s.gop_cache.gop_cache else [])

-- if (dg) gop_cache->dump(consumer).
Extends-cached :
    (fuel : ℕ) (f : 2 ≤ fuel) (ms : List Message) (d : Consumer) (ag : JitterAlgorithm) (dg : Bool)
    → pos 1 ≤ℤ d.queue.max_queue_size
    → Extends d (if dg then ms else []) (if dg then enqueue_all fuel d ms ag else ok d)
Extends-cached fuel f ms d ag true h = Extends-enqueue_all fuel f ms d ag h
Extends-cached fuel f ms d ag false h = Extends-none fuel f d

module _ {S : Type 0} (ops : HubOps S) where
  -- Where the hub is active and the queue size is positive, two units of fuel are enough for
  -- consumer_dumps to succeed, under every jitter algorithm. It feeds the player's queue with the
  -- metadata if dm, the audio and then the video sequence header if ds, and then the cached frames
  -- if dg, in this order. Each comes unchanged but for its time behind what the queue then holds,
  -- and the queue keeps it all, or overflows to the latest video and audio sequence headers; after
  -- each it does not last longer than its size.
  pub consumer_dumps-greeting :
      (fuel : ℕ) (size : ℤ) (s : LiveSource S) (c : Consumer) (ds dm dg : Bool)
      → 2 ≤ fuel
      → pos 1 ≤ℤ size
      → ops.active s.hub ≡ true
      → Extends
          (Consumer.set_queue_size c size)
          (greeting s ds dm dg)
          (consumer_dumps ops fuel size s c ds dm dg)
  unfolding consumer_dumps greeting gop_dump Consumer.set_queue_size Queue.set_queue_size
  consumer_dumps-greeting fuel size s c ds dm dg f h a =
      let c' = Consumer.set_queue_size c size in
      rw a (
        Extends-then fuel f c'
          (to_list dm s.meta.meta ++ (to_list ds s.meta.audio ++ to_list ds s.meta.video))
          (if dg then s.gop_cache.gop_cache else []) (dumps fuel s.meta c' s.jitter_algorithm dm ds)
          (λ d. if dg then gop_dump fuel s.gop_cache d s.jitter_algorithm else ok d)
          (Extends-dumps fuel f s.meta c' s.jitter_algorithm dm ds h)
          (λ d e. Extends-cached fuel f s.gop_cache.gop_cache d s.jitter_algorithm dg (rw e h)))

  busy :
      (t : LiveSource S) (id : List ℕ)
      → t.can_publish ≡ false
      → on_publish ops t id ≡ (t, err ErrorCode.error_system_stream_busy)
  unfolding on_publish
  busy t id h = rw h refl

  after_hub-ok :
      (s : LiveSource S) (o : Outcome (Unit {0}))
      → o ≡ ok tt
      → (after_hub ops s o).can_publish ≡ s.can_publish
  unfolding after_hub
  after_hub-ok s (ok u) h = refl
  after_hub-ok s (err e) h = absurd cc
  after_hub-ok s aborted h = absurd cc
  after_hub-ok s fault h = absurd cc
  after_hub-ok s stuck h = absurd cc

  on_source_id_changed-can_publish :
      (s : LiveSource S) (id : List ℕ) → (on_source_id_changed ops s id).can_publish ≡ s.can_publish
  unfolding on_source_id_changed
  on_source_id_changed-can_publish s id = ground arith

  refused : err ErrorCode.error_system_stream_busy ≡ ok (tt {0}) → ⊥
  refused e = cc

  taken :
      (s : LiveSource S) (id : List ℕ)
      → (on_publish ops s id).1 ≡ ok tt
      → (on_publish ops s id).0.can_publish ≡ false
  unfolding on_publish
  taken s id =
      let s' = on_source_id_changed ops (record s { can_publish = false }) id in
      let h = ops.hub_publish s'.hub in
      let t = record s' { hub = h.0 } in
      if_cases {A = LiveSource S × Outcome (Unit {0})} (λ r. r.1 ≡ ok tt → r.0.can_publish ≡ false)
        (not s.can_publish) (s, err ErrorCode.error_system_stream_busy) (after_hub ops t h.1, h.1)
        (λ d e. absurd (refused e))
        (λ d e.
          after_hub-ok t h.1 e
          ∙ on_source_id_changed-can_publish (record s { can_publish = false }) id)

  -- After a publish that succeeded, another on_publish answers ERROR_SYSTEM_STREAM_BUSY and
  -- leaves the source as it is.
  pub on_publish-exclusive :
      (s : LiveSource S) (id other : List ℕ)
      → (on_publish ops s id).1 ≡ ok tt
      → on_publish ops (on_publish ops s id).0 other
        ≡ ((on_publish ops s id).0, err ErrorCode.error_system_stream_busy)
  on_publish-exclusive s id other h = busy (on_publish ops s id).0 other (taken s id h)
