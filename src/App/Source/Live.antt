-- ===== src/App/Source/Live.antt =====
-- src/app/srs_app_source.cpp: SrsLiveSource, which relays the messages of one publisher to its
-- players. Each operation holds the lock of the source, so it is one step. A player is its place in
-- the list. SrsOriginHub, which feeds HLS, is an interface: its on_audio and on_video log an error
-- and go on, so they return a state alone.
pub mod Invariant
pub mod Publish
pub mod Reachable
use srs_simple.Base.{
  ℕ, zero, suc, Bool, true, false, ◌&&◌, ◌||◌, not, if◌then◌else◌, List, [], ◌∷◌, ◌++◌, same,
  Option, none, some, Outcome, ok, err, aborted, fault, stuck, and_then, ErrorCode,
}
use srs_simple.Base.Int.{ℤ, pos}
use srs_simple.Kernel.Flv.{Message}
use srs_simple.Kernel.Codec.{video_sh, audio_sh}
use srs_simple.App.Source.Jitter.{JitterAlgorithm, full}
use srs_simple.App.Source.Gop
use srs_simple.App.Source.Gop.{GopCache, cache}
use srs_simple.App.Source.Consumer
use srs_simple.App.Source.Consumer.{
  Consumer, MetaCache, feed, gop_dump, dumps, update_ash, update_vsh, update_source_id,
}

pub record HubOps (S : Type 0) : Type 0 where
  pub on_audio : S → Message → S
  pub on_video : S → Message → Bool → S
  pub hub_publish : S → S × Outcome (Unit {0})
  pub hub_unpublish : S → S
  pub active : S → Bool

pub record LiveSource (S : Type 0) : Type 0 where
  pub source_id : List ℕ
  pub pre_source_id : List ℕ
  pub consumers : List Consumer
  pub jitter_algorithm : JitterAlgorithm
  pub hub : S
  pub can_publish : Bool
  pub gop_cache : GopCache
  pub meta : MetaCache

unfoldable pub init : {S : Type 0} → S → LiveSource S
init hub = record {
  source_id = [];
  pre_source_id = [];
  consumers = [];
  jitter_algorithm = full;
  hub = hub;
  can_publish = true;
  gop_cache = Gop.init;
  meta = Consumer.clear;
}

-- The loop that copies a message to all consumers.
unfoldable pub to_consumers :
    ℕ → List Consumer → Message → JitterAlgorithm → Outcome (List Consumer)
to_consumers fuel [] msg ag = ok []
to_consumers fuel (c ∷ cs) msg ag =
    and_then (feed fuel c msg ag) (λ d. and_then (to_consumers fuel cs msg ag) (λ ds. ok (d ∷ ds)))

unfoldable pub erase : ℕ → List Consumer → List Consumer
erase i [] = []
erase zero (c ∷ cs) = cs
erase (suc i) (c ∷ cs) = c ∷ erase i cs

unfoldable pub update_source_ids : List Consumer → List Consumer
update_source_ids [] = []
update_source_ids (c ∷ cs) = update_source_id c ∷ update_source_ids cs

is_null : Option Message → Bool
is_null none = true
is_null (some m) = false

-- if (is_sequence_header || !meta->ash()) update_ash.
unfoldable pub refresh_ash : MetaCache → Message → MetaCache
unfolding is_null
refresh_ash m msg = if audio_sh msg.payload || is_null m.audio then update_ash m msg else m

module _ {S : Type 0} (ops : HubOps S) where
  unfoldable pub on_audio_imp : ℕ → LiveSource S → Message → Outcome (LiveSource S)
  on_audio_imp fuel s msg =
      let hub = ops.on_audio s.hub msg in
      and_then (to_consumers fuel s.consumers msg s.jitter_algorithm) (λ cs. ok (record s {
        hub = hub;
        consumers = cs;
        meta = refresh_ash s.meta msg;
        gop_cache = if audio_sh msg.payload then s.gop_cache else cache s.gop_cache msg;
      }))

  unfoldable pub on_video_imp : ℕ → LiveSource S → Message → Outcome (LiveSource S)
  on_video_imp fuel s msg =
      let sh = video_sh msg.payload in
      let hub = ops.on_video s.hub msg sh in
      and_then (to_consumers fuel s.consumers msg s.jitter_algorithm) (λ cs. ok (record s {
        hub = hub;
        consumers = cs;
        meta = if sh then update_vsh s.meta msg else s.meta;
        gop_cache = if sh then s.gop_cache else cache s.gop_cache msg;
      }))

  unfoldable pub on_source_id_changed : LiveSource S → List ℕ → LiveSource S
  on_source_id_changed s id = if same s.source_id id then s else (record s {
    pre_source_id = if same s.pre_source_id [] then id else s.pre_source_id;
    source_id = id;
    consumers = update_source_ids s.consumers;
  })

  -- A failed hub leaves the source free for the next publisher.
  unfoldable pub after_hub : LiveSource S → Outcome (Unit {0}) → LiveSource S
  after_hub s (ok u) = record s { meta = Consumer.clear }
  after_hub s (err e) = record s { can_publish = true }
  after_hub s aborted = s
  after_hub s fault = s
  after_hub s stuck = s

  -- `id` is that of the calling thread.
  unfoldable pub on_publish : LiveSource S → List ℕ → LiveSource S × Outcome (Unit {0})
  on_publish s id =
      if not s.can_publish
      then (s, err ErrorCode.error_system_stream_busy)
      else (let s' = on_source_id_changed (record s { can_publish = false }) id in
          let h = ops.hub_publish s'.hub in (after_hub (record s' { hub = h.0 }) h.1, h.1))

  unfoldable pub on_unpublish : LiveSource S → LiveSource S
  on_unpublish s = if s.can_publish then s else (record s {
    hub = ops.hub_unpublish s.hub;
    gop_cache = Gop.clear s.gop_cache;
    pre_source_id = if same s.source_id [] then s.pre_source_id else s.source_id;
    source_id = [];
    can_publish = true;
  })

  unfoldable pub create_consumer : LiveSource S → LiveSource S
  create_consumer s = record s { consumers = s.consumers ++ (Consumer.init ∷ []) }

  unfoldable pub on_consumer_destroy : LiveSource S → ℕ → LiveSource S
  on_consumer_destroy s i = record s { consumers = erase i s.consumers }

  -- `queue_size` is the queue_length of the configuration.
  unfoldable pub consumer_dumps :
      ℕ → ℤ → LiveSource S → Consumer → Bool → Bool → Bool → Outcome Consumer
  consumer_dumps fuel queue_size s consumer ds dm dg =
      let c = Consumer.set_queue_size consumer queue_size in
      if ops.active s.hub
      then and_then (dumps fuel s.meta c s.jitter_algorithm dm ds)
          (λ d. if dg then gop_dump fuel s.gop_cache d s.jitter_algorithm else ok d)
      else ok c

  unfoldable pub set_cache : LiveSource S → Bool → LiveSource S
  set_cache s enabled = record s { gop_cache = Gop.set s.gop_cache enabled }

  unfoldable pub set_gop_cache_max_frames : LiveSource S → ℕ → LiveSource S
  set_gop_cache_max_frames s v = record s { gop_cache = Gop.set_gop_cache_max_frames s.gop_cache v }
