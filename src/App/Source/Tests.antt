-- ===== src/App/Source/Tests.antt =====
-- The claims about src/app/srs_app_source.cpp, at concrete inputs.
use srs_simple.Base.{
  ℕ, ◌≡◌, Bool, true, false, List, [], ◌∷◌, ◌++◌, none, some, ok, err, ErrorCode, arith, refl,
}
use srs_simple.Base.Int.{ℤ, pos, ◌≤ℤ◌, ◌+ℤ◌, max_zero}
use srs_simple.Kernel.Flv.{Message, is_av, is_video, is_audio}
use srs_simple.Kernel.Codec.{video_sh, h264}
use srs_simple.App.Source.Jitter.{Jitter, correct, get_time, full}
use srs_simple.App.Source.Jitter.Correct.{
  correct_full-bounds, correct_all, correct_all-Ordered, correct_full-backward, Ordered, AllAv,
}
use srs_simple.App.Source.Queue
use srs_simple.App.Source.Queue.{Queue, enqueue, dump_packets, duration, shrink}
use srs_simple.App.Source.Queue.Enqueue.{enqueue-Kept, Kept}
use srs_simple.App.Source.Queue.Dump.{dump_packets-enqueue_lost}
use srs_simple.App.Source.Gop.{GopCache, cache}
use srs_simple.App.Source.Gop.Valid.{IsValid, cache-IsValid, videos, audios, IsGop, Fits}
use srs_simple.App.Source.Consumer
use srs_simple.App.Source.Consumer.{Consumer, wait_enter}
use srs_simple.App.Source.Consumer.Wait.{enqueue-Fired, Fired}
use srs_simple.App.Source.Consumer.Join.{Extends}
use srs_simple.App.Source.Live.{
  LiveSource, HubOps, on_video_imp, on_audio_imp, on_publish, on_unpublish, consumer_dumps, init,
  set_cache, set_gop_cache_max_frames, after_hub, on_source_id_changed, update_source_ids,
  to_consumers,
}
use srs_simple.App.Source.Live.Invariant.{
  IsLive, AllFrames, IsFrame, HeaderOrNone, on_video_imp-IsLive, on_audio_imp-IsLive,
}
use srs_simple.App.Source.Live.Reachable.{
  configure, begin, step, publish, video, unpublish, IsIdleOrTaken, Reachable-IsLive,
}
use srs_simple.App.Source.Live.Publish.{greeting, consumer_dumps-greeting, on_publish-exclusive}

abbrev message : ℕ → ℤ → List ℕ → Message
message type time payload = record {
  message_type = type;
  prefer_cid = 6;
  timestamp = time;
  stream_id = 1;
  payload = payload;
}

abbrev key_frame : Message
key_frame = message 9 (pos 1000) (23 ∷ 1 ∷ [])

abbrev inter_frame : Message
inter_frame = message 9 (pos 1040) (39 ∷ 1 ∷ [])

abbrev sequence_header : Message
sequence_header = message 9 (pos 0) (23 ∷ 0 ∷ [])

abbrev audio_frame : Message
audio_frame = message 8 (pos 1020) (175 ∷ 1 ∷ [])

abbrev metadata : Message
metadata = message 18 (pos 0) (2 ∷ [])

abbrev jitter_at : Jitter
jitter_at = record { last_pkt_time = pos 900; last_pkt_correct_time = pos 50 }

correct_full-bounds_example :
    ((correct jitter_at key_frame full).1.timestamp ≡ get_time (correct jitter_at key_frame full).0)
    × (pos 0 ≤ℤ get_time (correct jitter_at key_frame full).0)
    × (get_time jitter_at ≤ℤ get_time (correct jitter_at key_frame full).0 +ℤ pos 250)
    × (get_time (correct jitter_at key_frame full).0 ≤ℤ max_zero (get_time jitter_at) +ℤ pos 250)
unfolding is_av
correct_full-bounds_example = correct_full-bounds jitter_at key_frame refl

correct_all-Ordered_example :
    Ordered (get_time jitter_at) (correct_all jitter_at (key_frame ∷ audio_frame ∷ []) full)
unfolding is_av AllAv Ordered
correct_all-Ordered_example =
    correct_all-Ordered jitter_at (key_frame ∷ audio_frame ∷ []) (refl, (refl, tt))
      (omega arith, (omega arith, tt))

abbrev late_frame : Message
late_frame = message 9 (pos 880) (39 ∷ 1 ∷ [])

correct_full-backward_example :
    (correct jitter_at late_frame full).1.timestamp +ℤ pos 1 ≤ℤ get_time jitter_at
unfolding is_av get_time ◌+ℤ◌
correct_full-backward_example =
    correct_full-backward jitter_at late_frame refl (omega arith) (omega arith) (omega arith)

-- A queue of 30 seconds.
abbrev queue : Queue
queue = record {
  av_start_time = pos 1000000;
  av_end_time = pos 1000000;
  max_queue_size = pos 30000000;
  msgs = sequence_header ∷ key_frame ∷ [];
}

enqueue-Kept_example :
    (r : Queue) × (o : Bool) × (enqueue 2 queue inter_frame ≡ ok (r, o))
    × (duration r ≤ℤ queue.max_queue_size)
    × Kept (queue.msgs ++ (inter_frame ∷ [])) r o
enqueue-Kept_example = enqueue-Kept 2 queue inter_frame (omega arith) (omega arith)

abbrev queue_of_metadata : Queue
queue_of_metadata = record queue { msgs = metadata ∷ [] }

abbrev frame_after_a_minute : Message
frame_after_a_minute = message 9 (pos 60000) (39 ∷ 1 ∷ [])

dump_packets-enqueue_lost_example :
    (out : List Message) × (r s : Queue) × (dump_packets queue_of_metadata (pos 128) ≡ ok (out, r))
    × (r.msgs ≡ [])
    × (enqueue 2 r frame_after_a_minute ≡ ok (s, true))
    × (s.msgs ≡ [])
unfolding is_av Queue.is_video_sh Queue.is_audio_sh Queue.last_timestamp is_video is_audio video_sh
    ◌+ℤ◌
dump_packets-enqueue_lost_example =
    dump_packets-enqueue_lost 2 queue_of_metadata 128 frame_after_a_minute (omega arith)
      (omega arith) (omega arith) refl (omega arith) refl refl refl (omega arith)

abbrev gop : GopCache
gop = record {
  enable_gop_cache = true;
  cached_video_count = 1;
  audio_after_last_video_count = 0;
  gop_cache_max_frames = 100;
  gop_cache = key_frame ∷ [];
}

gop-IsValid : IsValid gop
unfolding IsValid videos audios IsGop Fits is_video h264
gop-IsValid = (refl, refl, omega arith, (refl, refl, tt), refl, refl)

cache-IsValid_example : IsValid (cache gop inter_frame)
cache-IsValid_example = cache-IsValid gop inter_frame gop-IsValid

abbrev player : Consumer
player = record {
  jitter = jitter_at;
  queue = queue;
  should_update_source_id = false;
  mw_waiting = true;
  mw_min_msgs = pos 2;
  mw_duration = pos 0;
}

enqueue-Fired_example :
    (d : Consumer) × (notified : Bool) × (is_overflow : Bool) × (Consumer.enqueue 2 player
        inter_frame full
      ≡ ok (d, notified))
    × Kept (queue.msgs ++ ((correct jitter_at inter_frame full).1 ∷ [])) d.queue is_overflow
    × Fired player d notified
enqueue-Fired_example = enqueue-Fired 2 player inter_frame full (omega arith) (omega arith)

abbrev idle_player : Consumer
idle_player = record player { mw_waiting = false }

-- A hub that is only active or not.
abbrev hub : HubOps Bool
hub = record {
  on_audio = λ s m. s;
  on_video = λ s m b. s;
  hub_publish = λ s. (true, ok tt);
  hub_unpublish = λ s. false;
  active = λ s. s;
}

abbrev source : LiveSource Bool
source = record {
  source_id = 97 ∷ [];
  pre_source_id = [];
  consumers = player ∷ [];
  jitter_algorithm = full;
  hub = true;
  can_publish = false;
  gop_cache = gop;
  meta = record { meta = some metadata; video = some sequence_header; audio = none };
}

source-IsLive : IsLive source
unfolding IsLive AllFrames IsFrame HeaderOrNone Queue.is_video_sh Queue.is_audio_sh is_video
    is_audio video_sh
source-IsLive = (gop-IsValid, (refl, tt), refl)

on_video_imp-IsLive_example :
    (t : LiveSource Bool) × (on_video_imp hub 2 source inter_frame ≡ ok t) × IsLive t
unfolding is_video
on_video_imp-IsLive_example =
    on_video_imp-IsLive hub 2 source inter_frame (omega arith) refl source-IsLive

on_audio_imp-IsLive_example :
    (t : LiveSource Bool) × (on_audio_imp hub 2 source audio_frame ≡ ok t) × IsLive t
unfolding is_audio
on_audio_imp-IsLive_example =
    on_audio_imp-IsLive hub 2 source audio_frame (omega arith) refl source-IsLive

-- The queue of 30 s that the configuration sets.
consumer_dumps-greeting_example :
    Extends
      (Consumer.set_queue_size Consumer.init (pos 30000000))
      (greeting source true true true)
      (consumer_dumps hub 2 (pos 30000000) source Consumer.init true true true)
consumer_dumps-greeting_example =
    consumer_dumps-greeting hub 2 (pos 30000000) source Consumer.init true true true (omega arith)
      (omega arith) refl

abbrev free_source : LiveSource Bool
free_source = record source { can_publish = true }

on_publish-exclusive_example :
    on_publish hub (on_publish hub free_source (98 ∷ [])).0 (99 ∷ [])
    ≡ ((on_publish hub free_source (98 ∷ [])).0, err ErrorCode.error_system_stream_busy)
unfolding on_publish
on_publish-exclusive_example = on_publish-exclusive hub free_source (98 ∷ []) (99 ∷ []) refl

-- A source with the cache on, published by a client of thread 97, with a key frame.
abbrev published : LiveSource Bool
published = (on_publish hub (configure hub 2 true 2500 (init true)) (97 ∷ [])).0

abbrev with_key_frame : LiveSource Bool
with_key_frame = record published {
  hub = hub.on_video published.hub key_frame false;
  consumers = [];
  gop_cache = cache published.gop_cache key_frame;
}

key_frame_taken : on_video_imp hub 2 published key_frame ≡ ok with_key_frame
unfolding on_video_imp to_consumers on_publish init set_cache set_gop_cache_max_frames after_hub
    on_source_id_changed update_source_ids video_sh
key_frame_taken = refl

Reachable-IsLive_example :
    IsLive (on_unpublish hub with_key_frame)
    × IsIdleOrTaken hub 2 true 2500 (on_unpublish hub with_key_frame)
unfolding on_publish is_video init set_cache set_gop_cache_max_frames after_hub on_source_id_changed
Reachable-IsLive_example =
    Reachable-IsLive hub 2 true 2500 (on_unpublish hub with_key_frame) (omega arith) (
      step
        (step (step (begin true) (publish (97 ∷ []))) (video key_frame refl refl key_frame_taken))
        unpublish)
