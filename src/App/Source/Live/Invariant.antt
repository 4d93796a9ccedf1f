-- ===== src/App/Source/Live/Invariant.antt =====
-- src/app/srs_app_source.cpp: the invariant of SrsLiveSource under the messages of its publisher.
use srs_simple.Base.{
  ℕ, ◌≤◌, ◌≡◌, Bool, true, false, ◌&&◌, ◌||◌, not, if◌then◌else◌, List, [], ◌∷◌, ◌++◌, All, ltb,
  length, ◌+◌, Option, none, some, ok, if_cases, arith, refl, sym, subst,
}
use srs_simple.Kernel.Flv.{Message, is_video, is_audio}
use srs_simple.Kernel.Codec.{video_sh, audio_sh, keyframe, h264}
use srs_simple.App.Source.Jitter.{JitterAlgorithm, correct}
use srs_simple.App.Source.Queue.{is_video_sh, is_audio_sh}
use srs_simple.App.Source.Queue.Enqueue.{enqueue-ok}
use srs_simple.App.Source.Gop.{
  GopCache, clear, count_video, count_audio, restart, append, cache_counted, cache, pure_audio,
}
use srs_simple.App.Source.Gop.Valid.{IsValid, cache-IsValid}
use srs_simple.App.Source.Consumer.{
  Consumer, MetaCache, fire, feed, enqueue, update_vsh, update_ash,
}
use srs_simple.App.Source.Live.{
  LiveSource, HubOps, to_consumers, refresh_ash, on_audio_imp, on_video_imp,
}

pub feed-ok :
    (fuel : ℕ) (c : Consumer) (m : Message) (ag : JitterAlgorithm)
    → 2 ≤ fuel
    → (d : Consumer) × (feed fuel c m ag ≡ ok d)
unfolding feed enqueue
feed-ok fuel c m ag f =
    let j = correct c.jitter m ag in
    let (q, e) = enqueue-ok fuel c.queue j.1 f in
    ((fire (record c { jitter = j.0; queue = q.0 })).0, rw e refl)

pub to_consumers-ok :
    (fuel : ℕ) (cs : List Consumer) (m : Message) (ag : JitterAlgorithm)
    → 2 ≤ fuel
    → (ds : List Consumer) × (to_consumers fuel cs m ag ≡ ok ds)
unfolding to_consumers
to_consumers-ok fuel [] m ag f = ([], refl)
to_consumers-ok fuel (c ∷ cs) m ag f =
    let (d, e) = feed-ok fuel c m ag f in
    let (ds, es) = to_consumers-ok fuel cs m ag f in (d ∷ ds, rw (e, es) refl)

-- No sequence header of a video or an audio.
unfoldable pub IsFrame : Message → Type 0
IsFrame m = (not (is_video_sh m || is_audio_sh m)) ≡ true

unfoldable pub HeaderOrNone : Option Message → Type 0
HeaderOrNone none = Unit
HeaderOrNone (some m) = video_sh m.payload ≡ true

All-last :
    (P : Message → Type 0) (ms : List Message) (m : Message)
    → All P ms
    → P m
    → All P (ms ++ (m ∷ []))
All-last P [] m a p = (p, tt)
All-last P (n ∷ ms) m a p = (a.0, All-last P ms m a.1 p)

unfoldable pub AllFrames : GopCache → Type 0
AllFrames g = All IsFrame g.gop_cache

-- The cached frames are a valid group with no sequence header among them, and the
-- cached video message is a sequence header.
unfoldable pub IsLive : {S : Type 0} → LiveSource S → Type 0
IsLive s = IsValid s.gop_cache × AllFrames s.gop_cache × HeaderOrNone s.meta.video

append-AllFrames : (g : GopCache) (m : Message) → AllFrames g → IsFrame m → AllFrames (append g m)
unfolding append clear AllFrames
append-AllFrames g m a p =
    let g' = record g { gop_cache = g.gop_cache ++ (m ∷ []) } in
    if_cases AllFrames
      (ltb 0 g.gop_cache_max_frames
        && ltb g.gop_cache_max_frames (length (g.gop_cache ++ (m ∷ []))))
      (clear g') g' (λ o. tt) (λ o. All-last IsFrame g.gop_cache m a p)

count_video-AllFrames : (g : GopCache) (m : Message) → AllFrames g → AllFrames (count_video g m)
unfolding count_video AllFrames
count_video-AllFrames g m a =
    if_cases AllFrames (is_video m)
      (record g { cached_video_count = g.cached_video_count + 1; audio_after_last_video_count = 0 })
      g (λ o. a) (λ o. a)

count_audio-AllFrames : (g : GopCache) (m : Message) → AllFrames g → AllFrames (count_audio g m)
unfolding count_audio AllFrames
count_audio-AllFrames g m a =
    if_cases AllFrames (is_audio m)
      (record g { audio_after_last_video_count = g.audio_after_last_video_count + 1 }) g (λ o. a)
      (λ o. a)

restart-AllFrames : (g : GopCache) (m : Message) → AllFrames g → AllFrames (restart g m)
unfolding restart clear AllFrames
restart-AllFrames g m a =
    if_cases AllFrames (is_video m && keyframe m.payload)
      (record (clear g) { cached_video_count = 1 }) g (λ o. tt) (λ o. a)

cache_counted-AllFrames :
    (g : GopCache) (m : Message) → AllFrames g → IsFrame m → AllFrames (cache_counted g m)
unfolding cache_counted clear AllFrames
cache_counted-AllFrames g m a p =
    let g' = count_audio g m in
    let over = ltb 115 g'.audio_after_last_video_count in
    let kept = append (restart g' m) m in
    let k =
      append-AllFrames (restart g' m) m (restart-AllFrames g' m (count_audio-AllFrames g m a)) p in
    if_cases AllFrames (pure_audio g) g (if over then clear g' else kept) (λ o. a)
      (λ o. if_cases AllFrames over (clear g') kept (λ y. tt) (λ y. k))

cache-AllFrames : (g : GopCache) (m : Message) → AllFrames g → IsFrame m → AllFrames (cache g m)
unfolding cache
cache-AllFrames g m a p =
    let k = cache_counted-AllFrames (count_video g m) m (count_video-AllFrames g m a) p in
    let skip = is_video m && not (h264 m.payload) in
    let stored = cache_counted (count_video g m) m in
    if_cases AllFrames (not g.enable_gop_cache) g (if skip then g else stored) (λ o. a)
      (λ o. if_cases AllFrames skip g stored (λ y. a) (λ y. k))

IsFrame-video : (m : Message) → is_video m ≡ true → video_sh m.payload ≡ false → IsFrame m
unfolding IsFrame is_video_sh is_audio_sh is_video is_audio
IsFrame-video m v h = ground arith

IsFrame-audio : (m : Message) → is_audio m ≡ true → audio_sh m.payload ≡ false → IsFrame m
unfolding IsFrame is_video_sh is_audio_sh is_video is_audio
IsFrame-audio m v h = ground arith

-- The cache behind a message that is stored only where it is no header.
frame-IsValid :
    (b : Bool) (g : GopCache) (m : Message) → IsValid g → IsValid (if b then g else cache g m)
frame-IsValid b g m k = if_cases IsValid b g (cache g m) (λ h. k) (λ h. cache-IsValid g m k)

frame-AllFrames :
    (b : Bool) (g : GopCache) (m : Message)
    → AllFrames g
    → (b ≡ false → IsFrame m)
    → AllFrames (if b then g else cache g m)
frame-AllFrames b g m k p =
    if_cases AllFrames b g (cache g m) (λ h. k) (λ h. cache-AllFrames g m k (p h))

vsh-HeaderOrNone :
    (meta : MetaCache) (m : Message)
    → HeaderOrNone meta.video
    → HeaderOrNone (if video_sh m.payload then update_vsh meta m else meta).video
unfolding update_vsh HeaderOrNone
vsh-HeaderOrNone meta m k =
    if_cases (λ c. HeaderOrNone c.video) (video_sh m.payload) (update_vsh meta m) meta (λ h. h)
      (λ h. k)

refresh_ash-video : (meta : MetaCache) (m : Message) → (refresh_ash meta m).video ≡ meta.video
unfolding refresh_ash update_ash
refresh_ash-video meta m = ground arith

-- What follows the players in on_video_imp and on_audio_imp.
module _ {S : Type 0} (ops : HubOps S) where
  -- From a valid source, on_video_imp of a video message succeeds with two units of fuel, and
  -- leaves a source whose cached frames are a valid group without sequence headers and whose
  -- cached video message, if any, is a sequence header.
  pub on_video_imp-IsLive :
      (fuel : ℕ) (s : LiveSource S) (m : Message)
      → 2 ≤ fuel
      → is_video m ≡ true
      → IsLive s
      → (t : LiveSource S) × (on_video_imp ops fuel s m ≡ ok t) × IsLive t
  unfolding on_video_imp IsLive
  on_video_imp-IsLive fuel s m f v k =
      let (cs, e) = to_consumers-ok fuel s.consumers m s.jitter_algorithm f in
      (
        record s {
          hub = ops.on_video s.hub m (video_sh m.payload);
          consumers = cs;
          meta = if video_sh m.payload then update_vsh s.meta m else s.meta;
          gop_cache = if video_sh m.payload then s.gop_cache else cache s.gop_cache m;
        },
        rw e refl,
        (
          frame-IsValid (video_sh m.payload) s.gop_cache m k.0,
          frame-AllFrames (video_sh m.payload) s.gop_cache m k.1 (IsFrame-video m v),
          vsh-HeaderOrNone s.meta m k.2,
        ),
      )

  -- From a valid source, on_audio_imp of an audio message succeeds with two units of fuel and
  -- leaves a valid source.
  pub on_audio_imp-IsLive :
      (fuel : ℕ) (s : LiveSource S) (m : Message)
      → 2 ≤ fuel
      → is_audio m ≡ true
      → IsLive s
      → (t : LiveSource S) × (on_audio_imp ops fuel s m ≡ ok t) × IsLive t
  unfolding on_audio_imp IsLive
  on_audio_imp-IsLive fuel s m f v k =
      let (cs, e) = to_consumers-ok fuel s.consumers m s.jitter_algorithm f in
      (
        record s {
          hub = ops.on_audio s.hub m;
          consumers = cs;
          meta = refresh_ash s.meta m;
          gop_cache = if audio_sh m.payload then s.gop_cache else cache s.gop_cache m;
        },
        rw e refl,
        (
          frame-IsValid (audio_sh m.payload) s.gop_cache m k.0,
          frame-AllFrames (audio_sh m.payload) s.gop_cache m k.1 (IsFrame-audio m v),
          subst HeaderOrNone (sym (refresh_ash-video s.meta m)) k.2,
        ),
      )
