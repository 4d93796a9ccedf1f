-- ===== src/App/Source/Live/Reachable.antt =====
-- src/app/srs_app_source.cpp: the states that SrsLiveSource reaches, as its operations come from
-- publishers and players one at a time.
use srs_simple.Base.{
  ℕ, ◌≡◌, ◌≤◌, ◌⊎◌, inl, inr, Bool, true, false, not, if◌then◌else◌, List, [], Outcome, ok, err,
  aborted, fault, stuck, ErrorCode, arith, refl, sym, subst, ◌∙◌, if_cases, same,
}
use srs_simple.Kernel.Flv.{Message, is_video, is_audio}
use srs_simple.Kernel.Codec.{audio_sh, video_sh}
use srs_simple.App.Source.Gop
use srs_simple.App.Source.Gop.{
  GopCache, set_gop_cache_max_frames, pure_audio, count_video, count_audio, restart, append,
  cache_counted, cache,
}
use srs_simple.App.Source.Gop.Valid.{IsValid, Fits, IsGop, videos, audios, clear-IsValid}
use srs_simple.App.Source.Consumer
use srs_simple.App.Source.Consumer.{update_vsh}
use srs_simple.App.Source.Live
use srs_simple.App.Source.Live.{
  LiveSource, HubOps, init, on_publish, on_unpublish, after_hub, on_source_id_changed, on_audio_imp,
  on_video_imp, create_consumer, on_consumer_destroy, set_cache, refresh_ash,
}
use srs_simple.App.Source.Live.Invariant.{
  IsLive, AllFrames, HeaderOrNone, to_consumers-ok, on_audio_imp-IsLive, on_video_imp-IsLive,
}

-- cache keeps the limit of the frames.
pub cache-max_frames :
    (g : GopCache) (m : Message) → (cache g m).gop_cache_max_frames ≡ g.gop_cache_max_frames
unfolding cache cache_counted count_video count_audio restart append Gop.clear pure_audio
cache-max_frames g m = ground arith

set-IsValid :
    (g : GopCache) (enabled : Bool)
    → IsValid g
    → IsValid (set_gop_cache_max_frames (Gop.set g enabled) g.gop_cache_max_frames)
unfolding set_gop_cache_max_frames Gop.set Gop.clear IsValid Fits
set-IsValid g true k = (k.0, k.1, k.2, k.3, k.4, refl)
set-IsValid g false k = clear-IsValid (record g { enable_gop_cache = false })

initial-IsValid :
    (b : Bool) (frames : ℕ) → IsValid (set_gop_cache_max_frames (Gop.set Gop.init b) frames)
unfolding set_gop_cache_max_frames Gop.set Gop.clear Gop.init IsValid Fits videos audios IsGop
initial-IsValid true frames = (refl, refl, omega arith, tt, ground arith, refl)
initial-IsValid false frames = (refl, refl, omega arith, tt, ground arith, refl)

module _ {S : Type 0} (ops : HubOps S) (fuel : ℕ) (enabled : Bool) (frames : ℕ) where
  -- What each client does first (src/app/srs_app_rtmp_conn.cpp), with the configuration.
  abbrev pub configure : LiveSource S → LiveSource S
  configure s = Live.set_gop_cache_max_frames ops (set_cache ops s enabled) frames

  -- One operation. Messages come from a publisher, while the source is taken.
  pub data Step : LiveSource S → LiveSource S → Type 0 where
    audio :
        {s t : LiveSource S} (m : Message)
        → s.can_publish ≡ false
        → is_audio m ≡ true
        → on_audio_imp ops fuel s m ≡ ok t
        → Step s t
    video :
        {s t : LiveSource S} (m : Message)
        → s.can_publish ≡ false
        → is_video m ≡ true
        → on_video_imp ops fuel s m ≡ ok t
        → Step s t
    publish : {s : LiveSource S} (id : List ℕ) → Step s (on_publish ops s id).0
    unpublish : {s : LiveSource S} → Step s (on_unpublish ops s)
    join : {s : LiveSource S} → Step s (create_consumer ops s)
    leave : {s : LiveSource S} (i : ℕ) → Step s (on_consumer_destroy ops s i)
    set : {s : LiveSource S} → Step s (configure s)

  pub data Reachable : LiveSource S → Type 0 where
    begin : (hub : S) → Reachable (configure (init hub))
    step : {s t : LiveSource S} → Reachable s → Step s t → Reachable t

  -- Free for the next publisher, with no frames of the last one.
  abbrev pub IsIdleOrTaken : LiveSource S → Type 0
  IsIdleOrTaken s = (s.can_publish ≡ false) ⊎ (s.gop_cache.gop_cache ≡ [])

  abbrev IsReached : LiveSource S → Type 0
  IsReached s = IsLive s × (s.gop_cache.gop_cache_max_frames ≡ frames) × IsIdleOrTaken s

  set-AllFrames : (g : GopCache) (b : Bool) → AllFrames g → AllFrames (Gop.set g b)
  unfolding Gop.set Gop.clear AllFrames
  set-AllFrames g true k = k
  set-AllFrames g false k = tt

  set-empty : (g : GopCache) (b : Bool) → g.gop_cache ≡ [] → (Gop.set g b).gop_cache ≡ []
  unfolding Gop.set Gop.clear
  set-empty g true h = h
  set-empty g false h = refl

  configure-IsReached : (s : LiveSource S) → IsReached s → IsReached (configure s)
  unfolding set_cache Live.set_gop_cache_max_frames set_gop_cache_max_frames IsLive AllFrames
  configure-IsReached s (k, f, idle) = (
    (
      subst (λ n. IsValid (set_gop_cache_max_frames (Gop.set s.gop_cache enabled) n)) f
          (set-IsValid s.gop_cache enabled k.0),
      set-AllFrames s.gop_cache enabled k.1,
      k.2,
    ),
    refl,
    elim idle [
      | inl taken ↦ inl taken
      | inr none_left ↦ inr (set-empty s.gop_cache enabled none_left)
    ],
  )

  begin-IsReached : (hub : S) → IsReached (configure (init hub))
  unfolding init set_cache Live.set_gop_cache_max_frames set_gop_cache_max_frames IsLive AllFrames
      HeaderOrNone Consumer.clear Gop.init
  begin-IsReached hub = (
    (initial-IsValid enabled frames, set-AllFrames Gop.init enabled tt, tt),
    refl,
    inr (set-empty Gop.init enabled refl),
  )

  ok-injective : {A : Type 0} {a b : A} → ok a ≡ ok b → a ≡ b
  ok-injective e = cc

  -- A message that its publisher sent.
  message-IsReached :
      (s t t' u : LiveSource S)
      → s.can_publish ≡ false
      → u.gop_cache.gop_cache_max_frames ≡ s.gop_cache.gop_cache_max_frames
      → u.can_publish ≡ s.can_publish
      → IsReached s
      → t' ≡ t
      → u ≡ t
      → IsLive t'
      → IsReached t
  message-IsReached s t t' u taken same free k e1 e2 live = (
    subst IsLive e1 live,
    subst (λ x. x.gop_cache.gop_cache_max_frames ≡ frames) e2 (same ∙ k.1),
    inl (subst (λ x. x.can_publish ≡ false) e2 (free ∙ taken)),
  )

  cached-max_frames :
      (b : Bool) (g : GopCache) (m : Message)
      → (if b then g else cache g m).gop_cache_max_frames ≡ g.gop_cache_max_frames
  cached-max_frames true g m = refl
  cached-max_frames false g m = cache-max_frames g m

  audio-IsReached :
      (s t : LiveSource S) (m : Message)
      → 2 ≤ fuel
      → s.can_publish ≡ false
      → is_audio m ≡ true
      → on_audio_imp ops fuel s m ≡ ok t
      → IsReached s
      → IsReached t
  unfolding on_audio_imp
  audio-IsReached s t m f taken a e k =
      let (t', e', live) = on_audio_imp-IsLive ops fuel s m f a k.0 in
      let (cs, ec) = to_consumers-ok fuel s.consumers m s.jitter_algorithm f in
      let u : LiveSource S = record s {
        hub = ops.on_audio s.hub m;
        consumers = cs;
        meta = refresh_ash s.meta m;
        gop_cache = if audio_sh m.payload then s.gop_cache else cache s.gop_cache m;
      } in
      let eu : on_audio_imp ops fuel s m ≡ ok u = rw ec refl in
      message-IsReached s t t' u taken (cached-max_frames (audio_sh m.payload) s.gop_cache m) refl k
        (ok-injective (sym e' ∙ e)) (ok-injective (sym eu ∙ e)) live

  video-IsReached :
      (s t : LiveSource S) (m : Message)
      → 2 ≤ fuel
      → s.can_publish ≡ false
      → is_video m ≡ true
      → on_video_imp ops fuel s m ≡ ok t
      → IsReached s
      → IsReached t
  unfolding on_video_imp
  video-IsReached s t m f taken v e k =
      let (t', e', live) = on_video_imp-IsLive ops fuel s m f v k.0 in
      let (cs, ec) = to_consumers-ok fuel s.consumers m s.jitter_algorithm f in
      let u : LiveSource S = record s {
        hub = ops.on_video s.hub m (video_sh m.payload);
        consumers = cs;
        meta = if video_sh m.payload then update_vsh s.meta m else s.meta;
        gop_cache = if video_sh m.payload then s.gop_cache else cache s.gop_cache m;
      } in
      let eu : on_video_imp ops fuel s m ≡ ok u = rw ec refl in
      message-IsReached s t t' u taken (cached-max_frames (video_sh m.payload) s.gop_cache m) refl k
        (ok-injective (sym e' ∙ e)) (ok-injective (sym eu ∙ e)) live

  unpublish-IsReached : (s : LiveSource S) → IsReached s → IsReached (on_unpublish ops s)
  unfolding on_unpublish IsLive AllFrames Gop.clear
  unpublish-IsReached s k =
      if_cases {A = LiveSource S} IsReached s.can_publish s
        (record s {
          hub = ops.hub_unpublish s.hub;
          gop_cache = Gop.clear s.gop_cache;
          pre_source_id = if same s.source_id [] then s.pre_source_id else s.source_id;
          source_id = [];
          can_publish = true;
        })
        (λ free. k) (λ taken. ((clear-IsValid s.gop_cache, tt, k.0.2), k.1, inr refl))

  -- Where the cache and the video header of a source are those of another, free or taken.
  after_hub-IsReached :
      (s : LiveSource S) (o : Outcome (Unit {0}))
      → IsLive s
      → s.gop_cache.gop_cache_max_frames ≡ frames
      → s.can_publish ≡ false
      → s.gop_cache.gop_cache ≡ []
      → IsReached (after_hub ops s o)
  unfolding after_hub IsLive HeaderOrNone Consumer.clear
  after_hub-IsReached s (ok u) k f taken e = ((k.0, k.1, tt), f, inl taken)
  after_hub-IsReached s (err x) k f taken e = (k, f, inr e)
  after_hub-IsReached s aborted k f taken e = (k, f, inl taken)
  after_hub-IsReached s fault k f taken e = (k, f, inl taken)
  after_hub-IsReached s stuck k f taken e = (k, f, inl taken)

  renamed :
      (s : LiveSource S) (id : List ℕ)
      → ((on_source_id_changed ops s id).gop_cache ≡ s.gop_cache)
        × ((on_source_id_changed ops s id).meta ≡ s.meta)
        × ((on_source_id_changed ops s id).can_publish ≡ s.can_publish)
  unfolding on_source_id_changed
  renamed s id = (ground arith, ground arith, ground arith)

  no_frames :
      (s : LiveSource S) → s.can_publish ≡ true → IsIdleOrTaken s → s.gop_cache.gop_cache ≡ []
  no_frames s free (inl taken) = absurd (ground (arith, free, taken))
  no_frames s free (inr h) = h

  published-IsReached :
      (s : LiveSource S) (id : List ℕ) (hub : S) (o : Outcome (Unit {0}))
      → IsReached s
      → s.can_publish ≡ true
      → IsReached (
          after_hub ops
            (record (on_source_id_changed ops (record s { can_publish = false }) id) { hub = hub })
            o)
  unfolding IsLive
  published-IsReached s id hub o k free =
      let (g, h, c) = renamed (record s { can_publish = false }) id in
      after_hub-IsReached
        (record (on_source_id_changed ops (record s { can_publish = false }) id) { hub = hub }) o
        (
          subst (λ x. IsValid x) (sym g) k.0.0,
          subst (λ x. AllFrames x) (sym g) k.0.1,
          subst (λ x. HeaderOrNone x.video) (sym h) k.0.2,
        )
        (rw g k.1) c (rw g (no_frames s free k.2))

  publish-IsReached :
      (s : LiveSource S) (id : List ℕ) → IsReached s → IsReached (on_publish ops s id).0
  unfolding on_publish
  publish-IsReached s id k =
      let s' = on_source_id_changed ops (record s { can_publish = false }) id in
      let h = ops.hub_publish s'.hub in
      if_cases {A = LiveSource S × Outcome (Unit {0})} (λ r. IsReached r.0) (not s.can_publish)
        (s, err ErrorCode.error_system_stream_busy)
        (after_hub ops (record s' { hub = h.0 }) h.1, h.1) (λ taken. k)
        (λ free. published-IsReached s id h.0 h.1 k (ground (arith, free)))

  step-IsReached : {s t : LiveSource S} → 2 ≤ fuel → Step s t → IsReached s → IsReached t
  unfolding create_consumer on_consumer_destroy IsLive
  step-IsReached {s = s} {t = t} f (audio m taken a e) k = audio-IsReached s t m f taken a e k
  step-IsReached {s = s} {t = t} f (video m taken v e) k = video-IsReached s t m f taken v e k
  step-IsReached {s = s} f (publish id) k = publish-IsReached s id k
  step-IsReached {s = s} f unpublish k = unpublish-IsReached s k
  step-IsReached f join k = k
  step-IsReached f (leave i) k = k
  step-IsReached {s = s} f set k = configure-IsReached s k

  Reachable-IsReached : {s : LiveSource S} → 2 ≤ fuel → Reachable s → IsReached s
  Reachable-IsReached f (begin hub) = begin-IsReached hub
  Reachable-IsReached f (step r t) = step-IsReached f t (Reachable-IsReached f r)

  -- With two units of fuel for the queues, in every state that a source reaches by publishes and
  -- unpublishes, by audio and video messages while a publisher has the source, and by clients that set
  -- the configuration, join and leave, in any order: the cached frames are a valid group without
  -- sequence headers, the cached video message, if any, is a sequence header, and where the source
  -- is free for the next publisher there are no cached frames of the last one.
  pub Reachable-IsLive : (s : LiveSource S) → 2 ≤ fuel → Reachable s → IsLive s × IsIdleOrTaken s
  Reachable-IsLive s f r = let k = Reachable-IsReached f r in (k.0, k.2)
