-- ===== src/App/Source/Gop/Valid.antt =====
-- src/app/srs_app_source.cpp: the invariant of SrsGopCache, and that every operation keeps it.
use srs_simple.Base.{
  ℕ, ◌+◌, ◌≤◌, ◌≡◌, true, false, ◌&&◌, ◌||◌, not, if◌then◌else◌, List, [], ◌∷◌, ◌++◌, length, ltb,
  leb, ◌==◌, arith, refl, sym, subst, Bool-cases, inl, inr, All, if_cases, ◌∙◌,
}
use srs_simple.Kernel.Flv.{Message, is_video, is_audio}
use srs_simple.Kernel.Codec.{h264, keyframe}
use srs_simple.App.Source.Gop.{
  GopCache, clear, pure_audio, count_video, count_audio, restart, append, cache_counted, cache,
}

unfoldable pub videos : List Message → ℕ
videos [] = 0
videos (m ∷ ms) = (if is_video m then 1 else 0) + videos ms

-- The audio messages behind the last video of a list, with n of them before it.
unfoldable pub audios : ℕ → List Message → ℕ
audios n [] = n
audios n (m ∷ ms) = audios (if is_video m then 0 else if is_audio m then n + 1 else n) ms

-- A message that may stand behind the first: no key frame, and no video but H.264.
unfoldable pub Follows : Message → Type 0
Follows m = (not (is_video m) || (h264 m.payload && not (keyframe m.payload))) ≡ true

Follows-other : (m : Message) → is_video m ≡ false → Follows m
unfolding Follows
Follows-other m h = rw h refl

video_audio : (m : Message) → is_video m ≡ true → is_audio m ≡ false
unfolding is_video is_audio
video_audio m h = ground arith

-- Nothing, or an H.264 frame with frames of the same group behind it.
unfoldable pub IsGop : List Message → Type 0
IsGop [] = Unit
IsGop (m ∷ ms) = (is_video m ≡ true) × (h264 m.payload ≡ true) × All Follows ms

unfoldable pub Fits : GopCache → Type 0
Fits g = (g.gop_cache_max_frames == 0 || leb (length g.gop_cache) g.gop_cache_max_frames) ≡ true

unfoldable pub IsValid : GopCache → Type 0
IsValid g =
    (g.cached_video_count ≡ videos g.gop_cache)
    × (g.audio_after_last_video_count ≡ audios 0 g.gop_cache)
    × (audios 0 g.gop_cache ≤ 115)
    × IsGop g.gop_cache
    × Fits g
    × ((g.enable_gop_cache || (length g.gop_cache == 0)) ≡ true)

videos-append :
    (ms : List Message) (m : Message)
    → videos (ms ++ (m ∷ [])) ≡ videos ms + (if is_video m then 1 else 0)
unfolding videos
videos-append [] m = omega arith
videos-append (n ∷ ms) m = omega (arith, videos-append ms m)

audios-append :
    (ms : List Message) (n : ℕ) (m : Message)
    → audios n (ms ++ (m ∷ []))
      ≡ (if is_video m then 0 else if is_audio m then audios n ms + 1 else audios n ms)
unfolding audios
audios-append [] n m = refl
audios-append (a ∷ ms) n m =
    audios-append ms (if is_video a then 0 else if is_audio a then n + 1 else n) m

All-append :
    (ms : List Message) (m : Message) → All Follows ms → Follows m → All Follows (ms ++ (m ∷ []))
All-append [] m a f = (f, tt)
All-append (n ∷ ms) m a f = (a.0, All-append ms m a.1 f)

IsGop-first : (m : Message) → is_video m ≡ true → h264 m.payload ≡ true → IsGop (m ∷ [])
unfolding IsGop
IsGop-first m v h = (v, h, tt)

IsGop-append :
    (ms : List Message) (m : Message)
    → IsGop ms
    → 1 ≤ videos ms
    → Follows m
    → IsGop (ms ++ (m ∷ []))
unfolding IsGop videos
IsGop-append [] m g v f = absurd (omega arith)
IsGop-append (n ∷ ms) m g v f = (g.0, g.1, All-append ms m g.2 f)

-- A frame behind those of the cache, the first of all or one that follows.
IsGop-video :
    (ms : List Message) (m : Message)
    → IsGop ms
    → is_video m ≡ true
    → h264 m.payload ≡ true
    → keyframe m.payload ≡ false
    → IsGop (ms ++ (m ∷ []))
unfolding IsGop Follows
IsGop-video [] m g v h k = (v, h, tt)
IsGop-video (n ∷ ms) m g v h k = (g.0, g.1, All-append ms m g.2 (ground arith))

-- A video message as cache() counts it.
with_video : GopCache → GopCache
with_video g = record g {
  cached_video_count = g.cached_video_count + 1;
  audio_after_last_video_count = 0;
}

cache_counted_video :
    (g : GopCache) (msg : Message)
    → is_video msg ≡ true
    → cache_counted (count_video g msg) msg ≡ append (restart (with_video g) msg) msg
unfolding cache_counted count_video count_audio with_video pure_audio
cache_counted_video g msg v =
    let z : (g.cached_video_count + 1) == 0 ≡ false = ground arith in
    rw (v, video_audio msg v, z) refl

pub clear-IsValid : (g : GopCache) → IsValid (clear g)
unfolding clear IsValid videos audios IsGop Fits
clear-IsValid g = (refl, refl, omega arith, tt, ground arith, ground arith)

append-IsValid :
    (g : GopCache) (msg : Message)
    → g.enable_gop_cache ≡ true
    → g.cached_video_count ≡ videos (g.gop_cache ++ (msg ∷ []))
    → g.audio_after_last_video_count ≡ audios 0 (g.gop_cache ++ (msg ∷ []))
    → g.audio_after_last_video_count ≤ 115
    → IsGop (g.gop_cache ++ (msg ∷ []))
    → IsValid (append g msg)
unfolding append IsValid Fits
append-IsValid g msg e c b a s =
    elim (Bool-cases (
      ltb 0 g.gop_cache_max_frames
      && ltb g.gop_cache_max_frames (length (g.gop_cache ++ (msg ∷ []))))) [
        | inl o ↦ rw o (clear-IsValid (record g { gop_cache = g.gop_cache ++ (msg ∷ []) }))
        | inr f ↦ rw f (c, b, subst (λ n. n ≤ 115) b a, s, ground arith, ground arith)
      ]

restart_frame :
    (g : GopCache) (msg : Message)
    → (is_video msg && keyframe msg.payload) ≡ false
    → restart g msg ≡ g
unfolding restart
restart_frame g msg h = rw h refl

restart_key :
    (g : GopCache) (msg : Message)
    → (is_video msg && keyframe msg.payload) ≡ true
    → restart g msg ≡ record (clear g) { cached_video_count = 1 }
unfolding restart
restart_key g msg h = rw h refl

count_audio-frames :
    (g : GopCache) (msg : Message)
    → ((count_audio g msg).enable_gop_cache ≡ g.enable_gop_cache)
      × ((count_audio g msg).cached_video_count ≡ g.cached_video_count)
      × ((count_audio g msg).gop_cache ≡ g.gop_cache)
      × ((count_audio g msg).audio_after_last_video_count ≡ (
          if is_audio msg
          then g.audio_after_last_video_count + 1
          else g.audio_after_last_video_count))
unfolding count_audio
count_audio-frames g msg = (ground arith, ground arith, ground arith, ground arith)

counted : GopCache → Message → GopCache
counted g msg =
    let g' = count_audio g msg in
    if ltb 115 g'.audio_after_last_video_count then clear g' else append (restart g' msg) msg

-- An audio message, or one of neither kind, behind a frame.
counted-IsValid :
    (g : GopCache) (msg : Message)
    → g.enable_gop_cache ≡ true
    → is_video msg ≡ false
    → IsValid g
    → g.cached_video_count == 0 ≡ false
    → IsValid (counted g msg)
unfolding counted IsValid
counted-IsValid g msg e v k n =
    let g' = count_audio g msg in
    let (e', c', l', a') = count_audio-frames g msg in
    if_cases IsValid (ltb 115 g'.audio_after_last_video_count) (clear g')
      (append (restart g' msg) msg) (λ o. clear-IsValid g')
      (λ f.
        subst (λ r. IsValid (append r msg)) (sym (restart_frame g' msg (rw v refl)))
          (append-IsValid g' msg (e' ∙ e)
            (rw (c', l', k.0, videos-append g.gop_cache msg, v) (omega arith))
            (rw (a', l', k.1, audios-append g.gop_cache 0 msg, v) refl) (ground arith)
            (rw l' (IsGop-append g.gop_cache msg k.3 (ground (arith, k.0)) (Follows-other msg v)))))

-- An H.264 frame.
video-IsValid :
    (g : GopCache) (msg : Message)
    → g.enable_gop_cache ≡ true
    → is_video msg ≡ true
    → h264 msg.payload ≡ true
    → IsValid g
    → IsValid (cache_counted (count_video g msg) msg)
unfolding IsValid clear with_video videos audios
video-IsValid g msg e v h k =
    let one = videos-append g.gop_cache msg in
    rw (cache_counted_video g msg v) (elim (Bool-cases (keyframe msg.payload)) [
      | inl key ↦ rw (restart_key (with_video g) msg (rw (v, key) refl)) (
          append-IsValid (record (clear (with_video g)) { cached_video_count = 1 }) msg e
            (rw v refl) (rw v refl) (omega arith) (IsGop-first msg v h))
      | inr inter ↦ rw (restart_frame (with_video g) msg (rw (v, inter) refl)) (
          append-IsValid (with_video g) msg e (rw (one, v, sym k.0) refl)
            (rw (audios-append g.gop_cache 0 msg, v) refl) (omega arith)
            (IsGop-video g.gop_cache msg k.3 v h inter))
    ])

cache_enabled : GopCache → Message → GopCache
cache_enabled g msg =
    if is_video msg && not (h264 msg.payload) then g else cache_counted (count_video g msg) msg

other-IsValid :
    (g : GopCache) (msg : Message)
    → g.enable_gop_cache ≡ true
    → is_video msg ≡ false
    → IsValid g
    → IsValid (cache_counted (count_video g msg) msg)
unfolding cache_counted counted pure_audio count_video
other-IsValid g msg e nv k = rw nv (
    if_cases IsValid (g.cached_video_count == 0) g (counted g msg) (λ p. k)
      (counted-IsValid g msg e nv k))

cache_enabled-IsValid :
    (g : GopCache) (msg : Message)
    → g.enable_gop_cache ≡ true
    → IsValid g
    → IsValid (cache_enabled g msg)
unfolding cache_enabled
cache_enabled-IsValid g msg e k =
    if_cases IsValid (is_video msg && not (h264 msg.payload)) g
      (cache_counted (count_video g msg) msg) (λ skipped. k)
      (λ f. elim (Bool-cases (is_video msg)) [
        | inr nv ↦ other-IsValid g msg e nv k
        | inl v ↦ video-IsValid g msg e v (ground (arith, f, v)) k
      ])

-- cache keeps the invariant of the GOP cache: the video count is that of the cached videos, the
-- audio count is that of the cached audio messages behind the last video and at most 115, the first
-- message is an H.264 frame and no key frame or other codec stands behind it, the frames are within
-- the limit, and a disabled cache is empty.
pub cache-IsValid : (g : GopCache) (msg : Message) → IsValid g → IsValid (cache g msg)
unfolding cache cache_enabled
cache-IsValid g msg k =
    if_cases IsValid (not g.enable_gop_cache) g (cache_enabled g msg) (λ d. k)
      (λ e. cache_enabled-IsValid g msg (ground arith) k)
