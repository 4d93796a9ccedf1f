-- ===== src/App/Source/Gop.antt =====
-- src/app/srs_app_source.cpp: SrsGopCache, the frames since the last key frame.
-- What the cache writes to the log is left out.
pub mod Valid
use srs_simple.Base.{
  ℕ, zero, suc, ◌+◌, Bool, true, false, ◌&&◌, not, if◌then◌else◌, List, [], ◌∷◌, ◌++◌, length, ltb,
  leb, ◌==◌,
}
use srs_simple.Base.Int.{ℤ, pos, times}
use srs_simple.Kernel.Flv.{Message, is_video, is_audio}
use srs_simple.Kernel.Codec.{h264, keyframe}

pub record GopCache : Type 0 where
  pub enable_gop_cache : Bool
  pub cached_video_count : ℕ
  pub audio_after_last_video_count : ℕ
  pub gop_cache_max_frames : ℕ
  pub gop_cache : List Message

unfoldable pub init : GopCache
init = record {
  enable_gop_cache = true;
  cached_video_count = 0;
  audio_after_last_video_count = 0;
  gop_cache_max_frames = 0;
  gop_cache = [];
}

unfoldable pub clear : GopCache → GopCache
clear g = record g { gop_cache = []; cached_video_count = 0; audio_after_last_video_count = 0 }

-- set(v): the field first, then the clear of a disabled cache.
unfoldable pub set : GopCache → Bool → GopCache
set g v = let g' = record g { enable_gop_cache = v } in if v then g' else clear g'

-- A limit of 0 or less is no limit, so it is a natural number here.
unfoldable pub set_gop_cache_max_frames : GopCache → ℕ → GopCache
set_gop_cache_max_frames g v = record g { gop_cache_max_frames = v }

unfoldable pub pure_audio : GopCache → Bool
pure_audio g = g.cached_video_count == 0

unfoldable pub empty : GopCache → Bool
empty g = leb (length g.gop_cache) 0

-- The first frame's time in microseconds.
unfoldable pub start_time : GopCache → ℤ
start_time g = elim g.gop_cache [ [] ↦ pos 0 | m ∷ ms ↦ times m.timestamp 1000 ]

-- cache(), the count of a video message.
unfoldable pub count_video : GopCache → Message → GopCache
count_video g msg =
    if is_video msg
    then record g {
      cached_video_count = g.cached_video_count + 1;
      audio_after_last_video_count = 0;
    }
    else g

unfoldable pub count_audio : GopCache → Message → GopCache
count_audio g msg =
    if is_audio msg
    then record g { audio_after_last_video_count = g.audio_after_last_video_count + 1 }
    else g

-- cache(), the clear at a key frame.
unfoldable pub restart : GopCache → Message → GopCache
restart g msg =
    if is_video msg && keyframe msg.payload then record (clear g) { cached_video_count = 1 } else g

-- cache(), from the push on: a cache with more frames than the limit is cleared.
unfoldable pub append : GopCache → Message → GopCache
append g msg =
    let g' = record g { gop_cache = g.gop_cache ++ (msg ∷ []) } in
    if ltb 0 g'.gop_cache_max_frames && ltb g'.gop_cache_max_frames (length g'.gop_cache)
    then clear g'
    else g'

-- SRS_PURE_AUDIO_GUESS_COUNT is 115.
unfoldable pub cache_counted : GopCache → Message → GopCache
cache_counted g msg =
    if pure_audio g
    then g
    else (let g' = count_audio g msg in
        if ltb 115 g'.audio_after_last_video_count then clear g' else append (restart g' msg) msg)

unfoldable pub cache : GopCache → Message → GopCache
cache g msg =
    if not g.enable_gop_cache
    then g
    else (if is_video msg && not (h264 msg.payload)
        then g
        else cache_counted (count_video g msg) msg)
