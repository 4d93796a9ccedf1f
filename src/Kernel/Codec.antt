-- ===== src/Kernel/Codec.antt =====
-- src/kernel/srs_kernel_codec.cpp: SrsFlvVideo and SrsFlvAudio, the tests on the first two bytes of
-- a message. A byte is a number below 256.
use srs_simple.Base.{ℕ, ◌/◌, ◌%◌, Bool, false, ◌&&◌, List, [], ◌∷◌, ◌==◌, not, if◌then◌else◌}

-- SrsFlvVideo.
unfoldable pub keyframe : List ℕ → Bool
keyframe [] = false
keyframe (d ∷ ds) = d % 128 / 16 % 16 == 1

unfoldable pub h264 : List ℕ → Bool
h264 [] = false
h264 (d ∷ ds) = d % 16 == 7

unfoldable pub video_sh : List ℕ → Bool
video_sh [] = false
video_sh (d ∷ []) = false
video_sh (d ∷ e ∷ ds) = if not (d % 16 == 7) then false else (d / 16 % 16 == 1 && e == 0)

-- SrsFlvAudio.
unfoldable pub aac : List ℕ → Bool
aac [] = false
aac (d ∷ ds) = d / 16 % 16 == 10

unfoldable pub audio_sh : List ℕ → Bool
audio_sh [] = false
audio_sh (d ∷ []) = false
audio_sh (d ∷ e ∷ ds) = if not (d / 16 % 16 == 10) then false else (e == 0)
