-- ===== src/App/Source/Jitter/Correct.antt =====
-- src/app/srs_app_source.cpp: what SrsRtmpJitter::correct promises of the times it hands out.
use srs_simple.Base.{◌≡◌, true, List, [], ◌∷◌, arith, refl}
use srs_simple.Base.Int.{ℤ, pos, negsuc, ◌+ℤ◌, ◌-ℤ◌, ◌≤ℤ◌, max_zero}
use srs_simple.Kernel.Flv.{Message, is_av}
use srs_simple.App.Source.Jitter.{
  Jitter, JitterAlgorithm, full, delta, correct, correct_full, get_time,
}

-- The delta is at most 250 ms either way.
pub delta_le : (j : Jitter) (time : ℤ) → delta j time ≤ℤ pos 250
unfolding delta ◌-ℤ◌
delta_le j time = ground arith

pub delta_ge : (j : Jitter) (time : ℤ) → negsuc 249 ≤ℤ delta j time
unfolding delta ◌-ℤ◌
delta_ge j time = ground arith

-- For an audio or video message the full correction gives the time that get_time then answers; it
-- is not negative and lies within 250 ms of the one before, where a negative one before counts as
-- 0 for the upper bound.
pub correct_full-bounds :
    (j : Jitter) (msg : Message)
    → is_av msg ≡ true
    → let r = correct j msg full in
      (r.1.timestamp ≡ get_time r.0)
      × (pos 0 ≤ℤ get_time r.0)
      × (get_time j ≤ℤ get_time r.0 +ℤ pos 250)
      × (get_time r.0 ≤ℤ max_zero (get_time j) +ℤ pos 250)
unfolding correct correct_full get_time ◌+ℤ◌
correct_full-bounds j msg h =
    let l = delta_le j msg.timestamp in
    let g = delta_ge j msg.timestamp in rw h (refl, ground arith, ground arith, ground arith)

-- Each message of a list in its turn.
unfoldable pub correct_all : Jitter → List Message → JitterAlgorithm → List Message
correct_all j [] ag = []
correct_all j (msg ∷ msgs) ag = let r = correct j msg ag in r.1 ∷ correct_all r.0 msgs ag

-- Timestamps that never fall, from `t` on.
unfoldable pub Ordered : ℤ → List Message → Type 0
Ordered t [] = Unit
Ordered t (msg ∷ msgs) = (t ≤ℤ msg.timestamp) × Ordered msg.timestamp msgs

unfoldable pub AllAv : List Message → Type 0
AllAv [] = Unit
AllAv (msg ∷ msgs) = (is_av msg ≡ true) × AllAv msgs

correct_full-grows :
    (j : Jitter) (msg : Message)
    → is_av msg ≡ true
    → j.last_pkt_time ≤ℤ msg.timestamp
    → (get_time j ≤ℤ (correct j msg full).1.timestamp)
      × ((correct j msg full).1.timestamp ≡ get_time (correct j msg full).0)
      × ((correct j msg full).0.last_pkt_time ≡ msg.timestamp)
unfolding correct correct_full get_time ◌+ℤ◌ delta ◌-ℤ◌
correct_full-grows j msg h o = rw h (ground arith, refl, refl)

-- Where the source times of audio and video messages never fall, from the last one seen on, the
-- times that the full correction gives them never fall, from the last one given on.
pub correct_all-Ordered :
    (j : Jitter) (msgs : List Message)
    → AllAv msgs
    → Ordered j.last_pkt_time msgs
    → Ordered (get_time j) (correct_all j msgs full)
unfolding correct_all Ordered AllAv
correct_all-Ordered j [] a o = tt
correct_all-Ordered j (msg ∷ msgs) a o =
    let (g, e, l) = correct_full-grows j msg a.0 o.0 in
    let rest = correct_all-Ordered (correct j msg full).0 msgs a.1 (rw l o.1) in (g, rw e rest)

-- An audio or video message whose time is 1 to 250 ms before that of the message seen last gets a
-- time below the one given last, where that is positive.
pub correct_full-backward :
    (j : Jitter) (msg : Message)
    → is_av msg ≡ true
    → pos 1 ≤ℤ get_time j
    → msg.timestamp +ℤ pos 1 ≤ℤ j.last_pkt_time
    → j.last_pkt_time ≤ℤ msg.timestamp +ℤ pos 250
    → (correct j msg full).1.timestamp +ℤ pos 1 ≤ℤ get_time j
unfolding correct correct_full get_time ◌+ℤ◌ delta ◌-ℤ◌
correct_full-backward j msg h p b c = rw h (ground arith)
