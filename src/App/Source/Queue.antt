-- ===== src/App/Source/Queue.antt =====
-- src/app/srs_app_source.cpp: SrsMessageQueue, the messages that wait for one player. Times are
-- microseconds. What the queue writes to the log is left out.
pub mod Enqueue
pub mod Dump
use srs_simple.Base.{
  ℕ, zero, suc, Bool, true, false, ◌||◌, ◌&&◌, not, if◌then◌else◌, List, [], ◌∷◌, ◌++◌, Option,
  none, some, length, take, drop, leb, ◌==◌, Outcome, ok, aborted, stuck,
}
use srs_simple.Base.Int.{ℤ, pos, negsuc, ◌+ℤ◌, ◌-ℤ◌, ltb_ℤ, leb_ℤ, eqb_ℤ, times, quotient}
use srs_simple.Kernel.Flv.{Message, is_av, is_video, is_audio}
use srs_simple.Kernel.Codec.{video_sh, audio_sh}

pub record Queue : Type 0 where
  pub av_start_time : ℤ
  pub av_end_time : ℤ
  pub max_queue_size : ℤ
  pub msgs : List Message

unfoldable pub init : Queue
init = record {
  av_start_time = negsuc 0;
  av_end_time = negsuc 0;
  max_queue_size = pos 0;
  msgs = [];
}

unfoldable pub size : Queue → ℕ
size q = length q.msgs

unfoldable pub duration : Queue → ℤ
duration q = q.av_end_time -ℤ q.av_start_time

unfoldable pub set_queue_size : Queue → ℤ → Queue
set_queue_size q queue_size = record q { max_queue_size = queue_size }

-- is_video() && SrsFlvVideo::sh(), and the same of audio.
unfoldable pub is_video_sh : Message → Bool
is_video_sh m = is_video m && video_sh m.payload

unfoldable pub is_audio_sh : Message → Bool
is_audio_sh m = is_audio m && audio_sh m.payload

-- The loop of shrink() that marks the sequence headers.
unfoldable pub marks :
    List Message → Option Message → Option Message → Option Message × Option Message
marks [] vsh ash = (vsh, ash)
marks (m ∷ ms) vsh ash =
    let with_video = marks ms (some m) ash in
    let with_audio = marks ms vsh (some m) in
    let without = marks ms vsh ash in
    if is_video_sh m then with_video else (if is_audio_sh m then with_audio else without)

-- The message with the time srsu2ms(av_end_time), in a queue of its own.
unfoldable pub push_back_at : ℤ → Option Message → List Message
push_back_at end none = []
push_back_at end (some m) = record m { timestamp = quotient end 1000 } ∷ []

unfoldable pub shrink : Queue → Queue
shrink q =
    let sh = marks q.msgs none none in
    record q {
      av_start_time = q.av_end_time;
      msgs = push_back_at q.av_end_time sh.0 ++ push_back_at q.av_end_time sh.1;
    }

-- while (av_end_time - av_start_time > max_queue_size) shrink(), on fuel.
unfoldable pub shrink_loop : ℕ → Queue → Bool → Outcome (Queue × Bool)
shrink_loop zero q is_overflow = stuck
shrink_loop (suc fuel) q is_overflow =
    let rest = shrink_loop fuel (shrink q) true in
    if ltb_ℤ q.max_queue_size (duration q) then rest else ok (q, is_overflow)

-- enqueue() before the test of max_queue_size.
unfoldable pub push : Queue → Message → Queue
push q msg =
    let msgs = q.msgs ++ (msg ∷ []) in
    let time = times msg.timestamp 1000 in
    if is_av msg && not (eqb_ℤ msg.timestamp (pos 0))
    then record q {
      av_start_time = if eqb_ℤ q.av_start_time (negsuc 0) then time else q.av_start_time;
      av_end_time = time;
      msgs = msgs;
    }
    else record q { msgs = msgs }

unfoldable pub enqueue : ℕ → Queue → Message → Outcome (Queue × Bool)
enqueue fuel q msg =
    let p = push q msg in
    if leb_ℤ p.max_queue_size (pos 0) then ok (p, false) else shrink_loop fuel p false

unfoldable pub last_timestamp : List Message → ℤ
last_timestamp [] = pos 0
last_timestamp (m ∷ []) = m.timestamp
last_timestamp (m ∷ n ∷ ms) = last_timestamp (n ∷ ms)

-- The messages for the player, and the queue that is left.
unfoldable pub dump_packets : Queue → ℤ → Outcome (List Message × Queue)
dump_packets q max_count = if leb (length q.msgs) 0 then ok ([], q) else (elim max_count [
  | negsuc n ↦ aborted
  | pos zero ↦ aborted
  | pos (suc n) ↦
      let count = if leb (length q.msgs) (suc n) then length q.msgs else suc n in
      let out = take count q.msgs in
      ok (
        out,
        record q {
          av_start_time = times (last_timestamp out) 1000;
          msgs = if leb (length q.msgs) count then [] else drop count q.msgs;
        },
      )
])

unfoldable pub clear : Queue → Queue
clear q = record q { av_start_time = negsuc 0; av_end_time = negsuc 0; msgs = [] }
