-- ===== src/App/Source/Queue/Dump.antt =====
-- src/app/srs_app_source.cpp: SrsMessageQueue::dump_packets, alone and with the enqueue behind it.
use srs_simple.Base.{
  ℕ, zero, suc, ◌≤◌, ◌≡◌, inl, inr, true, false, if◌then◌else◌, List, [], ◌∷◌, ◌++◌, ok, leb,
  length, take, drop, length-take_le, take-append-drop, arith, refl, ap, ◌∙◌, Bool-cases,
  append-nil, take-ge,
}
use srs_simple.Base.Int.{pos, ◌≤ℤ◌, times, eqb_ℤ, leb_ℤ, ◌+ℤ◌, ◌-ℤ◌}
use srs_simple.Kernel.Flv.{Message, is_av}
use srs_simple.App.Source.Queue.{
  Queue, duration, is_video_sh, is_audio_sh, shrink, push, enqueue, dump_packets, last_timestamp,
  push_back_at,
}
use srs_simple.App.Source.Queue.Enqueue.{
  latest, latest_headers, shrink-latest_headers, shrink_loop-over,
}

-- The queue behind the first `count` messages.
unfoldable pub rest : Queue → ℕ → Queue
rest q count = record q {
  av_start_time = times (last_timestamp (take count q.msgs)) 1000;
  msgs = if leb (length q.msgs) count then [] else drop count q.msgs;
}

pub dump_packets-rest :
    (q : Queue) (n c : ℕ)
    → leb (length q.msgs) 0 ≡ false
    → (if leb (length q.msgs) (suc n) then length q.msgs else suc n) ≡ c
    → dump_packets q (pos (suc n)) ≡ ok (take c q.msgs, rest q c)
unfolding dump_packets rest
dump_packets-rest q n c e h = rw (e, h) refl

-- What is taken and what is left make up the queue.
take-rest : (q : Queue) (c : ℕ) → take c q.msgs ++ (rest q c).msgs ≡ q.msgs
unfolding rest
take-rest q c = elim (Bool-cases (leb (length q.msgs) c)) [
  | inl all ↦ rw (all, append-nil (take c q.msgs)) (take-ge c q.msgs (ground arith))
  | inr part ↦ rw part (take-append-drop c q.msgs)
]

-- dump_packets with a positive count hands out as many messages as it may, from the front of the
-- queue, and leaves the others in order.
pub dump_packets-fifo :
    (q : Queue) (n : ℕ)
    → 1 ≤ n
    → (out : List Message) × (r : Queue) × (dump_packets q (pos n) ≡ ok (out, r))
      × (out ++ r.msgs ≡ q.msgs)
      × (length out ≡ (if leb (length q.msgs) n then length q.msgs else n))
unfolding dump_packets
dump_packets-fifo q zero h = absurd (omega arith)
dump_packets-fifo q (suc n) h = elim (Bool-cases (leb (length q.msgs) 0)) [
  | inl e ↦ ([], q, rw e refl, refl, ground arith)
  | inr e ↦
      let c = if leb (length q.msgs) (suc n) then length q.msgs else suc n in
      (
        take c q.msgs,
        rest q c,
        dump_packets-rest q n c e refl,
        take-rest q c,
        length-take_le c q.msgs (ground arith),
      )
]

rest_all :
    (q : Queue)
    → last_timestamp q.msgs ≡ pos 0
    → rest q (length q.msgs) ≡ record q { av_start_time = pos 0; msgs = [] }
unfolding rest
rest_all q h =
    let y : leb (length q.msgs) (length q.msgs) ≡ true = ground arith in
    rw (take-ge (length q.msgs) q.msgs (omega arith), h, y) refl

push_zero :
    (q : Queue) (msg : Message)
    → is_av msg ≡ true
    → pos 1 ≤ℤ msg.timestamp
    → push (record q { av_start_time = pos 0; msgs = [] }) msg
      ≡ record q { av_start_time = pos 0; av_end_time = times msg.timestamp 1000; msgs = msg ∷ [] }
unfolding push
push_zero q msg a t = let z : eqb_ℤ msg.timestamp (pos 0) ≡ false = ground arith in rw (a, z) refl

-- shrink() of a queue with one message that is no sequence header.
shrink_one :
    (q : Queue) (msg : Message)
    → q.msgs ≡ msg ∷ []
    → is_video_sh msg ≡ false
    → is_audio_sh msg ≡ false
    → (shrink q).msgs ≡ []
unfolding latest_headers latest push_back_at
shrink_one q msg m v a = shrink-latest_headers q ∙ rw (m, v, a) refl

enqueue_over :
    (fuel : ℕ) (q : Queue) (msg : Message)
    → 2 ≤ fuel
    → pos 1 ≤ℤ q.max_queue_size
    → is_av msg ≡ true
    → is_video_sh msg ≡ false
    → is_audio_sh msg ≡ false
    → q.max_queue_size +ℤ pos 1 ≤ℤ times msg.timestamp 1000
    → (s : Queue) × (enqueue fuel (record q { av_start_time = pos 0; msgs = [] }) msg
        ≡ ok (s, true))
      × (s.msgs ≡ [])
unfolding enqueue duration ◌+ℤ◌ ◌-ℤ◌
enqueue_over fuel q msg f m a v w t =
    let p = record q {
      av_start_time = pos 0;
      av_end_time = times msg.timestamp 1000;
      msgs = msg ∷ [];
    } in
    let n : leb_ℤ q.max_queue_size (pos 0) ≡ false = ground arith in
    (
      shrink p,
      rw (push_zero q msg a (ground arith), n) (shrink_loop-over fuel p false f m (ground arith)),
      shrink_one p msg refl v w,
    )

-- After a dump of a whole queue whose last message has the time 0, an audio or video message that
-- is no sequence header and whose time exceeds the positive limit is dropped by enqueue as an
-- overflow, and the queue is empty.
pub dump_packets-enqueue_lost :
    (fuel : ℕ) (q : Queue) (n : ℕ) (msg : Message)
    → 2 ≤ fuel
    → 1 ≤ length q.msgs
    → length q.msgs ≤ n
    → last_timestamp q.msgs ≡ pos 0
    → pos 1 ≤ℤ q.max_queue_size
    → is_av msg ≡ true
    → is_video_sh msg ≡ false
    → is_audio_sh msg ≡ false
    → q.max_queue_size +ℤ pos 1 ≤ℤ times msg.timestamp 1000
    → (out : List Message) × (r s : Queue) × (dump_packets q (pos n) ≡ ok (out, r))
      × (r.msgs ≡ [])
      × (enqueue fuel r msg ≡ ok (s, true))
      × (s.msgs ≡ [])
dump_packets-enqueue_lost fuel q zero msg f l c z m a v w t = absurd (omega arith)
dump_packets-enqueue_lost fuel q (suc n) msg f l c z m a v w t =
    let (s, e, g) = enqueue_over fuel q msg f m a v w t in
    (
      take (length q.msgs) q.msgs,
      record q { av_start_time = pos 0; msgs = [] },
      s,
      dump_packets-rest q n (length q.msgs) (ground arith) (ground arith)
          ∙ ap (λ r. ok (take (length q.msgs) q.msgs, r)) (rest_all q z),
      refl,
      e,
      g,
    )
