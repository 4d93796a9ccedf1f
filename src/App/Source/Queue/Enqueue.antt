-- ===== src/App/Source/Queue/Enqueue.antt =====
-- src/app/srs_app_source.cpp: what SrsMessageQueue::enqueue keeps, and what it drops.
use srs_simple.Base.{
  ℕ, zero, suc, ◌≤◌, ◌≡◌, ◌⊎◌, inl, inr, Bool, true, false, if◌then◌else◌, List, [], ◌∷◌, ◌++◌,
  Option, none, some, ok, arith, refl, sym, ◌∙◌, Bool-cases, Option-cases,
}
use srs_simple.Base.Int.{ℤ, pos, ◌-ℤ◌, ◌≤ℤ◌, ltb_ℤ, leb_ℤ}
use srs_simple.Kernel.Flv.{Message, is_video, is_audio}
use srs_simple.App.Source.Queue.{
  Queue, duration, is_video_sh, is_audio_sh, marks, push_back_at, shrink, shrink_loop, push,
  enqueue,
}

-- The last message of a list that passes a test.
unfoldable pub latest : (Message → Bool) → List Message → Option Message
latest p [] = none
latest p (m ∷ ms) = elim (latest p ms) [ some n ↦ some n | none ↦ if p m then some m else none ]

pub or_else : Option Message → Option Message → Option Message
or_else (some m) o = some m
or_else none o = o

or_else-none : (o : Option Message) → or_else o none ≡ o
unfolding or_else
or_else-none none = refl
or_else-none (some m) = refl

latest-cons :
    (p : Message → Bool) (m : Message) (ms : List Message) (o : Option Message)
    → or_else (latest p (m ∷ ms)) o ≡ or_else (latest p ms) (if p m then some m else o)
unfolding or_else latest
latest-cons p m ms o = elim (Option-cases (latest p ms)) [
  | inl n ↦ rw n (elim (Bool-cases (p m)) [ inl t ↦ rw t refl | inr f ↦ rw f refl ])
  | inr (x, s) ↦ rw s refl
]

not_both : (m : Message) → is_video_sh m ≡ true → is_audio_sh m ≡ false
unfolding is_video_sh is_audio_sh is_video is_audio
not_both m h = ground arith

pub marks-latest :
    (ms : List Message) (vsh ash : Option Message)
    → marks ms vsh ash ≡ (or_else (latest is_video_sh ms) vsh, or_else (latest is_audio_sh ms) ash)
unfolding marks
marks-latest [] vsh ash = unfold or_else latest in refl
marks-latest (m ∷ ms) vsh ash =
    rw (latest-cons is_video_sh m ms vsh, latest-cons is_audio_sh m ms ash)
      (elim (Bool-cases (is_video_sh m)) [
        | inl v ↦ rw (v, not_both m v) (marks-latest ms (some m) ash)
        | inr nv ↦ elim (Bool-cases (is_audio_sh m)) [
          | inl a ↦ rw (nv, a) (marks-latest ms vsh (some m))
          | inr na ↦ rw (nv, na) (marks-latest ms vsh ash)
        ]
      ])

-- What shrink() leaves: the last sequence header of the video and that of the audio, at the end
-- time of the queue.
unfoldable pub latest_headers : ℤ → List Message → List Message
latest_headers end ms =
    push_back_at end (latest is_video_sh ms) ++ push_back_at end (latest is_audio_sh ms)

-- shrink leaves the last video sequence header and then the last audio sequence header, each
-- where there is one, with the end time of the queue, and nothing else.
pub shrink-latest_headers : (q : Queue) → (shrink q).msgs ≡ latest_headers q.av_end_time q.msgs
unfolding shrink latest_headers
shrink-latest_headers q =
    rw
      (
        marks-latest q.msgs none none,
        or_else-none (latest is_video_sh q.msgs),
        or_else-none (latest is_audio_sh q.msgs),
      )
      refl

shrink-duration : (q : Queue) → duration (shrink q) ≤ℤ pos 0
unfolding shrink duration ◌-ℤ◌
shrink-duration q = ground arith

pub push-msgs : (q : Queue) (msg : Message) → (push q msg).msgs ≡ q.msgs ++ (msg ∷ [])
unfolding push
push-msgs q msg = ground arith

pub push-max_queue_size :
    (q : Queue) (msg : Message) → (push q msg).max_queue_size ≡ q.max_queue_size
unfolding push
push-max_queue_size q msg = ground arith

-- Either all is kept, or the sequence headers alone.
unfoldable pub Kept : List Message → Queue → Bool → Type 0
Kept ms q is_overflow =
    ((is_overflow ≡ false) × (q.msgs ≡ ms))
    ⊎ ((is_overflow ≡ true) × (q.msgs ≡ latest_headers q.av_end_time ms))

-- shrink() makes the loop end.
pub shrink_loop-over :
    (fuel : ℕ) (q : Queue) (is_overflow : Bool)
    → 2 ≤ fuel
    → pos 1 ≤ℤ q.max_queue_size
    → ltb_ℤ q.max_queue_size (duration q) ≡ true
    → shrink_loop fuel q is_overflow ≡ ok (shrink q, true)
unfolding shrink_loop shrink
shrink_loop-over zero q o f h y = absurd (omega arith)
shrink_loop-over (suc zero) q o f h y = absurd (omega arith)
shrink_loop-over (suc (suc fuel)) q o f h y =
    let d = shrink-duration q in
    let n : ltb_ℤ (shrink q).max_queue_size (duration (shrink q)) ≡ false = ground arith in
    rw (y, n) refl

shrink_loop-Kept :
    (fuel : ℕ) (q : Queue)
    → 2 ≤ fuel
    → pos 1 ≤ℤ q.max_queue_size
    → (r : Queue) × (o : Bool) × (shrink_loop fuel q false ≡ ok (r, o))
      × (duration r ≤ℤ q.max_queue_size)
      × Kept q.msgs r o
      × (r.max_queue_size ≡ q.max_queue_size)
unfolding shrink_loop Kept shrink
shrink_loop-Kept zero q f h = absurd (omega arith)
shrink_loop-Kept (suc zero) q f h = absurd (omega arith)
shrink_loop-Kept (suc (suc fuel)) q f h = elim (Bool-cases (ltb_ℤ q.max_queue_size (duration q))) [
  | inr n ↦ (q, false, rw n refl, ground arith, inl (refl, refl), refl)
  | inl y ↦
      let d = shrink-duration q in
      (
        shrink q,
        true,
        shrink_loop-over (suc (suc fuel)) q false f h y,
        ground arith,
        inr (refl, shrink-latest_headers q),
        refl,
      )
]

-- The limit stays.
pub enqueue-limited :
    (fuel : ℕ) (q : Queue) (msg : Message)
    → 2 ≤ fuel
    → pos 1 ≤ℤ q.max_queue_size
    → (r : Queue) × (o : Bool) × (enqueue fuel q msg ≡ ok (r, o))
      × (duration r ≤ℤ q.max_queue_size)
      × Kept (q.msgs ++ (msg ∷ [])) r o
      × (r.max_queue_size ≡ q.max_queue_size)
unfolding enqueue
enqueue-limited fuel q msg f h =
    let m = push-max_queue_size q msg in
    let big : pos 1 ≤ℤ (push q msg).max_queue_size = rw m h in
    let n : leb_ℤ (push q msg).max_queue_size (pos 0) ≡ false = ground arith in
    let (r, o, e, d, k, same) = shrink_loop-Kept fuel (push q msg) f big in
    (r, o, rw n e, rw (sym m) d, rw (sym (push-msgs q msg)) k, same ∙ m)

-- With a positive limit and two units of fuel enqueue ends with a duration within the limit, and
-- either it kept all messages in order and reports no overflow, or it reports an overflow and
-- kept just the latest video and the latest audio sequence header.
pub enqueue-Kept :
    (fuel : ℕ) (q : Queue) (msg : Message)
    → 2 ≤ fuel
    → pos 1 ≤ℤ q.max_queue_size
    → (r : Queue) × (o : Bool) × (enqueue fuel q msg ≡ ok (r, o))
      × (duration r ≤ℤ q.max_queue_size)
      × Kept (q.msgs ++ (msg ∷ [])) r o
enqueue-Kept fuel q msg f h =
    let (r, o, e, d, k, _) = enqueue-limited fuel q msg f h in (r, o, e, d, k)

-- A queue with no limit.
pub enqueue-unlimited :
    (fuel : ℕ) (q : Queue) (m : Message)
    → leb_ℤ q.max_queue_size (pos 0) ≡ true
    → enqueue fuel q m ≡ ok (push q m, false)
unfolding enqueue
enqueue-unlimited fuel q m y = rw (push-max_queue_size q m, y) refl

-- The loop of a queue ends, so a player takes every message.
pub enqueue-ok :
    (fuel : ℕ) (q : Queue) (m : Message) → 2 ≤ fuel → (r : Queue × Bool) × (enqueue fuel q m ≡ ok r)
enqueue-ok fuel q m f = elim (Bool-cases (leb_ℤ q.max_queue_size (pos 0))) [
  | inl y ↦ ((push q m, false), enqueue-unlimited fuel q m y)
  | inr n ↦ let (r, o, e, d, k) = enqueue-Kept fuel q m f (ground arith) in ((r, o), e)
]
