-- ===== src/App/Llhls/Tests.antt =====
-- The claims about SrsLlHlsStorage of src/app/srs_app_llhls.cpp, at concrete inputs: a stream that
-- keeps two segments, with a part of 7 bytes published, and a request for the second segment.
use srs_simple.Base.{ℕ, ◌≡◌, refl, arith, Bool, true, false, List, [], ◌∷◌, some}
use srs_simple.Base.Int.{pos, ◌+ℤ◌}
use srs_simple.App.Llhls.{
  Segment, Storage, append_part, open_segment, new_segment, push_part, add_part, set_latest,
  close_if, complete, shrink, refresh_playlist, reached, get_part,
}
use srs_simple.App.Llhls.Publish.{IsStorage, append_part-IsStorage}
use srs_simple.App.Llhls.Latest.{get_part-append_part}
use srs_simple.App.Llhls.Wait.{
  stay, then_step, held, notified, answered, part, wake, is_over, resume,
}
use srs_simple.App.Llhls.Wait.Served.{IsServed, wait_for-not_lost, wait_for-IsServed}

abbrev no_text : Unit {0} → List Segment → Bool → List ℕ
no_text c ss active = []

-- One segment with one part, and the next one open.
abbrev first_segment : Segment
first_segment = record {
  msn = 0;
  duration = pos 500;
  completed = true;
  parts = record { psn = 0; duration = pos 500; independent = true; payload = 7 ∷ [] } ∷ [];
}

abbrev stream : Storage (Unit {0})
stream = record {
  active = true;
  init_bytes = [];
  segments = first_segment ∷ [];
  max_segments = 2;
  next_msn = 1;
  latest_msn = pos 0;
  latest_psn = pos 0;
  chunklist = tt;
  playlist = [];
}

stream-IsStorage : IsStorage stream
unfolding ◌+ℤ◌
stream-IsStorage = record {
  first = 0;
  window =
      (refl, record { some_part = omega arith; numbered = (refl, tt); summed = refl }, tt, refl);
  latest = refl;
  tail = refl;
}

append_part-IsStorage_example : IsStorage (append_part no_text (8 ∷ []) (pos 400) false true stream)
append_part-IsStorage_example =
    append_part-IsStorage no_text (8 ∷ []) (pos 400) false true stream stream-IsStorage

get_part-append_part_example :
    let u = append_part no_text (8 ∷ []) (pos 400) false true stream in
    (n : ℕ) × (u.latest_psn ≡ pos n)
    × (get_part u u.latest_msn u.latest_psn
        ≡ some (record { psn = n; duration = pos 400; independent = false; payload = 8 ∷ [] }))
get_part-append_part_example =
    get_part-append_part no_text (8 ∷ []) (pos 400) false true stream stream-IsStorage (omega arith)

abbrev published : Storage (Unit {0})
published = append_part no_text (8 ∷ []) (pos 400) false true stream

-- A request for the third segment is woken by the second and blocked again.
wait_for-not_lost_example : is_over (pos 2) (pos 0) published ≡ false
unfolding is_over resume reached append_part open_segment new_segment push_part add_part set_latest
    close_if complete shrink refresh_playlist
wait_for-not_lost_example =
    wait_for-not_lost (pos 2) (pos 0) no_text stream published (
      then_step {i = notified} (then_step {i = held} stay (part (8 ∷ []) (pos 400) false true))
        wake)

-- A request for the second segment is blocked, and the part of that segment answers it.
wait_for-IsServed_example : IsServed (pos 1) (pos 0) published (answered true)
unfolding is_over resume reached append_part open_segment new_segment push_part add_part set_latest
    close_if complete shrink refresh_playlist
wait_for-IsServed_example =
    wait_for-IsServed (pos 1) (pos 0) no_text stream published published notified (answered true)
      stream-IsStorage (then_step {i = held} stay (part (8 ∷ []) (pos 400) false true)) tt refl
      (then_step {i = notified} stay wake)
