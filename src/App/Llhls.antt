-- ===== src/App/Llhls.antt =====
-- src/app/srs_app_llhls.cpp: SrsLlHlsStorage, the rolling window of segments and their parts that
-- low-latency HLS serves. Each operation holds the lock, so it is one step. A part is its value: the
-- pointers to it are shared and never written through. max_segments is llhls_segment_count, which is
-- no negative number. SrsLlHlsChunklist, which prints the playlist, is an interface.
pub mod Window
pub mod Publish
pub mod Latest
pub mod Wait
mod Tests
use srs_simple.Base.{
  ℕ, suc, ◌+◌, ◌-◌, Bool, true, false, ◌&&◌, ◌||◌, not, ltb, leb, if◌then◌else◌, List, [], ◌∷◌,
  ◌++◌, length, get_elem?, Option, none, some, same,
}
use srs_simple.Base.Int.{ℤ, pos, negsuc, ◌+ℤ◌, ltb_ℤ, leb_ℤ, eqb_ℤ, sub_ℕ}

pub record Part : Type 0 where
  pub psn : ℕ
  pub duration : ℤ
  pub independent : Bool
  pub payload : List ℕ

pub record Segment : Type 0 where
  pub msn : ℕ
  pub duration : ℤ
  pub completed : Bool
  pub parts : List Part

pub record Storage (C : Type 0) : Type 0 where
  pub active : Bool
  pub init_bytes : List ℕ
  pub segments : List Segment
  pub max_segments : ℕ
  pub next_msn : ℕ
  pub latest_msn : ℤ
  pub latest_psn : ℤ
  pub chunklist : C
  pub playlist : List ℕ

unfoldable pub init : {C : Type 0} → ℕ → C → Storage C
init max_segments chunklist = record {
  active = false;
  init_bytes = [];
  segments = [];
  max_segments = max_segments;
  next_msn = 0;
  latest_msn = negsuc 0;
  latest_psn = negsuc 0;
  chunklist = chunklist;
  playlist = [];
}

-- deque::back of a deque, and a change of its last element.
abbrev pub back : List Segment → Option Segment
back [] = none
back (s ∷ []) = some s
back (s ∷ s' ∷ ss) = back (s' ∷ ss)

abbrev pub on_back : (Segment → Segment) → List Segment → List Segment
on_back f [] = []
on_back f (s ∷ []) = f s ∷ []
on_back f (s ∷ s' ∷ ss) = s ∷ on_back f (s' ∷ ss)

abbrev pub is_open : Option Segment → Bool
is_open none = false
is_open (some s) = not s.completed

unfoldable pub new_segment : ℕ → Segment
new_segment seq = record { msn = seq; duration = pos 0; completed = false; parts = [] }

unfoldable pub open_segment : {C : Type 0} → Storage C → Storage C
open_segment t = if is_open (back t.segments) then t else (record t {
  segments = t.segments ++ (new_segment t.next_msn ∷ []);
  next_msn = suc t.next_msn;
})

unfoldable pub add_part : List ℕ → ℤ → Bool → Segment → Segment
add_part payload duration independent s = record s {
  duration = s.duration +ℤ duration;
  parts =
      s.parts
      ++ (record {
        psn = length s.parts;
        duration = duration;
        independent = independent;
        payload = payload;
      }
          ∷ []);
}

unfoldable pub complete : Segment → Segment
complete s = record s { completed = true }

unfoldable pub shrink : ℕ → List Segment → List Segment
shrink max_segments [] = []
shrink max_segments (s ∷ ss) =
    if ltb max_segments (length (s ∷ ss)) && s.completed then shrink max_segments ss else s ∷ ss

-- The position of the part that was just added.
unfoldable pub set_latest : {C : Type 0} → Option Segment → Storage C → Storage C
set_latest none t = t
set_latest (some s) t = record t { latest_msn = pos s.msn; latest_psn = pos (length s.parts - 1) }

unfoldable pub close_if : {C : Type 0} → Bool → Storage C → Storage C
close_if close_segment t =
    if close_segment
    then record t { segments = shrink t.max_segments (on_back complete t.segments) }
    else t

unfoldable pub push_part : {C : Type 0} → List ℕ → ℤ → Bool → Storage C → Storage C
push_part payload duration independent t =
    let ss : List Segment = on_back (add_part payload duration independent) t.segments in
    set_latest (back ss) (record t { segments = ss })

-- first_msn as reached and find read it, where the deque is not empty.
abbrev pub front_msn : List Segment → Option ℕ
front_msn [] = none
front_msn (s ∷ ss) = some s.msn

-- Whether msn lies before the window.
abbrev pub is_expired : ℤ → Option ℕ → Bool
is_expired msn none = false
is_expired msn (some first) = ltb_ℤ msn (pos first)

unfoldable pub reached : {C : Type 0} → Storage C → ℤ → ℤ → Bool
reached t msn psn =
    if ltb_ℤ t.latest_msn (pos 0)
    then false
    else (if is_expired msn (front_msn t.segments)
        then true
        else (if not (eqb_ℤ t.latest_msn msn)
            then ltb_ℤ msn t.latest_msn
            else leb_ℤ (if ltb_ℤ psn (pos 0) then pos 0 else psn) t.latest_psn))

-- segments_[msn - front], where that is an index.
abbrev pub at_offset : List Segment → ℤ → Option ℕ → Option Segment
at_offset ss msn none = none
at_offset ss (negsuc n) (some first) = none
at_offset ss (pos n) (some first) = if ltb n first then none else get_elem? ss (n - first)

unfoldable pub find : List Segment → ℤ → Option Segment
find ss msn = at_offset ss msn (front_msn ss)

abbrev pub part_of : Option Segment → ℤ → Option Part
part_of none psn = none
part_of (some s) (negsuc n) = none
part_of (some s) (pos n) = get_elem? s.parts n

unfoldable pub get_part : {C : Type 0} → Storage C → ℤ → ℤ → Option Part
get_part t msn psn = part_of (find t.segments msn) psn

abbrev pub parts_of : Option Segment → Option (List Part)
parts_of none = none
parts_of (some s) = if s.completed then some s.parts else none

unfoldable pub get_segment : {C : Type 0} → Storage C → ℤ → Option (List Part)
get_segment t msn = parts_of (find t.segments msn)

abbrev pub payloads : List Part → List ℕ
payloads [] = []
payloads (p ∷ ps) = p.payload ++ payloads ps

unfoldable pub get_init : {C : Type 0} → Storage C → Option (List ℕ)
get_init t = if same t.init_bytes [] then none else some t.init_bytes

unfoldable pub get_playlist : {C : Type 0} → Storage C → Option (List ℕ)
get_playlist t = if same t.playlist [] then none else some t.playlist

unfoldable pub first_msn : {C : Type 0} → Storage C → ℤ
first_msn t = elim (front_msn t.segments) [ none ↦ negsuc 0 | some m ↦ pos m ]

unfoldable pub latest : {C : Type 0} → Storage C → Option (ℤ × ℤ)
latest t = if ltb_ℤ t.latest_msn (pos 0) then none else some (t.latest_msn, t.latest_psn)

unfoldable pub update_config : {C : Type 0} → ℕ → C → Storage C → Storage C
update_config max_segments chunklist t = record t {
  max_segments = max_segments;
  chunklist = chunklist;
}

unfoldable pub on_publish : {C : Type 0} → Storage C → Storage C
on_publish t = record t { active = true }

unfoldable pub set_init : {C : Type 0} → List ℕ → Storage C → Storage C
set_init v t = record t { init_bytes = v }

-- A segment without parts stays open.
unfoldable pub complete_tail : Segment → Segment
complete_tail s = if not s.completed && ltb 0 (length s.parts) then complete s else s

-- SrsLlHlsChunklist::generate.
module _ {C : Type 0} (generate : C → List Segment → Bool → List ℕ) where
  unfoldable pub refresh_playlist : Storage C → Storage C
  refresh_playlist t = record t { playlist = generate t.chunklist t.segments t.active }

  unfoldable pub append_part : List ℕ → ℤ → Bool → Bool → Storage C → Storage C
  append_part payload duration independent close_segment t =
      refresh_playlist
        (close_if close_segment (push_part payload duration independent (open_segment t)))

  unfoldable pub on_unpublish : Storage C → Storage C
  on_unpublish t =
      refresh_playlist (record t { active = false; segments = on_back complete_tail t.segments })
