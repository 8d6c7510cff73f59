-- ===== src/Relative/Sender.antt =====
-- 003.sender.cpp: the checks before a message is sent.
use cpp_code.Prelude.{
  ℕ, zero, suc, ◌+◌, ◌-◌, ◌%◌, ◌≤◌, ◌<◌, ◌≡◌, ◌≢◌, ◌⊎◌, false, Option, none, some, List, [], ◌∷◌,
  arith, ltb, ◌==◌, if◌then◌else◌, get_elem?,
}
use cpp_code.Relative.{word, SegmentInfo, find_control_segment}
use cpp_code.Prelude.Int.{ℤ, pos, eq_ℤ}

pub data SendError : Type 0 where
  zero_value misaligned no_control index_out_of_range exceeds_segment : SendError

pub data Target : Type 0 where
  refused : SendError → Target
  accepted : SegmentInfo → Target

unfoldable pub data_segments : List SegmentInfo → List SegmentInfo
data_segments [] = []
data_segments (s ∷ segments) =
    let rest = data_segments segments in if s.is_control then rest else s ∷ rest

-- offset + sizeof(int64_t) > size, on 64-bit words.
fitting : ℕ → Option SegmentInfo → Target
fitting offset none = refused index_out_of_range
fitting offset (some s) =
    if ltb s.size ((offset + 8) % word) then refused exceeds_segment else accepted s

with_control : ℕ → ℕ → List SegmentInfo → Option SegmentInfo → Target
unfolding fitting data_segments
with_control index offset segments none = refused no_control
with_control index offset segments (some control) =
    fitting offset (get_elem? (data_segments segments) index)

unfoldable pub send_target : ℕ → ℕ → ℤ → List SegmentInfo → Target
unfolding with_control
send_target index offset value segments =
    if eq_ℤ value (pos 0)
    then refused zero_value
    else if offset % 8 == 0
    then with_control index offset segments (find_control_segment segments)
    else refused misaligned

abbrev pub IsAmong : SegmentInfo → List SegmentInfo → Type 0
IsAmong s [] = ⊥
IsAmong s (t ∷ segments) = (s ≡ t) ⊎ IsAmong s segments

found_data :
    (segments : List SegmentInfo) (index : ℕ) (s : SegmentInfo)
    → get_elem? (data_segments segments) index ≡ some s
    → IsAmong s segments × (s.is_control ≡ false)
unfolding data_segments
found_data [] index s h = ground arith
found_data (t ∷ segments) zero s h = ground (arith, found_data segments zero s)
found_data (t ∷ segments) (suc index) s h =
    ground (arith, found_data segments index s, found_data segments (suc index) s)

-- Where the sender goes on to write, the value is not 0, the offset is a multiple of 8, and the
-- segment is one of those that roudi named and no control segment; and the eight bytes at the
-- offset lie within it, unless the offset is 2 ^ 64 - 8.
pub send_target-accepted :
    (index offset : ℕ) (v : ℤ) (segments : List SegmentInfo) (s : SegmentInfo)
    → offset < word
    → send_target index offset v segments ≡ accepted s
    → (v ≢ pos 0)
      × (offset % 8 ≡ 0)
      × IsAmong s segments
      × (s.is_control ≡ false)
      × ((offset + 8 ≤ s.size) ⊎ (offset + 8 ≡ word))
unfolding send_target
send_target-accepted index offset v segments s small h = ground (arith, found_data segments index s)

-- With the offset 2 ^ 64 - 8 the sum of the check wraps to 0: for a value that is not 0, with a
-- control segment among the segments, the sender goes on to write at the eight bytes before every
-- data segment that the index names, however small it is.
pub send_target_wraps :
    (index : ℕ) (v : ℤ) (segments : List SegmentInfo) (control s : SegmentInfo)
    → v ≢ pos 0
    → find_control_segment segments ≡ some control
    → get_elem? (data_segments segments) index ≡ some s
    → send_target index (word - 8) v segments ≡ accepted s
unfolding send_target
send_target_wraps index v segments control s nonzero c h = ground arith
