-- ===== src/Relative/Roudi.antt =====
-- 003.roudi.cpp, and getSegmentsFromRoudi of 003.common.hpp: the segments that roudi creates, and
-- how a client asks for them over the socket. What is written to the socket is a list of packets,
-- each as its write gives it.
use cpp_code.Prelude.{
  ℕ, zero, suc, ◌+◌, ◌%◌, ◌^◌, ◌≤◌, ◌<◌, ◌≡◌, refl, ◌≢◌, Bool, true, false, Option, none, some,
  List, [], ◌∷◌, arith, ◌==◌, if◌then◌else◌, length,
}
use cpp_code.Prelude.Int.{ℤ, pos}
use cpp_code.Relative.{SegmentInfo, find_control_segment}
use cpp_code.Relative.Sender.{accepted, data_segments, send_target}
use Prim.Native.String.{String}

pub data Packet : Type 0 where
  count : ℕ → Packet
  info : SegmentInfo → Packet

abbrev pub req_get_segments : ℕ
req_get_segments = 1

infos : List SegmentInfo → List Packet
infos [] = []
infos (s ∷ segments) = info s ∷ infos segments

-- `request` is the byte read, none where the read fails; the count is cut to 32 bits.
unfoldable pub handle_client : Option ℕ → List SegmentInfo → List Packet
unfolding infos
handle_client none segments = []
handle_client (some request) segments =
    if request == req_get_segments then count (length segments % 2 ^ 32) ∷ infos segments else []

abbrev behind : SegmentInfo → Option (List SegmentInfo) → Option (List SegmentInfo)
behind s none = none
behind s (some segments) = some (s ∷ segments)

-- The loop of reads; none is the exit where a read does not give what it asks for.
read_infos : ℕ → List Packet → Option (List SegmentInfo)
read_infos zero packets = some []
read_infos (suc n) [] = none
read_infos (suc n) (count m ∷ packets) = none
read_infos (suc n) (info s ∷ packets) = behind s (read_infos n packets)

unfoldable pub get_segments_from_roudi : List Packet → Option (List SegmentInfo)
unfolding read_infos
get_segments_from_roudi [] = none
get_segments_from_roudi (info s ∷ packets) = none
get_segments_from_roudi (count n ∷ packets) = read_infos n packets

abbrev pub ctrl_segment : SegmentInfo
ctrl_segment = record { id = 0; shm_name = "/cpp_003_ctrl"; size = 4096; is_control = true }

-- The names /cpp_003_seg_%u.
abbrev pub seg_name : ℕ → String
seg_name zero = "/cpp_003_seg_0"
seg_name (suc zero) = "/cpp_003_seg_1"
seg_name (suc (suc zero)) = "/cpp_003_seg_2"
seg_name (suc (suc (suc n))) = "/cpp_003_seg_3"

abbrev pub data_segment : ℕ → SegmentInfo
data_segment i = record { id = i + 1; shm_name = seg_name i; size = 4096; is_control = false }

-- The loop over the data segments, `left` of them from `i` on; `created` says for which
-- createSegment succeeds, and none is the early return of main.
create_data : (SegmentInfo → Bool) → ℕ → ℕ → Option (List SegmentInfo)
create_data created zero i = some []
create_data created (suc left) i =
    let rest = create_data created left (suc i) in
    if created (data_segment i) then behind (data_segment i) rest else none

unfoldable pub create_segments : (SegmentInfo → Bool) → Option (List SegmentInfo)
unfolding create_data
create_segments created =
    if created ctrl_segment then behind ctrl_segment (create_data created 4 0) else none

read_infos-infos :
    (segments : List SegmentInfo) → read_infos (length segments) (infos segments) ≡ some segments
unfolding read_infos infos
read_infos-infos [] = refl
read_infos-infos (s ∷ segments) = rw (read_infos-infos segments) refl

-- A client that asks for the segments reads just the list that roudi holds, if it is shorter than
-- 2 ^ 32; after any other request, or none, it reads nothing and exits.
pub get_segments-handle_client :
    (request : Option ℕ) (segments : List SegmentInfo)
    → length segments < 2 ^ 32
    → get_segments_from_roudi (handle_client request segments)
      ≡ (elim request [ none ↦ none | some r ↦ if r == 1 then some segments else none ])
unfolding get_segments_from_roudi handle_client
get_segments-handle_client none segments h = refl
get_segments-handle_client (some r) segments h = ground (arith, read_infos-infos segments, cut)
  where
    cut : length segments % 2 ^ 32 ≡ length segments
    cut = omega arith

abbrev all_segments : List SegmentInfo
all_segments = ctrl_segment ∷ data_segment 0 ∷ data_segment 1 ∷ data_segment 2 ∷ data_segment 3 ∷ []

created_all :
    (created : SegmentInfo → Bool) (segments : List SegmentInfo)
    → create_segments created ≡ some segments
    → segments ≡ all_segments
unfolding create_segments
created_all created segments e = ground arith

served :
    (index offset : ℕ) (v : ℤ)
    → index < 4
    → offset % 8 ≡ 0
    → offset + 8 ≤ 4096
    → v ≢ pos 0
    → send_target index offset v all_segments ≡ accepted (data_segment index)
unfolding send_target data_segments find_control_segment
served zero offset v i al fits nz = ground arith
served (suc zero) offset v i al fits nz = ground arith
served (suc (suc zero)) offset v i al fits nz = ground arith
served (suc (suc (suc zero))) offset v i al fits nz = ground arith
served (suc (suc (suc (suc index)))) offset v i al fits nz = absurd (omega arith)

-- Where roudi comes to serve its segments, whatever the system answered, a sender that asked for
-- them is accepted for each of the four indices, each offset that is a multiple of 8 and leaves room
-- for eight bytes in a segment of 4096, and each value but 0; its target is the data segment of
-- that index.
pub roudi_serves :
    (created : SegmentInfo → Bool) (segments : List SegmentInfo) (index offset : ℕ) (v : ℤ)
    → create_segments created ≡ some segments
    → index < 4
    → offset % 8 ≡ 0
    → offset + 8 ≤ 4096
    → v ≢ pos 0
    → send_target index offset v segments ≡ accepted (data_segment index)
roudi_serves created segments index offset v e i al fits nz =
    rw (created_all created segments e) (served index offset v i al fits nz)
