-- ===== src/Relative.antt =====
-- cpp_test/iceoryx/003.relative_pointer: the segments that roudi hands out, the registry that each
-- process keeps of them, and relative pointers (003.common.hpp). Addresses and offsets are 64-bit
-- words; an unordered_map is an association list. `Sender` has the sender's checks (003.sender.cpp),
-- `Protocol` the exchange of a message through the control segment.
pub mod Pointers
pub mod Sender
pub mod Roudi
pub mod Protocol
mod Tests
use cpp_code.Prelude.{
  ℕ, zero, suc, ◌+◌, ◌-◌, ◌*◌, ◌/◌, ◌%◌, ◌^◌, ◌≤◌, ◌<◌, ◌≡◌, refl, sym, ap, ap₂, ◌∙◌, subst, ◌≢◌,
  ◌↔◌, ◌⊎◌, inl, inr, Bool, true, false, not, ◌&&◌, ◌||◌, Option, none, some, List, [], ◌∷◌, ◌++◌,
  arith, ltb, leb, ◌==◌, if◌then◌else◌, Bool-cases, Option-cases,
}
use Prim.Native.String.{String}

abbrev pub word : ℕ
word = 2 ^ 64

pub record SegmentInfo : Type 0 where
  pub id : ℕ
  pub shm_name : String
  pub size : ℕ
  pub is_control : Bool

abbrev pub Registry : Type 0
Registry = List (ℕ × ℕ)

-- m[id] = base
unfoldable pub register_segment : Registry → ℕ → ℕ → Registry
register_segment [] id base = (id, base) ∷ []
register_segment ((key, kept) ∷ m) id base =
    let rest = register_segment m id base in
    if key == id then (key, base) ∷ m else (key, kept) ∷ rest

-- none is the std::out_of_range thrown.
unfoldable pub get_base : Registry → ℕ → Option ℕ
get_base [] id = none
get_base ((key, kept) ∷ m) id = let rest = get_base m id in if key == id then some kept else rest

-- Both mains map every segment that roudi named, in order, at the addresses that mmap gives.
unfoldable pub map_segments : Registry → List (SegmentInfo × ℕ) → Registry
unfolding register_segment
map_segments m [] = m
map_segments m ((info, address) ∷ infos) = map_segments (register_segment m info.id address) infos

-- The first segment marked as control, or a null pointer.
unfoldable pub find_control_segment : List SegmentInfo → Option SegmentInfo
find_control_segment [] = none
find_control_segment (s ∷ segments) =
    let rest = find_control_segment segments in if s.is_control then some s else rest

pub record RelativePointer : Type 0 where
  pub m_id : ℕ
  pub m_offset : ℕ

at_base : ℕ → ℕ → Option ℕ → Option RelativePointer
at_base ptr id none = none
at_base ptr id (some base) = some (record { m_id = id; m_offset = (ptr + word - base) % word })

-- The constructor from an address in the process.
unfoldable pub from_address : Registry → ℕ → ℕ → Option RelativePointer
unfolding at_base
from_address m ptr id = at_base ptr id (get_base m id)

moved_from : ℕ → Option ℕ → Option ℕ
moved_from offset none = none
moved_from offset (some base) = some ((base + offset) % word)

unfoldable pub get : Registry → RelativePointer → Option ℕ
unfolding moved_from
get m p = moved_from p.m_offset (get_base m p.m_id)
