-- ===== src/Relative/Pointers.antt =====
-- Relative pointers across processes.
use cpp_code.Prelude.{
  ℕ, ◌+◌, ◌-◌, ◌%◌, ◌≤◌, ◌<◌, ◌≡◌, refl, ap, ◌∙◌, Option, none, some, List, [], ◌∷◌, arith, ◌==◌,
  if◌then◌else◌,
}
use cpp_code.Relative.{
  word, SegmentInfo, Registry, register_segment, get_base, map_segments, RelativePointer,
  from_address, get,
}

get_base-register_segment :
    (m : Registry) (id base asked : ℕ)
    → get_base (register_segment m id base) asked
      ≡ (if id == asked then some base else get_base m asked)
unfolding get_base register_segment
get_base-register_segment [] id base asked = ground arith
get_base-register_segment ((key, kept) ∷ m) id base asked =
    ground (arith, get_base-register_segment m id base asked)

-- The address of the last of the segments that has the id, or else what is given.
unfoldable pub last_address : ℕ → Option ℕ → List (SegmentInfo × ℕ) → Option ℕ
last_address id found [] = found
last_address id found ((info, address) ∷ infos) =
    last_address id (if info.id == id then some address else found) infos

registered :
    (m : Registry) (infos : List (SegmentInfo × ℕ)) (id : ℕ)
    → get_base (map_segments m infos) id ≡ last_address id (get_base m id) infos
unfolding map_segments last_address
registered m [] id = refl
registered m ((info, address) ∷ infos) id =
    registered (register_segment m info.id address) infos id
    ∙ ap (λ found. last_address id found infos) (get_base-register_segment m info.id address id)

-- A process that maps the segments `mine` makes a relative pointer from an address at or behind
-- its base of a segment, and a process that maps `theirs` reads it. The first gets its address
-- back, and the second gets the address at the same distance from its own base, if that does
-- not wrap; where it has not mapped the segment it gets the exception.
pub get-from_address :
    (mine theirs : List (SegmentInfo × ℕ)) (id base ptr : ℕ)
    → last_address id none mine ≡ some base
    → base ≤ ptr
    → ptr < word
    → (p : RelativePointer) × (from_address (map_segments [] mine) ptr id ≡ some p)
      × (get (map_segments [] mine) p ≡ some ptr)
      × ((base' : ℕ)
          → last_address id none theirs ≡ some base'
          → base' + (ptr - base) < word
          → get (map_segments [] theirs) p ≡ some (base' + (ptr - base)))
      × (last_address id none theirs ≡ none → get (map_segments [] theirs) p ≡ none)
unfolding from_address get get_base
get-from_address mine theirs id base ptr e low high =
    let here : get_base (map_segments [] mine) id ≡ some base = registered [] mine id ∙ e in
    let there = registered [] theirs id in
    let off : (ptr + word - base) % word ≡ ptr - base = omega arith in
    (
      record { m_id = id; m_offset = ptr - base },
      rw (here, off) refl,
      rw here (ap (λ a. some a) (omega arith)),
      λ base' e' h. rw (there, e') (ap (λ a. some a) (omega arith)),
      λ e'. rw (there, e') refl,
    )
