-- ===== src/Chunk.antt =====
-- cpp_test/iceoryx/002.chunk_head/002.chunk_head.cpp: ChunkHeader, align and allocateChunk.
-- Memory is a function from addresses to bytes; uint32_t values are stored little-endian, and
-- size_t and addresses are 64-bit words.
mod Tests
pub mod Bytes
pub mod Layout
pub mod Header
use cpp_code.Prelude.{
  ℕ, zero, suc, ◌+◌, ◌-◌, ◌*◌, ◌/◌, ◌%◌, ◌^◌, ◌≤◌, ◌<◌, ◌≡◌, refl, sym, ap, ap₂, ◌∙◌, subst, ◌≢◌,
  ◌↔◌, ◌⊎◌, inl, inr, Bool, true, false, not, ◌&&◌, ◌||◌, Option, none, some, List, [], ◌∷◌, ◌++◌,
  arith, ltb, leb, ◌==◌, if◌then◌else◌, Bool-cases, Option-cases,
}
use Prim.Native.Nat.{bit_and, max}
use cpp_code.Chunk.Bytes.{Memory, store32, load32}

abbrev pub word : ℕ
word = 2 ^ 64

-- (value + alignment - 1) & ~(alignment - 1)
unfoldable pub align : ℕ → ℕ → ℕ
align value alignment =
    bit_and ((value + alignment + (word - 1)) % word) (word - 1 - (alignment + (word - 1)) % word)

-- sizeof(ChunkHeader): four uint32_t, in the order userHeaderSize, userPayloadSize,
-- userPayloadAlignment, userPayloadOffset. sizeof and alignof of uint32_t.
abbrev pub header_size : ℕ
header_size = 16

abbrev pub size_of_u32 : ℕ
size_of_u32 = 4

-- Steps 1 to 4 of allocateChunk: where the payload begins.
unfoldable pub aligned_payload : ℕ → ℕ → ℕ
unfolding align
aligned_payload alignment user_header_size =
    let chunk_header_size = (header_size + user_header_size) % word in
    let anticipated_back_offset = align chunk_header_size size_of_u32 in
    let unaligned_payload = (anticipated_back_offset + size_of_u32) % word in
    align unaligned_payload alignment

unfoldable pub total_size : ℕ → ℕ → ℕ → ℕ
total_size payload_size alignment user_header_size =
    (aligned_payload alignment user_header_size + payload_size) % word

-- What is asked of aligned_alloc: the alignment and the size.
unfoldable pub request : ℕ → ℕ → ℕ → ℕ × ℕ
request payload_size alignment user_header_size =
    let min_align = max alignment size_of_u32 in
    (min_align, align (total_size payload_size alignment user_header_size) min_align)

-- Steps 7 and 8; a value is cut to 32 bits where it is stored.
unfoldable pub fill_header : Memory → ℕ → ℕ → ℕ → ℕ → ℕ → Memory
fill_header m raw payload_size alignment user_header_size offset =
    let m1 = store32 m raw user_header_size in
    let m2 = store32 m1 (raw + 4) payload_size in
    let m3 = store32 m2 (raw + 8) alignment in
    let m4 = store32 m3 (raw + 12) offset in store32 m4 (raw + offset - size_of_u32) offset

-- On the memory at `raw` that aligned_alloc gave; the header stands at `raw`.
unfoldable pub allocate_chunk : Memory → ℕ → ℕ → ℕ → ℕ → Memory
unfolding fill_header
allocate_chunk m raw payload_size alignment user_header_size =
    fill_header m raw payload_size alignment user_header_size
      (aligned_payload alignment user_header_size)

-- The accessors of the header at an address.
unfoldable pub user_header_size : Memory → ℕ → ℕ
user_header_size m header = load32 m header

unfoldable pub user_payload_size : Memory → ℕ → ℕ
user_payload_size m header = load32 m (header + 4)

unfoldable pub user_payload_alignment : Memory → ℕ → ℕ
user_payload_alignment m header = load32 m (header + 8)

unfoldable pub user_payload : Memory → ℕ → ℕ
user_payload m header = (header + load32 m (header + 12)) % word

-- nullptr is none.
unfoldable pub user_header : Memory → ℕ → Option ℕ
user_header m header = if load32 m header == 0 then none else some ((header + header_size) % word)

unfoldable pub from_user_payload : Memory → ℕ → ℕ
from_user_payload m payload = (payload + word - load32 m (payload - size_of_u32)) % word
