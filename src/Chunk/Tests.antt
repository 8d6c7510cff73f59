-- ===== src/Chunk/Tests.antt =====
-- The theorems on chunks at a payload of 100 bytes, alignment 64 and a user header of 24 bytes.
use cpp_code.Prelude.{◌+◌, ◌^◌, ◌≡◌, none, some, arith, ◌==◌, if◌then◌else◌}
use cpp_code.Chunk.{
  header_size, aligned_payload, allocate_chunk, user_header_size, user_payload_size,
  user_payload_alignment, user_payload, user_header, from_user_payload,
}
use cpp_code.Chunk.Bytes.{Memory}
use cpp_code.Chunk.Header.{chunk_read_back}

abbrev zeros : Memory
zeros = λ address. 0

chunk_read_back_example :
    let m' = allocate_chunk zeros 4096 100 (2 ^ 6) 24 in
    let payload = user_payload m' 4096 in
    (user_header_size m' 4096 ≡ 24)
    × (user_payload_size m' 4096 ≡ 100)
    × (user_payload_alignment m' 4096 ≡ 2 ^ 6)
    × (user_header m' 4096 ≡ (if 24 == 0 then none else some (4096 + header_size)))
    × (payload ≡ 4096 + aligned_payload (2 ^ 6) 24)
    × (from_user_payload m' payload ≡ 4096)
chunk_read_back_example =
    chunk_read_back zeros 6 100 24 4096 (omega arith, omega arith) (omega arith)
