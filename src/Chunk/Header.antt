-- ===== src/Chunk/Header.antt =====
-- What allocateChunk writes is read back.
use cpp_code.Prelude.{
  ℕ, ◌+◌, ◌-◌, ◌%◌, ◌^◌, ◌≤◌, ◌<◌, ◌≡◌, refl, ◌∙◌, inl, none, some, arith, ◌==◌, if◌then◌else◌,
}
use cpp_code.Chunk.Bytes.{Memory, store32, load32, load32-store32, load32-store32_apart}
use cpp_code.Chunk.Layout.{IsSmall, offset_bounds}
use cpp_code.Chunk.{
  word, header_size, size_of_u32, aligned_payload, fill_header, allocate_chunk, user_header_size,
  user_payload_size, user_payload_alignment, user_payload, user_header, from_user_payload,
}

module _ (m : Memory) (raw ps al uh off : ℕ) where
  abbrev filled : Memory
  filled = fill_header m raw ps al uh off

  read_fields :
      20 ≤ off
      → (load32 filled raw ≡ uh % 2 ^ 32)
        × (load32 filled (raw + 4) ≡ ps % 2 ^ 32)
        × (load32 filled (raw + 8) ≡ al % 2 ^ 32)
        × (load32 filled (raw + 12) ≡ off % 2 ^ 32)
        × (load32 filled (raw + off - size_of_u32) ≡ off % 2 ^ 32)
  unfolding fill_header
  read_fields low =
      let m1 = store32 m raw uh in
      let m2 = store32 m1 (raw + 4) ps in
      let m3 = store32 m2 (raw + 8) al in
      let m4 = store32 m3 (raw + 12) off in
      let back = raw + off - size_of_u32 in
      let skip = λ (a : ℕ) (h : a + 4 ≤ back). load32-store32_apart m4 a back off (inl h) in
      (
        skip raw (omega arith)
            ∙ load32-store32_apart m3 raw (raw + 12) off (inl (omega arith))
            ∙ load32-store32_apart m2 raw (raw + 8) al (inl (omega arith))
            ∙ load32-store32_apart m1 raw (raw + 4) ps (inl (omega arith))
            ∙ load32-store32 m raw uh,
        skip (raw + 4) (omega arith)
            ∙ load32-store32_apart m3 (raw + 4) (raw + 12) off (inl (omega arith))
            ∙ load32-store32_apart m2 (raw + 4) (raw + 8) al (inl (omega arith))
            ∙ load32-store32 m1 (raw + 4) ps,
        skip (raw + 8) (omega arith)
            ∙ load32-store32_apart m3 (raw + 8) (raw + 12) off (inl (omega arith))
            ∙ load32-store32 m2 (raw + 8) al,
        skip (raw + 12) (omega arith) ∙ load32-store32 m3 (raw + 12) off,
        load32-store32 m4 back off,
      )

-- For an alignment 2 ^ k and sizes that fit 32 bits together, at any address where the chunk does
-- not wrap: the header read back has the sizes and the alignment given, the user header stands
-- behind it exactly if its size is not 0, the payload stands at its offset, and fromUserPayload
-- leads from the payload back to the header.
pub chunk_read_back :
    (m : Memory) (k payload_size header raw : ℕ)
    → IsSmall k payload_size header
    → raw + 2 ^ 32 < word
    → let m' = allocate_chunk m raw payload_size (2 ^ k) header in
      let payload = user_payload m' raw in
      (user_header_size m' raw ≡ header)
      × (user_payload_size m' raw ≡ payload_size)
      × (user_payload_alignment m' raw ≡ 2 ^ k)
      × (user_header m' raw ≡ (if header == 0 then none else some (raw + header_size)))
      × (payload ≡ raw + aligned_payload (2 ^ k) header)
      × (from_user_payload m' payload ≡ raw)
unfolding allocate_chunk user_header_size user_payload_size user_payload_alignment user_header
    user_payload from_user_payload
chunk_read_back m k payload_size header raw small room =
    let off = aligned_payload (2 ^ k) header in
    let (low, high, _) = offset_bounds k payload_size header small in
    let (f1, f2, f3, f4, f5) = read_fields m raw payload_size (2 ^ k) header off (omega arith) in
    let g1 : load32 (fill_header m raw payload_size (2 ^ k) header off) raw ≡ header =
      omega arith in
    let g2 : load32 (fill_header m raw payload_size (2 ^ k) header off) (raw + 4) ≡ payload_size =
      omega arith in
    let g3 : load32 (fill_header m raw payload_size (2 ^ k) header off) (raw + 8) ≡ 2 ^ k =
      omega arith in
    let g4 : load32 (fill_header m raw payload_size (2 ^ k) header off) (raw + 12) ≡ off =
      omega arith in
    let g5 : load32 (fill_header m raw payload_size (2 ^ k) header off) (raw + off - size_of_u32)
        ≡ off =
      omega arith in
    let at : (raw + off) % word ≡ raw + off = omega arith in
    let behind : (raw + header_size) % word ≡ raw + header_size = omega arith in
    (g1, g2, g3, rw (g1, behind) refl, rw (g4, at), rw (g4, at, g5) (omega arith))
