-- ===== src/Chunk/Layout.antt =====
-- Where allocateChunk puts what, and the way back from a payload to its header.
use cpp_code.Prelude.{ℕ, ◌+◌, ◌-◌, ◌*◌, ◌/◌, ◌%◌, ◌^◌, ◌≤◌, ◌<◌, ◌≡◌, arith, zero, suc, refl}
use native.Mathlib.Nat.{
  add-mod, zero-mod, one-le-pow, mod-add-div, mod-lt, mul_comm, mul-mod_left, pow-suc,
}
use cpp_code.Prelude.Bits.{bit_and-clear}
use cpp_code.Chunk.{
  word, align, header_size, aligned_payload, size_of_u32, max, request, total_size,
}

-- For a power of two the mask takes the sum down to a multiple.
align-pow :
    (value k : ℕ)
    → k ≤ 63
    → value + 2 ^ k ≤ word
    → align value (2 ^ k) ≡ (value + 2 ^ k - 1) / 2 ^ k * 2 ^ k
unfolding align
align-pow value k small fits =
    let p = one-le-pow k 2 (omega arith) in
    let width : k + (64 - k) ≡ 64 = omega arith in
    let sum : (value + 2 ^ k + (word - 1)) % word ≡ value + 2 ^ k - 1 = omega arith in
    let mask : word - 1 - (2 ^ k + (word - 1)) % word ≡ word - 2 ^ k = omega arith in
    let clear = bit_and-clear k (64 - k) (value + 2 ^ k - 1) in
    rw (sum, mask) ((rw width at clear) (omega arith))

round_up :
    (value p : ℕ)
    → 0 < p
    → let r = (value + p - 1) / p * p in (value ≤ r) × (r < value + p) × (r % p ≡ 0)
round_up value p pos_p =
    let split = mod-add-div (value + p - 1) p in
    let small = mod-lt (value + p - 1) pos_p in
    let product = mul_comm ((value + p - 1) / p) p in
    (
      omega (arith, split, small, product),
      omega (arith, split, small, product),
      mul-mod_left ((value + p - 1) / p) p,
    )

-- align rounds up to the next multiple of a power of two, as long as that does not wrap.
pub align_bounds :
    (value k : ℕ)
    → k ≤ 63
    → value + 2 ^ k ≤ word
    → (value ≤ align value (2 ^ k))
      × (align value (2 ^ k) < value + 2 ^ k)
      × (align value (2 ^ k) % 2 ^ k ≡ 0)
align_bounds value k small fits =
    rw (align-pow value k small fits) (round_up value (2 ^ k) (one-le-pow k 2 (omega arith)))

module _ (k payload_size header : ℕ) where
  -- All sizes together stay below 2 ^ 32, as the header's fields want.
  abbrev pub IsSmall : Type 0
  IsSmall = (k ≤ 30) × (header_size + header + payload_size + 2 ^ k + 8 ≤ 2 ^ 32)

  pub offset_bounds :
      IsSmall
      → let offset = aligned_payload (2 ^ k) header in
        (header_size + header + size_of_u32 ≤ offset)
        × (offset < header_size + header + 8 + 2 ^ k)
        × (offset % 2 ^ k ≡ 0)
  unfolding aligned_payload
  offset_bounds (small, fits) =
      let size : (header_size + header) % word ≡ header_size + header = omega arith in
      let (low, high, _) = align_bounds (header_size + header) 2 (omega arith) (omega arith) in
      let back : (align (header_size + header) size_of_u32 + size_of_u32) % word
          ≡ align (header_size + header) size_of_u32 + size_of_u32 =
        omega arith in
      let (low', high', div) =
        align_bounds (align (header_size + header) size_of_u32 + size_of_u32) k (omega arith)
          (omega arith) in
      rw (size, back) (omega arith, omega arith, div)

pow-suc-suc : (k : ℕ) → 2 ^ suc (suc k) ≡ 4 * 2 ^ k
pow-suc-suc k = omega (arith, pow-suc 2 (suc k), pow-suc 2 k)

max-pow :
    (k : ℕ) → k ≤ 30 → (j : ℕ) × (j ≤ 63) × (max (2 ^ k) size_of_u32 ≡ 2 ^ j) × (2 ^ j ≤ 2 ^ k + 4)
max-pow zero h = (2, omega arith, refl, omega arith)
max-pow (suc zero) h = (2, omega arith, refl, omega arith)
max-pow (suc (suc k)) h =
    let one = one-le-pow k 2 (omega arith) in
    (suc (suc k), omega arith, omega (arith, pow-suc-suc k, one), omega arith)

-- An address that is aligned to the greater of 2 ^ k and 4 is aligned to 2 ^ k.
pub aligned_base : (k raw : ℕ) → raw % max (2 ^ k) size_of_u32 ≡ 0 → raw % 2 ^ k ≡ 0
aligned_base zero raw h = omega arith
aligned_base (suc zero) raw h = omega arith
aligned_base (suc (suc k)) raw h =
    let big : max (2 ^ suc (suc k)) 4 ≡ 2 ^ suc (suc k) =
      omega (arith, pow-suc-suc k, one-le-pow k 2 (omega arith)) in
    rw big at h

-- For an alignment 2 ^ k and sizes that fit 32 bits together: the payload, at the address `raw`
-- plus its offset, lies after the header, the user header and the four bytes of the back offset,
-- it is aligned when `raw` is as aligned_alloc was asked for, and it ends within what was asked for.
pub payload_placed :
    (k payload_size header raw : ℕ)
    → IsSmall k payload_size header
    → raw % (request payload_size (2 ^ k) header).0 ≡ 0
    → let offset = aligned_payload (2 ^ k) header in
      (header_size + header + size_of_u32 ≤ offset)
      × ((raw + offset) % 2 ^ k ≡ 0)
      × (offset + payload_size ≤ (request payload_size (2 ^ k) header).1)
unfolding request total_size
payload_placed k payload_size header raw small h =
    let (low, high, div) = offset_bounds k payload_size header small in
    let base = aligned_base k raw h in
    let (j, small_j, same, near) = max-pow k small.0 in
    let total : (aligned_payload (2 ^ k) header + payload_size) % word
        ≡ aligned_payload (2 ^ k) header + payload_size =
      omega arith in
    let (room, _, _) =
      align_bounds (aligned_payload (2 ^ k) header + payload_size) j small_j (omega arith) in
    (low, rw (add-mod, base, div) (zero-mod (2 ^ k)), rw (same, total) room)
