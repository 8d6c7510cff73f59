-- ===== src/Chunk/Bytes.antt =====
-- Memory as bytes, with uint32_t reads and writes by memcpy.
use cpp_code.Prelude.{ℕ, ◌+◌, ◌*◌, ◌/◌, ◌%◌, ◌^◌, ◌≤◌, ◌≡◌, ◌⊎◌, arith, ◌==◌, if◌then◌else◌}

abbrev pub Memory : Type 0
Memory = ℕ → ℕ

-- Four bytes, the lowest first; a value of more than 32 bits is cut.
unfoldable pub store32 : Memory → ℕ → ℕ → Memory
store32 m a v x =
    if x == a
    then v % 256
    else if x == a + 1
    then v / 256 % 256
    else if x == a + 2
    then v / 65536 % 256
    else if x == a + 3
    then v / 16777216 % 256
    else m x

unfoldable pub load32 : Memory → ℕ → ℕ
load32 m a = m a + m (a + 1) * 256 + m (a + 2) * 65536 + m (a + 3) * 16777216

pub load32-store32 : (m : Memory) (a v : ℕ) → load32 (store32 m a v) a ≡ v % 2 ^ 32
unfolding load32 store32
load32-store32 m a v = ground arith

pub load32-store32_apart :
    (m : Memory) (a b v : ℕ) → (a + 4 ≤ b) ⊎ (b + 4 ≤ a) → load32 (store32 m b v) a ≡ load32 m a
unfolding load32 store32
load32-store32_apart m a b v h = ground arith
