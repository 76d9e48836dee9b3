-- ===== src/Heap/Layout.antt =====
-- The block headers of lab5/implicit.c, lines 8 to 79, and the struct of lab5/implicit.h.
--
-- Memory is a store of 32-bit words at byte addresses. The program only reads and writes words at
-- multiples of four, so two cells do not overlap. A pointer is a 64-bit number. The region begins at
-- `start`; the struct itself is kept apart from the store, which holds any words below `start`.
use Prim.Native.Nat.{max}
use cs_261_basics_of_compute.Prelude.{ℕ, ◌+◌, ◌-◌, ◌*◌, ◌/◌, ◌%◌, ◌^◌, Bool, ◌&&◌, ltb, leb, ◌==◌}
use cs_261_basics_of_compute.Prelude.Store.{write}

pub data SearchAlg : Type 0 where
  firstfit nextfit bestfit : SearchAlg

-- `size` is an `intptr_t`, held as its 64-bit pattern.
pub record Heap : Type 0 where
  pub search_alg : SearchAlg
  pub size : ℕ
  pub next : ℕ
  pub start : ℕ
  pub mem : ℕ → ℕ

abbrev pub header_size : ℕ
header_size = 4

abbrev pub payload_align : ℕ
payload_align = 8

abbrev pub max_unused_bytes : ℕ
max_unused_bytes = 128

abbrev pub null : ℕ
null = 0

-- Arithmetic on `block_size_t`, and on pointers.
abbrev pub u32 : ℕ → ℕ
u32 n = n % 2 ^ 32

abbrev pub ptr_add : ℕ → ℕ → ℕ
ptr_add a n = (a + n) % 2 ^ 64

abbrev pub ptr_sub : ℕ → ℕ → ℕ
ptr_sub a n = (a + 2 ^ 64 - n) % 2 ^ 64

-- `1 & w`, as a truth value.
unfoldable pub block_is_in_use : (ℕ → ℕ) → ℕ → Bool
block_is_in_use m b = m b % 2 == 1

-- `-HEADER_SIZE & w` clears the two low bits of a 32-bit word.
unfoldable pub get_block_size : (ℕ → ℕ) → ℕ → ℕ
get_block_size m b = m b - m b % 4

unfoldable pub get_payload_size : (ℕ → ℕ) → ℕ → ℕ
unfolding get_block_size
get_payload_size m b = u32 (get_block_size m b + 2 ^ 32 - header_size * 2)

unfoldable pub get_block_start : ℕ → ℕ
get_block_start payload = ptr_sub payload header_size

unfoldable pub get_payload : ℕ → ℕ
get_payload b = ptr_add b header_size

-- `size | in_use`, where `in_use` is 0 or 1: the lowest bit is set if it was or `in_use` is.
unfoldable pub header_value : ℕ → ℕ → ℕ
header_value size in_use = size / 2 * 2 + max (size % 2) in_use

-- The place of the second copy is read off the header that was just written. For a size below eight it
-- lies outside of the block, and perhaps of the region, where C leaves the write undefined; here the
-- word is written there.
unfoldable pub set_block_header : (ℕ → ℕ) → ℕ → ℕ → ℕ → (ℕ → ℕ)
set_block_header m b size in_use =
    let v = header_value size in_use in
    let m' = write m b v in write m' (ptr_add (get_payload b) (get_payload_size m' b)) v

unfoldable pub get_next_block : (ℕ → ℕ) → ℕ → ℕ
unfolding get_block_size
get_next_block m b = ptr_add b (get_block_size m b)

unfoldable pub get_previous_block : (ℕ → ℕ) → ℕ → ℕ
unfolding get_block_size
get_previous_block m b = ptr_sub b (get_block_size m (ptr_sub b header_size))

unfoldable pub is_first_block : Heap → ℕ → Bool
is_first_block h b = b == h.start

unfoldable pub is_within_heap_range : Heap → ℕ → Bool
is_within_heap_range h addr = leb h.start addr && ltb addr (ptr_add h.start h.size)
