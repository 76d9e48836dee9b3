-- ===== src/Cache/Defs.antt =====
-- The cache of lab6/cache.c. Memory is a function from addresses to bytes, and so are the bytes of a
-- line, from offsets. A `long` is the little-endian pattern of its eight bytes. The lines of a set are
-- an array of pointers to different lines, held as a function from the index; `malloc` gives lines
-- with any contents. A tag is the 64-bit pattern of an `intptr_t`.
use cs_261_basics_of_compute.Prelude.{
  ℕ, zero, suc, ◌+◌, ◌-◌, ◌*◌, ◌/◌, ◌%◌, ◌^◌, Bool, true, false, Option, none, some, ltb, ◌==◌,
  if◌then◌else◌,
}
use cs_261_basics_of_compute.Prelude.Store.{write}

pub record Line : Type 0 where
  pub is_valid : Bool
  pub tag : ℕ
  pub bytes : ℕ → ℕ

abbrev pub Lines : Type 0
Lines = ℕ → Line

pub record Cache : Type 0 where
  pub num_sets : ℕ
  pub associativity : ℕ
  pub block_size : ℕ
  pub block_offset_mask : ℕ
  pub cache_index_mask : ℕ
  pub cache_index_shift : ℕ
  pub tag_shift : ℕ
  pub policies : ℕ
  pub sets : ℕ → Lines
  pub access_count : ℕ
  pub miss_count : ℕ

-- `unsigned int` arithmetic.
abbrev pub u32 : ℕ → ℕ
u32 n = n % 2 ^ 32

-- `(int) address >> k`, as a 64-bit pattern. For k of 32 or more, where C leaves the shift undefined, it is
-- the quotient by 2^k.
unfoldable pub int_shift : (address k : ℕ) → ℕ
int_shift address k =
    let x = u32 address in
    if ltb x (2 ^ 31)
    then x / 2 ^ k
    else (x + (2 ^ 64 - 2 ^ 32)) / 2 ^ k + (2 ^ 64 - 2 ^ 64 / 2 ^ k)

-- `x & mask`, for a mask of ones in the low digits; `get_shift_and_mask` makes no other.
unfoldable pub and_mask : (x mask : ℕ) → ℕ
and_mask x mask = x % (mask + 1)

-- `x & ~mask`, for such a mask.
unfoldable pub clear_mask : (x mask : ℕ) → ℕ
clear_mask x mask = x - x % (mask + 1)

-- The first `n` rounds of the loop of `cache_set_init`.
unfoldable pub init_lines : ℕ → Lines → Lines
init_lines zero lines = lines
init_lines (suc n) lines =
    let before = init_lines n lines in write before n (record (before n) { is_valid = false })

unfoldable pub cache_set_init : Lines → (associativity : ℕ) → Lines
cache_set_init malloc_lines associativity = init_lines associativity malloc_lines

infixl 5 ◌>>=◌
abbrev ◌>>=◌ : {A B : Type 0} → Option A → (A → Option B) → Option B
none >>= f = none
some a >>= f = f a

-- The loop of `get_shift_and_mask`, with its variables; `none` if it was cut off.
unfoldable pub shift_loop : (fuel value shift mask : ℕ) → Option (ℕ × ℕ)
shift_loop zero value shift mask = none
shift_loop (suc k) value shift mask =
    let rest = shift_loop k (value / 2) (u32 (shift + 1)) ((mask * 2 + 1) % 2 ^ 64) in
    if ltb 1 value then rest else some (shift, mask)

-- The parameter is an `int` in the source, to which sizes below 2^31 fit; larger ones are not cut here.
unfoldable pub get_shift_and_mask : (value init_shift : ℕ) → Option (ℕ × ℕ)
get_shift_and_mask value init_shift = shift_loop 32 value init_shift 0

-- The cache once shifts and masks are known.
unfoldable pub build_cache :
    (malloc_sets : ℕ → Lines) (num_sets block_size associativity policies : ℕ) (index tag : ℕ × ℕ)
    → Cache
build_cache malloc_sets num_sets block_size associativity policies index tag = record {
  num_sets = num_sets;
  associativity = associativity;
  block_size = block_size;
  block_offset_mask = index.1;
  cache_index_mask = tag.1;
  cache_index_shift = index.0;
  tag_shift = tag.0;
  policies = policies;
  sets =
      λ i. if ltb i num_sets then cache_set_init (malloc_sets i) associativity else malloc_sets i;
  access_count = 0;
  miss_count = 0;
}

unfoldable pub cache_new :
    (malloc_sets : ℕ → Lines) (num_blocks block_size associativity policies : ℕ) → Option Cache
cache_new malloc_sets num_blocks block_size associativity policies = do
  index ← get_shift_and_mask block_size 0
  tag ← get_shift_and_mask (num_blocks / associativity) index.0
  some (
      build_cache malloc_sets (num_blocks / associativity) block_size associativity policies index
        tag)

unfoldable pub cache_line_check_validity_and_tag : Line → ℕ → Bool
cache_line_check_validity_and_tag line tag = if line.tag == tag then line.is_valid else false

-- Eight bytes from `a` on, the lowest first.
unfoldable pub long_at : (ℕ → ℕ) → ℕ → ℕ
long_at m a =
    m a
    + m (a + 1) * 2 ^ 8
    + m (a + 2) * 2 ^ 16
    + m (a + 3) * 2 ^ 24
    + m (a + 4) * 2 ^ 32
    + m (a + 5) * 2 ^ 40
    + m (a + 6) * 2 ^ 48
    + m (a + 7) * 2 ^ 56

unfoldable pub cache_line_retrieve_data : Line → ℕ → ℕ
cache_line_retrieve_data line offset = long_at line.bytes offset

-- `for (i = n - 1; i >= 0; i--) cache_lines[i + 1] = cache_lines[i];`
unfoldable pub shift_lines : ℕ → Lines → Lines
shift_lines zero lines = lines
shift_lines (suc i) lines = shift_lines i (write lines (i + 1) (lines i))

-- The line that is returned is line 0 of the result.
unfoldable pub cache_line_make_mru : Lines → ℕ → Lines
cache_line_make_mru lines line_index =
    let line = lines line_index in write (shift_lines line_index lines) 0 line

-- The index of the first of `n` lines from `i` on that has the tag.
unfoldable pub find_tag : (n i : ℕ) → Lines → ℕ → Option ℕ
find_tag zero i lines tag = none
find_tag (suc n) i lines tag =
    let rest = find_tag n (i + 1) lines tag in if (lines i).tag == tag then some i else rest

-- `return cache_line_make_mru(cache_set, i)`, if an index was found.
unfoldable pub matching_line : Lines → Option ℕ → Option Lines
matching_line lines none = none
matching_line lines (some i) = some (cache_line_make_mru lines i)

-- `some` if a line was found, which is line 0 of the result.
unfoldable pub cache_set_find_matching_line : Cache → Lines → ℕ → Option Lines
cache_set_find_matching_line c lines tag =
    matching_line lines (find_tag c.associativity 0 lines tag)

unfoldable pub find_available_cache_line : Cache → Lines → Lines
find_available_cache_line c lines = cache_line_make_mru lines (c.associativity - 1)

-- `memcpy(line->data, (void *) (address & ~block_offset_mask), block_size)`.
unfoldable pub copy_block : (ℕ → ℕ) → Cache → ℕ → (ℕ → ℕ) → ℕ → ℕ
copy_block mem c address bytes k =
    if ltb k c.block_size then mem (clear_mask address c.block_offset_mask + k) else bytes k

unfoldable pub cache_set_add : (ℕ → ℕ) → Cache → Lines → (address tag : ℕ) → Lines
cache_set_add mem c lines address tag =
    let found = find_available_cache_line c lines in
    write found 0
      (record { is_valid = true; tag = tag; bytes = copy_block mem c address (found 0).bytes })

-- `if (!line || !cache_line_check_validity_and_tag(line, tag))`: the lines of the set once the line has
-- been provided, and whether that was a miss.
unfoldable pub check_line :
    (ℕ → ℕ) → Cache → Lines → (address tag : ℕ) → Option Lines → Lines × Bool
check_line mem c lines address tag none = (cache_set_add mem c lines address tag, true)
check_line mem c lines address tag (some found) =
    if cache_line_check_validity_and_tag (found 0) tag
    then (found, false)
    else (cache_set_add mem c found address tag, true)

unfoldable pub provide_line : (ℕ → ℕ) → Cache → Lines → (address tag : ℕ) → Lines × Bool
provide_line mem c lines address tag =
    check_line mem c lines address tag (cache_set_find_matching_line c lines tag)

unfoldable pub cache_read : (ℕ → ℕ) → Cache → ℕ → ℕ × Cache
cache_read mem c address =
    let tag = int_shift address c.tag_shift in
    let index = and_mask (int_shift address c.cache_index_shift) c.cache_index_mask in
    let offset = and_mask (int_shift address 0) c.block_offset_mask in
    let (lines, miss) = provide_line mem c (c.sets index) address tag in
    (
      cache_line_retrieve_data (lines 0) offset,
      record c {
        sets = write c.sets index lines;
        access_count = u32 (c.access_count + 1);
        miss_count = if miss then u32 (c.miss_count + 1) else c.miss_count;
      },
    )

-- The function has an empty body.
unfoldable pub cache_write : Cache → (address value : ℕ) → Cache
cache_write c address value = c

unfoldable pub cache_miss_count : Cache → ℕ
cache_miss_count c = c.miss_count

unfoldable pub cache_access_count : Cache → ℕ
cache_access_count c = c.access_count
