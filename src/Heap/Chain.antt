-- ===== src/Heap/Chain.antt =====
-- What the words of a heap stand for: a list of blocks that fill the region.
use native.Mathlib.Nat.{add-zero, add_assoc}
use cs_261_basics_of_compute.Prelude.{
  ℕ, ◌+◌, ◌-◌, ◌%◌, ◌^◌, ◌≤◌, ◌<◌, ◌≡◌, ◌≢◌, Bool, true, false, List, [], ◌∷◌, ◌++◌, arith,
  if◌then◌else◌,
}
use cs_261_basics_of_compute.Prelude.Store.{write, write_self}
use cs_261_basics_of_compute.Heap.Layout.{
  Heap, ptr_add, ptr_sub, block_is_in_use, get_block_size, get_payload_size, get_payload,
  set_block_header, header_value, get_next_block, get_previous_block,
}

pub record Block : Type 0 where
  pub size : ℕ
  pub used : Bool

abbrev pub flag : Bool → ℕ
flag used = if used then 1 else 0

abbrev pub free_block : ℕ → Block
free_block n = record { size = n; used = false }

abbrev pub used_block : ℕ → Block
used_block n = record { size = n; used = true }

-- Sizes are multiples of eight, and hold at least the two copies of the header.
abbrev pub IsSize : ℕ → Type 0
IsSize n = (n % 8 ≡ 0) × (8 ≤ n)

-- Both copies of the header of block `b` are in place at address `a`.
pub record IsBlock (m : ℕ → ℕ) (a : ℕ) (b : Block) : Type 0 where
  pub header : m a ≡ b.size + flag b.used
  pub footer : m (a + b.size - 4) ≡ b.size + flag b.used
  pub shape : IsSize b.size

-- The blocks lie one behind the other from `a` to `e`.
abbrev pub Chain : (ℕ → ℕ) → ℕ → List Block → ℕ → Type 0
Chain m a [] e = a ≡ e
Chain m a (b ∷ bs) e = IsBlock m a b × Chain m (a + b.size) bs e

-- The region is aligned, is smaller than an `int` counts, and ends below the middle of the addresses.
pub record Region (h : Heap) : Type 0 where
  pub aligned : h.start % 8 ≡ 4
  pub small : h.size < 2 ^ 31
  pub below : h.start + h.size < 2 ^ 63

pub record Holds (h : Heap) (bs : List Block) : Type 0 where
  pub region : Region h
  pub chain : Chain h.mem h.start bs (h.start + h.size)

abbrev pub span : List Block → ℕ
span [] = 0
span (b ∷ bs) = b.size + span bs

pub Chain-span : (m : ℕ → ℕ) (a e : ℕ) (bs : List Block) → Chain m a bs e → a + span bs ≡ e
Chain-span m a e [] c = omega arith
Chain-span m a e (b ∷ bs) c = omega (arith, Chain-span m (a + b.size) e bs c.1)

-- A chain depends on the words inside it only.
pub Chain-frame :
    (m m' : ℕ → ℕ) (a e : ℕ) (bs : List Block)
    → Chain m a bs e
    → ((x : ℕ) → a ≤ x → x < e → m' x ≡ m x)
    → Chain m' a bs e
Chain-frame m m' a e [] c same = c
Chain-frame m m' a e (b ∷ bs) (i, c) same =
    let past = Chain-span m (a + b.size) e bs c in
    (
      record {
        header = ground (arith, same a);
        footer = ground (arith, same (a + b.size - 4));
        shape = i.shape;
      },
      Chain-frame m m' (a + b.size) e bs c (λ x lo hi. same x (omega arith) hi),
    )

pub Chain-append :
    (m : ℕ → ℕ) (a e : ℕ) (xs ys : List Block)
    → Chain m a xs (a + span xs)
    → Chain m (a + span xs) ys e
    → Chain m a (xs ++ ys) e
Chain-append m a e [] ys c d = rw add-zero at d
Chain-append m a e (b ∷ xs) ys (i, c) d =
    (i, Chain-append m (a + b.size) e xs ys (rw add_assoc c) (rw add_assoc d))

pub Chain-split :
    (m : ℕ → ℕ) (a e : ℕ) (xs ys : List Block)
    → Chain m a (xs ++ ys) e
    → Chain m a xs (a + span xs) × Chain m (a + span xs) ys e
Chain-split m a e [] ys c = (omega arith, rw add-zero c)
Chain-split m a e (b ∷ xs) ys (i, c) =
    let (l, r) = Chain-split m (a + b.size) e xs ys c in ((i, rw add_assoc at l), rw add_assoc at r)

-- Reading a block through its header.
module _ (m : ℕ → ℕ) (a : ℕ) (b : Block) (i : IsBlock m a b) where
  open i use {header, footer, shape}

  pub block_is_in_use-IsBlock : block_is_in_use m a ≡ b.used
  unfolding block_is_in_use
  block_is_in_use-IsBlock = ground arith

  pub get_block_size-IsBlock : get_block_size m a ≡ b.size
  unfolding get_block_size
  get_block_size-IsBlock = ground arith

  pub get_next_block-IsBlock : a + b.size < 2 ^ 64 → get_next_block m a ≡ a + b.size
  unfolding get_next_block
  get_next_block-IsBlock h = omega (arith, get_block_size-IsBlock)

  pub get_previous_block-IsBlock :
      (a' : ℕ) → a' ≡ a + b.size → a' < 2 ^ 64 → get_previous_block m a' ≡ a
  unfolding get_previous_block
  get_previous_block-IsBlock a' e h =
      let back : ptr_sub a' 4 ≡ a + b.size - 4 = omega arith in rw back (ground arith)

-- Writing a header: the words of the block become those of a block of that size.
module _ (m : ℕ → ℕ) (a size : ℕ) (used : Bool) (shape : IsSize size) (fits : size < 2 ^ 32)
    (below : a + size < 2 ^ 63) where
  header_value-flag : header_value size (flag used) ≡ size + flag used
  unfolding header_value
  header_value-flag = ground arith

  footer_place :
      (m' : ℕ → ℕ)
      → m' a ≡ size + flag used
      → ptr_add (get_payload a) (get_payload_size m' a) ≡ a + size - 4
  unfolding get_payload get_payload_size
  footer_place m' e = rw e (ground arith)

  pub set_block_header-writes :
      set_block_header m a size (flag used)
      ≡ write (write m a (size + flag used)) (a + size - 4) (size + flag used)
  unfolding set_block_header
  set_block_header-writes = rw (
    header_value-flag,
    footer_place (write m a (size + flag used)) (write_self m a (size + flag used)),
  )

  pub set_block_header-IsBlock :
      IsBlock (set_block_header m a size (flag used)) a (record { size = size; used = used })
  unfolding write
  set_block_header-IsBlock =
      rw set_block_header-writes
        (record { header = ground arith; footer = ground arith; shape = shape })

  pub set_block_header_frame :
      (x : ℕ) → x ≢ a → x ≢ a + size - 4 → set_block_header m a size (flag used) x ≡ m x
  unfolding write
  set_block_header_frame x p q = rw set_block_header-writes (ground arith)
