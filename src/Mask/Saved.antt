-- ===== src/Mask/Saved.antt =====
-- The file that `main` of lab6/timemask.c writes, byte by byte.
use cs_261_basics_of_compute.Prelude.{
  ℕ, zero, suc, ◌+◌, ◌*◌, ◌%◌, ◌<◌, ◌≡◌, refl, ap, ◌∙◌, Option, none, some, List, [], ◌∷◌, ◌++◌,
  length, length-append, arith,
}
use cs_261_basics_of_compute.Mask.Defs.{Image}
use cs_261_basics_of_compute.Mask.Pgm.{File, decimal, write_row, write_rows, write_image}

-- The byte at a place of a file, if it is that long.
unfoldable pub get_elem? {ℓ} : {A : Type ℓ} → List A → ℕ → Option A
get_elem? [] k = none
get_elem? (x ∷ xs) zero = some x
get_elem? (x ∷ xs) (suc k) = get_elem? xs k

-- A PGM file: the numbers of columns and rows and the white in its header, and one byte for each
-- pixel, row by row, which is its low byte.
pub record IsPgm (rows cols white : ℕ) (image : Image) (file : File) : Type 0 where
  pub body : File
  pub header :
      file
      ≡ 80 ∷ 53 ∷ 32 ∷ (decimal cols ++ 32 ∷ (decimal rows ++ 32 ∷ (decimal white ++ 10 ∷ body)))
  pub size : length body ≡ rows * cols
  pub pixels :
      (i j : ℕ) → i < rows → j < cols → get_elem? body (i * cols + j) ≡ some (image i j % 256)

get_elem?-left {ℓ} :
    {A : Type ℓ} (xs ys : List A) (k : ℕ) → k < length xs → get_elem? (xs ++ ys) k ≡ get_elem? xs k
unfolding get_elem?
get_elem?-left [] ys k l = absurd (omega arith)
get_elem?-left (x ∷ xs) ys zero l = refl
get_elem?-left (x ∷ xs) ys (suc k) l = get_elem?-left xs ys k (omega arith)

get_elem?-right {ℓ} :
    {A : Type ℓ} (xs ys : List A) (k : ℕ) → get_elem? (xs ++ ys) (length xs + k) ≡ get_elem? ys k
unfolding get_elem?
get_elem?-right [] ys k = ap (get_elem? ys) (omega arith)
get_elem?-right (x ∷ xs) ys k =
    let e : length (x ∷ xs) + k ≡ suc (length xs + k) = omega arith in
    ap (get_elem? (x ∷ xs ++ ys)) e ∙ get_elem?-right xs ys k

plus_zero : (i : ℕ) → i ≡ i + 0
plus_zero i = omega arith

module _ (a : Image) where
  length-write_row : (n i j : ℕ) → length (write_row n i j a) ≡ n
  unfolding write_row
  length-write_row zero i j = refl
  length-write_row (suc n) i j = ap suc (length-write_row n i (j + 1))

  row_pixel : (n i j k : ℕ) → k < n → get_elem? (write_row n i j a) k ≡ some (a i (j + k) % 256)
  unfolding write_row get_elem?
  row_pixel zero i j k l = absurd (omega arith)
  row_pixel (suc n) i j zero l = ap (λ x. some (a i x % 256)) (omega arith)
  row_pixel (suc n) i j (suc k) l =
      row_pixel n i (j + 1) k (omega arith) ∙ ap (λ x. some (a i x % 256)) (omega arith)

  length-write_rows : (n i cols : ℕ) → length (write_rows n i cols a) ≡ n * cols
  unfolding write_rows
  length-write_rows zero i cols = omega arith
  length-write_rows (suc n) i cols =
      length-append (write_row cols i 0 a) (write_rows n (i + 1) cols a)
      ∙ omega (arith, length-write_row cols i 0, length-write_rows n (i + 1) cols)

  rows_pixel :
      (n i cols r c : ℕ)
      → r < n
      → c < cols
      → get_elem? (write_rows n i cols a) (r * cols + c) ≡ some (a (i + r) c % 256)
  unfolding write_rows
  rows_pixel zero i cols r c l l' = absurd (omega arith)
  rows_pixel (suc n) i cols zero c l l' =
      let row = write_row cols i 0 a in
      let rest = write_rows n (i + 1) cols a in
      ap (get_elem? (row ++ rest)) (omega arith)
      ∙ get_elem?-left row rest c (omega (arith, length-write_row cols i 0))
      ∙ row_pixel cols i 0 c l'
      ∙ ap (λ x. some (a i x % 256)) (omega arith)
      ∙ ap (λ x. some (a x c % 256)) (plus_zero i)
  rows_pixel (suc n) i cols (suc r) c l l' =
      let row = write_row cols i 0 a in
      let rest = write_rows n (i + 1) cols a in
      ap (get_elem? (row ++ rest)) (omega (arith, length-write_row cols i 0))
      ∙ get_elem?-right row rest (r * cols + c)
      ∙ rows_pixel n (i + 1) cols r c (omega arith) l'
      ∙ ap (λ x. some (a x c % 256)) (omega arith)

pub write_image-IsPgm :
    (rows cols white : ℕ) (image : Image)
    → IsPgm rows cols white image (write_image rows cols white image)
unfolding write_image
write_image-IsPgm rows cols white image = record {
  body = write_rows rows 0 cols image;
  header = refl;
  size = length-write_rows image rows 0 cols;
  pixels = λ i j p q.
      rows_pixel image rows 0 cols i j p q ∙ ap (λ x. some (image x j % 256)) (omega arith);
}
