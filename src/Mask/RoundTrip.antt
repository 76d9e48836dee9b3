-- ===== src/Mask/RoundTrip.antt =====
-- An image that `main` of lab6/timemask.c writes is read back by `readImage`.
use cs_261_basics_of_compute.Prelude.{
  ℕ, zero, suc, ◌+◌, ◌%◌, ◌≤◌, ◌<◌, ◌≡◌, refl, true, false, ◌&&◌, ◌||◌, ◌∷◌, ◌++◌, ltb, leb, ◌==◌,
  if◌then◌else◌, arith, some, ◌∙◌, Bool-cases, inl, inr,
}
use cs_261_basics_of_compute.Prelude.Run.{ok}
use cs_261_basics_of_compute.Mask.Defs.{Image, put}
use cs_261_basics_of_compute.Mask.Pgm.{
  File, fgetc, read_pixel, read_row, read_rows, max_dimension, loaded, with_number, read_pixels,
  after_header, read_header, read_image, decimal, write_row, write_rows, write_image,
}
use cs_261_basics_of_compute.Mask.Printed.{read_pbm_number-decimal}

module _ (white : ℕ) (byte : white < 256) (image : Image) where
  -- One more pixel in front of those that have been read.
  widened :
      (n i j r c : ℕ) (a : Image)
      → (if (r == i) && (leb (j + 1) c && ltb c (j + 1 + n))
          then image r c % 256
          else put a i j (image i j % 256) r c)
        ≡ (if (r == i) && (leb j c && ltb c (j + suc n)) then image r c % 256 else a r c)
  unfolding put
  widened n i j r c a = elim (Bool-cases ((r == i) && (c == j))) [
    | inl hit ↦
        let row : r ≡ i = ground arith in
        let col : c ≡ j = ground arith in
        let here : (leb j j && ltb j (j + suc n)) ≡ true = ground arith in
        let past : leb (j + 1) j ≡ false = ground arith in
        let self : (i == i) ≡ true = ground arith in
        let self' : (j == j) ≡ true = ground arith in rw (row, col, here, past, self, self') refl
    | inr miss ↦ ground (arith, miss)
  ]

  row-write_row :
      (n i j : ℕ) (a : Image) (rest : File)
      → (a' : Image) × (read_row n i j white a (write_row n i j image ++ rest) ≡ ok (a', rest))
        × ((r c : ℕ)
            → a' r c ≡ (if (r == i) && (leb j c && ltb c (j + n)) then image r c % 256 else a r c))
  unfolding read_row write_row read_pixel fgetc put
  row-write_row zero i j a rest = (a, refl, λ r c. ground arith)
  row-write_row (suc n) i j a rest =
      let one : ltb white 256 ≡ true = ground arith in
      let (a', run, cells) = row-write_row n i (j + 1) (put a i j (image i j % 256)) rest in
      (a', rw one run, λ r c. cells r c ∙ widened n i j r c a)

  rows-write_rows :
      (n i cols : ℕ) (a : Image)
      → (a' : Image) × (read_rows n i cols white a (write_rows n i cols image) ≡ ok a')
        × ((r c : ℕ)
            → a' r c
              ≡ (if (leb i r && ltb r (i + n)) && ltb c cols then image r c % 256 else a r c))
  unfolding read_rows write_rows
  rows-write_rows zero i cols a = (a, refl, λ r c. ground arith)
  rows-write_rows (suc n) i cols a =
      let (a1, run1, cells1) = row-write_row cols i 0 a (write_rows n (i + 1) cols image) in
      let (a', run, cells) = rows-write_rows n (i + 1) cols a1 in
      (a', rw run1 run, λ r c. ground (arith, cells r c, cells1 r c))

  -- An image of at most 2048 rows and columns, with a white of at most 255, is read back as it was
  -- written: each pixel is the low byte of the one that was written, and no other cell changes.
  pub read_image-write_image :
      (fuel rows cols : ℕ) (a : Image)
      → rows ≤ 2048
      → cols ≤ 2048
      → (a' : Image) × (read_image (suc fuel) (some (write_image rows cols white image)) a
          ≡ ok (loaded rows cols white a'))
        × ((r c : ℕ) → a' r c ≡ (if ltb r rows && ltb c cols then image r c % 256 else a r c))
  unfolding read_image write_image read_header with_number after_header read_pixels
  read_image-write_image fuel rows cols a tall broad =
      let (a', run, cells) = rows-write_rows rows 0 cols a in
      let pixels = write_rows rows 0 cols image in
      let file2 : File = 32 ∷ (decimal white ++ 10 ∷ pixels) in
      let first =
        (read_pbm_number-decimal fuel cols 32 (decimal rows ++ file2) (omega arith) refl).1 in
      let second =
        (read_pbm_number-decimal fuel rows 32 (decimal white ++ 10 ∷ pixels) (omega arith)
          refl).1 in
      let third = (read_pbm_number-decimal fuel white 10 pixels (omega arith) refl).1 in
      let plain : leb 65536 white ≡ false = ground arith in
      let fits : (ltb max_dimension cols || ltb max_dimension rows) ≡ false = ground arith in
      (a', rw (first, second, third, plain, fits, run) refl, λ r c. ground (arith, cells r c))
