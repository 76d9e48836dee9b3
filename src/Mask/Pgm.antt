-- ===== src/Mask/Pgm.antt =====
-- Reading and writing an image as a file in lab6/timemask.c. A file is the list of the bytes that are left
-- in it. Of `fscanf`, `sscanf` and `fgetc` the behaviour on these formats is written out; a loop that
-- waits for a newline that never comes gives `out_of_fuel`.
use cs_261_basics_of_compute.Prelude.{
  ℕ, zero, suc, ◌+◌, ◌-◌, ◌*◌, ◌/◌, ◌%◌, ◌^◌, Bool, true, false, ◌&&◌, ◌||◌, not, Option, none,
  some, List, [], ◌∷◌, ◌++◌, ltb, leb, ◌==◌, if◌then◌else◌,
}
use cs_261_basics_of_compute.Prelude.Int.{ℤ, pos, negsuc}
use cs_261_basics_of_compute.Prelude.Run.{Run, ok, undefined, out_of_fuel, ◌>>=◌}
use cs_261_basics_of_compute.Mask.Defs.{Image, put}

abbrev pub File : Type 0
File = List ℕ

-- `isspace`
abbrev pub is_space : ℕ → Bool
is_space c = (c == 32) || (leb 9 c && leb c 13)

abbrev pub is_digit : ℕ → Bool
is_digit c = leb 48 c && leb c 57

unfoldable pub skip_spaces : File → File
skip_spaces [] = []
skip_spaces (c ∷ cs) = let rest = skip_spaces cs in if is_space c then rest else c ∷ cs

-- At most `n` bytes up to a space, and what is left.
unfoldable pub take_word : (n : ℕ) → File → List ℕ × File
take_word zero cs = ([], cs)
take_word (suc n) [] = ([], [])
take_word (suc n) (c ∷ cs) =
    let (word, rest) = take_word n cs in if is_space c then ([], c ∷ cs) else (c ∷ word, rest)

-- `while (fgetc(file) != '\n');`
unfoldable pub skip_line : File → Run File
skip_line [] = out_of_fuel
skip_line (c ∷ cs) = let rest = skip_line cs in if c == 10 then ok cs else rest

unfoldable pub digits_from : (acc : ℕ) → List ℕ → ℕ
digits_from acc [] = acc
digits_from acc (c ∷ cs) =
    let rest = digits_from (acc * 10 + (c - 48)) cs in if is_digit c then rest else acc

-- `sscanf(str, "%d", &val)` on a word that is not empty: -1 stands for no match, as it does for the caller.
unfoldable pub scan_unsigned : List ℕ → Option ℕ
scan_unsigned [] = none
scan_unsigned (c ∷ cs) = if is_digit c then some (digits_from 0 (c ∷ cs)) else none

unfoldable pub signed : (minus : Bool) → Option ℕ → ℤ
signed minus none = negsuc 0
signed false (some n) = pos n
signed true (some zero) = pos 0
signed true (some (suc n)) = negsuc n

unfoldable pub scan_int : List ℕ → ℤ
scan_int [] = negsuc 0
scan_int (c ∷ cs) =
    if c == 45
    then signed true (scan_unsigned cs)
    else if c == 43
    then signed false (scan_unsigned cs)
    else signed false (scan_unsigned (c ∷ cs))

-- `readPBMNumber`; at the end of the file `fscanf` returns -1, which the test lets through, and for a word
-- that begins with a NUL `sscanf` does, so `val` is returned without a value.
unfoldable pub number_of : (next : File → Run (ℤ × File)) → List ℕ × File → Run (ℤ × File)
number_of next ([], rest) = undefined
number_of next (c ∷ word, rest) =
    if c == 35
    then skip_line rest >>= next
    else if c == 0
    then undefined
    else ok (scan_int (c ∷ word), rest)

unfoldable pub read_pbm_number : (fuel : ℕ) → File → Run (ℤ × File)
read_pbm_number zero file = out_of_fuel
read_pbm_number (suc fuel) file = number_of (read_pbm_number fuel) (take_word 9 (skip_spaces file))

-- `fgetc` as the `long` that is stored, -1 at the end of the file.
unfoldable pub fgetc : File → ℕ × File
fgetc [] = (2 ^ 64 - 1, [])
fgetc (c ∷ cs) = (c, cs)

-- `fgetc(file) << 8 | fgetc(file)`, with the first byte read as the high one.
unfoldable pub two_bytes : File → Run (ℕ × File)
two_bytes [] = undefined
two_bytes (c ∷ []) = ok (2 ^ 64 - 1, [])
two_bytes (c ∷ d ∷ cs) = ok (c * 256 + d, cs)

unfoldable pub read_pixel : (white : ℕ) → File → Run (ℕ × File)
read_pixel white file = if ltb white 256 then ok (fgetc file) else two_bytes file

unfoldable pub read_row : (n i j white : ℕ) → Image → File → Run (Image × File)
read_row zero i j white a file = ok (a, file)
read_row (suc n) i j white a file = do
  (v, rest) ← read_pixel white file
  read_row n i (j + 1) white (put a i j v) rest

unfoldable pub read_rows : (n i cols white : ℕ) → Image → File → Run Image
read_rows zero i cols white a file = ok a
read_rows (suc n) i cols white a file = do
  (a', rest) ← read_row cols i 0 white a file
  read_rows n (i + 1) cols white a' rest

abbrev pub max_dimension : ℕ
max_dimension = 2048

-- What `readImage` returns: a code for what is wrong, or 0 with the image in place.
pub data Reading : Type 0 where
  refused : (code : ℕ) → Reading
  loaded : (rows cols white : ℕ) → Image → Reading

-- A number of the header, which must not be negative.
unfoldable pub with_number : Run (ℤ × File) → (ℕ → File → Run Reading) → Run Reading
with_number undefined f = undefined
with_number out_of_fuel f = out_of_fuel
with_number (ok (pos n, file)) f = f n file
with_number (ok (negsuc n, file)) f = ok (refused 3)

unfoldable pub read_pixels : (cols rows white : ℕ) → Image → File → Run Reading
read_pixels cols rows white a file =
    if ltb max_dimension cols || ltb max_dimension rows
    then ok (refused 4)
    else (read_rows rows 0 cols white a file >>= λ a'. ok (loaded rows cols white a'))

unfoldable pub after_header : (cols rows white : ℕ) → Image → File → Run Reading
after_header cols rows white a [] = ok (refused 3)
after_header cols rows white a (c ∷ file) =
    if leb 65536 white || not (is_space c)
    then ok (refused 3)
    else read_pixels cols rows white a file

unfoldable pub read_header : (fuel : ℕ) → Image → File → Run Reading
read_header fuel a file = with_number (read_pbm_number fuel file) (λ cols file1.
    with_number (read_pbm_number fuel file1) (λ rows file2.
      with_number (read_pbm_number fuel file2)
        (λ white file3. after_header cols rows white a file3)))

unfoldable pub read_image : (fuel : ℕ) → Option File → Image → Run Reading
read_image fuel none a = ok (refused 1)
read_image fuel (some (c ∷ d ∷ file)) a =
    if (c == 80) && (d == 53) then read_header fuel a file else ok (refused 2)
read_image fuel (some _) a = ok (refused 2)

-- `%d` of a number of at most ten digits.
unfoldable pub decimal_onto : (fuel n : ℕ) → List ℕ → List ℕ
decimal_onto zero n acc = acc
decimal_onto (suc k) n acc =
    let rest = decimal_onto k (n / 10) ((48 + n % 10) ∷ acc) in
    if ltb n 10 then (48 + n) ∷ acc else rest

unfoldable pub decimal : ℕ → List ℕ
decimal n = decimal_onto 10 n []

-- The rows of pixels that `main` writes with `fputc`.
unfoldable pub write_row : (n i j : ℕ) → Image → File
write_row zero i j a = []
write_row (suc n) i j a = (a i j % 256) ∷ write_row n i (j + 1) a

unfoldable pub write_rows : (n i cols : ℕ) → Image → File
write_rows zero i cols a = []
write_rows (suc n) i cols a = write_row cols i 0 a ++ write_rows n (i + 1) cols a

-- `fprintf(file, "P5 %d %d %d\n", cols, rows, white)`, and the pixels.
unfoldable pub write_image : (rows cols white : ℕ) → Image → File
write_image rows cols white a =
    80
    ∷ 53
    ∷ 32
    ∷ (decimal cols ++ 32 ∷ (decimal rows ++ 32 ∷ (decimal white ++ 10 ∷ write_rows rows 0 cols a)))
