-- ===== src/Tests/Trials.antt =====
-- A run of lab6/timemask.c on an image of one pixel, with two trials.
use cs_261_basics_of_compute.Prelude.{◌≡◌, true, some, [], ◌∷◌, refl, arith}
use cs_261_basics_of_compute.Prelude.Int.{ℤ, pos}
use cs_261_basics_of_compute.Prelude.Run.{ok}
use cs_261_basics_of_compute.Mask.Defs.{Image, put}
use cs_261_basics_of_compute.Mask.Kernel.{filtered}
use cs_261_basics_of_compute.Mask.Pgm.{
  File, loaded, read_image, read_header, with_number, read_pbm_number, number_of, take_word,
  skip_spaces, scan_int, scan_unsigned, signed, digits_from, after_header, read_pixels, read_rows,
  read_row, read_pixel, fgetc,
}
use cs_261_basics_of_compute.Mask.Main.{World, Ending, main}
use cs_261_basics_of_compute.Mask.Verdict.{printed_lines, IsSaved, main-save}

-- "P5 1 1 255", a newline, and a pixel of 9.
abbrev pgm : File
pgm = 80 ∷ 53 ∷ 32 ∷ 49 ∷ 32 ∷ 49 ∷ 32 ∷ 50 ∷ 53 ∷ 53 ∷ 10 ∷ 9 ∷ []

abbrev pixel : Image
pixel r c = put (λ _ _. 0) 0 0 9 r c

reads : read_image 1 (some pgm) (λ _ _. 0) ≡ ok (loaded 1 1 255 pixel)
unfolding read_image read_header with_number read_pbm_number number_of take_word skip_spaces
    scan_int scan_unsigned signed digits_from after_header read_pixels read_rows read_row read_pixel
    fgetc
reads = refl

abbrev world : World
world = record {
  rand = λ k. 77;
  now = λ k. record { tv_sec = pos k; tv_usec = pos 0 };
  timersub = λ a b. a;
}

main-save_example :
    (e : Ending) × (main world 1 4 (pos 2) (some pgm) true ≡ ok e)
    × (best average1 best' average2 total' total : ℤ) × IsSaved 4 true 1 1 255
        (filtered pixel 1 1)
        (printed_lines world 1 1 1 pixel best average1 best' average2 total' total)
        e
main-save_example =
    main-save world 1 4 (pos 2) (some pgm) true 1 1 255 1 pixel (omega arith) (omega arith) reads
      refl
