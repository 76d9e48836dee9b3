-- ===== src/Tests/Images.antt =====
-- An image of one row and two columns, written and read back.
use cs_261_basics_of_compute.Prelude.{ℕ, ◌+◌, ◌*◌, ◌%◌, ◌≡◌, ◌&&◌, some, ltb, if◌then◌else◌, arith}
use cs_261_basics_of_compute.Prelude.Run.{ok}
use cs_261_basics_of_compute.Mask.Defs.{Image}
use cs_261_basics_of_compute.Mask.Pgm.{loaded, read_image, write_image}
use cs_261_basics_of_compute.Mask.RoundTrip.{read_image-write_image}

abbrev picture : Image
picture r c = 300 * r + 70 + c

abbrev blank : Image
blank r c = 0

read_image-write_image_example :
    (a' : Image) × (read_image 1 (some (write_image 1 2 255 picture)) blank
      ≡ ok (loaded 1 2 255 a'))
    × ((r c : ℕ) → a' r c ≡ (if ltb r 1 && ltb c 2 then picture r c % 256 else 0))
read_image-write_image_example =
    read_image-write_image 255 (omega arith) picture 0 1 2 blank (omega arith) (omega arith)
