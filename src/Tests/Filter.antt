-- ===== src/Tests/Filter.antt =====
-- Examples for the image filters.
use cs_261_basics_of_compute.Prelude.{◌+◌, ◌*◌, ◌≡◌}
use cs_261_basics_of_compute.Mask.Defs.{Image, base_mask, mask}
use cs_261_basics_of_compute.Mask.Agree.{IsFiltered, base_mask-IsFiltered}
use cs_261_basics_of_compute.Mask.Equal.{mask-base_mask}

abbrev picture : Image
picture r c = 5 * r + c

abbrev blank : Image
blank r c = 0

base_mask-IsFiltered_example : IsFiltered picture blank 2 3 (base_mask picture blank 2 3)
base_mask-IsFiltered_example = base_mask-IsFiltered picture blank 2 3

mask-base_mask_example : mask picture blank 2 3 ≡ base_mask picture blank 2 3
mask-base_mask_example = mask-base_mask picture blank 2 3
