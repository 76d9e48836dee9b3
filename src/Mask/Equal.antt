-- ===== src/Mask/Equal.antt =====
-- The three filters are one function.
use cs_261_basics_of_compute.Prelude.{ℕ, ◌≡◌, ◌∙◌, sym, fun_ext}
use cs_261_basics_of_compute.Mask.Defs.{Image, Result, base_mask, mask1, mask}
use cs_261_basics_of_compute.Mask.Agree.{IsFiltered, base_mask-IsFiltered, mask1-IsFiltered}
use cs_261_basics_of_compute.Mask.Single.{mask2-IsFiltered}

Result-path : (a b : Result) → a.image ≡ b.image → a.check ≡ b.check → a ≡ b
Result-path a b p q i = record { image = p i; check = q i }

module _ (old new : Image) (rows cols : ℕ) where
  IsFiltered-unique :
      (a b : Result) → IsFiltered old new rows cols a → IsFiltered old new rows cols b → a ≡ b
  IsFiltered-unique a b h k =
      Result-path a b (fun_ext (λ r. fun_ext (λ c. h.image r c ∙ sym (k.image r c))))
        (h.check ∙ sym k.check)

  -- The filter that is built, `mask2`, gives the image and the checksum of the reference filter, for
  -- every size of image and every pixel value.
  pub mask-base_mask : mask old new rows cols ≡ base_mask old new rows cols
  unfolding mask
  mask-base_mask =
      IsFiltered-unique _ _ (mask2-IsFiltered old rows cols new)
        (base_mask-IsFiltered old new rows cols)

  -- The row-wise filter gives the image and the checksum of the reference filter, whatever the fresh
  -- array of weights holds.
  pub mask1-base_mask :
      (malloc_weight : Image) → mask1 old new malloc_weight rows cols ≡ base_mask old new rows cols
  mask1-base_mask malloc_weight =
      IsFiltered-unique _ _ (mask1-IsFiltered old new rows cols malloc_weight)
        (base_mask-IsFiltered old new rows cols)
