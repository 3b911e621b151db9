-- ===== src/User/Image.antt =====
-- `struct vpipe_pgm_image` of user/vpipe-common.h.
use vpipe.Base.{ℕ, Bytes}

-- `pixels` stands for the allocated bytes; those beyond `size` are not the image's.
pub record PgmImage : Type 0 where
  pub width : ℕ
  pub height : ℕ
  pub pixels : Bytes
  pub size : ℕ

-- `memset(image, 0, sizeof(*image))`: a null pointer has no bytes.
abbrev pub zeroed : PgmImage
zeroed = record { width = 0; height = 0; pixels = λ _. 0; size = 0 }
