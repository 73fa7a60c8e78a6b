-- ===== src/Dataset/Tests/Images.antt =====
-- A concrete interface of arrays: a number, or a grid of four extents, which keeps what was assigned to
-- each slice of each dimension.
use flashlight.Prelude.{
  ℕ, zero, suc, ◌*◌, ◌≤◌, ◌<◌, ◌≡◌, refl, ap, ◌∙◌, List, [], ◌∷◌, ◌&&◌, ◌==◌, length, get_or, arith,
  if◌then◌else◌,
}
use native.Mathlib.Nat.{mul-zero, mul-one, zero-mul, suc-mul}
use flashlight.Dataset.Batching.{Arrays}

pub data Image : Type 0 where
  number : ℕ → Image
  grid : ℕ → ℕ → ℕ → ℕ → (ℕ → ℕ → Image) → Image

abbrev image_dims : Image → List ℕ
image_dims (number _) = 1 ∷ 1 ∷ 1 ∷ 1 ∷ []
image_dims (grid a b c d _) = a ∷ b ∷ c ∷ d ∷ []

abbrev image_elements : Image → ℕ
image_elements (number _) = 1
image_elements (grid a b c d _) = a * (b * (c * d))

abbrev rank : List ℕ → ℕ
rank (a ∷ b ∷ c ∷ d ∷ extents) =
    if d == 1 then (if c == 1 then (if b == 1 then 1 else 2) else 3) else 4
rank _ = 4

abbrev blank_image : List ℕ → Image
blank_image (a ∷ b ∷ c ∷ d ∷ []) = grid a b c d (λ _ _. number 0)
blank_image _ = number 0

abbrev write_image : Image → ℕ → ℕ → Image → Image
write_image (number x) n i image =
    grid 1 1 1 1 (λ m j. if m == n && i == j then image else number x)
write_image (grid a b c d f) n i image =
    grid a b c d (λ m j. if m == n && i == j then image else f m j)

abbrev pub read_image : Image → ℕ → ℕ → Image
read_image (number x) n i = number x
read_image (grid a b c d f) n i = f n i

pub read-write_image :
    (whole : Image) (n i j : ℕ) (image : Image)
    → read_image (write_image whole n i image) n j
      ≡ (if i == j then image else read_image whole n j)
read-write_image (number x) n i j image = ground arith
read-write_image (grid a b c d f) n i j image = ground arith

pub dims-write_image :
    (whole : Image) (n i : ℕ) (image : Image)
    → image_dims (write_image whole n i image) ≡ image_dims whole
dims-write_image (number x) n i image = refl
dims-write_image (grid a b c d f) n i image = refl

pub length-image_dims : (image : Image) → length (image_dims image) ≡ 4
length-image_dims (number x) = refl
length-image_dims (grid a b c d f) = refl

pub dims-blank_image :
    (extents : List ℕ) → length extents ≡ 4 → image_dims (blank_image extents) ≡ extents
dims-blank_image [] h = absurd (omega (arith, h))
dims-blank_image (a ∷ []) h = absurd (omega (arith, h))
dims-blank_image (a ∷ b ∷ []) h = absurd (omega (arith, h))
dims-blank_image (a ∷ b ∷ c ∷ []) h = absurd (omega (arith, h))
dims-blank_image (a ∷ b ∷ c ∷ d ∷ []) h = refl
dims-blank_image (a ∷ b ∷ c ∷ d ∷ e ∷ extents) h = absurd (omega (arith, h))

abbrev ones : List ℕ
ones = 1 ∷ 1 ∷ 1 ∷ 1 ∷ []

all_ones : (k : ℕ) → k < 4 → get_or ones k 0 ≡ 1
all_ones zero small = refl
all_ones (suc zero) small = refl
all_ones (suc (suc zero)) small = refl
all_ones (suc (suc (suc zero))) small = refl
all_ones (suc (suc (suc (suc k)))) small = absurd (omega arith)

pub dims-rank :
    (image : Image) (k : ℕ)
    → rank (image_dims image) ≤ k
    → k < 4
    → get_or (image_dims image) k 0 ≡ 1
dims-rank (number x) k h small = all_ones k small
dims-rank (grid a b c d f) zero h small = ground arith
dims-rank (grid a b c d f) (suc zero) h small = ground arith
dims-rank (grid a b c d f) (suc (suc zero)) h small = ground arith
dims-rank (grid a b c d f) (suc (suc (suc zero))) h small = ground arith
dims-rank (grid a b c d f) (suc (suc (suc (suc k)))) h small = absurd (omega arith)

factors_of_one : (x y : ℕ) → x * y ≡ 1 → (x ≡ 1) × (y ≡ 1)
factors_of_one zero y e = absurd (omega (arith, e, zero-mul y))
factors_of_one (suc x) zero e = absurd (omega (arith, e, mul-zero (suc x)))
factors_of_one (suc x) (suc zero) e = (omega (arith, e, mul-one (suc x)), refl)
factors_of_one (suc x) (suc (suc y)) e = absurd (omega (arith, e, suc-mul x (suc (suc y))))

pub dims-single_image :
    (image : Image) (k : ℕ) → image_elements image ≡ 1 → k < 4 → get_or (image_dims image) k 0 ≡ 1
dims-single_image (number x) k e small = all_ones k small
dims-single_image (grid a b c d f) k e small =
    let (one_a, rest) = factors_of_one a (b * (c * d)) e in
    let (one_b, rest') = factors_of_one b (c * d) rest in
    let (one_c, one_d) = factors_of_one c d rest' in
    let e : image_dims (grid a b c d f) ≡ ones = rw (one_a, one_b, one_c, one_d) refl in
    ap (λ extents. get_or extents k 0) e ∙ all_ones k small

abbrev pub images : Arrays Image
images = record {
  dims = image_dims;
  dtype = λ _. 0;
  ndims = rank;
  elements = image_elements;
  empty = number 0;
  blank = λ extents _. blank_image extents;
  write_slice = write_image;
  slice = read_image;
  length-dims = length-image_dims;
  dims-beyond = λ image k _ h small. dims-rank image k h small;
  dims-single = dims-single_image;
  dims-blank = λ extents _ h. dims-blank_image extents h;
  dtype-blank = λ _ _ _. refl;
  dims-write_slice = λ whole n i image _ _ _. dims-write_image whole n i image;
  dtype-write_slice = λ _ _ _ _ _ _ _. refl;
  slice-write_slice = λ whole n i j image _ _ _ _. read-write_image whole n i j image;
}
