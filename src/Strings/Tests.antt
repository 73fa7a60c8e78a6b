-- ===== src/Strings/Tests.antt =====
-- The theorems on strings at concrete inputs, and runs of the code.
use flashlight.Prelude.{◌≡◌, true, false, [], ◌∷◌, ok, ◌>>=◌, flat_map}
use flashlight.Strings.{Bytes, split, split_on_any_of, join, is_one_of}
use flashlight.Strings.Split.{join-split, split_on_any_of-Tokens, without, Tokens}

-- "a,,b,"
abbrev commas : Bytes
commas = 97 ∷ 44 ∷ 44 ∷ 98 ∷ 44 ∷ []

join-split_example :
    (split (44 ∷ 44 ∷ []) commas false >>= λ tokens. ok (join (44 ∷ 44 ∷ []) tokens)) ≡ ok commas
join-split_example = join-split 44 (44 ∷ []) commas

split_on_any_of-Tokens_example :
    (flat_map (λ t. t) (split_on_any_of (44 ∷ 98 ∷ []) commas true)
      ≡ without (is_one_of (44 ∷ 98 ∷ [])) commas)
    × Tokens (is_one_of (44 ∷ 98 ∷ [])) true (split_on_any_of (44 ∷ 98 ∷ []) commas true)
split_on_any_of-Tokens_example = split_on_any_of-Tokens (44 ∷ 98 ∷ []) commas true
