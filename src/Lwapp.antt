-- ===== src/Lwapp.antt =====
-- The checksum of src/cw/lw_checksum.c, over the list of the bytes. No sum is too large for an int32_t if
-- the data are shorter than 2^16 bytes; a longer sum is left out of the model.
pub mod Checksum
use actube.Base.{ℕ, ◌+◌, ◌*◌, ◌/◌, ◌%◌, ◌-◌, ◌^◌, List, [], ◌∷◌}

-- The loop over the words, and a byte that is left over.
unfoldable pub add_words : ℕ → List ℕ → ℕ
add_words sum [] = sum
add_words sum (a ∷ []) = sum + a * 2 ^ 8
add_words sum (a ∷ b ∷ d) = add_words (sum + (a * 2 ^ 8 + b)) d

-- The carries are added, and the complement is taken.
unfoldable pub fold_sum : ℕ → ℕ
fold_sum sum =
    let folded = sum / 2 ^ 16 + sum % 2 ^ 16 in 0xffff - (folded + folded / 2 ^ 16) % 2 ^ 16

unfoldable pub lw_checksum : List ℕ → ℕ
unfolding add_words fold_sum
lw_checksum d = fold_sum (add_words 0 d)
