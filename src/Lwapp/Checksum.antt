-- ===== src/Lwapp/Checksum.antt =====
-- A receiver that adds up the data with their checksum behind them gets 0.
use actube.Base.{
  ℕ, ◌+◌, ◌*◌, ◌/◌, ◌%◌, ◌^◌, ◌≤◌, ◌<◌, ◌≡◌, refl, ap, ◌∙◌, arith, List, [], ◌∷◌, ◌++◌, length,
}
use actube.Value.Hex.{AreBytes}
use actube.Lwapp.{add_words, fold_sum, lw_checksum}

add_words-append :
    (sum hi lo : ℕ) (d : List ℕ)
    → length d % 2 ≡ 0
    → add_words sum (d ++ hi ∷ lo ∷ []) ≡ add_words sum d + (hi * 2 ^ 8 + lo)
unfolding add_words
add_words-append sum hi lo [] even = refl
add_words-append sum hi lo (a ∷ []) even = absurd (omega (arith, even))
add_words-append sum hi lo (a ∷ b ∷ d) even =
    add_words-append (sum + (a * 2 ^ 8 + b)) hi lo d (omega (arith, even))

add_words-le :
    (sum : ℕ) (d : List ℕ) → AreBytes d → add_words sum d ≤ sum + 65535 * ((length d + 1) / 2)
unfolding add_words
add_words-le sum [] bytes = omega arith
add_words-le sum (a ∷ []) bytes = omega (arith, bytes.0)
add_words-le sum (a ∷ b ∷ d) bytes =
    omega (arith, bytes.0, bytes.1.0, add_words-le (sum + (a * 2 ^ 8 + b)) d bytes.1.1)

fold_sum-le : (sum : ℕ) → fold_sum sum ≤ 65535
unfolding fold_sum
fold_sum-le sum = omega arith

fold_sum_zero : (sum : ℕ) → sum < 2 ^ 31 → fold_sum (sum + fold_sum sum) ≡ 0
unfolding fold_sum
fold_sum_zero sum h = omega (arith, h)

-- The checksum of the data with their checksum behind them, high byte first, is 0; if the data are of
-- an even number of bytes, fewer than 2^16.
pub lw_checksum_verified :
    (d : List ℕ)
    → AreBytes d
    → length d % 2 ≡ 0
    → length d < 2 ^ 16
    → lw_checksum (d ++ (lw_checksum d / 2 ^ 8) ∷ (lw_checksum d % 2 ^ 8) ∷ []) ≡ 0
unfolding lw_checksum
lw_checksum_verified d bytes even short =
    let c = fold_sum (add_words 0 d) in
    ap fold_sum (add_words-append 0 (c / 2 ^ 8) (c % 2 ^ 8) d even)
    ∙ ap (λ (k : ℕ). fold_sum (add_words 0 d + k)) (omega (arith, fold_sum-le (add_words 0 d)))
    ∙ fold_sum_zero (add_words 0 d) (omega (arith, short, add_words-le 0 d bytes))
