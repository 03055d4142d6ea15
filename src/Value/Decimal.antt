-- ===== src/Value/Decimal.antt =====
-- `sprintf` with "%d" and `atoi`, as src/cw/cfg.c and the value types use them.
use actube.Base.{
  ℕ, zero, suc, ◌+◌, ◌*◌, ◌/◌, ◌%◌, ◌-◌, ◌<◌, ◌≡◌, refl, sym, ap, ◌∙◌, arith, Bool, true, false,
  List, [], ◌∷◌, ◌==◌, ◌&&◌, ltb, leb, if◌then◌else◌, ℤ, pos, negsuc, sub_ℕ, lt→ltb, le→ltb,
}
use native.Mathlib.Decide.{dec_lt}
use actube.Cfg.{is_space}

-- The digits of `n` in front of `acc`; there is fuel for all if it is more than `n`.
unfoldable pub print_from : ℕ → ℕ → List ℕ → List ℕ
print_from zero n acc = acc
print_from (suc fuel) n acc =
    let more = print_from fuel (n / 10) ((n % 10 + b'0') ∷ acc) in
    if ltb n 10 then (n + b'0') ∷ acc else more

unfoldable pub print_nat : ℕ → List ℕ
unfolding print_from
print_nat n = print_from (n + 1) n []

unfoldable pub print_int : ℤ → List ℕ
unfolding print_nat
print_int (pos n) = print_nat n
print_int (negsuc n) = b'-' ∷ print_nat (n + 1)

abbrev pub is_digit : ℕ → Bool
is_digit c = leb b'0' c && leb c b'9'

unfoldable pub read_digits : ℕ → List ℕ → ℕ
read_digits acc [] = acc
read_digits acc (c ∷ cs) =
    let more = read_digits (acc * 10 + (c - b'0')) cs in if is_digit c then more else acc

-- A number too large for an int is left out of the model.
unfoldable pub atoi : List ℕ → ℤ
unfolding read_digits
atoi [] = pos 0
atoi (c ∷ cs) =
    let rest = atoi cs in
    if is_space c
    then rest
    else if c == b'-'
    then sub_ℕ 0 (read_digits 0 cs)
    else if c == b'+'
    then pos (read_digits 0 cs)
    else pos (read_digits 0 (c ∷ cs))

digit_facts : (d : ℕ) → d < 10 → is_digit (d + b'0') ≡ true
digit_facts d h = ground arith

no_sign :
    (d : ℕ)
    → d < 10
    → (is_space (d + b'0') ≡ false) × ((d + b'0' == b'-') ≡ false) × ((d + b'0' == b'+') ≡ false)
no_sign d h = ground arith

read_digits-digit :
    (acc d : ℕ) (cs : List ℕ)
    → d < 10
    → read_digits acc ((d + b'0') ∷ cs) ≡ read_digits (acc * 10 + d) cs
unfolding read_digits
read_digits-digit acc d cs h =
    rw (digit_facts d h) (ap (λ (m : ℕ). read_digits (acc * 10 + m) cs) (omega arith))

read_digits-print_from :
    (fuel n : ℕ) (acc : List ℕ)
    → n < fuel
    → read_digits 0 (print_from fuel n acc) ≡ read_digits n acc
unfolding print_from
read_digits-print_from zero n acc h = absurd (omega arith)
read_digits-print_from (suc fuel) n acc h = elim (dec_lt n 10) [
  | yes small ↦
      rw (lt→ltb n 10 small)
        (read_digits-digit 0 n acc small ∙ ap (λ (m : ℕ). read_digits m acc) (omega arith))
  | no large ↦ rw (le→ltb n 10 (omega arith)) (
      read_digits-print_from fuel (n / 10) ((n % 10 + b'0') ∷ acc) (omega arith)
      ∙ read_digits-digit (n / 10) (n % 10) acc (omega arith)
      ∙ ap (λ (m : ℕ). read_digits m acc) (omega arith))
]

read_digits-print_nat : (n : ℕ) → read_digits 0 (print_nat n) ≡ n
unfolding print_nat read_digits
read_digits-print_nat n = read_digits-print_from (n + 1) n [] (omega arith)

-- The first character of a number is a digit.
print_from-first :
    (fuel n : ℕ) (acc : List ℕ)
    → n < fuel
    → (d : ℕ) × (cs : List ℕ) × (d < 10) × (print_from fuel n acc ≡ (d + b'0') ∷ cs)
unfolding print_from
print_from-first zero n acc h = absurd (omega arith)
print_from-first (suc fuel) n acc h = elim (dec_lt n 10) [
  | yes small ↦ (n, acc, small, rw (lt→ltb n 10 small) refl)
  | no large ↦
      let (d, cs, ok, e) = print_from-first fuel (n / 10) ((n % 10 + b'0') ∷ acc) (omega arith) in
      (d, cs, ok, rw (le→ltb n 10 (omega arith)) e)
]

atoi-digit :
    (d : ℕ) (cs : List ℕ) → d < 10 → atoi ((d + b'0') ∷ cs) ≡ pos (read_digits 0 ((d + b'0') ∷ cs))
unfolding atoi
atoi-digit d cs h = let (space, minus, plus) = no_sign d h in rw (space, minus, plus) refl

atoi-print_nat : (n : ℕ) → atoi (print_nat n) ≡ pos n
unfolding print_nat
atoi-print_nat n =
    let (d, cs, ok, e) = print_from-first (n + 1) n [] (omega arith) in
    ap atoi e
    ∙ atoi-digit d cs ok
    ∙ ap (λ (s : List ℕ). pos (read_digits 0 s)) (sym e)
    ∙ ap pos (read_digits-print_nat n)

pub atoi-print_int : (z : ℤ) → atoi (print_int z) ≡ z
unfolding print_int atoi
atoi-print_int (pos n) = atoi-print_nat n
atoi-print_int (negsuc n) = ap (sub_ℕ 0) (read_digits-print_nat (n + 1)) ∙ ground arith
