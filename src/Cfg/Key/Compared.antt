-- ===== src/Cfg/Key/Compared.antt =====
-- The comparison of two keys comes to an end, and a key compares equal to itself.
use actube.Base.{
  ◌^◌, ℕ, zero, suc, ◌+◌, ◌≤◌, ◌<◌, ◌≡◌, refl, ap, arith, inl, inr, Bool, true, false, not, Option,
  none, some, List, [], ◌∷◌, ◌==◌, ==_iff, ◌&&◌, ℤ, pos, length, Bool-cases,
}
use actube.Value.Decimal.{atoi}
use actube.Value.Number.{to_int, to_unsigned}
use actube.Value.Byte.{str_eq, str_eq_self}
use actube.Cfg.Key.{
  strcmp, split_dot, starts_with_digit, nextc, sub_ℤ, as_int, int_diff, is_zero, cmp_behind,
  cmp_split, cmp0, same_text,
}

abbrev pub Shorter : ℕ → Option (List ℕ × List ℕ) → Type 0
Shorter n none = Unit
Shorter n (some (before, after)) = length after < n

pub split_dot-Shorter : (s : List ℕ) → Shorter (length s) (split_dot s)
unfolding split_dot
split_dot-Shorter [] = tt
split_dot-Shorter (c ∷ cs) = elim (Bool-cases (c == b'.')) [
  | inl here ↦ rw here (omega arith)
  | inr later ↦ rw later (longer (split_dot cs) (split_dot-Shorter cs))
]
  where
    longer :
        (o : Option (List ℕ × List ℕ))
        → Shorter (length cs) o
        → Shorter (suc (length cs)) (elim o as (λ x. Option (List ℕ × List ℕ)) [
          | none ↦ none
          | some (before, after) ↦ some (c ∷ before, after)
        ])
    longer none h = tt
    longer (some (before, after)) h = omega (arith, h)

pub nextc-le : (s : List ℕ) → length (nextc s) ≤ length s
unfolding nextc
nextc-le [] = omega arith
nextc-le (c ∷ cs) = ground (arith, nextc-le cs)

abbrev Ends : Option ℤ → Type 0
Ends o = (z : ℤ) × (o ≡ some z)

module _ (again : List ℕ → List ℕ → Option ℤ) (n : ℕ)
    (next : (r1 r2 : List ℕ) → length r1 < n → Ends (again r1 r2)) where
  cmp_behind-Ends : (r1 r2 : List ℕ) → length r1 < n → Ends (cmp_behind again r1 r2)
  unfolding cmp_behind
  cmp_behind-Ends r1 r2 lt =
      elim (Bool-cases (not (starts_with_digit r1 && starts_with_digit r2))) [
        | inl text ↦ rw text (next r1 r2 lt)
        | inr numbers ↦
            elim (Bool-cases (is_zero (int_diff (as_int (atoi r1)) (as_int (atoi r2))))) [
              | inl same ↦
                  rw (numbers, same) (next (nextc r1) (nextc r2) (omega (arith, nextc-le r1, lt)))
              | inr differ ↦ rw (numbers, differ) (_, refl)
            ]
      ]

  cmp_split-Ends :
      (s1 s2 : List ℕ) (d1 d2 : Option (List ℕ × List ℕ))
      → Shorter n d1
      → Ends (cmp_split again s1 s2 d1 d2)
  unfolding cmp_split
  cmp_split-Ends s1 s2 none d2 h = (_, refl)
  cmp_split-Ends s1 s2 (some d1) none h = (_, refl)
  cmp_split-Ends s1 s2 (some (p1, r1)) (some (p2, r2)) h =
      elim (Bool-cases (not (length p1 == length p2))) [
        | inl apart ↦ rw apart (_, refl)
        | inr together ↦ elim (Bool-cases (not (str_eq p1 p2))) [
          | inl differ ↦ rw (together, differ) (_, refl)
          | inr same ↦ rw (together, same) (cmp_behind-Ends r1 r2 h)
        ]
      ]

cmp0_total : (fuel : ℕ) (s1 s2 : List ℕ) → length s1 < fuel → Ends (cmp0 fuel s1 s2)
unfolding cmp0
cmp0_total zero s1 s2 lt = absurd (omega arith)
cmp0_total (suc fuel) s1 s2 lt =
    cmp_split-Ends (cmp0 fuel) (length s1)
      (λ r1 r2 less. cmp0_total fuel r1 r2 (omega (arith, less, lt))) s1 s2 (split_dot s1)
      (split_dot s2) (split_dot-Shorter s1)

pub strcmp_self : (s : List ℕ) → strcmp s s ≡ pos 0
unfolding strcmp
strcmp_self [] = refl
strcmp_self (c ∷ cs) = ground (arith, strcmp_self cs)

sub_self : (z : ℤ) → sub_ℤ z z ≡ pos 0
sub_self z = ground arith

pub diff_self : (z : ℤ) → is_zero (int_diff z z) ≡ true
unfolding int_diff
diff_self z = ap (λ (d : ℤ). is_zero (to_int (to_unsigned (2 ^ 32) d))) (sub_self z)

module _ (again : List ℕ → List ℕ → Option ℤ) (n : ℕ)
    (next : (r : List ℕ) → length r < n → again r r ≡ some (pos 0)) where
  cmp_behind_self : (r : List ℕ) → length r < n → cmp_behind again r r ≡ some (pos 0)
  unfolding cmp_behind
  cmp_behind_self r lt = elim (Bool-cases (not (starts_with_digit r && starts_with_digit r))) [
    | inl text ↦ rw text (next r lt)
    | inr numbers ↦
        rw (numbers, diff_self (as_int (atoi r))) (next (nextc r) (omega (arith, nextc-le r, lt)))
  ]

  cmp_split_self :
      (s : List ℕ) (d : Option (List ℕ × List ℕ))
      → Shorter n d
      → cmp_split again s s d d ≡ some (pos 0)
  unfolding cmp_split
  cmp_split_self s none h = ap some (strcmp_self s)
  cmp_split_self s (some (p, r)) h =
      rw ((==_iff (length p) (length p)).1 refl, str_eq_self p) (cmp_behind_self r h)

cmp0_self : (fuel : ℕ) (s : List ℕ) → length s < fuel → cmp0 fuel s s ≡ some (pos 0)
unfolding cmp0
cmp0_self zero s lt = absurd (omega arith)
cmp0_self (suc fuel) s lt =
    cmp_split_self (cmp0 fuel) (length s) (λ r less. cmp0_self fuel r (omega (arith, less, lt))) s
      (split_dot s) (split_dot-Shorter s)

pub same_text_self : (s : List ℕ) → same_text s s ≡ true
unfolding same_text
same_text_self s =
    ap (λ (o : Option ℤ). elim o as (λ x. Bool) [ none ↦ false | some z ↦ is_zero z ])
      (cmp0_self (length s + 1) s (omega arith))

-- The comparison ends for any two keys.
pub cmp0_ends : (s1 s2 : List ℕ) → (z : ℤ) × (cmp0 (length s1 + 1) s1 s2 ≡ some z)
cmp0_ends s1 s2 = cmp0_total (length s1 + 1) s1 s2 (omega arith)
