-- ===== src/Cfg/Key/Parts.antt =====
-- The parts of a key, with an index behind a dot read as a number: what the comparison of two keys looks at.
pub mod Agree
pub mod Equal
use mathlib.Core.Bool.{false≢true}
use mathlib.Core.Option.{none-ne-some}
use actube.Base.{
  ℕ, zero, suc, ◌+◌, ◌≤◌, ◌<◌, ◌^◌, ◌≡◌, ◌≢◌, ◌↔◌, refl, sym, ap, ap₂, subst, ◌∙◌, arith, inl, inr,
  Bool, true, false, not, Option, none, some, List, [], ◌∷◌, ◌==◌, ==_iff, ◌&&◌, ℤ, pos, negsuc,
  length, if◌then◌else◌, Bool-cases,
}
use actube.Value.Decimal.{atoi, is_digit}
use actube.Value.Number.{to_int, to_unsigned}
use actube.Value.Byte.{str_eq, str_eq_self, str_eq-eq}
use actube.Cfg.Key.{
  strcmp, split_dot, starts_with_digit, nextc, sub_ℤ, clamp, as_int, int_diff, is_zero, cmp_behind,
  cmp_split, cmp0, same_text,
}
use actube.Cfg.Key.Compared.{Shorter, split_dot-Shorter, nextc-le, strcmp_self, diff_self}

-- What stands in front of a dot, a number behind one, and the last part of a key.
pub data Part : Type 0 where
  before : List ℕ → Part
  index : ℤ → Part
  last : List ℕ → Part

abbrev pub behind : (List ℕ → List Part) → List ℕ → List Part
behind again r = if starts_with_digit r then index (as_int (atoi r)) ∷ again (nextc r) else again r

abbrev pub parts_of : (List ℕ → List Part) → List ℕ → Option (List ℕ × List ℕ) → List Part
parts_of again s none = last s ∷ []
parts_of again s (some (p, r)) = before p ∷ behind again r

unfoldable pub parts_from : ℕ → List ℕ → List Part
parts_from zero s = []
parts_from (suc fuel) s = parts_of (parts_from fuel) s (split_dot s)

unfoldable pub parts : List ℕ → List Part
unfolding parts_from
parts s = parts_from (length s + 1) s

-- Whether the text of the first part starts with a digit.
abbrev pub leads : List Part → Bool
leads [] = false
leads (before p ∷ ts) = starts_with_digit p
leads (index z ∷ ts) = false
leads (last s ∷ ts) = starts_with_digit s

abbrev pub is_index : List Part → Bool
is_index [] = false
is_index (before p ∷ ts) = false
is_index (index z ∷ ts) = true
is_index (last s ∷ ts) = false

digit-dot : (c : ℕ) → (c == b'.') ≡ true → is_digit c ≡ false
digit-dot c h = ground arith

leads-parts_of :
    (again : List ℕ → List Part) (s : List ℕ)
    → leads (parts_of again s (split_dot s)) ≡ starts_with_digit s
unfolding split_dot
leads-parts_of again [] = refl
leads-parts_of again (c ∷ cs) = elim (Bool-cases (c == b'.')) [
  | inl dot ↦ rw dot (sym (digit-dot c dot))
  | inr other ↦ rw other (later (split_dot cs))
]
  where
    later :
        (o : Option (List ℕ × List ℕ))
        → leads (
            parts_of again (c ∷ cs) (elim o as (λ x. Option (List ℕ × List ℕ)) [
              | none ↦ none
              | some (p, r) ↦ some (c ∷ p, r)
            ]))
          ≡ is_digit c
    later none = refl
    later (some (p, r)) = refl

is_index-parts_of :
    (again : List ℕ → List Part) (s : List ℕ) (o : Option (List ℕ × List ℕ))
    → is_index (parts_of again s o) ≡ false
is_index-parts_of again s none = refl
is_index-parts_of again s (some (p, r)) = refl

abbrev pub zero_of : Option ℤ → Bool
zero_of none = false
zero_of (some z) = is_zero z

pub strcmp-zero : (a b : List ℕ) → is_zero (strcmp a b) ≡ true → a ≡ b
unfolding strcmp
strcmp-zero [] [] h = refl
strcmp-zero [] (y ∷ ys) h = absurd (false≢true h)
strcmp-zero (x ∷ xs) [] h = absurd (ground arith)
strcmp-zero (x ∷ xs) (y ∷ ys) h = ground (arith, strcmp-zero xs ys)

to_int-zero : (n : ℕ) → n < 2 ^ 32 → is_zero (to_int n) ≡ true → n ≡ 0
to_int-zero n lt h = ground arith

to_unsigned-lt : (z : ℤ) → to_unsigned (2 ^ 32) z < 2 ^ 32
to_unsigned-lt (pos n) = omega arith
to_unsigned-lt (negsuc n) = omega arith

sub_ℤ-zero :
    (x y : ℕ)
    → x < 2 ^ 32
    → y < 2 ^ 32
    → to_unsigned (2 ^ 32) (sub_ℤ (to_int x) (to_int y)) ≡ 0
    → x ≡ y
sub_ℤ-zero x y lx ly h = ground arith

-- Also with the wrap-around, the difference of two ints is 0 only if they are equal.
pub int_diff-zero :
    (a b : ℤ) → is_zero (int_diff (as_int a) (as_int b)) ≡ true → as_int a ≡ as_int b
unfolding int_diff as_int
int_diff-zero a b h =
    let x = to_unsigned (2 ^ 32) (clamp a) in
    let y = to_unsigned (2 ^ 32) (clamp b) in
    let d = sub_ℤ (to_int x) (to_int y) in
    ap to_int (
      sub_ℤ-zero x y (to_unsigned-lt (clamp a)) (to_unsigned-lt (clamp b))
        (to_int-zero (to_unsigned (2 ^ 32) d) (to_unsigned-lt d) h))

pub leads-parts_from :
    (n : ℕ) (s : List ℕ) → length s < n → leads (parts_from n s) ≡ starts_with_digit s
unfolding parts_from
leads-parts_from zero s lt = absurd (omega arith)
leads-parts_from (suc n) s lt = leads-parts_of (parts_from n) s

pub is_index-parts_from : (n : ℕ) (s : List ℕ) → is_index (parts_from n s) ≡ false
unfolding parts_from
is_index-parts_from zero s = refl
is_index-parts_from (suc n) s = is_index-parts_of (parts_from n) s (split_dot s)
