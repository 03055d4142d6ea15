-- ===== src/Cfg/Key/Parts/Equal.antt =====
-- When two keys compare equal, whatever the fuel; and that this is an equivalence of keys.
use actube.Base.{
  ℕ, zero, suc, ◌+◌, ◌<◌, ◌≡◌, ◌↔◌, refl, sym, ap, ◌∙◌, arith, inl, inr, Bool, true, false, Option,
  none, some, List, ◌∷◌, ℤ, length, Bool-cases,
}
use actube.Value.Decimal.{atoi}
use actube.Cfg.Key.{
  split_dot, starts_with_digit, nextc, as_int, is_zero, cmp_behind, cmp_split, cmp0, same_text,
}
use actube.Cfg.Key.Compared.{cmp0_ends, Shorter, split_dot-Shorter, nextc-le}
use actube.Cfg.Key.Parts.{Part, before, index, behind, parts_of, parts_from, parts, zero_of}
use actube.Cfg.Key.Parts.Agree.{cmp0-Agree}

-- The fuel does not matter if there is enough.
module _ (f g : List ℕ → List Part) (n : ℕ) (next : (r : List ℕ) → length r < n → f r ≡ g r) where
  behind_same : (r : List ℕ) → length r < n → behind f r ≡ behind g r
  behind_same r lt = elim (Bool-cases (starts_with_digit r)) [
    | inl number ↦
        rw number
          (ap (◌∷◌ (index (as_int (atoi r)))) (next (nextc r) (omega (arith, nextc-le r, lt))))
    | inr text ↦ rw text (next r lt)
  ]

  parts_of_same :
      (s : List ℕ) (o : Option (List ℕ × List ℕ)) → Shorter n o → parts_of f s o ≡ parts_of g s o
  parts_of_same s none h = refl
  parts_of_same s (some (p, r)) h = ap (◌∷◌ (before p)) (behind_same r h)

parts_from_same :
    (m n : ℕ) (s : List ℕ) → length s < m → length s < n → parts_from m s ≡ parts_from n s
unfolding parts_from
parts_from_same zero n s lt1 lt2 = absurd (omega arith)
parts_from_same (suc m) zero s lt1 lt2 = absurd (omega arith)
parts_from_same (suc m) (suc n) s lt1 lt2 =
    parts_of_same (parts_from m) (parts_from n) (length s)
      (λ r lt. parts_from_same m n r (omega (arith, lt, lt1)) (omega (arith, lt, lt2))) s
      (split_dot s) (split_dot-Shorter s)

module _ (f g : List ℕ → List ℕ → Option ℤ) (n : ℕ)
    (next : (r1 r2 : List ℕ) → length r1 < n → f r1 r2 ≡ g r1 r2) where
  cmp_behind_same : (r1 r2 : List ℕ) → length r1 < n → cmp_behind f r1 r2 ≡ cmp_behind g r1 r2
  unfolding cmp_behind
  cmp_behind_same r1 r2 lt =
      rw (next r1 r2 lt, next (nextc r1) (nextc r2) (omega (arith, nextc-le r1, lt))) refl

  cmp_split_same :
      (s1 s2 : List ℕ) (d1 d2 : Option (List ℕ × List ℕ))
      → Shorter n d1
      → cmp_split f s1 s2 d1 d2 ≡ cmp_split g s1 s2 d1 d2
  unfolding cmp_split
  cmp_split_same s1 s2 none d2 h = refl
  cmp_split_same s1 s2 (some d1) none h = refl
  cmp_split_same s1 s2 (some (p1, r1)) (some (p2, r2)) h = rw (cmp_behind_same r1 r2 h) refl

cmp0_same : (m n : ℕ) (s1 s2 : List ℕ) → length s1 < m → length s1 < n → cmp0 m s1 s2 ≡ cmp0 n s1 s2
unfolding cmp0
cmp0_same zero n s1 s2 lt1 lt2 = absurd (omega arith)
cmp0_same (suc m) zero s1 s2 lt1 lt2 = absurd (omega arith)
cmp0_same (suc m) (suc n) s1 s2 lt1 lt2 =
    cmp_split_same (cmp0 m) (cmp0 n) (length s1)
      (λ r1 r2 lt. cmp0_same m n r1 r2 (omega (arith, lt, lt1)) (omega (arith, lt, lt2))) s1 s2
      (split_dot s1) (split_dot s2) (split_dot-Shorter s1)

same_text-parts : (a b : List ℕ) → (same_text a b ≡ true) ↔ (parts a ≡ parts b)
unfolding same_text parts
same_text-parts a b =
    let n = length a + length b + 1 in
    let agree = cmp0-Agree n a b (omega arith) (omega arith) in
    let ka = parts_from_same (length a + 1) n a (omega arith) (omega arith) in
    let kb = parts_from_same (length b + 1) n b (omega arith) (omega arith) in
    let c = cmp0_same (length a + 1) n a b (omega arith) (omega arith) in
    (
      λ h. ka ∙ agree.0 (sym (ap zero_of c) ∙ h) ∙ sym kb,
      λ e. ap zero_of c ∙ agree.1 (sym ka ∙ e ∙ kb),
    )

-- The comparison of two keys ends, and gives 0 exactly if they have the same parts: the texts between
-- the dots, and where a part behind a dot starts with digits the int that `atoi` makes of them.
pub cmp0-parts :
    (a b : List ℕ)
    → (z : ℤ) × (cmp0 (length a + 1) a b ≡ some z) × ((is_zero z ≡ true) ↔ (parts a ≡ parts b))
unfolding same_text
cmp0-parts a b =
    let (z, e) = cmp0_ends a b in
    (
      z,
      e,
      (
        λ h. (same_text-parts a b).0 (ap zero_of e ∙ h),
        λ h. sym (ap zero_of e) ∙ (same_text-parts a b).1 h,
      ),
    )

from_iff : (a b : Bool) → (a ≡ true → b ≡ true) → (b ≡ true → a ≡ true) → a ≡ b
from_iff true b f g = sym (f refl)
from_iff false true f g = g refl
from_iff false false f g = refl

pub same_text_sym : (a b : List ℕ) → same_text a b ≡ same_text b a
same_text_sym a b =
    from_iff (same_text a b) (same_text b a)
      (λ h. (same_text-parts b a).1 (sym ((same_text-parts a b).0 h)))
      (λ h. (same_text-parts a b).1 (sym ((same_text-parts b a).0 h)))

pub same_text_trans : (a b c : List ℕ) → same_text a b ≡ true → same_text b c ≡ same_text a c
same_text_trans a b c h =
    let e = (same_text-parts a b).0 h in
    from_iff (same_text b c) (same_text a c)
      (λ k. (same_text-parts a c).1 (e ∙ (same_text-parts b c).0 k))
      (λ k. (same_text-parts b c).1 (sym e ∙ (same_text-parts a c).0 k))
