-- ===== src/Cfg/Key/Parts/Agree.antt =====
-- `cmp0` of src/cw/cfg.c gives 0 where the parts of the keys are the same, and nowhere else.
use mathlib.Core.Bool.{false≢true}
use mathlib.Core.Option.{none-ne-some}
use actube.Base.{
  ℕ, zero, suc, ◌≤◌, ◌<◌, ◌≡◌, ◌≢◌, ◌↔◌, refl, sym, ap, ap₂, ◌∙◌, arith, inl, inr, Bool, true,
  false, not, Option, none, some, List, [], ◌∷◌, ◌==◌, ℤ, length, Bool-cases,
}
use actube.Value.Decimal.{atoi}
use actube.Value.Byte.{str_eq, str_eq_self, str_eq-eq}
use actube.Cfg.Key.{
  strcmp, split_dot, starts_with_digit, nextc, as_int, int_diff, is_zero, cmp_behind, cmp_split,
  cmp0,
}
use actube.Cfg.Key.Compared.{Shorter, split_dot-Shorter, nextc-le, strcmp_self, diff_self}
use actube.Cfg.Key.Parts.{
  Part, before, index, last, behind, parts_of, parts_from, leads, is_index, zero_of, strcmp-zero,
  int_diff-zero, leads-parts_from, is_index-parts_from,
}

abbrev pub Agree : Option ℤ → List Part → List Part → Type 0
Agree o ts us = (zero_of o ≡ true) ↔ (ts ≡ us)

whole-Agree : (s1 s2 : List ℕ) → Agree (some (strcmp s1 s2)) (last s1 ∷ []) (last s2 ∷ [])
whole-Agree s1 s2 = (
  λ h. ap (λ k. last k ∷ []) (strcmp-zero s1 s2 h),
  λ e.
      let same : s2 ≡ s1 = cc in ap (λ k. is_zero (strcmp s1 k)) same ∙ ap is_zero (strcmp_self s1),
)

-- Where only one of two texts starts with a digit.
mixed :
    (n : ℕ) (r1 r2 : List ℕ)
    → length r1 < n
    → length r2 < n
    → starts_with_digit r1 ≡ not (starts_with_digit r2)
    → parts_from n r1 ≢ parts_from n r2
mixed n r1 r2 lt1 lt2 ne e =
    not_same (starts_with_digit r2)
      (sym ne ∙ sym (leads-parts_from n r1 lt1) ∙ ap leads e ∙ leads-parts_from n r2 lt2)
  where
    not_same : (b : Bool) → not b ≢ b
    not_same true h = absurd (false≢true h)
    not_same false h = absurd (false≢true (sym h))

ne_lengths : (p1 p2 : List ℕ) → not (length p1 == length p2) ≡ true → p1 ≢ p2
ne_lengths p1 p2 h e = let same = ap length e in absurd (ground arith)

ne_texts : (p1 p2 : List ℕ) → not (str_eq p1 p2) ≡ true → p1 ≢ p2
ne_texts p1 p2 h e = false≢true (sym (ap not (ap (str_eq p1) (sym e) ∙ str_eq_self p1)) ∙ h)

eq_texts : (p1 p2 : List ℕ) → not (str_eq p1 p2) ≡ false → p1 ≡ p2
eq_texts p1 p2 h = str_eq-eq p1 p2 (ground arith)

abbrev front_of : Option (List ℕ × List ℕ) → List ℕ
front_of none = []
front_of (some (p, r)) = p

front_same :
    (s1 s2 p1 r1 p2 r2 : List ℕ)
    → split_dot s1 ≡ some (p1, r1)
    → split_dot s2 ≡ some (p2, r2)
    → s1 ≡ s2
    → p1 ≡ p2
front_same s1 s2 p1 r1 p2 r2 e1 e2 same =
    sym (ap front_of e1) ∙ ap (λ s. front_of (split_dot s)) same ∙ ap front_of e2

module _ (n : ℕ)
    (next : (r1 r2 : List ℕ)
      → length r1 < n
      → length r2 < n
      → Agree (cmp0 n r1 r2) (parts_from n r1) (parts_from n r2)) where
  unequal :
      (r1 r2 : List ℕ)
      → length r1 < n
      → length r2 < n
      → starts_with_digit r1 ≡ not (starts_with_digit r2)
      → zero_of (cmp0 n r1 r2) ≢ true
  unequal r1 r2 lt1 lt2 ne h = mixed n r1 r2 lt1 lt2 ne ((next r1 r2 lt1 lt2).0 h)

  behind-Agree :
      (r1 r2 : List ℕ)
      → length r1 < n
      → length r2 < n
      → Agree (cmp_behind (cmp0 n) r1 r2) (behind (parts_from n) r1) (behind (parts_from n) r2)
  unfolding cmp_behind
  behind-Agree r1 r2 lt1 lt2 =
      let le1 = nextc-le r1 in
      let le2 = nextc-le r2 in
      let rest = next (nextc r1) (nextc r2) (omega (arith, le1, lt1)) (omega (arith, le2, lt2)) in
      elim (Bool-cases (starts_with_digit r1)) [
        | inl d1 ↦ elim (Bool-cases (starts_with_digit r2)) [
          | inl d2 ↦ elim (Bool-cases (is_zero (int_diff (as_int (atoi r1)) (as_int (atoi r2))))) [
            | inl same ↦
                let z = int_diff-zero (atoi r1) (atoi r2) same in
                rw (d1, d2, same) (λ h. ap₂ (λ i ts. index i ∷ ts) z (rest.0 h), λ e. rest.1 cc)
            | inr differ ↦
                rw (d1, d2, differ)
                  (
                    λ h. absurd (false≢true (sym differ ∙ h)),
                    λ e.
                        let same : as_int (atoi r2) ≡ as_int (atoi r1) = cc in
                        absurd (
                          false≢true (
                            sym differ
                            ∙ ap (λ z. is_zero (int_diff (as_int (atoi r1)) z)) same
                            ∙ diff_self (as_int (atoi r1)))),
                  )
          ]
          | inr t2 ↦
              rw (d1, t2)
                (
                  λ h. absurd (unequal r1 r2 lt1 lt2 (d1 ∙ ap not (sym t2)) h),
                  λ e. absurd (false≢true (sym (is_index-parts_from n r2) ∙ ap is_index (sym e))),
                )
        ]
        | inr t1 ↦ elim (Bool-cases (starts_with_digit r2)) [
          | inl d2 ↦
              rw (t1, d2)
                (
                  λ h. absurd (unequal r1 r2 lt1 lt2 (t1 ∙ ap not (sym d2)) h),
                  λ e. absurd (false≢true (sym (is_index-parts_from n r1) ∙ ap is_index e)),
                )
          | inr t2 ↦ rw (t1, t2) (next r1 r2 lt1 lt2)
        ]
      ]

  split-Agree :
      (s1 s2 : List ℕ) (d1 d2 : Option (List ℕ × List ℕ))
      → split_dot s1 ≡ d1
      → split_dot s2 ≡ d2
      → Shorter n d1
      → Shorter n d2
      → Agree
          (cmp_split (cmp0 n) s1 s2 d1 d2)
          (parts_of (parts_from n) s1 d1)
          (parts_of (parts_from n) s2 d2)
  unfolding cmp_split
  split-Agree s1 s2 none none e1 e2 lt1 lt2 = whole-Agree s1 s2
  split-Agree s1 s2 none (some d2) e1 e2 lt1 lt2 = (
    λ h. absurd (none-ne-some d2 (sym e1 ∙ ap split_dot (strcmp-zero s1 s2 h) ∙ e2)),
    λ e. absurd cc,
  )
  split-Agree s1 s2 (some d1) none e1 e2 lt1 lt2 = (
    λ h. absurd (none-ne-some d1 (sym e2 ∙ ap split_dot (sym (strcmp-zero s1 s2 h)) ∙ e1)),
    λ e. absurd cc,
  )
  split-Agree s1 s2 (some (p1, r1)) (some (p2, r2)) e1 e2 lt1 lt2 =
      elim (Bool-cases (not (length p1 == length p2))) [
        | inl apart ↦ rw apart (
          λ h.
              absurd
                (ne_lengths p1 p2 apart (front_same s1 s2 p1 r1 p2 r2 e1 e2 (strcmp-zero s1 s2 h))),
          λ e. absurd (ne_lengths p1 p2 apart cc),
        )
        | inr together ↦ elim (Bool-cases (not (str_eq p1 p2))) [
          | inl differ ↦
              rw (together, differ)
                (
                  λ h. absurd (
                      ne_texts p1 p2 differ
                        (front_same s1 s2 p1 r1 p2 r2 e1 e2 (strcmp-zero s1 s2 h))),
                  λ e. absurd (ne_texts p1 p2 differ cc),
                )
          | inr same ↦
              let front = eq_texts p1 p2 same in
              let rest = behind-Agree r1 r2 lt1 lt2 in
              rw (together, same)
                (λ h. ap₂ (λ p ts. before p ∷ ts) front (rest.0 h), λ e. rest.1 cc)
        ]
      ]

Shorter-le : (m n : ℕ) (o : Option (List ℕ × List ℕ)) → m ≤ n → Shorter m o → Shorter n o
Shorter-le m n none le h = tt
Shorter-le m n (some (p, r)) le h = omega (arith, le, h)

pub cmp0-Agree :
    (n : ℕ) (s1 s2 : List ℕ)
    → length s1 < n
    → length s2 < n
    → Agree (cmp0 n s1 s2) (parts_from n s1) (parts_from n s2)
unfolding cmp0 parts_from
cmp0-Agree zero s1 s2 lt1 lt2 = absurd (omega arith)
cmp0-Agree (suc n) s1 s2 lt1 lt2 =
    split-Agree n (λ r1 r2 l1 l2. cmp0-Agree n r1 r2 l1 l2) s1 s2 (split_dot s1) (split_dot s2) refl
      refl (Shorter-le (length s1) n (split_dot s1) (omega (arith, lt1)) (split_dot-Shorter s1))
      (Shorter-le (length s2) n (split_dot s2) (omega (arith, lt2)) (split_dot-Shorter s2))
