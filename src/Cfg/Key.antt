-- ===== src/Cfg/Key.antt =====
-- The order of the keys, `cmp0` of src/cw/cfg.c: like `strcmp`, but an index behind a dot counts as a number.
pub mod Compared
pub mod Parts
use actube.Base.{
  ℕ, zero, suc, ◌+◌, ◌-◌, ◌≤◌, ◌<◌, ◌^◌, ltb, ◌≡◌, refl, sym, ap, ◌∙◌, arith, inl, inr, Bool, true,
  false, not, Option, none, some, List, [], ◌∷◌, ◌==◌, ◌&&◌, ◌||◌, if◌then◌else◌, ℤ, pos, negsuc,
  pos_part, neg_part, sub_ℕ, length, Bool-cases, Option-cases,
}
use actube.Value.Decimal.{is_digit, atoi}
use actube.Value.Number.{to_int, to_unsigned}
use actube.Value.Byte.{str_eq, str_eq_self}

-- The difference of the first two characters that differ. No character is 0, and the end is the 0
-- behind the last one.
unfoldable pub strcmp : List ℕ → List ℕ → ℤ
strcmp [] [] = pos 0
strcmp [] (y ∷ ys) = negsuc (y - 1)
strcmp (x ∷ xs) [] = pos (x - 1 + 1)
strcmp (x ∷ xs) (y ∷ ys) = let rest = strcmp xs ys in if x == y then rest else sub_ℕ x y

-- `strchr(s, '.')`: what stands in front of the dot, and behind it.
unfoldable pub split_dot : List ℕ → Option (List ℕ × List ℕ)
split_dot [] = none
split_dot (c ∷ cs) =
    if c == b'.'
    then some ([], cs)
    else elim (split_dot cs) [ none ↦ none | some (before, after) ↦ some (c ∷ before, after) ]

abbrev pub starts_with_digit : List ℕ → Bool
starts_with_digit [] = false
starts_with_digit (c ∷ cs) = is_digit c

unfoldable pub nextc : List ℕ → List ℕ
nextc [] = []
nextc (c ∷ cs) = if is_digit c then nextc cs else c ∷ cs

abbrev pub sub_ℤ : ℤ → ℤ → ℤ
sub_ℤ a b = sub_ℕ (pos_part a + neg_part b) (pos_part b + neg_part a)

abbrev pub is_zero : ℤ → Bool
is_zero (pos n) = n == 0
is_zero (negsuc n) = false

-- `strtol` stops at the bounds of a long.
abbrev pub clamp : ℤ → ℤ
clamp (pos n) = if ltb n (2 ^ 63) then pos n else pos (2 ^ 63 - 1)
clamp (negsuc n) = if ltb n (2 ^ 63) then negsuc n else negsuc (2 ^ 63 - 1)

-- What `atoi` gives for a number, `(int) strtol(...)`: where the number is no int C leaves the result
-- open, and this is glibc's, the low 32 bits of the long.
unfoldable pub as_int : ℤ → ℤ
as_int z = to_int (to_unsigned (2 ^ 32) (clamp z))

-- `i1 - i2`, of two ints. Where C leaves an overflow undefined, it wraps around.
unfoldable pub int_diff : ℤ → ℤ → ℤ
int_diff a b = to_int (to_unsigned (2 ^ 32) (sub_ℤ a b))

-- What stands behind the first dots, where the parts in front are the same; `again` is the recursive call.
unfoldable pub cmp_behind : (List ℕ → List ℕ → Option ℤ) → List ℕ → List ℕ → Option ℤ
unfolding nextc as_int int_diff
cmp_behind again r1 r2 =
    if not (starts_with_digit r1 && starts_with_digit r2)
    then again r1 r2
    else let i = int_diff (as_int (atoi r1)) (as_int (atoi r2)) in
      if is_zero i then again (nextc r1) (nextc r2) else some i

unfoldable pub cmp_split :
    (List ℕ → List ℕ → Option ℤ)
    → List ℕ
    → List ℕ
    → Option (List ℕ × List ℕ)
    → Option (List ℕ × List ℕ)
    → Option ℤ
unfolding cmp_behind
cmp_split again s1 s2 none d2 = some (strcmp s1 s2)
cmp_split again s1 s2 (some d1) none = some (strcmp s1 s2)
cmp_split again s1 s2 (some (p1, r1)) (some (p2, r2)) =
    if not (length p1 == length p2)
    then some (strcmp s1 s2)
    else if not (str_eq p1 p2)
    then some (strcmp s1 s2)
    else cmp_behind again r1 r2

-- `none`: the fuel ran out.
unfoldable pub cmp0 : ℕ → List ℕ → List ℕ → Option ℤ
unfolding split_dot cmp_split
cmp0 zero s1 s2 = none
cmp0 (suc fuel) s1 s2 = cmp_split (cmp0 fuel) s1 s2 (split_dot s1) (split_dot s2)

-- `cmp0(a, b) == 0`
unfoldable pub same_text : List ℕ → List ℕ → Bool
unfolding cmp0
same_text a b = elim (cmp0 (length a + 1) a b) [ none ↦ false | some z ↦ is_zero z ]
