-- ===== src/Value/Byte.antt =====
-- A byte in the configuration, src/cw/cw_type_byte.c: its number, or the name of the range that holds it.
use mathlib.Core.Bool.{false≢true}
use mathlib.Core.Option.{none-ne-some, some-injective}
use actube.Base.{
  ℕ, ◌%◌, ◌^◌, ◌<◌, ◌≡◌, refl, sym, ap, subst, ◌∙◌, arith, inl, inr, Bool, true, false, Option,
  none, some, List, [], ◌∷◌, ◌==◌, ◌&&◌, leb, if◌then◌else◌, pos, Bool-cases, Option-cases,
}
use actube.Value.Decimal.{print_int, atoi, atoi-print_int}
use actube.Value.Number.{to_unsigned}

-- `strcmp(a, b) == 0`
unfoldable pub str_eq : List ℕ → List ℕ → Bool
str_eq [] [] = true
str_eq [] (y ∷ ys) = false
str_eq (x ∷ xs) [] = false
str_eq (x ∷ xs) (y ∷ ys) = x == y && str_eq xs ys

-- A range of `struct cw_ValValRange`; the list of them ends with one that has no name.
pub record Range : Type 0 where
  pub min : ℕ
  pub max : ℕ
  pub name : List ℕ

unfoldable pub get_guardstr : ℕ → List Range → Option (List ℕ)
get_guardstr val [] = none
get_guardstr val (r ∷ rs) =
    if leb r.min val && leb val r.max then some r.name else get_guardstr val rs

unfoldable pub get_guardval : List ℕ → List Range → Option ℕ
get_guardval str [] = none
get_guardval str (r ∷ rs) = if str_eq str r.name then some r.min else get_guardval str rs

abbrev text : ℕ → Option (List ℕ) → List ℕ
text val none = print_int (pos val)
text val (some name) = name

abbrev number_of : List ℕ → Option ℕ → ℕ
number_of str none = to_unsigned (2 ^ 8) (atoi str)
number_of str (some val) = val % 2 ^ 8

-- The text that `bread` passes to `cw_cfg_set`.
unfoldable pub bread_byte : List Range → ℕ → List ℕ
unfolding get_guardstr
bread_byte ranges val = text val (get_guardstr val ranges)

unfoldable pub byte_from_str : List Range → List ℕ → ℕ
unfolding get_guardval
byte_from_str ranges str = number_of str (get_guardval str ranges)

pub str_eq_self : (s : List ℕ) → str_eq s s ≡ true
unfolding str_eq
str_eq_self [] = refl
str_eq_self (c ∷ cs) = ground (arith, str_eq_self cs)

pub str_eq-eq : (s t : List ℕ) → str_eq s t ≡ true → s ≡ t
unfolding str_eq
str_eq-eq [] [] h = refl
str_eq-eq [] (y ∷ ys) h = absurd (false≢true h)
str_eq-eq (x ∷ xs) [] h = absurd (false≢true h)
str_eq-eq (x ∷ xs) (y ∷ ys) h = ground (arith, str_eq-eq xs ys)

-- Each range is one number, and no text is the name of two of them.
abbrev pub AreNames : List Range → Type 0
AreNames [] = Unit
AreNames (r ∷ rs) = (r.min ≡ r.max) × (get_guardval r.name rs ≡ none) × AreNames rs

only : (a b v : ℕ) → a ≡ b → leb a v && leb v b ≡ true → a ≡ v
only a b v h k = ground arith

named :
    (ranges : List Range) (val : ℕ) (name : List ℕ)
    → AreNames ranges
    → get_guardstr val ranges ≡ some name
    → get_guardval name ranges ≡ some val
unfolding get_guardstr get_guardval
named [] val name h e = absurd (none-ne-some name e)
named (r ∷ rs) val name (single, once, h) e = elim (Bool-cases (leb r.min val && leb val r.max)) [
  | inl here ↦
      let same : r.name ≡ name =
        some-injective r.name name
          (ap (λ b. if b then some r.name else get_guardstr val rs) (sym here) ∙ e) in
      let its : r.min ≡ val = only r.min r.max val single here in
      subst (λ n. get_guardval n (r ∷ rs) ≡ some val) same
        (ap (λ b. if b then some r.min else get_guardval r.name rs) (str_eq_self r.name)
          ∙ ap some its)
  | inr other ↦
      let later : get_guardval name rs ≡ some val =
        named rs val name h
          (ap (λ b. if b then some r.name else get_guardstr val rs) (sym other) ∙ e) in
      elim (Bool-cases (str_eq name r.name)) [
        | inl same ↦ absurd (
            none-ne-some val
              (sym once ∙ ap (λ n. get_guardval n rs) (sym (str_eq-eq name r.name same)) ∙ later))
        | inr differs ↦ rw differs later
      ]
]

-- A byte comes back from its text, be it a name or a number, if the ranges are single numbers with
-- names that differ and none of the names is the byte's own decimal number.
pub byte_from_str-bread_byte :
    (ranges : List Range) (val : ℕ)
    → AreNames ranges
    → get_guardval (print_int (pos val)) ranges ≡ none
    → val < 256
    → byte_from_str ranges (bread_byte ranges val) ≡ val
unfolding bread_byte byte_from_str
byte_from_str-bread_byte ranges val names number small =
    elim (Option-cases (get_guardstr val ranges)) [
      | inl outside ↦
          ap (byte_from_str ranges) (ap (text val) outside)
          ∙ ap (number_of (print_int (pos val))) number
          ∙ ap (to_unsigned (2 ^ 8)) (atoi-print_int (pos val))
          ∙ omega arith
      | inr (name, inside) ↦
          ap (byte_from_str ranges) (ap (text val) inside)
          ∙ ap (number_of name) (named ranges val name names inside)
          ∙ omega arith
    ]
