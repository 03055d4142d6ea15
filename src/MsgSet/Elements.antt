-- ===== src/MsgSet/Elements.antt =====
-- `mlist_append`, `mlist_replace` and `mlist_delete` as they act on the sequence of the elements, which is
-- what a message's `elements_list` is to src/cw/msgset.c.
use mathlib.Core.Option.{some-ne-none}
use actube.Base.{
  ◌≡◌, inl, inr, refl, sym, ap, ◌∙◌, Bool, true, false, Option, none, some, List, [], ◌∷◌, ◌++◌,
  if◌then◌else◌, arith, Bool-cases,
}

module _ {A : Type 0} (same : A → A → Bool) where
  -- The first element that compares equal to `x`.
  unfoldable pub look : List A → A → Option A
  look [] x = none
  look (y ∷ ys) x = if same y x then some y else look ys x

  -- It is overwritten; the list stays as it is where `look` finds nothing.
  unfoldable pub replace : List A → A → List A
  replace [] x = []
  replace (y ∷ ys) x = if same y x then x ∷ ys else y ∷ replace ys x

  unfoldable pub delete : List A → A → List A
  delete [] x = []
  delete (y ∷ ys) x = if same y x then ys else y ∷ delete ys x

  -- No two elements compare equal.
  pub data Once : List A → Type 0 where
    nothing : Once []
    first : {x : A} {xs : List A} → look xs x ≡ none → Once xs → Once (x ∷ xs)

  -- The comparison is an equivalence.
  pub record IsSame : Type 0 where
    pub sym_lem : (x y : A) → same x y ≡ same y x
    pub trans_lem : (x y z : A) → same x y ≡ true → same y z ≡ same x z

  module _ (eqv : IsSame) where
    module _ (x y : A) (h : same x y ≡ true) where
      same_right : (z : A) → same z x ≡ same z y
      same_right z = eqv.sym_lem z x ∙ sym (eqv.trans_lem x y z h) ∙ eqv.sym_lem y z

      look_same_at : (xs : List A) → look xs x ≡ look xs y
      unfolding look
      look_same_at [] = refl
      look_same_at (z ∷ zs) = rw (same_right z, look_same_at zs) refl

    pub look_same : (x y : A) (xs : List A) → same x y ≡ true → look xs x ≡ look xs y
    look_same x y xs h = look_same_at x y h xs

    pub look-replace :
        (xs : List A) (x y e : A)
        → look xs x ≡ some e
        → look (replace xs x) y ≡ (if same x y then some x else look xs y)
    unfolding look replace
    look-replace [] x y e h = cc
    look-replace (z ∷ zs) x y e h = ground (
      arith,
      look-replace zs x y e,
      eqv.trans_lem z x y,
      eqv.sym_lem z x,
      eqv.trans_lem x y z,
      eqv.sym_lem z y,
    )

    pub look-append :
        (xs : List A) (x y : A)
        → look xs x ≡ none
        → look (xs ++ x ∷ []) y ≡ (if same x y then some x else look xs y)
    unfolding look
    look-append [] x y h = refl
    look-append (z ∷ zs) x y h = ground (
      arith,
      look-append zs x y,
      eqv.trans_lem x z y,
      eqv.sym_lem z x,
      eqv.sym_lem x y,
      eqv.sym_lem z y,
      eqv.trans_lem z y x,
    )

    pub look-delete :
        (xs : List A) (x y : A)
        → Once xs
        → look (delete xs x) y ≡ (if same x y then none else look xs y)
    unfolding look delete
    look-delete [] x y once = ground arith
    look-delete (z ∷ zs) x y (first f once) = ground (
      arith,
      look-delete zs x y once,
      eqv.trans_lem z x y,
      eqv.trans_lem z y x,
      look_same z y zs,
      eqv.sym_lem x y,
      eqv.sym_lem z y,
      eqv.trans_lem x y z,
      eqv.sym_lem z x,
    )

    -- An element that none of the list's equals stays so.
    look-replace_ne :
        (xs : List A) (x z : A) → same x z ≡ false → look xs z ≡ none → look (replace xs x) z ≡ none
    unfolding look replace
    look-replace_ne [] x z ne h = refl
    look-replace_ne (y ∷ ys) x z ne h = ground (arith, look-replace_ne ys x z)

    look-append_ne :
        (xs : List A) (x z : A) → same x z ≡ false → look xs z ≡ none → look (xs ++ x ∷ []) z ≡ none
    unfolding look
    look-append_ne [] x z ne h = ground arith
    look-append_ne (y ∷ ys) x z ne h = ground (arith, look-append_ne ys x z)

    look-delete_ne : (xs : List A) (x z : A) → look xs z ≡ none → look (delete xs x) z ≡ none
    unfolding look delete
    look-delete_ne [] x z h = refl
    look-delete_ne (y ∷ ys) x z h = ground (arith, look-delete_ne ys x z)

    pub replace-Once : (xs : List A) (x : A) → Once xs → Once (replace xs x)
    unfolding replace look
    replace-Once [] x nothing = nothing
    replace-Once (y ∷ ys) x (first f o) = elim (Bool-cases (same y x)) [
      | inl here ↦ rw here (first (sym (look_same y x ys here) ∙ f) o)
      | inr other ↦
          rw other
            (first (look-replace_ne ys x y (eqv.sym_lem x y ∙ other) f) (replace-Once ys x o))
    ]

    pub append-Once : (xs : List A) (x : A) → look xs x ≡ none → Once xs → Once (xs ++ x ∷ [])
    unfolding look
    append-Once [] x h nothing = first refl nothing
    append-Once (y ∷ ys) x h (first f o) = elim (Bool-cases (same y x)) [
      | inl here ↦
          absurd (some-ne-none _ (ap (λ b. if b then some y else look ys x) (sym here) ∙ h))
      | inr other ↦
          first (look-append_ne ys x y (eqv.sym_lem x y ∙ other) f)
            (append-Once ys x (ap (λ b. if b then some y else look ys x) (sym other) ∙ h) o)
    ]

    pub delete-Once : (xs : List A) (x : A) → Once xs → Once (delete xs x)
    unfolding delete
    delete-Once [] x nothing = nothing
    delete-Once (y ∷ ys) x (first f o) = elim (Bool-cases (same y x)) [
      | inl here ↦ rw here o
      | inr other ↦ rw other (first (look-delete_ne ys x y f) (delete-Once ys x o))
    ]
