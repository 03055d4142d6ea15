-- ===== src/Tests/ListMap.antt =====
-- A tree of src/cw/msgset.c, by a list with no two elements that compare equal. It meets the laws of `Mavl`.
use mathlib.Core.Option.{some-injective, none-ne-some}
use actube.Base.{
  ◌≡◌, refl, sym, ap, ◌∙◌, inl, inr, Bool, true, Option, none, some, List, [], ◌∷◌, ◌++◌,
  if◌then◌else◌, Bool-cases,
}
use actube.MsgSet.Mavl.{Mavl, In, or_else}
use actube.MsgSet.Elements.{
  look, replace, delete, Once, nothing, first, IsSame, look_same, look-replace, look-append,
  look-delete, replace-Once, append-Once, delete-Once,
}

module _ {A : Type 0} (same : A → A → Bool) (eqv : IsSame same)
    (same_self : (x : A) → same x x ≡ true) where
  abbrev Items : Type 0
  Items = (xs : List A) × Once same xs

  abbrev insert_at :
      (xs : List A) → Once same xs → (x : A) (o : Option A) → look same xs x ≡ o → Items
  insert_at xs once x none e = (xs ++ x ∷ [], append-Once same eqv xs x e once)
  insert_at xs once x (some d) e = (xs, once)

  pub look-same : (xs : List A) (x e : A) → look same xs x ≡ some e → same e x ≡ true
  unfolding look
  look-same [] x e h = absurd (none-ne-some e h)
  look-same (y ∷ ys) x e h = elim (Bool-cases (same y x)) [
    | inl here ↦
        ap (λ k. same k x)
          (sym (some-injective y e (ap (λ b. if b then some y else look same ys x) (sym here) ∙ h)))
        ∙ here
    | inr other ↦ look-same ys x e (ap (λ b. if b then some y else look same ys x) (sym other) ∙ h)
  ]

  pub look-nil : (x : A) → look same [] x ≡ none
  unfolding look
  look-nil x = refl

  pub look-In : (xs : List A) (y z : A) → look same xs y ≡ some z → In z xs
  unfolding look
  look-In [] y z h = absurd (none-ne-some z h)
  look-In (w ∷ ws) y z h = elim (Bool-cases (same w y)) [
    | inl here ↦
        inl
          (sym (some-injective w z (ap (λ b. if b then some w else look same ws y) (sym here) ∙ h)))
    | inr other ↦
        inr (look-In ws y z (ap (λ b. if b then some w else look same ws y) (sym other) ∙ h))
  ]

  pub In-look : (xs : List A) (x : A) → Once same xs → In x xs → look same xs x ≡ some x
  unfolding look
  In-look [] x once i = absurd i
  In-look (y ∷ ys) x (first f once) (inl here) =
      ap (look same (y ∷ ys)) here
      ∙ ap (λ b. if b then some y else look same ys y) (same_self y)
      ∙ ap some (sym here)
  In-look (y ∷ ys) x (first f once) (inr later) = elim (Bool-cases (same y x)) [
    | inl same_one ↦
        absurd
          (none-ne-some x (sym f ∙ look_same same eqv y x ys same_one ∙ In-look ys x once later))
    | inr other ↦ rw other (In-look ys x once later)
  ]

  pub get-insert_at :
      (xs : List A) (once : Once same xs) (x y : A) (o : Option A) (e : look same xs x ≡ o)
      → look same (insert_at xs once x o e).0 y
        ≡ (if same x y then some (or_else o x) else look same xs y)
  get-insert_at xs once x y none e = look-append same eqv xs x y e
  get-insert_at xs once x y (some d) e = elim (Bool-cases (same x y)) [
    | inl here ↦ rw here (sym (look_same same eqv x y xs here) ∙ e)
    | inr other ↦ rw other refl
  ]

  unfoldable pub list_map : Mavl A same
  list_map = record {
    Tree = Items;
    empty = ([], nothing);
    get = λ t x. look same t.0 x;
    insert = λ t x. insert_at t.0 t.1 x (look same t.0 x) refl;
    store = λ t x. (replace same t.0 x, replace-Once same eqv t.0 x t.1);
    del = λ t x. (delete same t.0 x, delete-Once same eqv t.0 x t.1);
    to_list = λ t. t.0;
    get-same = λ t x e h. look-same t.0 x e h;
    get-cong = λ t x y h. look_same same eqv x y t.0 h;
    get-empty = λ x. look-nil x;
    get-insert = λ t x y. get-insert_at t.0 t.1 x y (look same t.0 x) refl;
    get-store = λ t x e y h. look-replace same eqv t.0 x y e h;
    get-del = λ t x y. look-delete same eqv t.0 x y t.1;
    listed = λ t x h. look-In t.0 x x h;
    found = λ t x i. In-look t.0 x t.1 i;
  }
