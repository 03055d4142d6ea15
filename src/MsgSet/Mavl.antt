-- ===== src/MsgSet/Mavl.antt =====
-- The balanced tree `mavl` as the source relies on it, and src/cw/mavl_replace.c, which is made of its
-- operations. `same` says whether the comparison function of the tree returns 0.
use actube.Base.{
  ◌≡◌, ◌⊎◌, Bool, true, Option, none, some, List, [], ◌∷◌, if◌then◌else◌, refl, inl, inr,
  Option-cases,
}

-- `In x xs`: x is one of xs.
abbrev pub In : {A : Type 0} → A → List A → Type 0
In x [] = ⊥
In x (y ∷ ys) = (x ≡ y) ⊎ In x ys

abbrev pub or_else {ℓ} : {A : Type ℓ} → Option A → A → A
or_else none x = x
or_else (some e) x = e

-- `insert` adds an element unless an equal one is there. `store` writes over the element that is equal
-- to it, as `memcpy` to the address that `mavl_insert` returned does. `to_list` is what the iterator
-- goes through.
pub record Mavl (A : Type 0) (same : A → A → Bool) : Type 1 where
  pub Tree : Type 0
  pub empty : Tree
  pub get : Tree → A → Option A
  pub insert : Tree → A → Tree
  pub store : Tree → A → Tree
  pub del : Tree → A → Tree
  pub to_list : Tree → List A
  pub get-same : (t : Tree) (x e : A) → get t x ≡ some e → same e x ≡ true
  pub get-cong : (t : Tree) (x y : A) → same x y ≡ true → get t x ≡ get t y
  pub get-empty : (x : A) → get empty x ≡ none
  pub get-insert :
      (t : Tree) (x y : A)
      → get (insert t x) y ≡ (if same x y then some (or_else (get t x) x) else get t y)
  pub get-store :
      (t : Tree) (x e y : A)
      → get t x ≡ some e
      → get (store t x) y ≡ (if same x y then some x else get t y)
  pub get-del : (t : Tree) (x y : A) → get (del t x) y ≡ (if same x y then none else get t y)
  pub listed : (t : Tree) (x : A) → get t x ≡ some x → In x (to_list t)
  pub found : (t : Tree) (x : A) → In x (to_list t) → get t x ≡ some x

module _ {A : Type 0} {same : A → A → Bool} (M : Mavl A same) where
  open M use {Tree, get, insert, store, get-insert, get-store}

  unfoldable pub replace : Tree → A → Tree
  replace t x = elim (get t x) [ none ↦ insert t x | some e ↦ store t x ]

  -- Whether an equal element was there or not, the new one is found afterwards.
  pub get-replace :
      (t : Tree) (x y : A) → get (replace t x) y ≡ (if same x y then some x else get t y)
  unfolding replace
  get-replace t x y = elim (Option-cases (get t x)) [
    | inl absent ↦ rw (replace, absent, get-insert t x y, absent) refl
    | inr (e, present) ↦ rw (replace, present) (get-store t x e y present)
  ]
