-- ===== src/MList.antt =====
-- The doubly linked list of src/cw/mlist_append.c, mlist_delete.c, mlist_get.c and mlist_replace.c, in a
-- store of nodes. An address is a number, NULL is `none`; `malloc` is an argument, and what a node of
-- the store holds after `free` is not looked at.
pub mod Chain
pub mod Append
pub mod Find
use actube.Base.{ℕ, zero, suc, ◌+◌, ◌-◌, Bool, true, false, Option, none, some, ◌==◌, if◌then◌else◌}

pub record Node {ℓ} (A : Type ℓ) : Type ℓ where
  pub prev : Option ℕ
  pub next : Option ℕ
  pub elem : A

pub record MList : Type 0 where
  pub first : Option ℕ
  pub last : Option ℕ
  pub count : ℕ

abbrev pub is_null : Option ℕ → Bool
is_null none = true
is_null (some e) = false

abbrev pub same_ptr : Option ℕ → Option ℕ → Bool
same_ptr none q = is_null q
same_ptr (some e) none = false
same_ptr (some e) (some d) = e == d

module _ {ℓ} {A : Type ℓ} where
  abbrev pub write : (ℕ → Node A) → ℕ → Node A → ℕ → Node A
  write store a node i = if i == a then node else store i

  -- `e->next=p` and `e->prev=p`, for a pointer `e` that is not followed if it is NULL.
  abbrev pub set_next : (ℕ → Node A) → Option ℕ → Option ℕ → ℕ → Node A
  set_next store none p = store
  set_next store (some e) p = write store e (record (store e) { next = p })

  abbrev pub set_prev : (ℕ → Node A) → Option ℕ → Option ℕ → ℕ → Node A
  set_prev store none p = store
  set_prev store (some e) p = write store e (record (store e) { prev = p })

  -- `none` from `malloc` changes nothing; else the new element's address is returned.
  unfoldable pub append : Option ℕ → (ℕ → Node A) → MList → A → (ℕ → Node A) × MList × Option ℕ
  append none store l x = (store, l, none)
  append (some e) store l x = elim l.first [
    | none ↦ (
      write store e (record { prev = none; next = none; elem = x }),
      record { first = some e; last = some e; count = l.count + 1 },
      some e,
    )
    | some f ↦ (
      write (set_next store l.last (some e)) e (record { prev = l.last; next = none; elem = x }),
      record l { last = some e; count = l.count + 1 },
      some e,
    )
  ]

  -- `cmp(a, b) == 0`, for the loops that look for an element from `e` on; `fuel` bounds their turns.
  module _ (same : A → A → Bool) where
    unfoldable pub find : ℕ → (ℕ → Node A) → Option ℕ → A → Option ℕ
    find zero store e x = none
    find (suc fuel) store none x = none
    find (suc fuel) store (some e) x = elim (same (store e).elem x) [
      | true ↦ some e
      | false ↦ find fuel store (store e).next x
    ]

    -- As many turns as there are elements are enough.
    unfoldable pub get : (ℕ → Node A) → MList → A → Option ℕ
    unfolding find
    get store l x = find l.count store l.first x

    unfoldable pub replace : (ℕ → Node A) → MList → A → (ℕ → Node A) × Option ℕ
    unfolding get
    replace store l x = elim (get store l x) [
      | none ↦ (store, none)
      | some e ↦ (write store e (record (store e) { elem = x }), some e)
    ]

  -- The removal of the node at `e`: the four cases of `mlist_delete`.
  unfoldable pub unlink : (ℕ → Node A) → MList → ℕ → (ℕ → Node A) × MList
  unlink store l e =
      let prev = (store e).prev in
      let next = (store e).next in
      if elim (is_null prev) [ true ↦ is_null next | false ↦ false ]
      then (store, record { first = none; last = none; count = 0 })
      else if same_ptr (some e) l.first
      then (set_prev store next none, record l { first = next; count = l.count - 1 })
      else if same_ptr (some e) l.last
      then (set_next store prev none, record l { last = prev; count = l.count - 1 })
      else (set_next (set_prev store next prev) prev next, record l { count = l.count - 1 })

  unfoldable pub delete : (A → A → Bool) → (ℕ → Node A) → MList → A → (ℕ → Node A) × MList
  unfolding unlink get
  delete same store l x = elim (get same store l x) [
    | none ↦ (store, l)
    | some e ↦ unlink store l e
  ]
