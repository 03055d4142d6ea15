-- ===== src/Cfg/Store/Found.antt =====
-- What is found in a configuration after a key was set, or after another configuration was copied
-- into it.
use mathlib.Core.Bool.{false≢true}
use mathlib.Core.Option.{some-injective, none-ne-some}
use actube.Base.{
  ℕ, ◌≡◌, refl, sym, ap, ◌∙◌, inl, inr, Bool, true, false, Option, none, some, List, [], ◌∷◌,
  if◌then◌else◌, Bool-cases, Option-cases,
}
use actube.MsgSet.Mavl.{Mavl, In, or_else, get-replace}
use actube.Cfg.Key.{same_text}
use actube.Value.Byte.{str_eq, str_eq-eq}
use actube.Cfg.Store.{
  Entry, same_entry, search, get, get2, get_l, set, copy_entry, copy_entries, copy,
}

abbrev value_of : Option Entry → Option (List ℕ)
value_of none = none
value_of (some e) = some e.val

abbrev or_default : Option (List ℕ) → Option (List ℕ) → Option (List ℕ)
or_default none def = def
or_default (some v) def = some v

value_of-if :
    (b : Bool) (e : Entry) (o : Option Entry)
    → value_of (if b then some e else o) ≡ (if b then some e.val else value_of o)
value_of-if true e o = refl
value_of-if false e o = refl

or_default-if :
    (b : Bool) (e : Entry) (o : Option Entry) (def : Option (List ℕ))
    → or_default (value_of (if b then some e else o)) def
      ≡ (if b then some e.val else or_default (value_of o) def)
or_default-if true e o def = refl
or_default-if false e o def = refl

or_default_assoc :
    (a b c : Option (List ℕ)) → or_default (or_default a b) c ≡ or_default a (or_default b c)
or_default_assoc none b c = refl
or_default_assoc (some v) b c = refl

-- The value that the last of the entries with the key of `x` gives, else `old`.
abbrev last_value : Entry → Option (List ℕ) → List Entry → Option (List ℕ)
last_value x old [] = old
last_value x old (e ∷ es) = last_value x (if same_entry e x then some e.val else old) es

last_value-absent :
    (x : Entry) (old : Option (List ℕ)) (es : List Entry)
    → ((e : Entry) → In e es → same_entry e x ≡ false)
    → last_value x old es ≡ old
last_value-absent x old [] h = refl
last_value-absent x old (e ∷ es) h =
    rw (h e (inl refl)) (last_value-absent x old es (λ d i. h d (inr i)))

last_value-kept :
    (x e : Entry) (es : List Entry)
    → ((d : Entry) → In d es → same_entry d x ≡ true → d ≡ e)
    → last_value x (some e.val) es ≡ some e.val
last_value-kept x e [] h = refl
last_value-kept x e (d ∷ ds) h = elim (Bool-cases (same_entry d x)) [
  | inl same ↦ rw same (
      ap (λ k. last_value x (some k.val) ds) (h d (inl refl) same)
      ∙ last_value-kept x e ds (λ c i. h c (inr i)))
  | inr other ↦ rw other (last_value-kept x e ds (λ c i. h c (inr i)))
]

last_value-present :
    (x e : Entry) (old : Option (List ℕ)) (es : List Entry)
    → In e es
    → same_entry e x ≡ true
    → ((d : Entry) → In d es → same_entry d x ≡ true → d ≡ e)
    → last_value x old es ≡ some e.val
last_value-present x e old [] i s h = absurd i
last_value-present x e old (d ∷ ds) i s h = elim (Bool-cases (same_entry d x)) [
  | inl same ↦ rw same (
      ap (λ k. last_value x (some k.val) ds) (h d (inl refl) same)
      ∙ last_value-kept x e ds (λ c j. h c (inr j)))
  | inr other ↦ elim i [
    | inl here ↦ absurd (false≢true (sym other ∙ ap (λ k. same_entry k x) (sym here) ∙ s))
    | inr later ↦ rw other (last_value-present x e old ds later s (λ c j. h c (inr j)))
  ]
]

module _ (M : Mavl Entry same_entry) where
  open M use {
    Tree, insert, store, to_list, get-insert, get-store, get-same, get-cong, found, listed,
  }

  get-value_of :
      (cfg : Tree) (key : List ℕ) (def : Option (List ℕ))
      → get M cfg key def ≡ or_default (value_of (M.get cfg (search M key))) def
  unfolding get
  get-value_of cfg key def = elim (Option-cases (M.get cfg (search M key))) [
    | inl absent ↦ rw (get, absent) refl
    | inr (e, here) ↦ rw (get, here) refl
  ]

  unchanged :
      (dst : Tree) (e old x : Entry)
      → M.get dst e ≡ some old
      → e.val ≡ old.val
      → value_of (M.get dst x) ≡ (if same_entry e x then some e.val else value_of (M.get dst x))
  unchanged dst e old x here equal = elim (Bool-cases (same_entry e x)) [
    | inl same ↦
        ap value_of (sym (get-cong dst e x same) ∙ here)
        ∙ ap some (sym equal)
        ∙ ap (λ b. if b then some e.val else value_of (M.get dst x)) (sym same)
    | inr other ↦ ap (λ b. if b then some e.val else value_of (M.get dst x)) (sym other)
  ]

  copy_entry-value_of :
      (dst : Tree) (e x : Entry)
      → value_of (M.get (copy_entry M dst e) x)
        ≡ (if same_entry e x then some e.val else value_of (M.get dst x))
  unfolding copy_entry
  copy_entry-value_of dst e x = elim (Option-cases (M.get dst e)) [
    | inl absent ↦
        rw (copy_entry, absent)
          (ap value_of (
              get-insert dst e x
              ∙ ap (λ o. if same_entry e x then some (or_else o e) else M.get dst x) absent)
            ∙ value_of-if (same_entry e x) e (M.get dst x))
    | inr (old, here) ↦ elim (Bool-cases (str_eq e.val old.val)) [
      | inl equal ↦
          rw (copy_entry, here, equal) (unchanged dst e old x here (str_eq-eq e.val old.val equal))
      | inr differ ↦
          rw (copy_entry, here, differ)
            (ap value_of (get-store dst e old x here)
              ∙ value_of-if (same_entry e x) e (M.get dst x))
    ]
  ]

  copy_entries-value_of :
      (es : List Entry) (dst : Tree) (x : Entry)
      → value_of (M.get (copy_entries M dst es) x) ≡ last_value x (value_of (M.get dst x)) es
  unfolding copy_entries
  copy_entries-value_of [] dst x = refl
  copy_entries-value_of (e ∷ es) dst x =
      copy_entries-value_of es (copy_entry M dst e) x
      ∙ ap (λ o. last_value x o es) (copy_entry-value_of dst e x)

  -- What is found for a key after another was set: the value that was set if the two compare equal,
  -- whatever the default is, and else what was found before.
  pub get-set :
      (cfg : Tree) (key other val : List ℕ) (def : Option (List ℕ))
      → get M (set M cfg key val).0 other def
        ≡ (if same_text key other then some val else get M cfg other def)
  unfolding get set
  get-set cfg key other val def =
      let e : Entry = record { key = key; val = val } in
      let before : Option Entry = M.get cfg (search M other) in
      get-value_of (set M cfg key val).0 other def
      ∙ ap (λ (o : Option Entry). or_default (value_of o) def)
          (get-replace M cfg e (search M other))
      ∙ or_default-if (same_text key other) e before def
      ∙ ap (λ v. if same_text key other then some val else v) (sym (get-value_of cfg other def))

  last_value-to_list :
      (src : Tree) (x : Entry) (old : Option (List ℕ))
      → last_value x old (to_list src) ≡ or_default (value_of (M.get src x)) old
  last_value-to_list src x old = elim (Option-cases (M.get src x)) [
    | inl absent ↦ rw absent (
        last_value-absent x old (to_list src) (λ e i. elim (Bool-cases (same_entry e x)) [
          | inr other ↦ other
          | inl same ↦
              absurd (none-ne-some e (sym absent ∙ sym (get-cong src e x same) ∙ found src e i))
        ]))
    | inr (e, here) ↦ rw here (
        last_value-present x e old (to_list src)
          (listed src e (get-cong src e x (get-same src x e here) ∙ here)) (get-same src x e here)
          (λ d i same. some-injective d e (sym (found src d i) ∙ get-cong src d x same ∙ here)))
  ]

  copied :
      (src dst : Tree) (key : List ℕ) (def : Option (List ℕ))
      → get M (copy M src dst) key def ≡ get M src key (get M dst key def)
  unfolding copy
  copied src dst key def =
      let x = search M key in
      get-value_of (copy M src dst) key def
      ∙ ap (λ v. or_default v def)
          (copy_entries-value_of (to_list src) dst x
            ∙ last_value-to_list src x (value_of (M.get dst x)))
      ∙ or_default_assoc (value_of (M.get src x)) (value_of (M.get dst x)) def
      ∙ ap (or_default (value_of (M.get src x))) (sym (get-value_of dst key def))
      ∙ sym (get-value_of src key (get M dst key def))

  -- After a configuration was copied into another one, what is found there for any key is what the
  -- first one has for it, and else what was there before: the same that `cw_cfg_get2`, and the lookup
  -- in the list of the two, find without a copy.
  pub get-copy :
      (src dst : Tree) (key : List ℕ) (def : Option (List ℕ))
      → (get M (copy M src dst) key def ≡ get2 M src dst key def)
        × (get_l M (src ∷ dst ∷ []) key def ≡ get2 M src dst key def)
  unfolding get2 get_l get
  get-copy src dst key def = (copied src dst key def, refl)
