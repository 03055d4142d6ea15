-- ===== src/Cfg/Store.antt =====
-- The configuration as a store, src/cw/cfg.c: a tree of keys and values. No allocation fails.
pub mod Found
use actube.Base.{
  ℕ, Bool, true, false, Option, none, some, List, [], ◌∷◌, ◌++◌, ◌≡◌, ℤ, pos, negsuc, if◌then◌else◌,
}
use actube.MsgSet.Mavl.{Mavl}
use actube.MsgSet.Mavl
use actube.Cfg.Key.{same_text}
use actube.Value.Decimal.{print_int}
use actube.Value.Byte.{str_eq}

-- `struct cw_Cfg_entry`
pub record Entry : Type 0 where
  pub key : List ℕ
  pub val : List ℕ

abbrev pub same_entry : Entry → Entry → Bool
same_entry e1 e2 = same_text e1.key e2.key

module _ (M : Mavl Entry same_entry) where
  open M use {Tree, insert, store, to_list}

  abbrev pub search : List ℕ → Entry
  search key = record { key = key; val = [] }

  -- The value of the key, or the default.
  unfoldable pub get : Tree → List ℕ → Option (List ℕ) → Option (List ℕ)
  get cfg key def = elim (M.get cfg (search key)) [ none ↦ def | some e ↦ some e.val ]

  -- 1 for a new key, -1 for one that was there.
  unfoldable pub set : Tree → List ℕ → List ℕ → Tree × ℤ
  set cfg key val =
      let e : Entry = record { key = key; val = val } in
      (Mavl.replace M cfg e, elim (M.get cfg e) [ none ↦ pos 1 | some old ↦ negsuc 0 ])

  unfoldable pub set_int : Tree → List ℕ → ℤ → Tree
  unfolding set
  set_int cfg key val = (set cfg key (print_int val)).0

  -- The first of the configurations that has the key.
  unfoldable pub get_l : List Tree → List ℕ → Option (List ℕ) → Option (List ℕ)
  get_l [] key def = def
  get_l (cfg ∷ cfgs) key def = elim (M.get cfg (search key)) [
    | none ↦ get_l cfgs key def
    | some e ↦ some e.val
  ]

  unfoldable pub get2 : Tree → Tree → List ℕ → Option (List ℕ) → Option (List ℕ)
  unfolding get
  get2 cfg1 cfg2 key def = get cfg1 key (get cfg2 key def)

  -- An entry is inserted; one that was there with another value is written over.
  unfoldable pub copy_entry : Tree → Entry → Tree
  copy_entry dst e = elim (M.get dst e) [
    | none ↦ insert dst e
    | some old ↦ if str_eq e.val old.val then dst else store dst e
  ]

  unfoldable pub copy_entries : Tree → List Entry → Tree
  unfolding copy_entry
  copy_entries dst [] = dst
  copy_entries dst (e ∷ es) = copy_entries (copy_entry dst e) es

  unfoldable pub copy : Tree → Tree → Tree
  unfolding copy_entries
  copy src dst = copy_entries dst (to_list src)
