-- ===== src/Value/Kinds/RoundTrip.antt =====
-- A word and a dword on their way from a message into the configuration, and from there into a message.
use actube.Base.{
  ℕ, ◌≡◌, ap, ◌∙◌, Option, none, some, List, ◌∷◌, ℤ, pos, negsuc, Mem, IsBytes, get_word, get_dword,
  if◌then◌else◌,
}
use actube.MsgSet.Mavl.{Mavl}
use actube.Cfg.Key.Compared.{same_text_self}
use actube.Cfg.Store.{Entry, same_entry, get, get_l, set}
use actube.Cfg.Store.Found.{get-set}
use actube.Value.Number.{bread_word, write_word, bread_dword, write_dword, write-bread}
use actube.Value.Kinds.{generic_write_l, store_text, word_kind, dword_kind}

module _ (M : Mavl Entry same_entry) where
  open M use {Tree}

  get_l-set :
      (cfg : Tree) (cfgs : List Tree) (key val : List ℕ)
      → get_l M ((set M cfg key val).0 ∷ cfgs) key none ≡ some val
  unfolding get_l get
  get_l-set cfg cfgs key val =
      get-set M cfg key key val (get_l M cfgs key none)
      ∙ ap (λ b. if b then some val else get M cfg key (get_l M cfgs key none)) (same_text_self key)

  pub generic_write_l-set :
      (put : List ℕ → Mem × ℕ) (cfg : Tree) (cfgs : List Tree) (key val : List ℕ) (m : Mem)
      → generic_write_l M put ((set M cfg key val).0 ∷ cfgs) key m ≡ ((put val).0, pos (put val).1)
  unfolding generic_write_l
  generic_write_l-set put cfg cfgs key val m =
      ap
        (λ (o : Option (List ℕ)). elim o as (λ x. Mem × ℤ) [
          | none ↦ (m, negsuc 0)
          | some s ↦ ((put s).0, pos (put s).1)
        ])
        (get_l-set cfg cfgs key val)

  -- A word and a dword that are read from a message into a configuration, under any key, are written
  -- into a message as they were if that configuration is the first of the list that is looked through;
  -- and the writers return their sizes.
  pub write-read :
      (cfg : Tree) (cfgs : List Tree) (key : List ℕ) (m k : Mem) (src dst : ℕ) (len : ℤ)
      → IsBytes m
      → (get_word
            ((word_kind M).write (((word_kind M).read cfg key m src len).0 ∷ cfgs) key k dst).0
            dst
          ≡ get_word m src)
        × (((word_kind M).write (((word_kind M).read cfg key m src len).0 ∷ cfgs) key k dst).1
            ≡ pos 2)
        × (get_dword
              ((dword_kind M).write (((dword_kind M).read cfg key m src len).0 ∷ cfgs) key k dst).0
              dst
            ≡ get_dword m src)
        × (((dword_kind M).write (((dword_kind M).read cfg key m src len).0 ∷ cfgs) key k dst).1
            ≡ pos 4)
  unfolding word_kind dword_kind store_text write_word write_dword
  write-read cfg cfgs key m k src dst len bytes =
      let w = generic_write_l-set (write_word k dst) cfg cfgs key (bread_word m src).0 k in
      let d = generic_write_l-set (write_dword k dst) cfg cfgs key (bread_dword m src).0 k in
      let back = write-bread m k src dst bytes in
      (
        ap (λ (r : Mem × ℤ). get_word r.0 dst) w ∙ back.0,
        ap (λ (r : Mem × ℤ). r.1) w,
        ap (λ (r : Mem × ℤ). get_dword r.0 dst) d ∙ back.1,
        ap (λ (r : Mem × ℤ). r.1) d,
      )
