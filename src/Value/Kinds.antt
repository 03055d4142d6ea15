-- ===== src/Value/Kinds.antt =====
-- The types `cw_type_byte`, `cw_type_word`, `cw_type_dword` and `cw_type_bool` on the configuration: their `bread`
-- with `cw_cfg_set`, and their `bwrite` by way of `cw_generic_write_l` of src/cw/val.c.
pub mod RoundTrip
pub mod Positioned
use actube.Base.{
  ℕ, ◌+◌, ◌≤◌, ◌<◌, ◌≡◌, ◌⊎◌, refl, ◌∙◌, inl, inr, arith, Option, none, some, List, [], ◌∷◌, ℤ, pos,
  negsuc, Mem, set_byte, set_word, set_dword, set_word_outside, set_dword_outside, if◌then◌else◌,
  ltb, leb, ◌==◌, Option-cases,
}
use actube.MsgSet.Mavl.{Mavl}
use actube.Cfg.Store.{Entry, same_entry, get, get_l, set}
use actube.Value.Number.{
  bread_word, write_word, bread_dword, write_dword, bread_bool, write_bool, bool_from_str,
  word_from_str,
}
use actube.Value.Byte.{Range, bread_byte, byte_from_str}
use actube.Value.Struct.{Kind}
use actube.Value.Struct.Layout.{Fits}

module _ (M : Mavl Entry same_entry) where
  open M use {Tree}

  -- -1 if there is no value, and then nothing is written.
  unfoldable pub generic_write_l : (List ℕ → Mem × ℕ) → List Tree → List ℕ → Mem → Mem × ℤ
  generic_write_l put cfgs key m = elim (get_l M cfgs key none) [
    | none ↦ (m, negsuc 0)
    | some s ↦ let (m', n) = put s in (m', pos n)
  ]

  -- The text is stored under the key.
  unfoldable pub store_text : Tree → List ℕ → List ℕ × ℕ → Tree × ℤ
  store_text cfg key (text, n) = ((set M cfg key text).0, pos n)

  unfoldable pub byte_kind : List Range → Kind Tree
  unfolding store_text generic_write_l
  byte_kind ranges = record {
    read = λ cfg key m src len. store_text cfg key (bread_byte ranges (m src), 1);
    write = λ cfgs key m dst.
        generic_write_l (λ s. (set_byte m dst (byte_from_str ranges s), 1)) cfgs key m;
  }

  unfoldable pub word_kind : Kind Tree
  unfolding store_text generic_write_l
  word_kind = record {
    read = λ cfg key m src len. store_text cfg key (bread_word m src);
    write = λ cfgs key m dst. generic_write_l (write_word m dst) cfgs key m;
  }

  unfoldable pub dword_kind : Kind Tree
  unfolding store_text generic_write_l
  dword_kind = record {
    read = λ cfg key m src len. store_text cfg key (bread_dword m src);
    write = λ cfgs key m dst. generic_write_l (write_dword m dst) cfgs key m;
  }

  unfoldable pub bool_kind : Kind Tree
  unfolding store_text generic_write_l
  bool_kind = record {
    read = λ cfg key m src len. store_text cfg key (bread_bool m src);
    write = λ cfgs key m dst. generic_write_l (write_bool m dst) cfgs key m;
  }

  -- The getters of src/cw/cfg.c by type, with the default for a key that is not there.
  unfoldable pub get_bool : Tree → List ℕ → ℕ → ℕ
  get_bool cfg key def = elim (get M cfg key none) [ none ↦ def | some s ↦ bool_from_str s ]

  unfoldable pub get_byte : Tree → List ℕ → ℕ → ℕ
  get_byte cfg key def = elim (get M cfg key none) [ none ↦ def | some s ↦ byte_from_str [] s ]

  unfoldable pub get_byte_l : List Tree → List ℕ → ℕ → ℕ
  get_byte_l cfgs key def = elim (get_l M cfgs key none) [
    | none ↦ def
    | some s ↦ byte_from_str [] s
  ]

  unfoldable pub get_word_cfg : Tree → List ℕ → ℕ → ℕ
  get_word_cfg cfg key def = elim (get M cfg key none) [ none ↦ def | some s ↦ word_from_str s ]

  unfoldable pub get_word_l : List Tree → List ℕ → ℕ → ℕ
  get_word_l cfgs key def = elim (get_l M cfgs key none) [ none ↦ def | some s ↦ word_from_str s ]

  generic_write_l_kept :
      (put : List ℕ → Mem × ℕ) (cfgs : List Tree) (key : List ℕ) (m : Mem) (i : ℕ)
      → ((s : List ℕ) → (put s).0 i ≡ m i)
      → (generic_write_l put cfgs key m).0 i ≡ m i
  unfolding generic_write_l
  generic_write_l_kept put cfgs key m i kept = elim (Option-cases (get_l M cfgs key none)) [
    | inl absent ↦ rw (generic_write_l, absent) refl
    | inr (s, here) ↦ rw (generic_write_l, here) (kept s)
  ]

  -- Each type writes within its size.
  pub byte_kind-Fits : (ranges : List Range) → Fits (byte_kind ranges) 1
  unfolding byte_kind set_byte
  byte_kind-Fits ranges cfgs key m at i out =
      generic_write_l_kept (λ s. (set_byte m at (byte_from_str ranges s), 1)) cfgs key m i
        (λ s. ground arith)

  pub word_kind-Fits : Fits word_kind 2
  unfolding word_kind write_word
  word_kind-Fits cfgs key m at i out =
      generic_write_l_kept (write_word m at) cfgs key m i (λ s. set_word_outside m at _ i out)

  pub dword_kind-Fits : Fits dword_kind 4
  unfolding dword_kind write_dword
  dword_kind-Fits cfgs key m at i out =
      generic_write_l_kept (write_dword m at) cfgs key m i (λ s. set_dword_outside m at _ i out)
