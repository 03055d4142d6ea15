-- ===== src/Value/Struct.antt =====
-- Elements made of several fields, src/cw/cw_type_struct.c. `read_struct` reads at `src` in a memory, `write_struct`
-- writes at `dst`; `pos` counts from there.
pub mod Layout
use Prim.Native.Nat.{bit_and}
use actube.Base.{
  ℕ, ◌+◌, ◌-◌, Bool, true, false, Option, none, some, List, [], ◌∷◌, ◌++◌, ◌&&◌, ltb, leb,
  if◌then◌else◌, ℤ, pos, negsuc, sub_ℕ, pos_part, neg_part, Mem, get_word,
}
use actube.MsgSet.Mavl.{Mavl}
use actube.Cfg.Store.{Entry, same_entry, get_l}

-- The `read` and `write` of a `struct cw_Type`, with the `valguard` that the field has for them. Both
-- return a number of bytes.
pub record Kind (Tree : Type 0) : Type 0 where
  pub read : Tree → List ℕ → Mem → ℕ → ℤ → Tree × ℤ
  pub write : List Tree → List ℕ → Mem → ℕ → Mem × ℤ

-- The `len` of a field: its bytes, all that is left (-1), or a length that stands in front
-- (CW_STRUCT_LEN_BYTE, CW_STRUCT_LEN_WORD).
pub data Len : Type 0 where
  fixed : ℕ → Len
  rest : Len
  byte_len : Len
  word_len : Len

pub record Field (Tree : Type 0) : Type 0 where
  pub kind : Kind Tree
  pub key : Option (List ℕ)
  pub len : Len
  pub position : Option ℕ

-- "%s/%s", or the key of the struct alone.
abbrev pub field_key : List ℕ → Option (List ℕ) → List ℕ
field_key pkey none = pkey
field_key pkey (some key) = pkey ++ b'/' ∷ key

abbrev pub start_at : Option ℕ → ℕ → ℕ
start_at none at = at
start_at (some p) at = p

-- Where the position is an int that is negative there is none.
abbrev pub moved : ℕ → ℤ → Option ℕ
moved at (pos n) = some (at + n)
moved at (negsuc n) = if leb (n + 1) at then some (at - (n + 1)) else none

-- The length that is passed to `read`, and the position then.
unfoldable pub read_len : Mem → ℕ → ℕ → Len → ℕ → ℤ × ℕ
read_len m src len byte_len at = (pos (m (src + at)), at + 1)
read_len m src len word_len at = (pos (get_word m (src + at)), at + 1)
read_len m src len rest at = (sub_ℕ len at, at)
read_len m src len (fixed n) at = (if ltb len (at + n) then sub_ℕ len at else pos n, at)

-- What the position moves on by; `l` is what `read` returned.
abbrev pub moves_by : Len → ℤ → ℤ
moves_by rest l = l
moves_by byte_len l = negsuc 2
moves_by word_len l = negsuc 1
moves_by (fixed n) l = pos n

-- Only a field without a position of its own moves it.
abbrev pub next_pos : Option ℕ → ℕ → ℤ → Option ℕ
next_pos none at by = moved at by
next_pos (some p) at by = some at

-- `memset` to 0.
unfoldable pub clear : Mem → ℕ → ℕ → Mem
clear m at n i = if leb at i && ltb i (at + n) then 0 else m i

module _ (M : Mavl Entry same_entry) where
  open M use {Tree}

  -- `none`: a position in front of the data.
  unfoldable pub read_fields :
      Tree → List (Field Tree) → List ℕ → Mem → ℕ → ℕ → ℕ → Option (Tree × ℕ)
  unfolding read_len
  read_fields cfg [] pkey m src len at = some (cfg, at)
  read_fields cfg (f ∷ fs) pkey m src len at =
      let (l, here) = read_len m src len f.len (start_at f.position at) in
      let (cfg', n) = f.kind.read cfg (field_key pkey f.key) m (src + here) l in
      elim (next_pos f.position here (moves_by f.len n)) [
        | none ↦ none
        | some next ↦ read_fields cfg' fs pkey m src len next
      ]

  unfoldable pub read_struct : Tree → List (Field Tree) → List ℕ → Mem → ℕ → ℕ → Option (Tree × ℕ)
  unfolding read_fields
  read_struct cfg stru pkey m src len = read_fields cfg stru pkey m src len 0

  -- One field; `none` where `memset` is given a negative length, as happens for a length in front, and
  -- for a field without a fixed length that has no value.
  unfoldable pub write_field : List Tree → Kind Tree → List ℕ → Len → Mem → ℕ → ℕ → Option (Mem × ℕ)
  unfolding clear
  write_field cfgs kind key (fixed n) m dst at =
      let zeros = clear m (dst + at) n in
      elim (get_l M cfgs key none) [
        | none ↦ some (zeros, at + n)
        | some s ↦ some ((kind.write cfgs key zeros (dst + at)).0, at + n)
      ]
  write_field cfgs kind key rest m dst at = elim (get_l M cfgs key none) [
    | none ↦ none
    | some s ↦
        let (m', n) = kind.write cfgs key m (dst + at) in
        elim (moved at n) [ none ↦ none | some next ↦ some (m', next) ]
  ]
  write_field cfgs kind key byte_len m dst at = none
  write_field cfgs kind key word_len m dst at = none

  unfoldable pub write_fields :
      List Tree → List (Field Tree) → List ℕ → Mem → ℕ → ℕ → Option (Mem × ℕ)
  unfolding write_field
  write_fields cfgs [] pkey m dst at = some (m, at)
  write_fields cfgs (f ∷ fs) pkey m dst at =
      elim (write_field cfgs f.kind (field_key pkey f.key) f.len m dst (start_at f.position at)) [
        | none ↦ none
        | some (m', next) ↦ write_fields cfgs fs pkey m' dst next
      ]

  unfoldable pub write_struct : List Tree → List (Field Tree) → List ℕ → Mem → ℕ → Option (Mem × ℕ)
  unfolding write_fields
  write_struct cfgs stru pkey m dst = write_fields cfgs stru pkey m dst 0
