-- ===== src/Tests/Stores.antt =====
-- Examples for the configuration of src/cw/cfg.c, over a list for the tree.
use actube.Base.{
  ℕ, ◌≡◌, ◌↔◌, refl, ℤ, arith, true, Option, none, some, List, [], ◌∷◌, Mem, pos, ◌%◌, get_word,
  get_dword, inr,
}
use actube.MsgSet.Mavl.{Mavl}
use actube.MsgSet.Elements.{IsSame}
use actube.Cfg.Key.{is_zero, cmp0}
use actube.Cfg.Key.Compared.{same_text_self}
use actube.Cfg.Key.Parts.{parts}
use actube.Cfg.Key.Parts.Equal.{cmp0-parts, same_text_sym, same_text_trans}
use actube.Cfg.Store.{Entry, same_entry, get, get2, get_l, set, copy}
use actube.Cfg.Store.Found.{get-copy}
use actube.Value.Struct.{Field, fixed, field_key, read_struct, write_struct}
use actube.Value.Struct.Layout.{IsRow, struct_row}
use actube.Value.Kinds.Positioned.{positioned_words, struct_positioned}
use actube.Value.Kinds.{word_kind, dword_kind, word_kind-Fits}
use actube.Value.Decimal.{print_int}
use actube.Message.{get_elem_id, get_elem_len}
use actube.Cfg.Store.{set_int}
use actube.Generic.{in_generic, out_generic}
use actube.Value.Kinds.RoundTrip.{write-read}
use actube.Generic.Delivery.{word_handler, word_delivered}
use actube.Tests.ListMap.{list_map}

same_entry-IsSame : IsSame same_entry
same_entry-IsSame = record {
  sym_lem = λ x y. same_text_sym x.key y.key;
  trans_lem = λ x y z h. same_text_trans x.key y.key z.key h;
}

same_entry_self : (e : Entry) → same_entry e e ≡ true
same_entry_self e = same_text_self e.key

abbrev entry_map : Mavl Entry same_entry
entry_map = list_map same_entry same_entry-IsSame same_entry_self

-- "r.1" and "r.01" are the same key, and "r.2" is another one.
abbrev key : List ℕ
key = b'r' ∷ b'.' ∷ b'1' ∷ []

abbrev same_key : List ℕ
same_key = b'r' ∷ b'.' ∷ b'0' ∷ b'1' ∷ []

abbrev other_key : List ℕ
other_key = b'r' ∷ b'.' ∷ b'2' ∷ []

abbrev val : List ℕ
val = b'v' ∷ []

cmp0-parts_example :
    (z : ℤ) × (cmp0 4 key same_key ≡ some z) × ((is_zero z ≡ true) ↔ (parts key ≡ parts same_key))
cmp0-parts_example = cmp0-parts key same_key

abbrev one_entry : entry_map.Tree
one_entry = (set entry_map entry_map.empty key val).0

get-copy_example :
    (get entry_map (copy entry_map one_entry entry_map.empty) same_key none
      ≡ get2 entry_map one_entry entry_map.empty same_key none)
    × (get_l entry_map (one_entry ∷ entry_map.empty ∷ []) same_key none
        ≡ get2 entry_map one_entry entry_map.empty same_key none)
get-copy_example = get-copy entry_map one_entry entry_map.empty same_key none

abbrev message : Mem
message i = i % 256

write-read_example :
    (get_word
        ((word_kind entry_map).write
          (((word_kind entry_map).read entry_map.empty key message 4 (pos 2)).0 ∷ [])
          key
          message
          9).0
        9
      ≡ get_word message 4)
    × (((word_kind entry_map).write
          (((word_kind entry_map).read entry_map.empty key message 4 (pos 2)).0 ∷ [])
          key
          message
          9).1
        ≡ pos 2)
    × (get_dword
          ((dword_kind entry_map).write
            (((dword_kind entry_map).read entry_map.empty key message 4 (pos 2)).0 ∷ [])
            key
            message
            9).0
          9
        ≡ get_dword message 4)
    × (((dword_kind entry_map).write
          (((dword_kind entry_map).read entry_map.empty key message 4 (pos 2)).0 ∷ [])
          key
          message
          9).1
        ≡ pos 4)
write-read_example =
    write-read entry_map entry_map.empty [] key message message 4 9 (pos 2) (λ i. omega arith)

word_delivered_example :
    (m : Mem) × (out_generic
        (word_handler entry_map 36 key)
        (set_int entry_map entry_map.empty key (pos 258) ∷ [])
        message
        9
      ≡ some (m, 6))
    × (get_elem_id m 9 ≡ 36)
    × (get_elem_len m 9 ≡ 2)
    × (get entry_map
          (in_generic (word_handler entry_map 36 key) entry_map.empty m 13 (pos 2)).0
          key
          none
        ≡ some (print_int (pos 258)))
word_delivered_example =
    word_delivered entry_map 36 key entry_map.empty entry_map.empty [] 258 message 9 (omega arith)
      (omega arith)

abbrev word_field : Option ℕ → Field entry_map.Tree
word_field position = record {
  kind = word_kind entry_map;
  key = some val;
  len = fixed 2;
  position = position;
}

abbrev two_words : List (Field entry_map.Tree)
two_words = word_field none ∷ word_field none ∷ []

two_words-IsRow : IsRow two_words (2 ∷ 2 ∷ [])
two_words-IsRow = (refl, refl, word_kind-Fits entry_map, (refl, refl, word_kind-Fits entry_map, tt))

struct_row_example :
    ((m : Mem) × (write_struct entry_map [] two_words key message 6 ≡ some (m, 4)) × (m 10 ≡ 10))
    × ((cfg : entry_map.Tree) × (read_struct entry_map entry_map.empty two_words key message 6 4
          ≡ some (cfg, 4)))
struct_row_example =
    struct_row entry_map entry_map.empty [] two_words (2 ∷ 2 ∷ []) key message 6 4 10
      two_words-IsRow (inr (omega arith))

abbrev second_val : List ℕ
second_val = b'w' ∷ []

abbrev two_entries : entry_map.Tree
two_entries =
    (set entry_map (set entry_map entry_map.empty (field_key key (some val)) (print_int (pos 5))).0
      (field_key key (some second_val)) (print_int (pos 7))).0

has_first :
    get_l entry_map (two_entries ∷ []) (field_key key (some val)) none ≡ some (print_int (pos 5))
unfolding get_l set print_int list_map actube.MsgSet.Elements.look actube.MsgSet.Mavl.replace
    actube.Cfg.Key.same_text actube.Value.Byte.str_eq actube.Value.Decimal.atoi
    actube.Cfg.Key.strcmp
has_first = refl

has_second :
    get_l entry_map (two_entries ∷ []) (field_key key (some second_val)) none
    ≡ some (print_int (pos 7))
unfolding get_l set print_int list_map actube.MsgSet.Elements.look actube.MsgSet.Mavl.replace
    actube.Cfg.Key.same_text actube.Value.Byte.str_eq actube.Value.Decimal.atoi
    actube.Cfg.Key.strcmp
has_second = refl

struct_positioned_example :
    (m : Mem) × (write_struct entry_map
        (two_entries ∷ [])
        (positioned_words entry_map val second_val 8)
        key
        message
        6
      ≡ some (m, 12))
    × (get_word m 14 ≡ 5)
    × (get_word m 16 ≡ 7)
    × ((cfg : entry_map.Tree) × (read_struct entry_map entry_map.empty
            (positioned_words entry_map val second_val 8)
            key
            m
            6
            12
          ≡ some (cfg, 10))
        × (get entry_map cfg (field_key key (some second_val)) none ≡ some (print_int (pos 5))))
struct_positioned_example =
    struct_positioned entry_map entry_map.empty (two_entries ∷ []) key val second_val 8 5 7 message
      6 12 has_first has_second (omega arith) (omega arith)
