-- ===== src/Value/Kinds/Positioned.antt =====
-- A struct whose first field has a position of its own: where `write_struct` of
-- src/cw/cw_type_struct.c puts the field behind it, and where `read_struct` looks for it.
use actube.Base.{
  ℕ, ◌+◌, ◌%◌, ◌^◌, ◌<◌, ◌≡◌, refl, ap, ◌∙◌, inl, arith, Option, none, some, List, [], ◌∷◌,
  if◌then◌else◌, ℤ, pos, Mem, get_word, set_word, get_word-set_word, set_word_outside,
}
use actube.MsgSet.Mavl.{Mavl}
use actube.Message.Put.{word_ext}
use actube.Cfg.Key.Compared.{same_text_self}
use actube.Cfg.Store.{Entry, same_entry, get, get_l, set}
use actube.Cfg.Store.Found.{get-set}
use actube.Value.Decimal.{print_int, atoi-print_int}
use actube.Value.Number.{to_unsigned, to_int, bread_word, write_word, word_from_str}
use actube.Value.Struct.{
  Kind, Field, fixed, field_key, read_len, read_fields, read_struct, clear, write_field,
  write_fields, write_struct,
}
use actube.Value.Struct.Layout.{clear-Outside}
use actube.Value.Kinds.{generic_write_l, store_text, word_kind}

word-to_int : (n : ℕ) → n < 2 ^ 16 → to_int n ≡ pos n
word-to_int n h = ground arith

word_from_str-print_int : (n : ℕ) → n < 2 ^ 16 → word_from_str (print_int (pos n)) % 2 ^ 16 ≡ n
unfolding word_from_str
word_from_str-print_int n h =
    ap (λ (z : ℤ). to_unsigned (2 ^ 16) z % 2 ^ 16) (atoi-print_int (pos n)) ∙ omega (arith, h)

-- A word is put over zeros.
abbrev put_word : Mem → ℕ → ℕ → Mem
put_word m at n = set_word (clear m at 2) at (word_from_str (print_int (pos n)))

put_word_inside : (m : Mem) (at n : ℕ) → n < 2 ^ 16 → get_word (put_word m at n) at ≡ n
put_word_inside m at n h = get_word-set_word (clear m at 2) at _ ∙ word_from_str-print_int n h

put_word_front : (m : Mem) (at n i : ℕ) → i < at → put_word m at n i ≡ m i
put_word_front m at n i h =
    set_word_outside (clear m at 2) at _ i (inl h) ∙ clear-Outside m at 2 i (inl h)

module _ (M : Mavl Entry same_entry) where
  open M use {Tree}

  abbrev pub word_field : List ℕ → Option ℕ → Field Tree
  word_field key position = record {
    kind = word_kind M;
    key = some key;
    len = fixed 2;
    position = position;
  }

  -- Two words: the first at `p`, the second behind it.
  abbrev pub positioned_words : List ℕ → List ℕ → ℕ → List (Field Tree)
  positioned_words key1 key2 p = word_field key1 (some p) ∷ word_field key2 none ∷ []

  field_written :
      (cfgs : List Tree) (kind : Kind Tree) (key : List ℕ) (n : ℕ) (s : List ℕ) (m : Mem)
      (dst at : ℕ)
      → get_l M cfgs key none ≡ some s
      → write_field M cfgs kind key (fixed n) m dst at
        ≡ some ((kind.write cfgs key (clear m (dst + at) n) (dst + at)).0, at + n)
  unfolding write_field
  field_written cfgs kind key n s m dst at h = rw (write_field, h) refl

  word_put :
      (cfgs : List Tree) (key s : List ℕ) (m : Mem) (at : ℕ)
      → get_l M cfgs key none ≡ some s
      → ((word_kind M).write cfgs key m at).0 ≡ set_word m at (word_from_str s)
  unfolding word_kind generic_write_l write_word
  word_put cfgs key s m at h = rw (generic_write_l, h) refl

  word_written :
      (cfgs : List Tree) (key : List ℕ) (n : ℕ) (m : Mem) (dst at : ℕ)
      → get_l M cfgs key none ≡ some (print_int (pos n))
      → write_field M cfgs (word_kind M) key (fixed 2) m dst at
        ≡ some (put_word m (dst + at) n, at + 2)
  word_written cfgs key n m dst at h =
      field_written cfgs (word_kind M) key 2 (print_int (pos n)) m dst at h
      ∙ ap (λ (k : Mem). some (k, at + 2))
          (word_put cfgs key (print_int (pos n)) (clear m (dst + at) 2) (dst + at) h)

  -- A struct of two words, the first with a position `p` and the second without. Both are in the
  -- configuration as numbers of 16 bits. The writer puts the first at `p`, the second behind it, and
  -- ends behind both; but the reader, on what was written, reads the second where the first one is:
  -- it ends two bytes before the writer, and stores the first number under the second key.
  pub struct_positioned :
      (other : Tree) (cfgs : List Tree) (pkey key1 key2 : List ℕ) (p v1 v2 : ℕ) (m : Mem)
      (dst len : ℕ)
      → get_l M cfgs (field_key pkey (some key1)) none ≡ some (print_int (pos v1))
      → get_l M cfgs (field_key pkey (some key2)) none ≡ some (print_int (pos v2))
      → v1 < 2 ^ 16
      → v2 < 2 ^ 16
      → (m' : Mem) × (write_struct M cfgs (positioned_words key1 key2 p) pkey m dst
          ≡ some (m', p + 4))
        × (get_word m' (dst + p) ≡ v1)
        × (get_word m' (dst + p + 2) ≡ v2)
        × ((cfg' : Tree) × (read_struct M other (positioned_words key1 key2 p) pkey m' dst len
              ≡ some (cfg', p + 2))
            × (get M cfg' (field_key pkey (some key2)) none ≡ some (print_int (pos v1))))
  unfolding write_struct write_fields read_struct read_fields read_len word_kind store_text
      bread_word
  struct_positioned other cfgs pkey key1 key2 p v1 v2 m dst len has1 has2 fits1 fits2 =
      let k1 = field_key pkey (some key1) in
      let k2 = field_key pkey (some key2) in
      let m1 = put_word m (dst + p) v1 in
      let m2 = put_word m1 (dst + (p + 2)) v2 in
      let at_first : get_word m2 (dst + p) ≡ v1 =
        word_ext m2 m1 (dst + p) (put_word_front m1 (dst + (p + 2)) v2 (dst + p) (omega arith))
          (put_word_front m1 (dst + (p + 2)) v2 (dst + p + 1) (omega arith))
        ∙ put_word_inside m (dst + p) v1 fits1 in
      let text = print_int (to_int (get_word m2 (dst + p))) in
      let cfg1 = (set M other k1 text).0 in
      (
        m2,
        rw
            (
              write_fields,
              word_written cfgs k1 v1 m dst p has1,
              word_written cfgs k2 v2 m1 dst (p + 2) has2,
            )
            (ap (λ (n : ℕ). some (m2, n)) (omega arith)),
        at_first,
        ap (get_word m2) (omega arith) ∙ put_word_inside m1 (dst + (p + 2)) v2 fits2,
        (
          (set M cfg1 k2 text).0,
          refl,
          get-set M cfg1 k2 k2 text none
              ∙ ap (λ b. if b then some text else get M cfg1 k2 none) (same_text_self k2)
              ∙ ap (λ (w : ℕ). some (print_int (to_int w))) at_first
              ∙ ap (λ (z : ℤ). some (print_int z)) (word-to_int v1 fits1),
        ),
      )
