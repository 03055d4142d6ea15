-- ===== src/Generic/Delivery.antt =====
-- A number on its way from one configuration, through an element of a message, into another.
use actube.Base.{
  ℕ, ◌+◌, ◌%◌, ◌^◌, ◌<◌, ◌≡◌, ap, ◌∙◌, inr, arith, none, some, List, ◌∷◌, if◌then◌else◌, ℤ, pos,
  Mem, get_word, set_word, get_word-set_word, set_dword_outside,
}
use actube.MsgSet.Mavl.{Mavl}
use actube.Message.{get_elem_id, get_elem_len, put_elem_hdr}
use actube.Message.Put.{hdr_id, hdr_len, word_ext}
use actube.Cfg.Key.Compared.{same_text_self}
use actube.Cfg.Store.{Entry, same_entry, get, set_int}
use actube.Cfg.Store.Found.{get-set}
use actube.Value.Decimal.{print_int, atoi-print_int}
use actube.Value.Number.{to_unsigned, to_int, bread_word, write_word, word_from_str}
use actube.Value.Kinds.{word_kind, store_text}
use actube.Value.Kinds.RoundTrip.{generic_write_l-set}
use actube.Generic.{TypedHandler, in_generic, out_generic, finish_element, write_header}

word-to_int : (n : ℕ) → n < 2 ^ 16 → to_int n ≡ pos n
word-to_int n h = ground arith

module _ (M : Mavl Entry same_entry) (id : ℕ) (key : List ℕ) where
  open M use {Tree}

  -- The handler of an element that is one word.
  abbrev pub word_handler : TypedHandler Tree
  word_handler = record { id = id; vendor = 0; kind = some (word_kind M); key = key; mkkey = none }

  module _ (n : ℕ) (m : Mem) (dst : ℕ) where
    abbrev data_written : Mem
    data_written = set_word m (dst + 4) (word_from_str (print_int (pos n)))

    abbrev written : Mem
    written = (put_elem_hdr data_written dst id 2).0

    out_generic-word :
        (cfg : Tree) (cfgs : List Tree)
        → out_generic word_handler (set_int M cfg key (pos n) ∷ cfgs) m dst ≡ some (written, 6)
    unfolding out_generic write_header set_int word_kind write_word
    out_generic-word cfg cfgs =
        ap (finish_element word_handler dst)
          (generic_write_l-set M (write_word m (dst + 4)) cfg cfgs key (print_int (pos n)) m)

    word_inside : n < 2 ^ 16 → get_word written (dst + 4) ≡ n
    unfolding put_elem_hdr word_from_str
    word_inside fits =
        word_ext written data_written (dst + 4)
          (set_dword_outside data_written dst _ (dst + 4) (inr (omega arith)))
          (set_dword_outside data_written dst _ (dst + 4 + 1) (inr (omega arith)))
        ∙ get_word-set_word m (dst + 4) _
        ∙ ap (λ (z : ℤ). to_unsigned (2 ^ 16) z % 2 ^ 16) (atoi-print_int (pos n))
        ∙ omega (arith, fits)

  -- A number of 16 bits that is set in the first configuration a message is made from is sent in an
  -- element with the handler's id and a length of 2, and found under the same key, and as the same
  -- text, in the configuration of the one who reads the element.
  pub word_delivered :
      (cfg other : Tree) (cfgs : List Tree) (n : ℕ) (m : Mem) (dst : ℕ)
      → n < 2 ^ 16
      → id < 2 ^ 16
      → (m' : Mem) × (out_generic word_handler (set_int M cfg key (pos n) ∷ cfgs) m dst
          ≡ some (m', 6))
        × (get_elem_id m' dst ≡ id)
        × (get_elem_len m' dst ≡ 2)
        × (get M (in_generic word_handler other m' (dst + 4) (pos 2)).0 key none
            ≡ some (print_int (pos n)))
  unfolding in_generic word_kind store_text bread_word
  word_delivered cfg other cfgs n m dst fits id_fits =
      let m' = written n m dst in
      let k = data_written n m dst in
      (
        m',
        out_generic-word n m dst cfg cfgs,
        hdr_id k dst id 2 id_fits (omega arith),
        hdr_len k dst id 2 id_fits (omega arith),
        get-set M other key key (print_int (to_int (get_word m' (dst + 4)))) none
            ∙ ap
                (λ b.
                  if b
                  then some (print_int (to_int (get_word m' (dst + 4))))
                  else get M other key none)
                (same_text_self key)
            ∙ ap (λ (w : ℕ). some (print_int (to_int w))) (word_inside n m dst fits)
            ∙ ap (λ (z : ℤ). some (print_int z)) (word-to_int n fits),
      )
