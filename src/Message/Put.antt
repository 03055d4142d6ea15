-- ===== src/Message/Put.antt =====
-- The functions that put an element, src/cw/cw_inline.c: they write one element where they are told to.
use actube.Base.{
  ℕ, ◌+◌, ◌*◌, ◌/◌, ◌%◌, ◌^◌, ◌<◌, ◌≡◌, ◌≤◌, ◌⊎◌, refl, ap, ap₂, ◌∙◌, inl, arith, Mem, bit_or,
  bit_or_field, get_word, set_dword, memcpy, set_dword_outside, memcpy_outside, memcpy_inside,
}
use actube.Message.{get_elem_id, get_elem_len, put_elem_hdr, addelem}
use actube.Message.Elems.{IsElem}
use actube.Message.Encode.{Put}

pub elem_dword : (type len : ℕ) → len < 2 ^ 16 → bit_or (type * 2 ^ 16) len ≡ type * 2 ^ 16 + len
elem_dword type len h = ap₂ bit_or (omega arith) (omega arith) ∙ fields ∙ omega arith
  where
    fields :
        bit_or ((type * 2 ^ 16 + 0) * 2 ^ 0 + 0) ((0 * 2 ^ 16 + len) * 2 ^ 0 + 0)
        ≡ (type * 2 ^ 16 + len) * 2 ^ 0 + 0
    fields = bit_or_field 16 0 type len 0 (omega arith) (omega arith)

pub high_word : (m : Mem) (p v : ℕ) → get_word (set_dword m p v) p ≡ v / 2 ^ 16 % 2 ^ 16
unfolding get_word set_dword
high_word m p v = ground arith

pub low_word : (m : Mem) (p v : ℕ) → get_word (set_dword m p v) (p + 2) ≡ v % 2 ^ 16
unfolding get_word set_dword
low_word m p v = ground arith

pub word_ext : (m k : Mem) (p : ℕ) → m p ≡ k p → m (p + 1) ≡ k (p + 1) → get_word m p ≡ get_word k p
unfolding get_word
word_ext m k p a b = ap₂ (λ x y. x * 2 ^ 8 + y) a b

module _ (m : Mem) (dst type len : ℕ) (type_fits : type < 2 ^ 16) (len_fits : len < 2 ^ 16) where
  pub hdr_id : get_elem_id (put_elem_hdr m dst type len).0 dst ≡ type
  unfolding put_elem_hdr
  hdr_id =
      high_word m dst (bit_or (type * 2 ^ 16) len) ∙ rw (elem_dword type len len_fits) (omega arith)

  pub hdr_len : get_elem_len (put_elem_hdr m dst type len).0 dst ≡ len
  unfolding put_elem_hdr
  hdr_len =
      low_word m dst (bit_or (type * 2 ^ 16) len) ∙ rw (elem_dword type len len_fits) (omega arith)

  elsewhere :
      (bytes : Mem) (i : ℕ)
      → (i < dst) ⊎ (dst + (4 + len) ≤ i)
      → (addelem m dst type bytes len).0 i ≡ m i
  unfolding addelem put_elem_hdr
  elsewhere bytes i out =
      memcpy_outside (put_elem_hdr m dst type len).0 (dst + 4) bytes 0 len i (omega arith)
      ∙ set_dword_outside m dst (bit_or (type * 2 ^ 16) len) i (omega arith)

  addelem-written :
      (bytes : Mem)
      → IsElem
          (addelem m dst type bytes len).0
          dst
          (record { id = type; len = len; content = bytes })
  unfolding addelem put_elem_hdr
  addelem-written bytes =
      let hdr = (put_elem_hdr m dst type len).0 in
      record {
        has_id =
            word_ext (memcpy hdr (dst + 4) bytes 0 len) hdr dst (outside hdr dst (omega arith))
              (outside hdr (dst + 1) (omega arith))
            ∙ hdr_id;
        has_len =
            word_ext (memcpy hdr (dst + 4) bytes 0 len) hdr (dst + 2)
              (outside hdr (dst + 2) (omega arith)) (outside hdr (dst + 2 + 1) (omega arith))
            ∙ hdr_len;
        has_content = λ j lt. memcpy_inside hdr (dst + 4) bytes 0 len j lt ∙ ap bytes (omega arith);
      }
    where
      outside : (k : Mem) (i : ℕ) → i < dst + 4 → memcpy k (dst + 4) bytes 0 len i ≡ k i
      outside k i lt = memcpy_outside k (dst + 4) bytes 0 len i (inl lt)

  addelem-size : (bytes : Mem) → (addelem m dst type bytes len).1 ≡ 4 + len
  unfolding addelem put_elem_hdr
  addelem-size bytes = omega arith

  pub addelem-Put :
      (bytes : Mem)
      → Put type m dst (addelem m dst type bytes len).0 (addelem m dst type bytes len).1
  addelem-Put bytes = record {
    elem = record { id = type; len = len; content = bytes };
    same_id = refl;
    size = addelem-size bytes;
    written = addelem-written bytes;
    front = λ i lt. elsewhere bytes i (inl lt);
  }

  -- For a type and a length of 16 bits, `cw_addelem` writes one element with this type, this length
  -- and the given data at its destination, says how long the whole is, four bytes more than the data,
  -- and leaves every other byte as it is.
  pub addelem-IsElem :
      (bytes : Mem)
      → IsElem
          (addelem m dst type bytes len).0
          dst
          (record { id = type; len = len; content = bytes })
        × ((addelem m dst type bytes len).1 ≡ 4 + len)
        × ((i : ℕ) → (i < dst) ⊎ (dst + (4 + len) ≤ i) → (addelem m dst type bytes len).0 i ≡ m i)
  addelem-IsElem bytes = (addelem-written bytes, addelem-size bytes, elsewhere bytes)
