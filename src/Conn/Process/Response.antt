-- ===== src/Conn/Process/Response.antt =====
-- A response with a result code, as src/cw/conn.c writes it into a buffer with a transport header: the
-- message header and the element, and where they are read back.
use actube.Base.{
  ℕ, ◌+◌, ◌*◌, ◌%◌, ◌^◌, ◌≤◌, ◌<◌, ◌≡◌, ◌∙◌, ◌⊎◌, inl, inr, arith, Mem, bit_or, set_byte, get_word,
  set_word, get_dword, set_dword, get_dword_ext, get_word-set_word, get_dword-set_dword,
  set_word_outside, set_dword_outside,
}
use actube.Message.Put.{high_word, low_word, word_ext}

pub byte_outside : (m : Mem) (p v i : ℕ) → (i < p) ⊎ (p < i) → set_byte m p v i ≡ m i
unfolding set_byte
byte_outside m p v i h = ground arith

pub byte_there : (m : Mem) (p v : ℕ) → v < 256 → set_byte m p v p ≡ v
unfolding set_byte
byte_there m p v h = ground arith

-- The header of the response's message in a buffer, and the result code behind it.
module _ (b : Mem) (off t s code : ℕ) (room : 4 ≤ off) (byte : s < 256) where
  abbrev pub header_put : Mem
  header_put = set_byte (set_byte (set_dword b off t) (off + 4) s) (off + 7) 0

  abbrev pub code_put : Mem
  code_put = set_dword (set_dword header_put (off + 8 + 4) code) (off + 8) (bit_or (33 * 2 ^ 16) 4)

  abbrev pub response : Mem
  response = set_word code_put (off + 5) (8 + 3)

  pub response_front : (i : ℕ) → i < off + 5 → response i ≡ header_put i
  response_front i lt =
      set_word_outside code_put (off + 5) (8 + 3) i (inl lt)
      ∙ set_dword_outside _ (off + 8) _ i (inl (omega arith))
      ∙ set_dword_outside header_put (off + 8 + 4) code i (inl (omega arith))

  pub header_front : (i : ℕ) → i < off + 4 → header_put i ≡ set_dword b off t i
  header_front i lt =
      byte_outside _ (off + 7) 0 i (inl (omega arith))
      ∙ byte_outside (set_dword b off t) (off + 4) s i (inl lt)

  pub response_header : get_dword response 0 ≡ get_dword b 0
  response_header = get_dword_ext response b 0 (λ i lo hi.
      response_front i (omega arith)
      ∙ header_front i (omega arith)
      ∙ set_dword_outside b off t i (inl (omega arith)))

  pub code_header : get_dword code_put 0 ≡ get_dword b 0
  code_header = get_dword_ext code_put b 0 (λ i lo hi.
      set_dword_outside _ (off + 8) _ i (inl (omega arith))
      ∙ set_dword_outside header_put (off + 8 + 4) code i (inl (omega arith))
      ∙ header_front i (omega arith)
      ∙ set_dword_outside b off t i (inl (omega arith)))

  pub header_header : get_dword header_put 0 ≡ get_dword b 0
  header_header =
      get_dword_ext header_put b 0
        (λ i lo hi. header_front i (omega arith) ∙ set_dword_outside b off t i (inl (omega arith)))

  pub response_type : get_dword response off ≡ t % 2 ^ 32
  response_type =
      get_dword_ext response (set_dword b off t) off
        (λ i lo hi. response_front i (omega arith) ∙ header_front i (omega arith))
      ∙ get_dword-set_dword b off t

  pub response_seqnum : response (off + 4) ≡ s
  response_seqnum =
      response_front (off + 4) (omega arith)
      ∙ byte_outside _ (off + 7) 0 (off + 4) (inl (omega arith))
      ∙ byte_there (set_dword b off t) (off + 4) s byte

  pub response_len : get_word response (off + 5) ≡ 8 + 3
  response_len = get_word-set_word code_put (off + 5) (8 + 3)

  pub behind : (i : ℕ) → off + 7 ≤ i → response i ≡ code_put i
  behind i le = set_word_outside code_put (off + 5) (8 + 3) i (inr (omega arith))

  pub response_id : get_word response (off + 8) ≡ 33
  response_id =
      word_ext response code_put (off + 8) (behind (off + 8) (omega arith))
        (behind (off + 8 + 1) (omega arith))
      ∙ high_word _ (off + 8) (bit_or (33 * 2 ^ 16) 4)

  pub response_elem_len : get_word response (off + 8 + 2) ≡ 4
  response_elem_len =
      word_ext response code_put (off + 8 + 2) (behind (off + 8 + 2) (omega arith))
        (behind (off + 8 + 2 + 1) (omega arith))
      ∙ low_word _ (off + 8) (bit_or (33 * 2 ^ 16) 4)

  pub reads_code : get_dword response (off + 8 + 4) ≡ code % 2 ^ 32
  reads_code =
      get_dword_ext response (set_dword header_put (off + 8 + 4) code) (off + 8 + 4)
        (λ i lo hi. behind i (omega arith) ∙ set_dword_outside _ (off + 8) _ i (inr (omega arith)))
      ∙ get_dword-set_dword header_put (off + 8 + 4) code
