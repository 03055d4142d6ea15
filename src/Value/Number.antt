-- ===== src/Value/Number.antt =====
-- Numbers in the configuration: src/cw/cw_type_word.c, cw_type_dword.c and cw_type_bool.c. `bread` gives the text
-- that is passed to `cw_cfg_set`, and the number of bytes that it returns; `from_str` the number that
-- is put into a message.
use actube.Base.{
  ℕ, ◌+◌, ◌%◌, ◌-◌, ◌^◌, ◌<◌, ◌≡◌, ap, ◌∙◌, arith, inl, inr, Bool, true, false, List, [], ◌∷◌, ◌==◌,
  ◌&&◌, ltb, leb, if◌then◌else◌, ℤ, pos, negsuc, sub_ℕ, Bool-cases, Mem, get_word, get_dword,
  set_word, set_dword, set_byte, IsBytes, get_word-lt, get_dword-lt, get_word-set_word,
  get_dword-set_dword,
}
use actube.Value.Decimal.{print_int, atoi, atoi-print_int}

-- An int converted to an unsigned type of `modulus` values.
abbrev pub to_unsigned : ℕ → ℤ → ℕ
to_unsigned modulus (pos n) = n % modulus
to_unsigned modulus (negsuc n) = (modulus - 1) - n % modulus

-- A uint32_t converted to int.
abbrev pub to_int : ℕ → ℤ
to_int n = if ltb n (2 ^ 31) then pos n else sub_ℕ n (2 ^ 32)

unfoldable pub bread_word : Mem → ℕ → List ℕ × ℕ
bread_word m src = (print_int (to_int (get_word m src)), 2)

unfoldable pub word_from_str : List ℕ → ℕ
word_from_str s = to_unsigned (2 ^ 16) (atoi s)

-- `bwrite` by way of `cw_generic_write_l`, for the text that it found.
unfoldable pub write_word : Mem → ℕ → List ℕ → Mem × ℕ
unfolding word_from_str
write_word m dst s = (set_word m dst (word_from_str s), 2)

unfoldable pub bread_dword : Mem → ℕ → List ℕ × ℕ
bread_dword m src = (print_int (to_int (get_dword m src)), 4)

unfoldable pub dword_from_str : List ℕ → ℕ
dword_from_str s = to_unsigned (2 ^ 32) (atoi s)

unfoldable pub write_dword : Mem → ℕ → List ℕ → Mem × ℕ
unfolding dword_from_str
write_dword m dst s = (set_dword m dst (dword_from_str s), 4)

-- A truth value is the text "true" or "false"; `cw_stricmp` does not look at the case.
abbrev lower : ℕ → ℕ
lower c = if leb b'A' c && leb c b'Z' then c + 32 else c

unfoldable pub same_text : List ℕ → List ℕ → Bool
same_text [] [] = true
same_text [] (d ∷ ds) = false
same_text (c ∷ cs) [] = false
same_text (c ∷ cs) (d ∷ ds) = lower c == lower d && same_text cs ds

abbrev true_text : List ℕ
true_text = b't' ∷ b'r' ∷ b'u' ∷ b'e' ∷ []

abbrev false_text : List ℕ
false_text = b'f' ∷ b'a' ∷ b'l' ∷ b's' ∷ b'e' ∷ []

-- One byte is read, but the size of an int is returned.
unfoldable pub bread_bool : Mem → ℕ → List ℕ × ℕ
bread_bool m src = (if m src == 0 then false_text else true_text, 4)

abbrev is_one : ℤ → Bool
is_one (pos n) = n == 1
is_one (negsuc n) = false

unfoldable pub bool_from_str : List ℕ → ℕ
unfolding same_text
bool_from_str s =
    if same_text s true_text
    then 1
    else if same_text s (b'y' ∷ b'e' ∷ b's' ∷ [])
    then 1
    else if same_text s (b'o' ∷ b'n' ∷ [])
    then 1
    else if is_one (atoi s)
    then 1
    else 0

unfoldable pub write_bool : Mem → ℕ → List ℕ → Mem × ℕ
unfolding bool_from_str
write_bool m dst s = (set_byte m dst (bool_from_str s), 1)

to_unsigned-to_int : (n : ℕ) → n < 2 ^ 32 → to_unsigned (2 ^ 32) (to_int n) ≡ n
to_unsigned-to_int n h = ground arith

to_unsigned-to_int_word : (n : ℕ) → n < 2 ^ 16 → to_unsigned (2 ^ 16) (to_int n) ≡ n
to_unsigned-to_int_word n h = ground arith

rem_word : (n : ℕ) → n < 2 ^ 16 → n % 2 ^ 16 ≡ n
rem_word n h = omega arith

rem_dword : (n : ℕ) → n < 2 ^ 32 → n % 2 ^ 32 ≡ n
rem_dword n h = omega arith

-- A word and a dword of a message, kept as text and put into another message, are read there as they
-- were; the dword too where its text is that of a negative number.
pub write-bread :
    (m k : Mem) (src dst : ℕ)
    → IsBytes m
    → (get_word (write_word k dst (bread_word m src).0).0 dst ≡ get_word m src)
      × (get_dword (write_dword k dst (bread_dword m src).0).0 dst ≡ get_dword m src)
unfolding write_word bread_word write_dword bread_dword
write-bread m k src dst bytes =
    let w = get_word m src in
    let d = get_dword m src in
    (
      get_word-set_word k dst _
          ∙ ap (λ (z : ℤ). to_unsigned (2 ^ 16) z % 2 ^ 16) (atoi-print_int (to_int w))
          ∙ ap (λ (n : ℕ). n % 2 ^ 16) (to_unsigned-to_int_word w (get_word-lt m src bytes))
          ∙ rem_word w (get_word-lt m src bytes),
      get_dword-set_dword k dst _
          ∙ ap (λ (z : ℤ). to_unsigned (2 ^ 32) z % 2 ^ 32) (atoi-print_int (to_int d))
          ∙ ap (λ (n : ℕ). n % 2 ^ 32) (to_unsigned-to_int d (get_dword-lt m src bytes))
          ∙ rem_dword d (get_dword-lt m src bytes),
    )

-- A truth value comes back as 1 or 0, whatever number stood for it.
pub write_bool-bread_bool :
    (m k : Mem) (src dst : ℕ)
    → (write_bool k dst (bread_bool m src).0).0 dst ≡ (if m src == 0 then 0 else 1)
unfolding write_bool bread_bool set_byte atoi
write_bool-bread_bool m k src dst = elim (Bool-cases (m src == 0)) [
  | inl no_value ↦ rw no_value (ground arith)
  | inr value ↦ rw value (ground arith)
]
