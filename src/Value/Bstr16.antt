-- ===== src/Value/Bstr16.antt =====
-- Byte strings in the configuration: src/cw/cw_type_bstr16.c and src/cw/format_is_utf8.c.
use mathlib.Core.Bool.{false≢true}
use actube.Base.{
  ℕ, zero, suc, ◌≡◌, refl, sym, ◌∙◌, ◌⊎◌, inl, inr, arith, Bool, true, false, Option, none, some,
  List, [], ◌∷◌, ◌==◌, ◌&&◌, ◌||◌, not, ltb, leb, if◌then◌else◌, Bool-cases,
}
use actube.Value.Hex.{format_hex, scan_hex_bytes, AreBytes, scan_hex_bytes-format_hex}

-- How many bytes must follow a first byte; `none` if it is none.
abbrev pub following : ℕ → Option ℕ
following c =
    if ltb c 0x20
    then none
    else if leb c 0x7f
    then some 0
    else if leb 0xc0 c && leb c 0xdf
    then some 1
    else if leb 0xe0 c && leb c 0xef
    then some 2
    else if leb 0xf0 c && leb c 0xf4
    then some 3
    else none

abbrev pub continues : ℕ → Bool
continues c = leb 0x80 c && leb c 0xbf

-- `bytes` more bytes are expected before the next character starts.
unfoldable pub utf8_from : ℕ → List ℕ → Bool
utf8_from bytes [] = bytes == 0
utf8_from zero (c ∷ cs) = elim (following c) [ none ↦ false | some n ↦ utf8_from n cs ]
utf8_from (suc bytes) (c ∷ cs) = if continues c then utf8_from bytes cs else false

unfoldable pub format_is_utf8 : List ℕ → Bool
unfolding utf8_from
format_is_utf8 s = utf8_from 0 s

-- The text that `bread` passes to `cw_cfg_set`.
unfoldable pub bread : List ℕ → List ℕ
bread src = if format_is_utf8 src then src else b'.' ∷ b'x' ∷ format_hex src

-- The bytes that `xput` copies for a text.
unfoldable pub xput : List ℕ → List ℕ
xput [] = []
xput (c ∷ []) = c ∷ []
xput (c ∷ d ∷ []) = c ∷ d ∷ []
xput (c ∷ d ∷ e ∷ s) =
    if not (c == b'.')
    then c ∷ d ∷ e ∷ s
    else if d == b'.'
    then d ∷ e ∷ s
    else if not (d == b'x')
    then c ∷ d ∷ e ∷ s
    else scan_hex_bytes (e ∷ s)

-- A text of more than two characters that starts with a dot and a dot or an x.
abbrev pub is_marked : List ℕ → Bool
is_marked [] = false
is_marked (c ∷ []) = false
is_marked (c ∷ d ∷ []) = false
is_marked (c ∷ d ∷ e ∷ s) = c == b'.' && (d == b'.' || d == b'x')

xput_plain : (s : List ℕ) → is_marked s ≡ false → xput s ≡ s
unfolding xput
xput_plain [] h = refl
xput_plain (c ∷ []) h = refl
xput_plain (c ∷ d ∷ []) h = refl
xput_plain (c ∷ d ∷ e ∷ s) h = ground arith

hex_back :
    (src : List ℕ)
    → format_is_utf8 src ≡ false
    → AreBytes src
    → xput (b'.' ∷ b'x' ∷ format_hex src) ≡ src
unfolding xput format_hex format_is_utf8
hex_back [] h bytes = absurd (false≢true (sym h))
hex_back (b ∷ bs) h bytes = scan_hex_bytes-format_hex (b ∷ bs) bytes

not_marked :
    (src : List ℕ)
    → format_is_utf8 src ≡ true
    → (format_is_utf8 src ≡ false) ⊎ (is_marked src ≡ false)
    → is_marked src ≡ false
not_marked src text (inl binary) = absurd (false≢true (sym binary ∙ text))
not_marked src text (inr plain) = plain

-- Bytes that come from a message are put into one unchanged, in whichever form the configuration
-- keeps them, unless they are a UTF-8 text which starts with one of the two marks.
pub xput-bread :
    (src : List ℕ)
    → AreBytes src
    → (format_is_utf8 src ≡ false) ⊎ (is_marked src ≡ false)
    → xput (bread src) ≡ src
unfolding bread
xput-bread src bytes h = elim (Bool-cases (format_is_utf8 src)) [
  | inl text ↦ rw text (xput_plain src (not_marked src text h))
  | inr binary ↦ rw binary (hex_back src binary bytes)
]
