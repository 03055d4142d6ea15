-- ===== src/Cfg/Line.antt =====
-- What can be written to a line of a configuration file and read again.
pub mod ReadKey
pub mod ReadVal
pub mod ReadLine
use mathlib.Core.List.{append_assoc}
use actube.Base.{
  ℕ, zero, suc, ◌≤◌, ◌<◌, ◌≡◌, ◌≢◌, refl, ap, ap₂, ◌∙◌, ◌⊎◌, arith, Bool, true, false, Option, none,
  some, List, [], ◌∷◌, ◌++◌, ◌==◌, ◌&&◌, ◌||◌, not, if◌then◌else◌, length, and-left, and-right,
  Bool-cases, inl, inr,
}
use actube.Cfg.{has_char, blanks, key_blanks, is_space, is_key_char, max_key_len, c_string}
use actube.Cfg.Reader.{
  Read, Key, Val, read_key_at, comment_or_key, get_char, get_char_q, unget_char, skip_chars,
  skip_comments, key_cons, key_loop, read_key, val_cons, val_char, val_loop, trim_cons, trim,
  read_quoted, read_val, Line, entry, no_colon, line_of, read_line,
}
use actube.Cfg.Writer.{last_is_space, needs_quotes, write_entry}

abbrev pub all : (ℕ → Bool) → List ℕ → Bool
all p [] = true
all p (c ∷ cs) = p c && all p cs

-- A character of a key, but not the 0 that `strchr` finds.
abbrev pub plain_key_char : ℕ → Bool
plain_key_char c = is_key_char c && not (c == 0)

abbrev pub starts_with : ℕ → List ℕ → Bool
starts_with c [] = false
starts_with c (x ∷ xs) = x == c

-- A key that is read back: of key characters, not empty, shorter than the limit, and no comment.
pub record IsKey (key : List ℕ) : Type 0 where
  pub chars : all plain_key_char key ≡ true
  pub some_char : key ≢ []
  pub not_comment : starts_with b'#' key ≡ false
  pub in_limit : length key < max_key_len

-- A value that is read back. Only in quotes are the quote and the backslash special.
abbrev pub plain_val_char : Bool → ℕ → Bool
plain_val_char quoted c =
    not (c == 0) && (not (c == b'\n') && not (quoted && (c == b'"' || c == b'\\')))

pub record IsVal (val : List ℕ) : Type 0 where
  pub chars : all (plain_val_char (needs_quotes val)) val ≡ true
  pub not_quoted : needs_quotes val ≡ false → starts_with b'"' val ≡ false
  pub in_limit : length val ≤ max_key_len

pub get_char_q-unquoted :
    (c : ℕ) (s : List ℕ) → c ≢ b'"' → get_char_q false (c ∷ s) ≡ (false, (some c, s))
unfolding get_char_q
get_char_q-unquoted c s ne = ground arith

pub key_char-ne-quote : (c : ℕ) → is_key_char c ≡ true → c ≢ b'"'
unfolding is_key_char
key_char-ne-quote c h = ground arith

pub c_string_lem :
    (p : ℕ → Bool) (cs : List ℕ)
    → ((c : ℕ) → p c ≡ true → c ≢ 0)
    → all p cs ≡ true
    → c_string cs ≡ cs
unfolding c_string
c_string_lem p [] nz h = refl
c_string_lem p (c ∷ cs) nz h =
    ground
      (arith, nz c, c_string_lem p cs nz, and-left (p c) (all p cs) h, and-right (p c) (all p cs) h)

pub plain-ne-zero : (quoted : Bool) (c : ℕ) → plain_val_char quoted c ≡ true → c ≢ 0
plain-ne-zero quoted c h = ground arith
