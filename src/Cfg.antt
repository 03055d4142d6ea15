-- ===== src/Cfg.antt =====
-- Configuration files, src/cw/cfg.c. A file is the list of its bytes that are still to be read; `none` stands
-- for EOF. The line and position counters, which only appear in the texts of error messages, are left
-- out.
pub mod Reader
pub mod Writer
pub mod Line
pub mod RoundTrip
pub mod Limits
pub mod Total
pub mod Key
pub mod Store
use actube.Base.{
  ℕ, Bool, true, false, Option, none, some, List, [], ◌∷◌, ◌==◌, ◌&&◌, ◌||◌, leb, if◌then◌else◌,
}

-- `strchr(chars, c)` also finds the terminating 0.
abbrev pub has_char : List ℕ → ℕ → Bool
has_char [] c = c == 0
has_char (x ∷ xs) c = x == c || has_char xs c

abbrev pub blanks : List ℕ
blanks = b' ' ∷ b'\t' ∷ []

-- " \t\n\a\v" and "\n\a"
abbrev pub key_blanks : List ℕ
key_blanks = b' ' ∷ b'\t' ∷ b'\n' ∷ 7 ∷ 11 ∷ []

abbrev pub line_ends : List ℕ
line_ends = b'\n' ∷ 7 ∷ []

abbrev within : ℕ → ℕ → ℕ → Bool
within lo hi c = leb lo c && leb c hi

-- `isalnum` and `isspace` in the C locale.
abbrev pub is_alnum : ℕ → Bool
is_alnum c = within b'a' b'z' c || (within b'A' b'Z' c || within b'0' b'9' c)

abbrev pub is_space : ℕ → Bool
is_space c = c == b' ' || within 9 13 c

abbrev pub key_marks : List ℕ
key_marks =
    b'.' ∷ b'_' ∷ b'/' ∷ b'-' ∷ b'(' ∷ b')' ∷ b'@' ∷ b'#' ∷ b'|' ∷ b'{' ∷ b'}' ∷ b'[' ∷ b']' ∷ b'\\'
    ∷ []

unfoldable pub is_key_char : ℕ → Bool
is_key_char c = is_alnum c || has_char key_marks c

abbrev pub max_key_len : ℕ
max_key_len = 1024

-- A C string ends at its first 0.
unfoldable pub c_string : List ℕ → List ℕ
c_string [] = []
c_string (c ∷ cs) = if c == 0 then [] else c ∷ c_string cs
