-- ===== src/Cfg/Reader.antt =====
-- The reader of src/cw/cfg.c, from `get_char` to `cw_cfg_read_from_file`.
use actube.Base.{
  ℕ, zero, suc, ◌+◌, Bool, true, false, Option, none, some, List, [], ◌∷◌, ◌==◌, ◌&&◌, not,
  if◌then◌else◌, length, ltb, ◌⊎◌, inl, inr,
}
use actube.Cfg.{
  has_char, blanks, key_blanks, line_ends, is_space, is_key_char, max_key_len, c_string,
}

-- A character, and what is left of the file.
abbrev pub Read : Type 0
Read = Option ℕ × List ℕ

unfoldable pub get_char : List ℕ → Read
get_char [] = (none, [])
get_char (c ∷ cs) = (some c, cs)

-- `ungetc` of EOF does nothing.
unfoldable pub unget_char : Option ℕ → List ℕ → List ℕ
unget_char none s = s
unget_char (some c) s = c ∷ s

-- Behind a backslash; `none` is the end of the file.
unfoldable pub escaped_q : List ℕ → Read
escaped_q [] = (none, [])
escaped_q (c ∷ cs) =
    if c == b'n'
    then (some b'\n', cs)
    else if c == b'\\'
    then (some b'\\', cs)
    else if c == b'"'
    then (some b'"', cs)
    else (some b'\\', c ∷ cs)

-- The quotes are switched on and off on the way; the flag is `p->quote`.
unfoldable pub get_char_q : Bool → List ℕ → Bool × Read
unfolding escaped_q
get_char_q quote [] = (quote, (none, []))
get_char_q quote (c ∷ cs) =
    let other = get_char_q (not quote) cs in
    if c == b'\n'
    then (quote, (some c, cs))
    else if c == b'"'
    then other
    else if not quote
    then (quote, (some c, cs))
    else if not (c == b'\\')
    then (quote, (some c, cs))
    else (quote, escaped_q cs)

unfoldable pub skip_chars : List ℕ → List ℕ → Read
skip_chars chars [] = (none, [])
skip_chars chars (c ∷ cs) = if has_char chars c then skip_chars chars cs else (some c, cs)

unfoldable pub skip_to_chars : List ℕ → List ℕ → Read
skip_to_chars chars [] = (none, [])
skip_to_chars chars (c ∷ cs) = if has_char chars c then (some c, cs) else skip_to_chars chars cs

-- After a comment, or at a character that is none; `again` is the next turn.
unfoldable pub comment_end : (List ℕ → Option Read) → Read → Option Read
comment_end again (none, t) = some (none, t)
comment_end again (some d, t) = again t

unfoldable pub comment_or_key : (List ℕ → Option Read) → Read → Option Read
unfolding comment_end skip_to_chars
comment_or_key again (none, t) = some (none, t)
comment_or_key again (some c, t) =
    if c == b'#' then comment_end again (skip_to_chars line_ends t) else some (some c, t)

-- The `do` loop of `read_key`: blanks and comments. `none` outside: the fuel ran out.
unfoldable pub skip_comments : ℕ → List ℕ → Option Read
unfolding skip_chars comment_or_key
skip_comments zero s = none
skip_comments (suc fuel) s = comment_or_key (skip_comments fuel) (skip_chars key_blanks s)

-- What `read_key` leaves: the key, `p->quote`, and the rest of the file.
abbrev pub Key : Type 0
Key = List ℕ × Bool × List ℕ

unfoldable pub key_cons : ℕ → Key → Key
key_cons c (key, quote, s) = (c ∷ key, quote, s)

-- The second loop of `read_key`, with the number of characters that the key may still get.
unfoldable pub key_loop : ℕ → Bool × Read → Key
key_loop room (quote, (none, s)) = ([], quote, s)
key_loop zero (quote, (some c, s)) = ([], quote, s)
key_loop (suc room) (quote, (some c, s)) =
    let more = key_cons c (key_loop room (get_char_q quote s)) in
    if not quote && not (is_key_char c) then ([], quote, c ∷ s) else more

unfoldable pub read_key_at : Bool → Read → Key
unfolding unget_char key_loop
read_key_at quote (c, s) = key_loop max_key_len (get_char_q quote (unget_char c s))

-- `overrun` is the store of the terminating 0 behind the end of the caller's buffer, which C leaves
-- undefined.
pub data KeyRead : Type 0 where
  key_read : Key → KeyRead
  overrun : KeyRead

-- `key[n] = 0`, where `key` is a buffer of `size` bytes.
unfoldable pub terminate : ℕ → Key → KeyRead
terminate size (key, quote, s) = if ltb (length key) size then key_read (key, quote, s) else overrun

-- The buffer is `key` of `cw_cfg_read_from_file`.
unfoldable pub read_key : ℕ → Bool → List ℕ → Option KeyRead
unfolding skip_comments read_key_at terminate
read_key fuel quote s = elim (skip_comments fuel s) [
  | none ↦ none
  | some r ↦ some (terminate max_key_len (read_key_at quote r))
]

-- What a value's loop leaves.
abbrev pub Val : Type 0
Val = List ℕ × List ℕ

unfoldable pub val_cons : ℕ → Val → Val
val_cons c (val, s) = (c ∷ val, s)

-- Behind a backslash in a quoted value.
unfoldable pub escaped : List ℕ → ℕ × List ℕ
escaped [] = (b'\\', [])
escaped (c ∷ cs) =
    if c == b'n'
    then (b'\n', cs)
    else if c == b'\\'
    then (b'\\', cs)
    else if c == b'"'
    then (b'"', cs)
    else (b'\\', c ∷ cs)

-- The character that is stored for `c`, and what is left.
unfoldable pub val_char : Bool → ℕ → List ℕ → ℕ × List ℕ
unfolding escaped
val_char quote c s = if quote && c == b'\\' then escaped s else (c, s)

unfoldable pub val_loop : ℕ → Bool → Read → Val
val_loop room quote (none, s) = ([], s)
val_loop zero quote (some c, s) = ([], s)
val_loop (suc room) quote (some c, s) =
    let (d, t) = val_char quote c s in
    let more = val_cons d (val_loop room quote (get_char t)) in
    if quote && c == b'"' then ([], s) else if c == b'\n' then ([], s) else more

unfoldable pub trim_cons : ℕ → List ℕ → List ℕ
trim_cons c [] = if is_space c then [] else c ∷ []
trim_cons c (d ∷ ds) = c ∷ d ∷ ds

-- Spaces at the end are cut off.
unfoldable pub trim : List ℕ → List ℕ
trim [] = []
trim (c ∷ cs) = trim_cons c (trim cs)

-- From the first character behind the colon on.
unfoldable pub read_quoted : Read → Val
unfolding get_char val_loop trim
read_quoted (none, s) = ([], s)
read_quoted (some c, s) =
    if c == b'"'
    then val_loop max_key_len true (get_char s)
    else let (val, t) = val_loop max_key_len false (some c, s) in (trim val, t)

-- At the character that must be a colon; `inr` is what is left after the error that it is none.
unfoldable pub colon : Read → Val ⊎ List ℕ
unfolding read_quoted skip_chars
colon (none, t) = inr t
colon (some c, t) =
    if c == b':'
    then inl (read_quoted (skip_chars blanks t))
    else if c == b'\n'
    then inr (c ∷ t)
    else inr t

unfoldable pub read_val : List ℕ → Val ⊎ List ℕ
unfolding skip_chars colon
read_val s = colon (skip_chars blanks s)

-- What `cw_cfg_read_line` gives: 1 where no key is left, -1 at an error, and 0 with an entry; or the
-- key ran over its buffer.
pub data Line : Type 0 where
  no_key : Line
  no_colon : Line
  key_overrun : Line
  entry : List ℕ → List ℕ → Bool → List ℕ → Line

unfoldable pub line_of : Key → Line
unfolding read_val c_string
line_of ([], quote, s) = no_key
line_of (c ∷ key, quote, s) = elim (read_val s) [
  | inl (val, t) ↦ entry (c_string (c ∷ key)) (c_string val) quote t
  | inr t ↦ no_colon
]

unfoldable pub line_at : KeyRead → Line
unfolding line_of
line_at (key_read key) = line_of key
line_at overrun = key_overrun

unfoldable pub read_line : ℕ → Bool → List ℕ → Option Line
unfolding read_key line_at
read_line fuel quote s = elim (read_key fuel quote s) [
  | none ↦ none
  | some key ↦ some (line_at key)
]

-- What the reading of a file does: the entries that it passes to `cw_cfg_set`, in their order, and the
-- number of errors; `overran` if a key runs over its buffer, behind which nothing is defined. `none`:
-- the fuel ran out.
pub record Loaded : Type 0 where
  pub entries : List (List ℕ × List ℕ)
  pub errs : ℕ
  pub overran : Bool

abbrev pub with_entry : List ℕ → List ℕ → Option Loaded → Option Loaded
with_entry key val none = none
with_entry key val (some r) = some (record r { entries = (key, val) ∷ r.entries })

-- The loop ends after the first line that is no entry.
unfoldable pub continue_from : (Bool → List ℕ → Option Loaded) → Option Line → Option Loaded
continue_from rest none = none
continue_from rest (some no_key) = some (record { entries = []; errs = 0; overran = false })
continue_from rest (some no_colon) = some (record { entries = []; errs = 1; overran = false })
continue_from rest (some key_overrun) = some (record { entries = []; errs = 0; overran = true })
continue_from rest (some (entry key val quote s)) = with_entry key val (rest quote s)

unfoldable pub read_lines : ℕ → Bool → List ℕ → Option Loaded
unfolding read_line continue_from
read_lines zero quote s = none
read_lines (suc fuel) quote s = continue_from (read_lines fuel) (read_line (suc fuel) quote s)

-- As much fuel as the file has characters, and one more.
unfoldable pub read_from_file : List ℕ → Option Loaded
unfolding read_lines
read_from_file s = read_lines (length s + 1) false s
