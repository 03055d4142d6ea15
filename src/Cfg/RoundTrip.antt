-- ===== src/Cfg/RoundTrip.antt =====
-- A file that `cw_cfg_write_to_file` wrote is read back by `cw_cfg_read_from_file`.
use actube.Base.{
  ℕ, zero, suc, ◌+◌, ◌≤◌, ◌<◌, ◌≡◌, refl, ap, ◌∙◌, arith, Bool, true, false, some, List, [], ◌∷◌,
  ◌++◌, length, length-append, Bool-cases, inl, inr,
}
use actube.Cfg.Reader.{
  get_char_q, line_of, line_at, terminate, read_key_at, no_key, with_entry, continue_from,
  read_line, read_lines, read_from_file,
}
use actube.Cfg.Writer.{needs_quotes, write_entry, write_to_file}
use actube.Cfg.Line.{IsKey, IsVal}
use actube.Cfg.Line.ReadKey.{after_line}
use actube.Cfg.Line.ReadLine.{read_line-write_entry}

-- Every entry can be written.
abbrev pub AreWritable : List (List ℕ × List ℕ) → Type 0
AreWritable [] = Unit
AreWritable ((key, val) ∷ entries) = IsKey key × IsVal val × AreWritable entries

-- Nothing but the end of a line is left.
read_line-end :
    (fuel : ℕ) (left : Bool) → read_line (suc fuel) false (after_line left []) ≡ some no_key
unfolding read_line get_char_q line_of line_at terminate read_key_at
read_line-end fuel true = refl
read_line-end fuel false = refl

read_lines-write_to_file :
    (entries : List (List ℕ × List ℕ)) (fuel : ℕ) (left : Bool)
    → AreWritable entries
    → length entries < fuel
    → read_lines fuel false (after_line left (write_to_file entries))
      ≡ some (record { entries = entries; errs = 0; overran = false })
unfolding read_lines write_to_file
read_lines-write_to_file entries zero left ok lt = absurd (omega arith)
read_lines-write_to_file [] (suc fuel) left ok lt =
    ap (continue_from (read_lines fuel)) (read_line-end fuel left)
read_lines-write_to_file ((key, val) ∷ entries) (suc fuel) left (k, v, ok) lt =
    ap (continue_from (read_lines fuel))
      (read_line-write_entry fuel left key val (write_to_file entries) k v)
    ∙ ap (with_entry key val)
        (read_lines-write_to_file entries fuel (needs_quotes val) ok (omega (arith, lt)))

lt-write_entry : (key val : List ℕ) → 0 < length (write_entry key val)
unfolding write_entry
lt-write_entry key val = elim (Bool-cases (needs_quotes val)) [
  | inl quoted ↦
      rw quoted (omega (arith, length-append key (b':' ∷ b' ' ∷ b'"' ∷ (val ++ b'"' ∷ b'\n' ∷ []))))
  | inr plain ↦ rw plain (omega (arith, length-append key (b':' ∷ b' ' ∷ (val ++ b'\n' ∷ []))))
]

length-write_to_file :
    (entries : List (List ℕ × List ℕ)) → length entries ≤ length (write_to_file entries)
unfolding write_to_file
length-write_to_file [] = omega arith
length-write_to_file ((key, val) ∷ entries) = omega (
  arith,
  lt-write_entry key val,
  length-append (write_entry key val) (write_to_file entries),
  length-write_to_file entries,
)

-- Entries are read back from the file that they were written to, in their order, with no error and no key that runs over its buffer, if
-- each key is not empty, shorter than 1024 and made of key characters, the first of them no `#`; and if
-- each value is of 1024 characters at most, holds no newline and no 0, no quote or backslash where it
-- starts or ends with a space, and no quote at its start otherwise.
pub read_from_file-write_to_file :
    (entries : List (List ℕ × List ℕ))
    → AreWritable entries
    → read_from_file (write_to_file entries)
      ≡ some (record { entries = entries; errs = 0; overran = false })
unfolding read_from_file
read_from_file-write_to_file entries ok =
    read_lines-write_to_file entries (length (write_to_file entries) + 1) false ok
      (omega (arith, length-write_to_file entries))
