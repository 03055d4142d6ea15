-- ===== src/Cfg/Line/ReadLine.antt =====
-- A line of a file that `cw_cfg_write_to_file` wrote, read by `cw_cfg_read_line`.
use mathlib.Core.List.{append_assoc}
use actube.Base.{
  ℕ, suc, ◌≡◌, refl, ap, ap₂, ◌∙◌, ◌⊎◌, Bool, false, Option, none, some, List, [], ◌∷◌, ◌++◌,
  Bool-cases, inl, inr,
}
use actube.Cfg.{c_string}
use actube.Cfg.Reader.{KeyRead, line_at, Val, read_val, Line, entry, no_colon, line_of, read_line}
use actube.Cfg.Writer.{needs_quotes, write_entry}
use actube.Cfg.Line.{plain_key_char, IsKey, plain_val_char, IsVal, c_string_lem, plain-ne-zero}
use actube.Cfg.Line.ReadKey.{plain_key-ne-zero, after_line, read_key_lem}
use actube.Cfg.Line.ReadVal.{quotes_or_not, read_val_lem}

pub write_entry-quotes :
    (key val s : List ℕ)
    → write_entry key val ++ s ≡ key ++ b':' ∷ quotes_or_not (needs_quotes val) val s
unfolding write_entry
write_entry-quotes key val s = elim (Bool-cases (needs_quotes val)) [
  | inl quoted ↦ rw quoted (simp append_assoc)
  | inr plain ↦ rw plain (simp append_assoc)
]

abbrev pub line_from : Bool → Option KeyRead → Option Line
line_from quote none = none
line_from quote (some key) = some (line_at key)

pub line_of_lem :
    (key t val u : List ℕ)
    → IsKey key
    → c_string val ≡ val
    → read_val t ≡ inl (val, u)
    → line_of (key, false, t) ≡ entry key val false u
unfolding line_of
line_of_lem [] t val u k v e = absurd (k.some_char refl)
line_of_lem (c ∷ key) t val u k v e =
    ap
      (λ (o : Val ⊎ List ℕ). elim o as (λ x. Line) [
        | inl (w, r) ↦ entry (c_string (c ∷ key)) (c_string w) false r
        | inr r ↦ no_colon
      ])
      e
    ∙ ap₂ (λ (a b : List ℕ). entry a b false u)
        (c_string_lem plain_key_char (c ∷ key) plain_key-ne-zero k.chars) v

-- A written line is read back, and of a quoted value its end of line is left.
pub read_line-write_entry :
    (fuel : ℕ) (left : Bool) (key val s : List ℕ)
    → IsKey key
    → IsVal val
    → read_line (suc fuel) false (after_line left (write_entry key val ++ s))
      ≡ some (entry key val false (after_line (needs_quotes val) s))
unfolding read_line line_at
read_line-write_entry fuel left key val s k v =
    ap (λ (t : List ℕ). read_line (suc fuel) false (after_line left t))
      (write_entry-quotes key val s)
    ∙ ap (line_from false) (read_key_lem fuel left key (quotes_or_not (needs_quotes val) val s) k)
    ∙ ap some (
        line_of_lem key (b':' ∷ quotes_or_not (needs_quotes val) val s) val
          (after_line (needs_quotes val) s) k
          (c_string_lem (plain_val_char (needs_quotes val)) val (plain-ne-zero (needs_quotes val))
            v.chars)
          (read_val_lem val s v))
