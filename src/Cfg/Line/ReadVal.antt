-- ===== src/Cfg/Line/ReadVal.antt =====
-- The value of a line that was written, read again.
use actube.Base.{
  ℕ, zero, suc, ◌≤◌, ◌≡◌, refl, ap, ◌∙◌, arith, Bool, true, false, some, List, [], ◌∷◌, ◌++◌, ◌==◌,
  ◌&&◌, ◌||◌, if◌then◌else◌, length, and-left, and-right, Bool-cases, inl, inr,
}
use actube.Cfg.{has_char, blanks, is_space, max_key_len}
use actube.Cfg.Reader.{
  Val, get_char, skip_chars, val_cons, val_char, val_loop, trim_cons, trim, read_quoted, read_val,
}
use actube.Cfg.Writer.{last_is_space, needs_quotes}
use actube.Cfg.Line.{all, starts_with, plain_val_char, IsVal}
use actube.Cfg.Line.ReadKey.{after_line, skip_stop}

val_char_facts :
    (quote : Bool) (c : ℕ)
    → plain_val_char quote c ≡ true
    → ((quote && c == b'"') ≡ false) × ((c == b'\n') ≡ false) × ((quote && c == b'\\') ≡ false)
val_char_facts quote c h = ground arith

val_char-plain :
    (quote : Bool) (c : ℕ) (s : List ℕ)
    → (quote && c == b'\\') ≡ false
    → val_char quote c s ≡ (c, s)
unfolding val_char
val_char-plain quote c s h = rw h refl

val_loop_step :
    (quote : Bool) (room c : ℕ) (s : List ℕ)
    → plain_val_char quote c ≡ true
    → val_loop (suc room) quote (some c, s) ≡ val_cons c (val_loop room quote (get_char s))
unfolding val_loop
val_loop_step quote room c s h =
    let (no_quote, no_end, no_backslash) = val_char_facts quote c h in
    rw (no_quote, no_end, val_char-plain quote c s no_backslash) refl

val_loop_unquoted :
    (val : List ℕ) (room : ℕ) (s : List ℕ)
    → all (plain_val_char false) val ≡ true
    → length val ≤ room
    → val_loop room false (get_char (val ++ b'\n' ∷ s)) ≡ (val, s)
unfolding val_loop get_char val_cons
val_loop_unquoted [] zero s h le = refl
val_loop_unquoted [] (suc room) s h le = refl
val_loop_unquoted (c ∷ val) zero s h le = absurd (omega arith)
val_loop_unquoted (c ∷ val) (suc room) s h le =
    val_loop_step false room c (val ++ b'\n' ∷ s)
      (and-left (plain_val_char false c) (all (plain_val_char false) val) h)
    ∙ ap (val_cons c) (
        val_loop_unquoted val room s
          (and-right (plain_val_char false c) (all (plain_val_char false) val) h)
          (omega (arith, le)))

pub val_loop_quoted :
    (val : List ℕ) (room : ℕ) (s : List ℕ)
    → all (plain_val_char true) val ≡ true
    → length val ≤ room
    → val_loop room true (get_char (val ++ b'"' ∷ s)) ≡ (val, s)
unfolding val_loop get_char val_cons
val_loop_quoted [] zero s h le = refl
val_loop_quoted [] (suc room) s h le = refl
val_loop_quoted (c ∷ val) zero s h le = absurd (omega arith)
val_loop_quoted (c ∷ val) (suc room) s h le =
    val_loop_step true room c (val ++ b'"' ∷ s)
      (and-left (plain_val_char true c) (all (plain_val_char true) val) h)
    ∙ ap (val_cons c) (
        val_loop_quoted val room s
          (and-right (plain_val_char true c) (all (plain_val_char true) val) h) (omega (arith, le)))

trim_lem : (val : List ℕ) → last_is_space val ≡ false → trim val ≡ val
unfolding trim trim_cons
trim_lem [] h = refl
trim_lem (c ∷ []) h = ground arith
trim_lem (c ∷ d ∷ val) h = ap (trim_cons c) (trim_lem (d ∷ val) h)

abbrev pub quotes_or_not : Bool → List ℕ → List ℕ → List ℕ
quotes_or_not true val s = b' ' ∷ b'"' ∷ (val ++ b'"' ∷ b'\n' ∷ s)
quotes_or_not false val s = b' ' ∷ (val ++ b'\n' ∷ s)

read_quoted_lem :
    (val s : List ℕ)
    → all (plain_val_char true) val ≡ true
    → length val ≤ max_key_len
    → read_quoted (skip_chars blanks (quotes_or_not true val s)) ≡ (val, b'\n' ∷ s)
unfolding read_quoted skip_chars
read_quoted_lem val s h le = val_loop_quoted val max_key_len (b'\n' ∷ s) h le

not_blank : (c : ℕ) → is_space c ≡ false → plain_val_char false c ≡ true → has_char blanks c ≡ false
not_blank c h k = ground arith

or-false : (a b : Bool) → a || b ≡ false → (a ≡ false) × (b ≡ false)
or-false a b h = ground arith

unquoted_at :
    (c : ℕ) (t v s : List ℕ)
    → (c == b'"') ≡ false
    → val_loop max_key_len false (some c, t) ≡ (v, s)
    → read_quoted (some c, t) ≡ (trim v, s)
unfolding read_quoted
unquoted_at c t v s h e =
    ap
      (λ (b : Bool).
        if b
        then val_loop max_key_len true (get_char t)
        else let w = val_loop max_key_len false (some c, t) in (trim w.0, w.1))
      h
    ∙ ap (λ (w : Val). (trim w.0, w.1)) e

read_unquoted_lem :
    (val s : List ℕ)
    → needs_quotes val ≡ false
    → starts_with b'"' val ≡ false
    → all (plain_val_char false) val ≡ true
    → length val ≤ max_key_len
    → read_quoted (skip_chars blanks (quotes_or_not false val s)) ≡ (val, s)
unfolding read_quoted needs_quotes skip_chars
read_unquoted_lem [] s q n h le = refl
read_unquoted_lem (c ∷ val) s q n h le =
    let (no_space, end) = or-false (is_space c) (last_is_space (c ∷ val)) q in
    let stop = skip_stop blanks c (val ++ b'\n' ∷ s) (
      not_blank c no_space
        (and-left (plain_val_char false c) (all (plain_val_char false) val) h)) in
    ap read_quoted stop
    ∙ unquoted_at c (val ++ b'\n' ∷ s) (c ∷ val) s n
        (val_loop_unquoted (c ∷ val) max_key_len s h le)
    ∙ ap (λ (v : List ℕ). (v, s)) (trim_lem (c ∷ val) end)

-- What a value leaves of the line: a quoted one its end.
pub read_val_lem :
    (val s : List ℕ)
    → IsVal val
    → read_val (b':' ∷ quotes_or_not (needs_quotes val) val s)
      ≡ inl (val, after_line (needs_quotes val) s)
unfolding read_val
read_val_lem val s v = elim (Bool-cases (needs_quotes val)) [
  | inl quoted ↦ rw quoted (ap inl (read_quoted_lem val s (rw quoted at v.chars) v.in_limit))
  | inr plain ↦
      rw plain (
        ap inl
          (read_unquoted_lem val s plain (v.not_quoted plain) (rw plain at v.chars) v.in_limit))
]
