-- ===== src/Cfg/Limits.antt =====
-- Where the reader and the writer of src/cw/cfg.c do not fit together, and the limit of a key.
use mathlib.Core.List.{append_assoc}
use mathlib.Core.Bool.{false≢true}
use native.Mathlib.Decide.{dec_le}
use actube.Base.{
  Bool, Option, none, sym, refl, ◌<◌, ◌↔◌, le→ltb, ℕ, zero, suc, ◌≤◌, ◌≡◌, ◌≢◌, ap, ◌∙◌, arith,
  true, false, some, List, [], ◌∷◌, ◌++◌, ◌==◌, not, length, and-left, and-right, inl,
}
use actube.Cfg.{is_key_char, max_key_len}
use actube.Cfg.Reader.{
  Read, Key, KeyRead, key_read, overrun, terminate, line_at, entry, get_char, val_loop, get_char_q,
  unget_char, read_key_at, key_cons, key_loop, read_key, read_val, read_line,
}
use actube.Cfg.Writer.{needs_quotes, write_entry}
use actube.Cfg.Line.{
  all, plain_key_char, plain_val_char, starts_with, IsKey, plain-ne-zero, c_string_lem,
  get_char_q-unquoted, key_char-ne-quote,
}
use actube.Cfg.Line.ReadLine.{line_from, line_of_lem, write_entry-quotes}
use actube.Cfg.Line.ReadVal.{val_loop_quoted, quotes_or_not}
use actube.Cfg.Line.ReadKey.{read_key_lem, key_loop_step, skip_comments_lem}

read_val_quote :
    (u w s : List ℕ)
    → all (plain_val_char true) u ≡ true
    → length u ≤ max_key_len
    → read_val (b':' ∷ quotes_or_not true (u ++ b'"' ∷ w) s) ≡ inl (u, w ++ b'"' ∷ b'\n' ∷ s)
unfolding read_val
read_val_quote u w s h le =
    ap (λ (t : List ℕ). inl (val_loop max_key_len true (get_char t)))
      (append_assoc u (b'"' ∷ w) (b'"' ∷ b'\n' ∷ s))
    ∙ ap inl (val_loop_quoted u max_key_len (w ++ b'"' ∷ b'\n' ∷ s) h le)

-- A value that starts or ends with a space and holds a quote is written with no escape: what is read
-- back ends before the first quote, and the text behind it is left to be read as the next line. This
-- holds if there is no backslash, newline or 0 before that quote and the line's key can be read back.
pub read_line-quote :
    (fuel : ℕ) (key u w s : List ℕ)
    → IsKey key
    → needs_quotes (u ++ b'"' ∷ w) ≡ true
    → all (plain_val_char true) u ≡ true
    → length u ≤ max_key_len
    → read_line (suc fuel) false (write_entry key (u ++ b'"' ∷ w) ++ s)
      ≡ some (entry key u false (w ++ b'"' ∷ b'\n' ∷ s))
unfolding read_line line_at
read_line-quote fuel key u w s k q h le =
    ap (read_line (suc fuel) false) (
      write_entry-quotes key (u ++ b'"' ∷ w) s
      ∙ ap (λ b. key ++ b':' ∷ quotes_or_not b (u ++ b'"' ∷ w) s) q)
    ∙ ap (line_from false) (read_key_lem fuel false key (quotes_or_not true (u ++ b'"' ∷ w) s) k)
    ∙ ap some (
        line_of_lem key (b':' ∷ quotes_or_not true (u ++ b'"' ∷ w) s) u (w ++ b'"' ∷ b'\n' ∷ s) k
          (c_string_lem (plain_val_char true) u (plain-ne-zero true) h) (read_val_quote u w s h le))

key_loop_zero : (q : Bool × Read) → length (key_loop 0 q).0 ≡ 0
unfolding key_loop
key_loop_zero (quote, (none, s)) = refl
key_loop_zero (quote, (some c, s)) = refl

key_cons-length : (c : ℕ) (k : Key) → length (key_cons c k).0 ≡ suc (length k.0)
unfolding key_cons
key_cons-length c (key, quote, s) = refl

key_loop_full :
    (key : List ℕ) (room : ℕ) (s : List ℕ)
    → all plain_key_char key ≡ true
    → room ≤ length key
    → length (key_loop room (get_char_q false (key ++ s))).0 ≡ room
unfolding key_loop
key_loop_full key zero s h le = key_loop_zero (get_char_q false (key ++ s))
key_loop_full [] (suc room) s h le = absurd (omega (arith, le))
key_loop_full (x ∷ key) (suc room) s h le =
    let x_key =
      and-left (is_key_char x) (not (x == 0))
        (and-left (plain_key_char x) (all plain_key_char key) h) in
    ap (λ (k : Key). length k.0)
      (ap (key_loop (suc room)) (get_char_q-unquoted x (key ++ s) (key_char-ne-quote x x_key))
        ∙ key_loop_step room x (key ++ s) x_key)
    ∙ key_cons-length x (key_loop room (get_char_q false (key ++ s)))
    ∙ ap suc (
        key_loop_full key room s (and-right (plain_key_char x) (all plain_key_char key) h)
          (omega (arith, le)))

terminate-overrun : (size : ℕ) (k : Key) → size ≤ length k.0 → terminate size k ≡ overrun
unfolding terminate
terminate-overrun size (key, quote, s) le = rw (terminate, le→ltb (length key) size le) refl

read_key_full :
    (fuel : ℕ) (key s : List ℕ)
    → all plain_key_char key ≡ true
    → starts_with b'#' key ≡ false
    → max_key_len ≤ length key
    → read_key (suc fuel) false (key ++ s) ≡ some overrun
unfolding read_key_at unget_char read_key
read_key_full fuel [] s h n le = absurd (omega (arith, le))
read_key_full fuel (x ∷ key) s h n le =
    let first =
      skip_comments_lem fuel x false (key ++ s)
        (and-left (plain_key_char x) (all plain_key_char key) h) n in
    let k = key_loop max_key_len (get_char_q false (x ∷ (key ++ s))) in
    rw (read_key, first)
      (ap some (
        terminate-overrun max_key_len k
          (omega (arith, key_loop_full (x ∷ key) max_key_len s h le))))

abbrev is_overrun : Option KeyRead → Bool
is_overrun none = false
is_overrun (some overrun) = true
is_overrun (some (key_read k)) = false

-- A key in front of a colon, of key characters and not empty, the first of them no `#`: the 0 behind
-- it is stored behind the end of the buffer if the key has 1024 characters or more, and in no other
-- case, in which the key is returned whole.
pub read_key-overrun :
    (fuel : ℕ) (key s : List ℕ)
    → all plain_key_char key ≡ true
    → key ≢ []
    → starts_with b'#' key ≡ false
    → ((read_key (suc fuel) false (key ++ b':' ∷ s) ≡ some overrun) ↔ (max_key_len ≤ length key))
      × (length key < max_key_len
          → read_key (suc fuel) false (key ++ b':' ∷ s) ≡ some (key_read (key, false, b':' ∷ s)))
read_key-overrun fuel key s h some_char n = ((longer, read_key_full fuel key (b':' ∷ s) h n), whole)
  where
    whole :
        length key < max_key_len
        → read_key (suc fuel) false (key ++ b':' ∷ s) ≡ some (key_read (key, false, b':' ∷ s))
    whole lt =
        read_key_lem fuel false key s
          (record { chars = h; some_char = some_char; not_comment = n; in_limit = lt })

    longer : read_key (suc fuel) false (key ++ b':' ∷ s) ≡ some overrun → max_key_len ≤ length key
    longer e = elim (dec_le max_key_len (length key)) [
      | yes le ↦ le
      | no more ↦ absurd (false≢true (ap is_overrun (sym (whole (omega (arith, more))) ∙ e)))
    ]
