-- ===== src/Cfg/Line/ReadKey.antt =====
-- The key of a line that was written, read again.
use actube.Base.{
  lt→ltb, ℕ, zero, suc, ◌<◌, ◌≡◌, ◌≢◌, refl, ap, ◌∙◌, arith, Bool, true, false, Option, some, List,
  [], ◌∷◌, ◌++◌, ◌==◌, not, length, and-left, and-right,
}
use actube.Cfg.{has_char, key_blanks, is_key_char, max_key_len}
use actube.Cfg.Reader.{
  Read, key_read, terminate, read_key_at, comment_or_key, get_char_q, unget_char, skip_chars,
  skip_comments, key_cons, key_loop, read_key,
}
use actube.Cfg.Line.{all, plain_key_char, IsKey, get_char_q-unquoted, key_char-ne-quote}

key_char-blank : (c : ℕ) → plain_key_char c ≡ true → has_char key_blanks c ≡ false
unfolding is_key_char
key_char-blank c h = ground arith

pub key_loop_step :
    (room c : ℕ) (s : List ℕ)
    → is_key_char c ≡ true
    → key_loop (suc room) (false, (some c, s)) ≡ key_cons c (key_loop room (get_char_q false s))
unfolding key_loop
key_loop_step room c s h = rw h refl

key_loop_lem :
    (key : List ℕ) (room : ℕ) (s : List ℕ)
    → all plain_key_char key ≡ true
    → length key < room
    → key_loop room (get_char_q false (key ++ b':' ∷ s)) ≡ (key, false, b':' ∷ s)
unfolding key_loop get_char_q is_key_char key_cons
key_loop_lem key zero s h lt = absurd (omega arith)
key_loop_lem [] (suc room) s h lt = refl
key_loop_lem (c ∷ key) (suc room) s h lt =
    let c_ok = and-left (plain_key_char c) (all plain_key_char key) h in
    let c_key = and-left (is_key_char c) (not (c == 0)) c_ok in
    ap (key_loop (suc room)) (get_char_q-unquoted c (key ++ b':' ∷ s) (key_char-ne-quote c c_key))
    ∙ key_loop_step room c (key ++ b':' ∷ s) c_key
    ∙ ap (key_cons c) (
        key_loop_lem key room s (and-right (plain_key_char c) (all plain_key_char key) h)
          (omega (arith, lt)))

pub plain_key-ne-zero : (c : ℕ) → plain_key_char c ≡ true → c ≢ 0
plain_key-ne-zero c h = ground arith

-- The end of the line before, which a quoted value leaves.
abbrev pub after_line : Bool → List ℕ → List ℕ
after_line true s = b'\n' ∷ s
after_line false s = s

pub skip_stop :
    (chars : List ℕ) (c : ℕ) (s : List ℕ)
    → has_char chars c ≡ false
    → skip_chars chars (c ∷ s) ≡ (some c, s)
unfolding skip_chars
skip_stop chars c s h = rw h refl

at_key :
    (again : List ℕ → Option Read) (c : ℕ) (s : List ℕ)
    → (c == b'#') ≡ false
    → comment_or_key again (some c, s) ≡ some (some c, s)
unfolding comment_or_key
at_key again c s h = rw h refl

pub skip_comments_lem :
    (fuel c : ℕ) (left : Bool) (s : List ℕ)
    → plain_key_char c ≡ true
    → (c == b'#') ≡ false
    → skip_comments (suc fuel) (after_line left (c ∷ s)) ≡ some (some c, s)
unfolding skip_comments
skip_comments_lem fuel c false s h k =
    ap (comment_or_key (skip_comments fuel)) (skip_stop key_blanks c s (key_char-blank c h))
    ∙ at_key (skip_comments fuel) c s k
skip_comments_lem fuel c true s h k =
    ap (comment_or_key (skip_comments fuel)) (skip_stop key_blanks c s (key_char-blank c h))
    ∙ at_key (skip_comments fuel) c s k

terminate-fits :
    (size : ℕ) (key : List ℕ) (quote : Bool) (s : List ℕ)
    → length key < size
    → terminate size (key, quote, s) ≡ key_read (key, quote, s)
unfolding terminate
terminate-fits size key quote s lt = rw (terminate, lt→ltb (length key) size lt) refl

pub read_key_lem :
    (fuel : ℕ) (left : Bool) (key s : List ℕ)
    → IsKey key
    → read_key (suc fuel) false (after_line left (key ++ b':' ∷ s))
      ≡ some (key_read (key, false, b':' ∷ s))
unfolding read_key_at unget_char read_key
read_key_lem fuel left [] s k = absurd (k.some_char refl)
read_key_lem fuel left (c ∷ key) s k =
    let first =
      skip_comments_lem fuel c left (key ++ b':' ∷ s)
        (and-left (plain_key_char c) (all plain_key_char key) k.chars) k.not_comment in
    rw (read_key, first)
      (ap (λ k. some (terminate max_key_len k))
          (key_loop_lem (c ∷ key) max_key_len s k.chars k.in_limit)
        ∙ ap some (terminate-fits max_key_len (c ∷ key) false (b':' ∷ s) k.in_limit))
