-- ===== src/Cfg/Total.antt =====
-- `cw_cfg_read_from_file` comes to an end on every file: each step of the reader shortens what is left.
pub mod Lines
use actube.Base.{
  ℕ, zero, suc, ◌+◌, ◌≤◌, ◌<◌, ◌≡◌, ◌≢◌, refl, sym, ap, ◌∙◌, ◌⊎◌, arith, Bool, true, false, Option,
  none, some, List, [], ◌∷◌, ◌==◌, ◌&&◌, not, if◌then◌else◌, length, inl, inr, Bool-cases,
}
use actube.Cfg.{has_char, blanks, key_blanks, line_ends, is_key_char, max_key_len}
use actube.Cfg.Reader.{
  Read, Key, Val, Line, Loaded, entry, no_key, no_colon, get_char, unget_char, escaped_q,
  get_char_q, skip_chars, skip_to_chars, comment_end, comment_or_key, skip_comments, key_cons,
  key_loop, read_key_at, read_key, val_cons, escaped, val_char, val_loop, trim, read_quoted, colon,
  read_val, line_of, read_line, with_entry, continue_from, read_lines, read_from_file,
}

-- What is left, together with the character that was read.
abbrev pub size : Read → ℕ
size (none, s) = length s
size (some c, s) = suc (length s)

escaped_q-size : (s : List ℕ) → size (escaped_q s) ≤ suc (length s)
unfolding escaped_q
escaped_q-size [] = omega arith
escaped_q-size (c ∷ s) = ground arith

get_char_q-size : (quote : Bool) (s : List ℕ) → size (get_char_q quote s).1 ≤ length s
unfolding get_char_q
get_char_q-size quote [] = omega arith
get_char_q-size quote (c ∷ s) = ground (arith, get_char_q-size (not quote) s, escaped_q-size s)

pub skip_chars-size : (chars s : List ℕ) → size (skip_chars chars s) ≤ length s
unfolding skip_chars
skip_chars-size chars [] = omega arith
skip_chars-size chars (c ∷ s) = elim (Bool-cases (has_char chars c)) [
  | inl skipped ↦ rw skipped (omega (arith, skip_chars-size chars s))
  | inr here ↦ rw here (omega arith)
]

skip_to_chars-size : (chars s : List ℕ) → size (skip_to_chars chars s) ≤ length s
unfolding skip_to_chars
skip_to_chars-size chars [] = omega arith
skip_to_chars-size chars (c ∷ s) = elim (Bool-cases (has_char chars c)) [
  | inl here ↦ rw here (omega arith)
  | inr skipped ↦ rw skipped (omega (arith, skip_to_chars-size chars s))
]

-- A result that leaves no more than `n`.
abbrev pub Within : ℕ → Option Read → Type 0
Within n o = (r : Read) × (o ≡ some r) × (size r ≤ n)

comment_end-Within :
    (again : List ℕ → Option Read) (n : ℕ) (r : Read)
    → ((t : List ℕ) → length t < n → Within (length t) (again t))
    → size r ≤ n
    → Within n (comment_end again r)
unfolding comment_end
comment_end-Within again n (none, t) next le = ((none, t), refl, le)
comment_end-Within again n (some d, t) next le =
    let (r, e, small) = next t (omega (arith, le)) in (r, e, omega (arith, small, le))

comment_or_key-Within :
    (again : List ℕ → Option Read) (n : ℕ) (r : Read)
    → ((t : List ℕ) → length t < n → Within (length t) (again t))
    → size r ≤ n
    → Within n (comment_or_key again r)
unfolding comment_or_key
comment_or_key-Within again n (none, t) next le = ((none, t), refl, le)
comment_or_key-Within again n (some c, t) next le = elim (Bool-cases (c == b'#')) [
  | inl comment ↦ rw comment (
      comment_end-Within again n (skip_to_chars line_ends t) next
        (omega (arith, skip_to_chars-size line_ends t, le)))
  | inr key ↦ rw key ((some c, t), refl, le)
]

pub skip_comments-Within :
    (fuel : ℕ) (s : List ℕ) → length s < fuel → Within (length s) (skip_comments fuel s)
unfolding skip_comments
skip_comments-Within zero s lt = absurd (omega arith)
skip_comments-Within (suc fuel) s lt =
    comment_or_key-Within (skip_comments fuel) (length s) (skip_chars key_blanks s)
      (λ t small. skip_comments-Within fuel t (omega (arith, small, lt)))
      (skip_chars-size key_blanks s)

-- A key, with what it leaves.
abbrev pub key_size : Key → ℕ
key_size (key, quote, s) = length key + length s

key_cons-size : (c : ℕ) (k : Key) → key_size (key_cons c k) ≡ suc (key_size k)
unfolding key_cons
key_cons-size c (key, quote, s) = omega arith

key_loop-size : (room : ℕ) (quote : Bool) (r : Read) → key_size (key_loop room (quote, r)) ≤ size r
unfolding key_loop
key_loop-size room quote (none, s) = omega arith
key_loop-size zero quote (some c, s) = omega arith
key_loop-size (suc room) quote (some c, s) =
    let q = get_char_q quote s in
    elim (Bool-cases (not quote && not (is_key_char c))) [
      | inl end ↦ rw end (omega arith)
      | inr more ↦ rw more (
          omega (
            arith,
            key_cons-size c (key_loop room q),
            key_loop-size room q.0 q.1,
            get_char_q-size quote s,
          ))
    ]

pub read_key_at-size : (quote : Bool) (r : Read) → key_size (read_key_at quote r) ≤ size r
unfolding read_key_at unget_char
read_key_at-size quote (none, s) = omega (
  arith,
  key_loop-size max_key_len (get_char_q quote s).0 (get_char_q quote s).1,
  get_char_q-size quote s,
)
read_key_at-size quote (some c, s) = omega (
  arith,
  key_loop-size max_key_len (get_char_q quote (c ∷ s)).0 (get_char_q quote (c ∷ s)).1,
  get_char_q-size quote (c ∷ s),
)

val_cons-rest : (c : ℕ) (v : Val) → length (val_cons c v).1 ≡ length v.1
unfolding val_cons
val_cons-rest c (val, s) = refl

val_char-size : (quote : Bool) (c : ℕ) (s : List ℕ) → length (val_char quote c s).1 ≤ length s
unfolding val_char escaped
val_char-size quote c [] = ground arith
val_char-size quote c (d ∷ s) = ground arith

get_char-size : (s : List ℕ) → size (get_char s) ≡ length s
unfolding get_char
get_char-size [] = refl
get_char-size (c ∷ s) = refl

val_loop-size : (room : ℕ) (quote : Bool) (r : Read) → length (val_loop room quote r).1 ≤ size r
unfolding val_loop
val_loop-size room quote (none, s) = omega arith
val_loop-size zero quote (some c, s) = omega arith
val_loop-size (suc room) quote (some c, s) =
    let d = val_char quote c s in
    elim (Bool-cases (quote && c == b'"')) [
      | inl end ↦ rw end (omega arith)
      | inr more ↦ elim (Bool-cases (c == b'\n')) [
        | inl line_end ↦ rw (more, line_end) (omega arith)
        | inr inside ↦
            rw (more, inside)
              (omega (
                arith,
                val_cons-rest d.0 (val_loop room quote (get_char d.1)),
                val_loop-size room quote (get_char d.1),
                get_char-size d.1,
                val_char-size quote c s,
              ))
      ]
    ]

read_quoted-size : (r : Read) → length (read_quoted r).1 ≤ size r
unfolding read_quoted
read_quoted-size (none, s) = omega arith
read_quoted-size (some c, s) = elim (Bool-cases (c == b'"')) [
  | inl quoted ↦
      rw quoted (omega (arith, val_loop-size max_key_len true (get_char s), get_char-size s))
  | inr plain ↦ rw plain (omega (arith, val_loop-size max_key_len false (some c, s)))
]

-- What a value leaves, if there is one.
abbrev pub Leaves : ℕ → Val ⊎ List ℕ → Type 0
Leaves n (inl (val, t)) = length t ≤ n
Leaves n (inr t) = Unit

pub colon-Leaves : (n : ℕ) (r : Read) → size r ≤ n → Leaves n (colon r)
unfolding colon
colon-Leaves n (none, t) le = tt
colon-Leaves n (some c, t) le = elim (Bool-cases (c == b':')) [
  | inl here ↦
      rw here (omega (arith, read_quoted-size (skip_chars blanks t), skip_chars-size blanks t, le))
  | inr missing ↦ elim (Bool-cases (c == b'\n')) [
    | inl line_end ↦ rw (missing, line_end) tt
    | inr other ↦ rw (missing, other) tt
  ]
]
