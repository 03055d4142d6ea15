-- ===== src/Cfg/Total/Lines.antt =====
-- The lines of a file: each one that holds an entry shortens it, so that the fuel of
-- `read_from_file` is enough.
use actube.Base.{
  ℕ, zero, suc, ◌+◌, ◌≤◌, ◌<◌, ◌≡◌, refl, ap, ◌∙◌, ◌⊎◌, arith, Bool, false, Option, some, List, [],
  ◌∷◌, length, ltb, Bool-cases, inl, inr,
}
use actube.Cfg.{max_key_len, blanks, c_string}
use actube.Cfg.Reader.{
  Key, Val, Line, Loaded, entry, no_key, no_colon, key_overrun, line_at, terminate, skip_chars,
  read_key_at, read_key, read_val, line_of, read_line, with_entry, continue_from, read_lines,
  read_from_file,
}
use actube.Cfg.Total.{
  key_size, Leaves, skip_chars-size, skip_comments-Within, read_key_at-size, colon-Leaves,
}

abbrev Shrinks : ℕ → Line → Type 0
Shrinks n no_key = Unit
Shrinks n no_colon = Unit
Shrinks n key_overrun = Unit
Shrinks n (entry key val quote t) = length t < n

read_val-Leaves : (s : List ℕ) → Leaves (length s) (read_val s)
unfolding read_val
read_val-Leaves s = colon-Leaves (length s) (skip_chars blanks s) (skip_chars-size blanks s)

line_of-Shrinks : (n : ℕ) (k : Key) → key_size k ≤ n → Shrinks n (line_of k)
unfolding line_of
line_of-Shrinks n ([], quote, s) le = tt
line_of-Shrinks n (c ∷ key, quote, s) le = value (read_val s) (read_val-Leaves s)
  where
    value :
        (o : Val ⊎ List ℕ)
        → Leaves (length s) o
        → Shrinks n (elim o as (λ x. Line) [
          | inl (val, t) ↦ entry (c_string (c ∷ key)) (c_string val) quote t
          | inr t ↦ no_colon
        ])
    value (inl (val, t)) left = omega (arith, left, le)
    value (inr t) left = tt

line_at-Shrinks : (n size : ℕ) (k : Key) → key_size k ≤ n → Shrinks n (line_at (terminate size k))
unfolding line_at terminate
line_at-Shrinks n size (key, quote, s) le = elim (Bool-cases (ltb (length key) size)) [
  | inl fits ↦ rw fits (line_of-Shrinks n (key, quote, s) le)
  | inr over ↦ rw over tt
]

read_line-Shrinks :
    (fuel : ℕ) (quote : Bool) (s : List ℕ)
    → length s < fuel
    → (l : Line) × (read_line fuel quote s ≡ some l) × Shrinks (length s) l
unfolding read_line read_key
read_line-Shrinks fuel quote s lt =
    let (r, e, le) = skip_comments-Within fuel s lt in
    (
      line_at (terminate max_key_len (read_key_at quote r)),
      rw (read_line, read_key, e) refl,
      line_at-Shrinks (length s) max_key_len (read_key_at quote r)
          (omega (arith, read_key_at-size quote r, le)),
    )

continue_from_total :
    (rest : Bool → List ℕ → Option Loaded) (n : ℕ) (l : Line)
    → Shrinks n l
    → ((quote : Bool) (t : List ℕ) → length t < n → (r : Loaded) × (rest quote t ≡ some r))
    → (r : Loaded) × (continue_from rest (some l) ≡ some r)
unfolding continue_from
continue_from_total rest n no_key h next = (_, refl)
continue_from_total rest n no_colon h next = (_, refl)
continue_from_total rest n key_overrun h next = (_, refl)
continue_from_total rest n (entry key val quote t) h next =
    let (r, e) = next quote t h in (_, ap (with_entry key val) e)

read_lines_total :
    (fuel : ℕ) (quote : Bool) (s : List ℕ)
    → length s < fuel
    → (r : Loaded) × (read_lines fuel quote s ≡ some r)
unfolding read_lines
read_lines_total zero quote s lt = absurd (omega arith)
read_lines_total (suc fuel) quote s lt =
    let (l, e, small) = read_line-Shrinks (suc fuel) quote s lt in
    let (r, done) =
      continue_from_total (read_lines fuel) (length s) l small
        (λ q t le. read_lines_total fuel q t (omega (arith, le, lt))) in
    (r, ap (continue_from (read_lines fuel)) e ∙ done)

-- Whatever a file holds, reading it comes to an end, if not by the end of the file or a line that is no
-- entry then at a key that runs over its buffer, behind which nothing is defined.
pub read_from_file_total : (s : List ℕ) → (r : Loaded) × (read_from_file s ≡ some r)
unfolding read_from_file
read_from_file_total s = read_lines_total (length s + 1) false s (omega arith)
