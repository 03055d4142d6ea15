-- ===== src/Value/Struct/Layout.antt =====
-- Where the fields of a struct are read and written: src/cw/cw_type_struct.c.
use actube.Base.{
  ℕ, ◌+◌, ◌≤◌, ◌<◌, ◌≡◌, ◌⊎◌, refl, ap, ap₂, ◌∙◌, inl, inr, arith, Option, none, some, List, [],
  ◌∷◌, Mem, Option-cases,
}
use actube.MsgSet.Mavl.{Mavl}
use actube.Cfg.Store.{Entry, same_entry, get_l}
use actube.Value.Struct.{
  Kind, Field, fixed, field_key, read_len, read_fields, read_struct, clear, write_field,
  write_fields, write_struct, start_at,
}

abbrev pub Outside : ℕ → ℕ → ℕ → Type 0
Outside at n i = (i < at) ⊎ (at + n ≤ i)

-- A value is written within `n` bytes.
abbrev pub Fits : {Tree : Type 0} → Kind Tree → ℕ → Type 0
Fits {Tree} kind n =
    (cfgs : List Tree) (key : List ℕ) (m : Mem) (at i : ℕ)
    → Outside at n i
    → (kind.write cfgs key m at).0 i ≡ m i

-- Fields of fixed lengths, one behind the other.
abbrev pub IsRow : {Tree : Type 0} → List (Field Tree) → List ℕ → Type 0
IsRow [] [] = Unit
IsRow [] (n ∷ ns) = ⊥
IsRow (f ∷ fs) [] = ⊥
IsRow (f ∷ fs) (n ∷ ns) = (f.len ≡ fixed n) × (f.position ≡ none) × Fits f.kind n × IsRow fs ns

abbrev pub total : List ℕ → ℕ
total [] = 0
total (n ∷ ns) = n + total ns

pub clear-Outside : (m : Mem) (at n i : ℕ) → Outside at n i → clear m at n i ≡ m i
unfolding clear
clear-Outside m at n i (inl before) = ground arith
clear-Outside m at n i (inr behind) = ground arith

after_first : (dst at n k i : ℕ) → Outside (dst + at) (n + k) i → Outside (dst + (at + n)) k i
after_first dst at n k i (inl before) = inl (omega (arith, before))
after_first dst at n k i (inr behind) = inr (omega (arith, behind))

before_rest : (dst at n k i : ℕ) → Outside (dst + at) (n + k) i → Outside (dst + at) n i
before_rest dst at n k i (inl before) = inl before
before_rest dst at n k i (inr behind) = inr (omega (arith, behind))

at_start : (dst k i : ℕ) → Outside dst k i → Outside (dst + 0) k i
at_start dst k i (inl before) = inl (omega (arith, before))
at_start dst k i (inr behind) = inr (omega (arith, behind))

module _ (M : Mavl Entry same_entry) where
  open M use {Tree}

  -- What a field of fixed length writes.
  record Written (m : Mem) (start n next : ℕ) (o : Option (Mem × ℕ)) : Type 0 where
    mem : Mem
    ends : o ≡ some (mem, next)
    kept : (i : ℕ) → Outside start n i → mem i ≡ m i

  write_field-Written :
      (cfgs : List Tree) (kind : Kind Tree) (key : List ℕ) (n : ℕ) (m : Mem) (dst at : ℕ)
      → Fits kind n
      → Written m (dst + at) n (at + n) (write_field M cfgs kind key (fixed n) m dst at)
  unfolding write_field
  write_field-Written cfgs kind key n m dst at fits = elim (Option-cases (get_l M cfgs key none)) [
    | inl absent ↦
        rw (write_field, absent)
          (record {
            mem = clear m (dst + at) n;
            ends = refl;
            kept = λ i out. clear-Outside m (dst + at) n i out;
          })
    | inr (s, here) ↦
        rw (write_field, here)
          (record {
            mem = (kind.write cfgs key (clear m (dst + at) n) (dst + at)).0;
            ends = refl;
            kept = λ i out.
                fits cfgs key (clear m (dst + at) n) (dst + at) i out
                ∙ clear-Outside m (dst + at) n i out;
          })
  ]

  abbrev written_then :
      List Tree → List (Field Tree) → List ℕ → ℕ → Option (Mem × ℕ) → Option (Mem × ℕ)
  written_then cfgs fs pkey dst o = elim o [
    | none ↦ none
    | some x ↦ write_fields M cfgs fs pkey x.0 dst x.1
  ]

  first_at :
      (cfgs : List Tree) (f : Field Tree) (n : ℕ) (p : Option ℕ) (key : List ℕ) (m : Mem)
      (dst at : ℕ)
      → f.len ≡ fixed n
      → f.position ≡ p
      → write_field M cfgs f.kind key f.len m dst (start_at f.position at)
        ≡ write_field M cfgs f.kind key (fixed n) m dst (start_at p at)
  first_at cfgs f n p key m dst at size place =
      ap₂ (λ l q. write_field M cfgs f.kind key l m dst (start_at q at)) size place

  write_fields-Written :
      (cfgs : List Tree) (fs : List (Field Tree)) (ns pkey : List ℕ) (m : Mem) (dst at : ℕ)
      → IsRow fs ns
      → Written m (dst + at) (total ns) (at + total ns) (write_fields M cfgs fs pkey m dst at)
  unfolding write_fields
  write_fields-Written cfgs [] [] pkey m dst at row = record {
    mem = m;
    ends = ap (λ (k : ℕ). some (m, k)) (omega arith);
    kept = λ i out. refl;
  }
  write_fields-Written cfgs [] (n ∷ ns) pkey m dst at row = absurd row
  write_fields-Written cfgs (f ∷ fs) [] pkey m dst at row = absurd row
  write_fields-Written cfgs (f ∷ fs) (n ∷ ns) pkey m dst at (size, place, fits, row) =
      let key = field_key pkey f.key in
      let w = write_field-Written cfgs f.kind key n m dst at fits in
      let r = write_fields-Written cfgs fs ns pkey w.mem dst (at + n) row in
      let first = first_at cfgs f n none key m dst at size place ∙ w.ends in
      record {
        mem = r.mem;
        ends =
            ap (written_then cfgs fs pkey dst) first
            ∙ r.ends
            ∙ ap (λ (k : ℕ). some (r.mem, k)) (omega arith);
        kept = λ i out.
            r.kept i (after_first dst at n (total ns) i out)
            ∙ w.kept i (before_rest dst at n (total ns) i out);
      }

  read_fields-row :
      (fs : List (Field Tree)) (ns pkey : List ℕ) (m : Mem) (src len at : ℕ) (cfg : Tree)
      → IsRow fs ns
      → (cfg' : Tree) × (read_fields M cfg fs pkey m src len at ≡ some (cfg', at + total ns))
  unfolding read_fields read_len
  read_fields-row [] [] pkey m src len at cfg row =
      (cfg, ap (λ (k : ℕ). some (cfg, k)) (omega arith))
  read_fields-row [] (n ∷ ns) pkey m src len at cfg row = absurd row
  read_fields-row (f ∷ fs) [] pkey m src len at cfg row = absurd row
  read_fields-row (f ∷ fs) (n ∷ ns) pkey m src len at cfg (size, place, fits, row) =
      rw (size, place)
        (let (cfg', e) = read_fields-row fs ns pkey m src len (at + n) _ row in
          (cfg', e ∙ ap (λ (k : ℕ). some (cfg', k)) (omega arith)))

  -- A struct of fixed lengths, one field behind the other, whatever the configuration has for them: it
  -- is written within the sum of the lengths, if each kind writes within its own; and the reader ends
  -- where the writer does.
  pub struct_row :
      (cfg : Tree) (cfgs : List Tree) (fs : List (Field Tree)) (ns pkey : List ℕ) (m : Mem)
      (dst len i : ℕ)
      → IsRow fs ns
      → Outside dst (total ns) i
      → ((m' : Mem) × (write_struct M cfgs fs pkey m dst ≡ some (m', total ns)) × (m' i ≡ m i))
        × ((cfg' : Tree) × (read_struct M cfg fs pkey m dst len ≡ some (cfg', total ns)))
  unfolding write_struct read_struct
  struct_row cfg cfgs fs ns pkey m dst len i row out =
      let w = write_fields-Written cfgs fs ns pkey m dst 0 row in
      let r = read_fields-row fs ns pkey m dst len 0 cfg row in
      (
        (
          w.mem,
          w.ends ∙ ap (λ (k : ℕ). some (w.mem, k)) (omega arith),
          w.kept i (at_start dst (total ns) i out),
        ),
        (r.0, r.1 ∙ ap (λ (k : ℕ). some (r.0, k)) (omega arith)),
      )
