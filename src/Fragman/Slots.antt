-- ===== src/Fragman/Slots.antt =====
-- The array of fragments: what `frag_get` finds after a write or after `frag_new`.
use actube.Base.{
  ℕ, zero, suc, ◌+◌, ◌<◌, ◌≡◌, refl, ◌⊎◌, inl, inr, arith, Mem, false, ◌||◌, Option, none, some,
  List, [], ◌∷◌, ltb, set, Bool-cases,
}
use actube.Fragman.{Frag, Realloc, Slot, is_null, frag_get, frag_new, claim, cons_frag, frag_ttl}

-- Writing a frame of the same id over the one that was found keeps it the one that is found.
pub frag_get-set :
    (frags : List Frag) (fragid i : ℕ) (f f' : Frag) (b : Mem)
    → frag_get frags fragid ≡ some (i, f)
    → f'.fragid ≡ fragid
    → f'.buffer ≡ some b
    → frag_get (set frags i f') fragid ≡ some (i, f')
unfolding frag_get
frag_get-set [] fragid i f f' b h e n = cc
frag_get-set (g ∷ gs) fragid zero f f' b h e n = ground arith
frag_get-set (g ∷ gs) fragid (suc i) f f' b h e n = ground (arith, frag_get-set gs fragid i f f' b)

-- The frame that `frag_new` has set up is the one that `frag_get` then finds, and it is empty.
pub record IsFresh (fragid : ℕ) (out : List Frag × Slot) : Type 0 where
  pub index : ℕ
  pub frame : Frag
  pub memory : Mem
  pub returned : out.1 ≡ some (index, frame)
  pub found : frag_get out.0 fragid ≡ some (index, frame)
  pub has_memory : frame.buffer ≡ some memory
  pub has_id : frame.fragid ≡ fragid
  pub nothing_received : frame.bytesreceived ≡ 0
  pub nothing_needed : frame.bytesneeded ≡ 0

-- A slot is free if it holds no buffer or has run out of time.
abbrev pub HasRoom : ℕ → List Frag → Type 0
HasRoom now [] = ⊥
HasRoom now (f ∷ fs) = (f.buffer ≡ none) ⊎ (f.tv_sec + frag_ttl < now) ⊎ HasRoom now fs

abbrev pub Succeeds : Realloc → Type 0
Succeeds realloc = (o : Option Mem) → (b : Mem) × (realloc o ≡ some b)

claims-IsFresh :
    (realloc : Realloc) (now fragid : ℕ) (f : Frag) (fs : List Frag) (b : Mem)
    → realloc f.buffer ≡ some b
    → IsFresh fragid (claim f fs (realloc f.buffer) fragid now)
claims-IsFresh realloc now fragid f fs b e = rw e (record {
  index = 0;
  frame = fresh;
  memory = b;
  returned = unfold claim in refl;
  found = unfold claim frag_get in ground arith;
  has_memory = refl;
  has_id = refl;
  nothing_received = refl;
  nothing_needed = refl;
})
  where
    fresh : Frag
    fresh = record {
      buffer = some b;
      fragid = fragid;
      bytesreceived = 0;
      bytesneeded = 0;
      tv_sec = now;
    }

skips-IsFresh :
    (fragid : ℕ) (f : Frag) (fs : List Frag) (out : List Frag × Slot)
    → frag_get (f ∷ fs) fragid ≡ none
    → is_null f.buffer ≡ false
    → IsFresh fragid out
    → IsFresh fragid (cons_frag f out)
unfolding frag_get
skips-IsFresh fragid f fs (gs, s) h used fresh = record {
  index = suc fresh.index;
  frame = fresh.frame;
  memory = fresh.memory;
  returned = ground (arith, fresh.returned);
  found = ground (arith, fresh.found);
  has_memory = fresh.has_memory;
  has_id = fresh.has_id;
  nothing_received = fresh.nothing_received;
  nothing_needed = fresh.nothing_needed;
}

tail_none :
    (f : Frag) (fs : List Frag) (fragid : ℕ)
    → frag_get (f ∷ fs) fragid ≡ none
    → frag_get fs fragid ≡ none
unfolding frag_get
tail_none f fs fragid h = ground arith

pub frag_new-IsFresh :
    (realloc : Realloc) (now fragid : ℕ) (frags : List Frag)
    → Succeeds realloc
    → frag_get frags fragid ≡ none
    → HasRoom now frags
    → IsFresh fragid (frag_new realloc now frags fragid)
unfolding frag_new
frag_new-IsFresh realloc now fragid [] ok h room = absurd room
frag_new-IsFresh realloc now fragid (f ∷ fs) ok h room =
    let ih = frag_new-IsFresh realloc now fragid fs ok (tail_none f fs fragid h) in
    elim (Bool-cases (is_null f.buffer || ltb (f.tv_sec + frag_ttl) now)) [
      | inl free ↦
          let (b, e) = ok f.buffer in
          rw (free, frag_new) (claims-IsFresh realloc now fragid f fs b e)
      | inr taken ↦
          rw (taken, frag_new)
            (skips-IsFresh fragid f fs _ h (unfold is_null in ground arith)
              (ih (unfold is_null in ground arith)))
    ]
