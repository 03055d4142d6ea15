-- ===== src/Message/Elems.antt =====
-- The loop `cw_foreach_elem`: which elements it visits, and that it ends.
use native.Mathlib.Decide.{dec_lt}
use actube.Base.{
  ℕ, zero, suc, ◌+◌, ◌≤◌, ◌<◌, ◌≡◌, refl, sym, subst, arith, Mem, List, [], ◌∷◌, lt→ltb, le→ltb,
}
use actube.Message.{get_elem_id, get_elem_len, foreach_elem}

-- The elements that are reached from `i`, by their offsets, up to the first offset that is not below
-- `end`.
pub data Visits (m : Mem) : ℕ → ℕ → List ℕ → Type 0 where
  done : {i end : ℕ} → end ≤ i → Visits m i end []
  step :
      {i end : ℕ} {es : List ℕ}
      → i < end
      → Visits m (i + 4 + get_elem_len m i) end es
      → Visits m i end (i ∷ es)

abbrev pub foldl {ℓ} : {A : Type ℓ} → (A → ℕ → A) → A → List ℕ → A
foldl f a [] = a
foldl f a (x ∷ xs) = foldl f (f a x) xs

Visits-fuel : (m : Mem) (fuel i end : ℕ) → end ≤ i + fuel → (es : List ℕ) × Visits m i end es
Visits-fuel m zero i end h = ([], done (omega arith))
Visits-fuel m (suc fuel) i end h = elim (dec_lt i end) [
  | yes lt ↦
      let (es, v) = Visits-fuel m fuel (i + 4 + get_elem_len m i) end (omega arith) in
      (i ∷ es, step lt v)
  | no ge ↦ ([], done (omega arith))
]

pub foreach_elem-Visits {ℓ} :
    {A : Type ℓ} (body : A → ℕ → A) (m : Mem) (fuel : ℕ) {i end : ℕ} {es : List ℕ} (a : A)
    → Visits m i end es
    → end ≤ i + fuel
    → foreach_elem body m fuel i end a ≡ foldl body a es
unfolding foreach_elem
foreach_elem-Visits body m zero a (done {i} {end} ge) h = refl
foreach_elem-Visits body m zero a (step {i} {end} lt v) h = absurd (omega arith)
foreach_elem-Visits body m (suc fuel) a (done {i} {end} ge) h =
    rw (foreach_elem, le→ltb i end ge) refl
foreach_elem-Visits body m (suc fuel) a (step {i} {end} lt v) h =
    rw (foreach_elem, lt→ltb i end lt) (foreach_elem-Visits body m fuel (body a i) v (omega arith))

-- On every memory the loop over `len` bytes ends by its own test within `len` turns: it runs its
-- body once on each element of a list that starts at the first byte and follows the length fields
-- up to the end of the area.
pub foreach_elem_ends {ℓ} :
    {A : Type ℓ} (body : A → ℕ → A) (m : Mem) (elems len : ℕ) (a : A)
    → (es : List ℕ) × Visits m elems (elems + len) es
      × (foreach_elem body m len elems (elems + len) a ≡ foldl body a es)
foreach_elem_ends body m elems len a =
    let (es, v) = Visits-fuel m len elems (elems + len) (omega arith) in
    (es, v, foreach_elem-Visits body m len a v (omega arith))

-- An element as it is meant: its id, and its data.
pub record Elem : Type 0 where
  pub id : ℕ
  pub len : ℕ
  pub content : Mem

pub record IsElem (m : Mem) (p : ℕ) (x : Elem) : Type 0 where
  pub has_id : get_elem_id m p ≡ x.id
  pub has_len : get_elem_len m p ≡ x.len
  pub has_content : (j : ℕ) → j < x.len → m (p + 4 + j) ≡ x.content j

-- Elements that lie in a memory one after the other.
pub data Laid (m : Mem) : ℕ → List Elem → ℕ → Type 0 where
  nil : {p : ℕ} → Laid m p [] p
  cons :
      {p q : ℕ} {x : Elem} {xs : List Elem}
      → IsElem m p x
      → Laid m (p + 4 + x.len) xs q
      → Laid m p (x ∷ xs) q

abbrev pub offsets : ℕ → List Elem → List ℕ
offsets p [] = []
offsets p (x ∷ xs) = p ∷ offsets (p + 4 + x.len) xs

pub Laid-le : {m : Mem} {p q : ℕ} {xs : List Elem} → Laid m p xs q → p ≤ q
Laid-le nil = omega arith
Laid-le (cons {p} {q} {x} h l) = omega (arith, Laid-le l)

pub Laid-Visits : {m : Mem} {p q : ℕ} {xs : List Elem} → Laid m p xs q → Visits m p q (offsets p xs)
Laid-Visits nil = done (omega arith)
Laid-Visits {m} (cons {p} {q} {x} {xs} h l) = step (omega (arith, Laid-le l)) (
    subst (λ n. Visits m (p + 4 + n) q (offsets (p + 4 + x.len) xs)) (sym h.has_len)
      (Laid-Visits l))
