-- ===== src/MsgSet/Update/Consistent.antt =====
-- The three containers of a message agree after `update_msgdata`, which never meets a null handler.
use mathlib.Core.Option.{some-injective}
use mathlib.Core.Bool.{false≢true}
use actube.Base.{
  ℕ, ◌≡◌, refl, sym, ap, ◌∙◌, ◌↔◌, inl, inr, arith, Bool, true, false, Option, none, some, List, [],
  ◌∷◌, ◌==◌, ◌&&◌, Bool-cases, Option-cases, and-left,
}
use actube.MsgSet.{ElemDef, ElemData, ElemHandler}
use actube.MsgSet.Order.{same_elem}
use actube.MsgSet.Mavl.{Mavl, In}
use actube.MsgSet.Elements.{Once}
use actube.MsgSet.Update.{Elems, data_of, update_elements, mandatory_keys, update_msgdata}
use actube.MsgSet.Update.Elementwise.{
  View, is_known, effect, effects, NoAppend, view, update_elements-effects,
}

abbrev no_element : ElemData
no_element = record { proto = 0; vendor = 0; id = 0; mand = false }

module _ {S : Type 0} (handler : ℕ → ℕ → ℕ → Option (ElemHandler S)) where
  -- What is sent is accepted too, and what is accepted has a handler.
  abbrev pub fits : View → Bool
  fits v = elim v.accepted [
    | none ↦ elim v.sent [ none ↦ true | some x ↦ false ]
    | some y ↦ elim (handler y.proto y.vendor y.id) [ none ↦ false | some h ↦ true ]
  ]

  effect-fits :
      (d : ElemDef) (v : View) → is_known handler d ≡ true → fits (effect handler d v) ≡ true
  effect-fits d v known = ground arith

  effects-fits :
      (ds : List ElemDef) (x : ElemData) (v : View)
      → fits v ≡ true
      → fits (effects handler x v ds) ≡ true
  effects-fits [] x v h = h
  effects-fits (d ∷ ds) x v h = elim (Bool-cases (d.id == 0)) [
    | inl end ↦ rw end h
    | inr more ↦ elim (Bool-cases (is_known handler d && same_elem (data_of d) x)) [
      | inl about ↦
          rw (more, about)
            (effects-fits ds x (effect handler d v) (effect-fits d v (and-left _ _ about)))
      | inr other ↦ rw (more, other) (effects-fits ds x v h)
    ]
  ]

  -- `k` is the key of a mandatory element among those that `Has` describes.
  pub record Mandatory (Has : ElemData → Type 0) (k : ℕ) : Type 0 where
    pub element : ElemData
    pub handled_by : ElemHandler S
    pub has : Has element
    pub mandatory : element.mand ≡ true
    pub known : handler element.proto element.vendor element.id ≡ some handled_by
    pub keyed : handled_by.key ≡ k

  moved :
      {Has Having : ElemData → Type 0} (k : ℕ)
      → ((x : ElemData) → Has x → Having x)
      → Mandatory Has k
      → Mandatory Having k
  moved k f m = record {
    element = m.element;
    handled_by = m.handled_by;
    has = f m.element m.has;
    mandatory = m.mandatory;
    known = m.known;
    keyed = m.keyed;
  }

  abbrev Known : ElemData → Type 0
  Known x = (h : ElemHandler S) × (handler x.proto x.vendor x.id ≡ some h)

  at_rest :
      (x : ElemData) (eds : List ElemData) (k : ℕ) (m : Mandatory (λ y. In y (x ∷ eds)) k)
      → In m.element eds
      → Mandatory (λ y. In y eds) k
  at_rest x eds k m i = record {
    element = m.element;
    handled_by = m.handled_by;
    has = i;
    mandatory = m.mandatory;
    known = m.known;
    keyed = m.keyed;
  }

  among :
      (x : ElemData) (eds : List ElemData) (h : ElemHandler S) (k : ℕ) (keys : List ℕ)
      → handler x.proto x.vendor x.id ≡ some h
      → (Mandatory (λ y. In y eds) k → In k keys)
      → (m : Mandatory (λ y. In y (x ∷ eds)) k) → In m.element (x ∷ eds)
      → In k (h.key ∷ keys)
  among x eds h k keys present complete m (inl here) = inl (
      sym (
        ap (λ g. g.key)
          (some-injective h m.handled_by
            (sym present ∙ ap (λ y. handler y.proto y.vendor y.id) (sym here) ∙ m.known))
        ∙ m.keyed))
  among x eds h k keys present complete m (inr later) = inr (complete (at_rest x eds k m later))

  mandatory_keys-In :
      (eds : List ElemData)
      → ((x : ElemData) → In x eds → Known x)
      → (keys : List ℕ) × (mandatory_keys handler eds ≡ some keys)
        × ((k : ℕ) → In k keys → Mandatory (λ y. In y eds) k)
        × ((k : ℕ) → Mandatory (λ y. In y eds) k → In k keys)
  unfolding mandatory_keys
  mandatory_keys-In [] known = ([], refl, λ k i. absurd i, λ k m. absurd m.has)
  mandatory_keys-In (x ∷ eds) known =
      let (keys, e, sound, complete) = mandatory_keys-In eds (λ y i. known y (inr i)) in
      let (h, present) = known x (inl refl) in
      elim (Bool-cases x.mand) [
        | inl mand ↦ (
          h.key ∷ keys,
          rw (mand, present, e) refl,
          λ k i. elim i [
            | inl q ↦ record {
              element = x;
              handled_by = h;
              has = inl refl;
              mandatory = mand;
              known = present;
              keyed = sym q;
            }
            | inr later ↦ moved k (λ y j. inr j) (sound k later)
          ],
          λ k m. among x eds h k keys present (complete k) m m.has,
        )
        | inr optional ↦ (
          keys,
          rw optional e,
          λ k i. moved k (λ y j. inr j) (sound k i),
          λ k m. elim m.has [
            | inl here ↦
                absurd (false≢true (sym optional ∙ sym (ap (λ y. y.mand) here) ∙ m.mandatory))
            | inr later ↦ complete k (at_rest x eds k m later)
          ],
        )
      ]

module _ {S : Type 0} (M : Mavl ElemData same_elem)
    (handler : ℕ → ℕ → ℕ → Option (ElemHandler S)) where
  open M use {Tree, get, to_list, listed, found}

  -- No element is in the list twice, and all that the list holds is in the tree, with a handler.
  pub record IsConsistent (e : Elems Tree) : Type 0 where
    pub once : Once same_elem e.elements_list
    pub agreed : (x : ElemData) → fits handler (view M handler e x) ≡ true

  accepted_known :
      (e : Elems Tree) (x : ElemData)
      → fits handler (view M handler e x) ≡ true
      → get e.elements_tree x ≡ some x
      → (h : ElemHandler S) × (handler x.proto x.vendor x.id ≡ some h)
  accepted_known e x fit here = elim (Option-cases (handler x.proto x.vendor x.id)) [
    | inr present ↦ present
    | inl absent ↦ ground arith
  ]

  -- Where no definition appends: from consistent containers `update_msgdata` gets to consistent ones
  -- and never accesses a null handler. Each element is then sent and accepted as the definitions
  -- about it say, in their order, and a key is mandatory exactly if an accepted element that is
  -- mandatory has it.
  pub update_msgdata-IsConsistent :
      (e : Elems Tree) (ds : List ElemDef)
      → NoAppend ds
      → IsConsistent e
      → (e' : Elems Tree) × (update_msgdata M handler e ds ≡ some e')
        × IsConsistent e'
        × ((x : ElemData) → view M handler e' x ≡ effects handler x (view M handler e x) ds)
        × ((k : ℕ) → In k e'.mand_keys ↔ Mandatory handler (λ x. get e'.elements_tree x ≡ some x) k)
  unfolding update_msgdata
  update_msgdata-IsConsistent e ds ok c =
      let e' = update_elements M handler e ds in
      let after : (x : ElemData) → view M handler e' x ≡ effects handler x (view M handler e x) ds =
        λ x. (update_elements-effects M handler ds e x ok c.once).0 in
      let agreed : (x : ElemData) → fits handler (view M handler e' x) ≡ true = λ x.
        ap (fits handler) (after x) ∙ effects-fits handler ds x (view M handler e x) (c.agreed x) in
      let (keys, q, sound, complete) =
        mandatory_keys-In handler (to_list e'.elements_tree)
          (λ x i. accepted_known e' x (agreed x) (found e'.elements_tree x i)) in
      (
        record e' { mand_keys = keys },
        rw (update_msgdata, q) refl,
        record {
          once = (update_elements-effects M handler ds e no_element ok c.once).1;
          agreed = agreed;
        },
        after,
        λ k. (
          λ i. moved handler k (found e'.elements_tree) (sound k i),
          λ m. complete k (moved handler k (listed e'.elements_tree) m),
        ),
      )
