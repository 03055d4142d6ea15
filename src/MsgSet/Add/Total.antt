-- ===== src/MsgSet/Add/Total.antt =====
-- A message set that `cw_msgset_add` builds: the containers of each message agree, and no null handler
-- is met.
use mathlib.Core.Bool.{false≢true}
use mathlib.Core.Option.{some-injective}
use actube.Base.{
  ℕ, ◌≡◌, refl, sym, ap, subst, ◌∙◌, inl, inr, arith, true, Option, none, some, List, [], ◌∷◌,
  if◌then◌else◌, ◌==◌, ==_iff, Bool-cases, Option-cases,
}
use actube.MsgSet.{ElemData, ElemHandler, MsgDef}
use actube.MsgSet.Order.{same_elem}
use actube.MsgSet.Mavl.{Mavl, get-replace, or_else, replace}
use actube.MsgSet.Elements.{nothing, look}
use actube.MsgSet.Update.Elementwise.{NoAppend}
use actube.MsgSet.Update.Consistent.{IsConsistent, fits, update_msgdata-IsConsistent}
use actube.MsgSet.Add.{
  Message, same_type, same_handler, Set, handler_key, get_elemhandler, get_msgdata, fresh,
  overwrite, add_message, add_handlers, add_messages, msgset_add,
}

abbrev pub NoAppends : {S : Type 0} → List (MsgDef S) → Type 0
NoAppends [] = Unit
NoAppends (d ∷ ds) = NoAppend d.elements × NoAppends ds

fits_mono :
    {S : Type 0} (h h' : ℕ → ℕ → ℕ → Option (ElemHandler S)) (sent accepted : Option ElemData)
    → ((p v i : ℕ) (x : ElemHandler S)
        → h p v i ≡ some x
        → (y : ElemHandler S) × (h' p v i ≡ some y))
    → fits h (record { sent = sent; accepted = accepted }) ≡ true
    → fits h' (record { sent = sent; accepted = accepted }) ≡ true
fits_mono h h' none none grows f = refl
fits_mono h h' (some x) none grows f = f
fits_mono h h' sent (some y) grows f = elim (Option-cases (h y.proto y.vendor y.id)) [
  | inl absent ↦ absurd (false≢true (rw (absent, fits) at f))
  | inr (old, present) ↦
      let (new, still) = grows y.proto y.vendor y.id old present in rw (fits, still) refl
]

module _ {S : Type 0} (M : Mavl ElemData same_elem) (H : Mavl (ElemHandler S) same_handler)
    (D : Mavl (Message S M.Tree) same_type) where
  -- Whatever message is found, its containers are consistent.
  abbrev pub IsConsistentSet : Set M H D → Type 0
  IsConsistentSet set =
      (type : ℕ) (msg : Message S M.Tree)
      → get_msgdata M H D set type ≡ some msg
      → IsConsistent M (get_elemhandler M H D set) msg.elems

  fresh-IsConsistent :
      (handler : ℕ → ℕ → ℕ → Option (ElemHandler S)) (type : ℕ)
      → IsConsistent M handler (fresh M H D type).elems
  unfolding look
  fresh-IsConsistent handler type = record { once = nothing; agreed = λ x. rw (M.get-empty x) refl }

  -- The message that is there, or a new one.
  module _ (set : Set M H D) (d : MsgDef S) where
    abbrev existing : Message S M.Tree
    existing = or_else (get_msgdata M H D set d.type) (fresh M H D d.type)

    existing-IsConsistent :
        IsConsistentSet set → IsConsistent M (get_elemhandler M H D set) existing.elems
    existing-IsConsistent c = elim (Option-cases (get_msgdata M H D set d.type)) [
      | inl absent ↦ rw absent (fresh-IsConsistent (get_elemhandler M H D set) d.type)
      | inr (msg, here) ↦ rw here (c d.type msg here)
    ]

    existing_type : existing.type ≡ d.type
    unfolding get_msgdata
    existing_type = elim (Option-cases (get_msgdata M H D set d.type)) [
      | inl absent ↦ rw absent refl
      | inr (msg, here) ↦
          rw here
            ((==_iff msg.type d.type).0 (D.get-same set.msgdata (fresh M H D d.type) msg here))
    ]

    -- The message is found in its new form, and every other one as before.
    get-stored :
        (msg : Message S M.Tree) (type : ℕ)
        → msg.type ≡ d.type
        → D.get (D.store (D.insert set.msgdata (fresh M H D d.type)) msg) (fresh M H D type)
          ≡ (if d.type == type then some msg else get_msgdata M H D set type)
    unfolding get_msgdata
    get-stored msg type e =
        let new = fresh M H D d.type in
        let old = or_else (D.get set.msgdata new) new in
        let present : D.get (D.insert set.msgdata new) msg ≡ some old =
          D.get-insert set.msgdata new msg
          ∙ ap (λ b. if b then some old else D.get set.msgdata msg)
              ((==_iff d.type msg.type).1 (sym e)) in
        ground (
          arith,
          D.get-store (D.insert set.msgdata new) msg old (fresh M H D type) present,
          D.get-insert set.msgdata new (fresh M H D type),
        )

    stored-IsConsistentSet :
        (msg : Message S M.Tree)
        → msg.type ≡ d.type
        → IsConsistentSet set
        → IsConsistent M (get_elemhandler M H D set) msg.elems
        → IsConsistentSet
            (record set { msgdata = D.store (D.insert set.msgdata (fresh M H D d.type)) msg })
    unfolding get_msgdata get_elemhandler
    stored-IsConsistentSet msg e c new type m found =
        let seen = sym (get-stored msg type e) ∙ found in
        let other = get_msgdata M H D set type in
        elim (Bool-cases (d.type == type)) [
          | inl here ↦
              subst (λ k. IsConsistent M (get_elemhandler M H D set) k.elems)
                (some-injective msg m (ap (λ b. if b then some msg else other) (sym here) ∙ seen))
                new
          | inr elsewhere ↦
              c type m (ap (λ b. if b then some msg else other) (sym elsewhere) ∙ seen)
        ]

  add_message-IsConsistentSet :
      (set : Set M H D) (d : MsgDef S)
      → NoAppend d.elements
      → IsConsistentSet set
      → (set' : Set M H D) × (add_message M H D set d ≡ some set') × IsConsistentSet set'
  unfolding add_message
  add_message-IsConsistentSet set d ok c =
      let (elems, done, consistent, rest, keys) =
        update_msgdata-IsConsistent M (get_elemhandler M H D set) (existing set d).elems d.elements
          ok (existing-IsConsistent set d c) in
      let msg : Message S M.Tree = record (overwrite M H D (existing set d) d) { elems = elems } in
      (
        record set { msgdata = D.store (D.insert set.msgdata (fresh M H D d.type)) msg },
        rw (add_message, done) refl,
        stored-IsConsistentSet set d msg (existing_type set d) c consistent,
      )

  add_messages-IsConsistentSet :
      (ds : List (MsgDef S)) (set : Set M H D)
      → NoAppends ds
      → IsConsistentSet set
      → (set' : Set M H D) × (add_messages M H D set ds ≡ some set') × IsConsistentSet set'
  unfolding add_messages
  add_messages-IsConsistentSet [] set ok c = (set, refl, c)
  add_messages-IsConsistentSet (d ∷ ds) set ok c = elim (Bool-cases (d.type == 0)) [
    | inl end ↦ (set, rw end refl, c)
    | inr more ↦
        let (set', done, c') = add_message-IsConsistentSet set d ok.0 c in
        let (set'', rest, c'') = add_messages-IsConsistentSet ds set' ok.1 c' in
        (set'', rw (more, done) rest, c'')
  ]

  -- Adding handlers takes none away.
  abbrev Grows : H.Tree → H.Tree → Type 0
  Grows t t' =
      (x h : ElemHandler S) → H.get t x ≡ some h → (h' : ElemHandler S) × (H.get t' x ≡ some h')

  add_handlers-Grows : (hs : List (ElemHandler S)) (t : H.Tree) → Grows t (add_handlers M H D t hs)
  unfolding add_handlers
  add_handlers-Grows [] t x h e = (h, e)
  add_handlers-Grows (n ∷ ns) t x h e = elim (Bool-cases (n.id == 0)) [
    | inl end ↦ rw end (h, e)
    | inr more ↦ elim (Bool-cases (same_handler n x)) [
      | inl same ↦ rw more (
          add_handlers-Grows ns (replace H t n) x n
            (get-replace H t n x ∙ ap (λ b. if b then some n else H.get t x) same))
      | inr other ↦ rw more (
          add_handlers-Grows ns (replace H t n) x h
            (get-replace H t n x ∙ ap (λ b. if b then some n else H.get t x) other ∙ e))
    ]
  ]

  grown-IsConsistent :
      (set : Set M H D) (t : H.Tree)
      → Grows set.handlers_by_id t
      → IsConsistentSet set
      → IsConsistentSet (record set { handlers_by_id = t })
  unfolding get_elemhandler get_msgdata
  grown-IsConsistent set t grows c type msg found =
      let old = c type msg found in
      record {
        once = old.once;
        agreed = λ x.
            fits_mono (get_elemhandler M H D set)
              (get_elemhandler M H D (record set { handlers_by_id = t }))
              (look same_elem msg.elems.elements_list x) (M.get msg.elems.elements_tree x)
              (λ p v i h e. grows (handler_key M H D p v i) h e) (old.agreed x);
      }

  -- Where no definition appends: `cw_msgset_add` accesses no null handler, and in the set that it
  -- leaves, the containers of every message agree if they did before: no element is listed twice, and
  -- what is listed is in the tree and has a handler.
  pub msgset_add-IsConsistentSet :
      (set : Set M H D) (ds : List (MsgDef S)) (hs : List (ElemHandler S))
      → NoAppends ds
      → IsConsistentSet set
      → (set' : Set M H D) × (msgset_add M H D set ds hs ≡ some set') × IsConsistentSet set'
  unfolding msgset_add
  msgset_add-IsConsistentSet set ds hs ok c =
      let t = add_handlers M H D set.handlers_by_id hs in
      add_messages-IsConsistentSet ds (record set { handlers_by_id = t }) ok
        (grown-IsConsistent set t (add_handlers-Grows hs set.handlers_by_id) c)
