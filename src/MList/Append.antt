-- ===== src/MList/Append.antt =====
-- `mlist_append` of src/cw/mlist_append.c: the new element comes last.
use actube.Base.{
  ℕ, ◌≡◌, ◌≢◌, refl, sym, ap, ◌∙◌, arith, Option, none, some, List, [], ◌∷◌, ◌++◌, length,
  length-append,
}
use actube.MList.{Node, MList, write, set_next, append}
use actube.MList.Chain.{
  Chain, end, node, Fresh, nowhere, not_here, Distinct, no_nodes, first_fresh, Represents,
  write_other, write_same,
}

module _ {ℓ} {A : Type ℓ} where
  Fresh-append :
      (e : ℕ) (x : A) (b : ℕ) (nodes : List (ℕ × A))
      → e ≢ b
      → Fresh b nodes
      → Fresh b (nodes ++ (e, x) ∷ [])
  Fresh-append e x b [] ne nowhere = not_here ne nowhere
  Fresh-append e x b (y ∷ nodes) ne (not_here ne' h) = not_here ne' (Fresh-append e x b nodes ne h)

  Distinct-append :
      (e : ℕ) (x : A) (nodes : List (ℕ × A))
      → Fresh e nodes
      → Distinct nodes
      → Distinct (nodes ++ (e, x) ∷ [])
  Distinct-append e x [] nowhere no_nodes = first_fresh nowhere no_nodes
  Distinct-append e x (y ∷ nodes) (not_here {a} ne h) (first_fresh f d) =
      first_fresh (Fresh-append e x a nodes (λ q. ne (sym q)) f) (Distinct-append e x nodes h d)

  -- A write to the `next` of a chain's last node leaves the nodes alone that are not in the chain.
  last_other :
      (store : ℕ → Node A) (b : ℕ) (q : Option ℕ) (nodes : List (ℕ × A)) {y : ℕ × A}
      {p e z : Option ℕ}
      → Fresh b (y ∷ nodes)
      → Chain store p e (y ∷ nodes) z
      → set_next store z q b ≡ store b
  last_other store b q [] (not_here {a} ne h) (node pr nx el end) =
      write_other store a b _ (λ q. ne (sym q))
  last_other store b q (y ∷ nodes) (not_here ne h) (node pr nx el rest) =
      last_other store b q nodes h rest

  module _ (store : ℕ → Node A) (e : ℕ) (x : A) where
    abbrev extended : Option ℕ → ℕ → Node A
    extended z = write (set_next store z (some e)) e (record { prev = z; next = none; elem = x })

    snoc :
        (nodes : List (ℕ × A)) {y : ℕ × A} {p q z : Option ℕ}
        → Chain store p q (y ∷ nodes) z
        → Fresh e (y ∷ nodes)
        → Distinct (y ∷ nodes)
        → Chain (extended z) p q (y ∷ nodes ++ (e, x) ∷ []) (some e)
    snoc [] (node {a = a} pr nx el end) (not_here ne h) d =
        let w : extended (some a) a ≡ record (store a) { next = some e } =
          write_other (set_next store (some a) (some e)) e a _ ne ∙ write_same store a _ in
        let v : extended (some a) e ≡ record { prev = some a; next = none; elem = x } =
          write_same (set_next store (some a) (some e)) e _ in
        node (ap (λ k. k.prev) w ∙ pr) (ap (λ k. k.next) w) (ap (λ k. k.elem) w ∙ el)
          (node (ap (λ k. k.prev) v) (ap (λ k. k.next) v) (ap (λ k. k.elem) v) end)
    snoc (y ∷ nodes) {z = z} (node {a = a} pr nx el rest) (not_here ne h) (first_fresh f d) =
        let w : extended z a ≡ store a =
          write_other (set_next store z (some e)) e a _ ne
          ∙ last_other store a (some e) nodes f rest in
        node (ap (λ k. k.prev) w ∙ pr) (ap (λ k. k.next) w ∙ nx) (ap (λ k. k.elem) w ∙ el)
          (snoc nodes rest h d)

  -- `malloc` gives an address that no element of the list has. Then appending to a store and a header
  -- that represent a list gives a store and a header that represent the list with the new element at
  -- its end, and the new element's address is returned.
  pub append-Represents :
      (store : ℕ → Node A) (first last : Option ℕ) (count e : ℕ) (x : A) (nodes : List (ℕ × A))
      → Represents store (record { first = first; last = last; count = count }) nodes
      → Fresh e nodes
      → (store' : ℕ → Node A) × (l' : MList) × (append
            (some e)
            store
            (record { first = first; last = last; count = count })
            x
          ≡ (store', l', some e))
        × Represents store' l' (nodes ++ (e, x) ∷ [])
  unfolding append
  append-Represents store first last count e x nodes h fresh =
      go first last nodes h.chain h.distinct h.counted fresh
    where
      go :
          (first last : Option ℕ) (nodes : List (ℕ × A))
          → Chain store none first nodes last
          → Distinct nodes
          → count ≡ length nodes
          → Fresh e nodes
          → (store' : ℕ → Node A) × (l' : MList) × (append
                (some e)
                store
                (record { first = first; last = last; count = count })
                x
              ≡ (store', l', some e))
            × Represents store' l' (nodes ++ (e, x) ∷ [])
      go first last [] end d c f =
          let only : Node A = record { prev = none; next = none; elem = x } in
          let w = write_same store e only in
          (
            _,
            _,
            refl,
            record {
              chain = node (ap (λ k. k.prev) w) (ap (λ k. k.next) w) (ap (λ k. k.elem) w) end;
              distinct = first_fresh nowhere no_nodes;
              counted = omega (arith, c);
            },
          )
      go first last (y ∷ nodes) (node {a = a} pr nx el rest) d c f = (
        _,
        _,
        refl,
        record {
          chain = snoc store e x nodes (node {a = a} pr nx el rest) f d;
          distinct = Distinct-append e x (y ∷ nodes) f d;
          counted = omega (arith, c, length-append nodes ((e, x) ∷ []));
        },
      )
