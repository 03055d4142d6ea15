-- ===== src/MList/Find.antt =====
-- `mlist_get` and `mlist_replace` of src/cw/mlist_get.c and src/cw/mlist_replace.c: the first element that
-- compares equal.
use mathlib.Core.Option.{some-injective, none-ne-some}
use actube.Base.{
  ℕ, zero, suc, ◌≤◌, ◌≡◌, ◌≢◌, refl, sym, subst, ap, ◌∙◌, inl, inr, arith, Bool, Option, none, some,
  Option-cases, List, [], ◌∷◌, length, Bool-cases, if◌then◌else◌,
}
use actube.MList.{Node, MList, write, find, get, replace}
use actube.MList.Chain.{
  Chain, end, node, Fresh, nowhere, not_here, Distinct, first_fresh, Represents, write_other,
  write_same, write-Chain,
}

module _ {ℓ} {A : Type ℓ} (same : A → A → Bool) (x : A) where
  -- The address of the first element that compares equal to `x`.
  abbrev pub first_same : List (ℕ × A) → Option ℕ
  first_same [] = none
  first_same ((a, y) ∷ nodes) = if same y x then some a else first_same nodes

  -- The list with that element overwritten by `x`.
  abbrev pub replace_first : List (ℕ × A) → List (ℕ × A)
  replace_first [] = []
  replace_first ((a, y) ∷ nodes) = if same y x then (a, x) ∷ nodes else (a, y) ∷ replace_first nodes

  find-first_same :
      {store : ℕ → Node A} {p e z : Option ℕ} (fuel : ℕ) (nodes : List (ℕ × A))
      → Chain store p e nodes z
      → length nodes ≤ fuel
      → find same fuel store e x ≡ first_same nodes
  unfolding find
  find-first_same zero [] end h = refl
  find-first_same zero (y ∷ nodes) c h = absurd (omega arith)
  find-first_same (suc fuel) [] end h = refl
  find-first_same {store} (suc fuel) ((a, y) ∷ nodes) (node pr nx el rest) h =
      elim (Bool-cases (same y x)) [
        | inl equal ↦ rw (find, el, equal) refl
        | inr other ↦ rw (find, el, other, nx) (find-first_same fuel nodes rest (omega arith))
      ]

  first_same-ne :
      (a e : ℕ) (nodes : List (ℕ × A)) → Fresh a nodes → first_same nodes ≡ some e → e ≢ a
  first_same-ne a e [] nowhere h = absurd (none-ne-some e h)
  first_same-ne a e ((b, y) ∷ nodes) (not_here ne f) h = elim (Bool-cases (same y x)) [
    | inl equal ↦ λ q.
        ne (
          some-injective b e (ap (λ t. if t then some b else first_same nodes) (sym equal) ∙ h) ∙ q)
    | inr other ↦
        first_same-ne a e nodes f (ap (λ t. if t then some b else first_same nodes) (sym other) ∙ h)
  ]

  replace-Chain :
      (store : ℕ → Node A) (e : ℕ) (nodes : List (ℕ × A)) {p q z : Option ℕ}
      → Chain store p q nodes z
      → Distinct nodes
      → first_same nodes ≡ some e
      → Chain (write store e (record (store e) { elem = x })) p q (replace_first nodes) z
  replace-Chain store e [] end d h = absurd (none-ne-some e h)
  replace-Chain store e ((a, y) ∷ nodes) (node pr nx el rest) (first_fresh f d) h =
      let k : Node A = record (store e) { elem = x } in
      elim (Bool-cases (same y x)) [
        | inl equal ↦
            let q : a ≡ e =
              some-injective a e
                (ap (λ t. if t then some a else first_same nodes) (sym equal) ∙ h) in
            let w : write store e k a ≡ k = ap (write store e k) q ∙ write_same store e k in
            rw equal (
              node (ap (λ n. n.prev) w ∙ ap (λ i. (store i).prev) (sym q) ∙ pr)
                (ap (λ n. n.next) w ∙ ap (λ i. (store i).next) (sym q) ∙ nx) (ap (λ n. n.elem) w)
                (write-Chain store e k nodes (subst (λ t. Fresh t nodes) q f) rest))
        | inr other ↦
            let h' : first_same nodes ≡ some e =
              ap (λ t. if t then some a else first_same nodes) (sym other) ∙ h in
            let w : write store e k a ≡ store a =
              write_other store e a k (λ q. first_same-ne a e nodes f h' (sym q)) in
            rw other (
              node (ap (λ n. n.prev) w ∙ pr) (ap (λ n. n.next) w ∙ nx) (ap (λ n. n.elem) w ∙ el)
                (replace-Chain store e nodes rest d h'))
      ]

module _ {ℓ} {A : Type ℓ} (same : A → A → Bool) (x : A) where
  -- On a list that the store represents, `mlist_get` finds the first element that compares equal.
  pub get-first_same :
      (store : ℕ → Node A) (l : MList) (nodes : List (ℕ × A))
      → Represents store l nodes
      → get same store l x ≡ first_same same x nodes
  unfolding get
  get-first_same store l nodes h =
      find-first_same same x l.count nodes h.chain (omega (arith, h.counted))

  Fresh-replace_first :
      (b : ℕ) (nodes : List (ℕ × A)) → Fresh b nodes → Fresh b (replace_first same x nodes)
  Fresh-replace_first b [] h = h
  Fresh-replace_first b ((a, y) ∷ nodes) (not_here ne h) = elim (Bool-cases (same y x)) [
    | inl equal ↦ rw equal (not_here ne h)
    | inr other ↦ rw other (not_here ne (Fresh-replace_first b nodes h))
  ]

  Distinct-replace_first :
      (nodes : List (ℕ × A)) → Distinct nodes → Distinct (replace_first same x nodes)
  Distinct-replace_first [] d = d
  Distinct-replace_first ((a, y) ∷ nodes) (first_fresh f d) = elim (Bool-cases (same y x)) [
    | inl equal ↦ rw equal (first_fresh f d)
    | inr other ↦
        rw other (first_fresh (Fresh-replace_first a nodes f) (Distinct-replace_first nodes d))
  ]

  length-replace_first : (nodes : List (ℕ × A)) → length (replace_first same x nodes) ≡ length nodes
  length-replace_first [] = refl
  length-replace_first ((a, y) ∷ nodes) = elim (Bool-cases (same y x)) [
    | inl equal ↦ rw equal refl
    | inr other ↦ rw other (ap suc (length-replace_first nodes))
  ]

  replace_absent :
      (nodes : List (ℕ × A)) → first_same same x nodes ≡ none → replace_first same x nodes ≡ nodes
  replace_absent [] h = refl
  replace_absent ((a, y) ∷ nodes) h = elim (Bool-cases (same y x)) [
    | inl equal ↦ absurd (
        none-ne-some a
          (sym (ap (λ t. if t then some a else first_same same x nodes) (sym equal) ∙ h)))
    | inr other ↦ rw other (
        ap (◌∷◌ (a, y)) (
          replace_absent nodes
            (ap (λ t. if t then some a else first_same same x nodes) (sym other) ∙ h)))
  ]

  -- On a list that the store represents, `mlist_replace` returns the address of the first element that
  -- compares equal, or NULL, and afterwards the same header represents the list in which that element
  -- alone is overwritten.
  pub replace-Represents :
      (store : ℕ → Node A) (l : MList) (nodes : List (ℕ × A))
      → Represents store l nodes
      → ((replace same store l x).1 ≡ first_same same x nodes)
        × Represents (replace same store l x).0 l (replace_first same x nodes)
  unfolding replace
  replace-Represents store l nodes h = elim (Option-cases (first_same same x nodes)) [
    | inl absent ↦
        rw (replace, get-first_same store l nodes h, absent, replace_absent nodes absent) (refl, h)
    | inr (e, present) ↦
        rw (replace, get-first_same store l nodes h, present)
          (
            refl,
            record {
              chain = replace-Chain same x store e nodes h.chain h.distinct present;
              distinct = Distinct-replace_first nodes h.distinct;
              counted = h.counted ∙ sym (length-replace_first nodes);
            },
          )
  ]
