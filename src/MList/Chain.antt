-- ===== src/MList/Chain.antt =====
-- A store and a list header that represent a list of elements.
use actube.Base.{
  ℕ, ◌≡◌, ◌≢◌, ap, ◌∙◌, arith, true, false, Option, none, some, List, [], ◌∷◌, length, ◌==◌,
  if◌then◌else◌,
}
use actube.MList.{Node, MList, write}

module _ {ℓ} {A : Type ℓ} where
  -- The nodes from `e` on are `nodes`, with their addresses; `p` is in front of them and `z` the last.
  pub data Chain (store : ℕ → Node A) : Option ℕ → Option ℕ → List (ℕ × A) → Option ℕ → Type ℓ where
    end : {p : Option ℕ} → Chain store p none [] p
    node :
        {p n z : Option ℕ} {a : ℕ} {x : A} {nodes : List (ℕ × A)}
        → (store a).prev ≡ p
        → (store a).next ≡ n
        → (store a).elem ≡ x
        → Chain store (some a) n nodes z
        → Chain store p (some a) ((a, x) ∷ nodes) z

  pub data Fresh (e : ℕ) : List (ℕ × A) → Type ℓ where
    nowhere : Fresh e []
    not_here :
        {a : ℕ} {x : A} {nodes : List (ℕ × A)} → a ≢ e → Fresh e nodes → Fresh e ((a, x) ∷ nodes)

  pub data Distinct : List (ℕ × A) → Type ℓ where
    no_nodes : Distinct []
    first_fresh :
        {a : ℕ} {x : A} {nodes : List (ℕ × A)}
        → Fresh a nodes
        → Distinct nodes
        → Distinct ((a, x) ∷ nodes)

  pub record Represents (store : ℕ → Node A) (l : MList) (nodes : List (ℕ × A)) : Type ℓ where
    pub chain : Chain store none l.first nodes l.last
    pub distinct : Distinct nodes
    pub counted : l.count ≡ length nodes

  pub write_other :
      (store : ℕ → Node A) (e i : ℕ) (n : Node A) → i ≢ e → write store e n i ≡ store i
  write_other store e i n ne = ap (λ b. if b then n else store i) (differs i e ne)
    where
      differs : (k j : ℕ) → k ≢ j → (k == j) ≡ false
      differs k j h = ground arith

  pub write_same : (store : ℕ → Node A) (e : ℕ) (n : Node A) → write store e n e ≡ n
  write_same store e n = ap (λ b. if b then n else store e) (itself e)
    where
      itself : (k : ℕ) → (k == k) ≡ true
      itself k = ground arith

  -- A write to an address that is none of the chain's leaves it as it is.
  pub write-Chain :
      (store : ℕ → Node A) (b : ℕ) (k : Node A) (nodes : List (ℕ × A)) {p e z : Option ℕ}
      → Fresh b nodes
      → Chain store p e nodes z
      → Chain (write store b k) p e nodes z
  write-Chain store b k [] nowhere end = end
  write-Chain store b k (y ∷ nodes) (not_here {a} ne fresh) (node pr nx el rest) =
      let w = write_other store b a k ne in
      node (ap (λ k. k.prev) w ∙ pr) (ap (λ k. k.next) w ∙ nx) (ap (λ k. k.elem) w ∙ el)
        (write-Chain store b k nodes fresh rest)
