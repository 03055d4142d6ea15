-- ===== src/Tests/Lists.antt =====
-- Examples for the list of src/cw/mlist_*.c: a list of one element at address 1.
use actube.Base.{ℕ, ◌≡◌, refl, arith, Bool, none, some, List, [], ◌∷◌, ◌++◌, ◌==◌}
use actube.MList.{Node, MList, append, replace}
use actube.MList.Chain.{end, node, Fresh, nowhere, not_here, no_nodes, first_fresh, Represents}
use actube.MList.Append.{append-Represents}
use actube.MList.Find.{first_same, replace_first, replace-Represents}

abbrev store : ℕ → Node ℕ
store i = record { prev = none; next = none; elem = 10 }

abbrev header : MList
header = record { first = some 1; last = some 1; count = 1 }

abbrev nodes : List (ℕ × ℕ)
nodes = (1, 10) ∷ []

store-Represents : Represents store header nodes
store-Represents = record {
  chain = node refl refl refl end;
  distinct = first_fresh nowhere no_nodes;
  counted = refl;
}

two-Fresh : Fresh 2 nodes
two-Fresh = not_here (λ e. absurd (omega (arith, e))) nowhere

append-Represents_example :
    (store' : ℕ → Node ℕ) × (l' : MList) × (append (some 2) store header 20 ≡ (store', l', some 2))
    × Represents store' l' (nodes ++ (2, 20) ∷ [])
append-Represents_example =
    append-Represents store (some 1) (some 1) 1 2 20 nodes store-Represents two-Fresh

abbrev equal : ℕ → ℕ → Bool
equal a b = a == b

replace-Represents_example :
    ((replace equal store header 10).1 ≡ first_same equal 10 nodes)
    × Represents (replace equal store header 10).0 header (replace_first equal 10 nodes)
replace-Represents_example = replace-Represents equal 10 store header nodes store-Represents
