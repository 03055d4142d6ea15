-- ===== src/MsgSet/Order.antt =====
-- The comparison functions of src/cw/msgset.c. Their arguments are the ints of the structs; a difference
-- that does not fit an int is left out of the model, as the numbers of elements, vendors and messages
-- are small.
use actube.Base.{◌≡◌, arith, Bool, true, false, if◌then◌else◌, ◌==◌, ◌&&◌, ℤ, pos, negsuc, sub_ℕ}
use actube.MsgSet.{ElemData}

abbrev pub is_zero : ℤ → Bool
is_zero (pos n) = n == 0
is_zero (negsuc n) = false

-- The three tests of the elements' comparison, and the two of the machine states'.
unfoldable pub cmp_elemdata : ElemData → ElemData → ℤ
cmp_elemdata e1 e2 =
    if is_zero (sub_ℕ e1.id e2.id)
    then if is_zero (sub_ℕ e1.vendor e2.vendor)
      then sub_ℕ e1.proto e2.proto
      else sub_ℕ e1.vendor e2.vendor
    else sub_ℕ e1.id e2.id

unfoldable pub same_elem : ElemData → ElemData → Bool
same_elem e1 e2 = e1.id == e2.id && (e1.vendor == e2.vendor && e1.proto == e2.proto)

pub cmp_elemdata-same_elem : (a b : ElemData) → is_zero (cmp_elemdata a b) ≡ same_elem a b
unfolding cmp_elemdata same_elem
cmp_elemdata-same_elem a b = ground arith

pub same_elem_trans : (a b c : ElemData) → same_elem a b ≡ true → same_elem b c ≡ same_elem a c
unfolding same_elem
same_elem_trans a b c h = ground arith

pub same_elem_sym : (a b : ElemData) → same_elem a b ≡ same_elem b a
unfolding same_elem
same_elem_sym a b = ground arith
