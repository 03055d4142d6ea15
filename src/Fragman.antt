-- ===== src/Fragman.antt =====
-- The fragment manager, src/cw/fragman.c and fragman.h. Memory from `realloc` and the time are
-- arguments; a `struct frag` is a record, the array of ten of them a list.
pub mod Slots
pub mod Order
pub mod Bounds
use mathlib.Core.Option
use actube.Base.{
  ℕ, zero, suc, ◌+◌, ◌-◌, ◌*◌, ◌/◌, ◌%◌, ◌^◌, Mem, Bool, true, false, not, ◌&&◌, ◌||◌, Option, none,
  some, List, [], ◌∷◌, bit_and, ltb, leb, ◌==◌, if◌then◌else◌, get_dword, memcpy, from, set,
}

-- FRAG_MAXIDS, FRAG_MAXSIZE and FRAG_TTL of fragman.h
abbrev pub frag_maxids : ℕ
frag_maxids = 10

abbrev pub frag_maxsize : ℕ
frag_maxsize = 65536 + 4

abbrev pub frag_ttl : ℕ
frag_ttl = 5

pub record Frag : Type 0 where
  pub buffer : Option Mem
  pub fragid : ℕ
  pub bytesreceived : ℕ
  pub bytesneeded : ℕ
  pub tv_sec : ℕ

-- What `realloc(p, FRAG_MAXSIZE)` returns for the old pointer.
abbrev pub Realloc : Type 0
Realloc = Option Mem → Option Mem

unfoldable pub is_null : Option Mem → Bool
is_null none = true
is_null (some b) = false

abbrev pub Slot : Type 0
Slot = Option (ℕ × Frag)

-- One place further in the array.
unfoldable pub next_slot : Slot → Slot
next_slot none = none
next_slot (some (i, f)) = some (suc i, f)

-- `&frags[i]` is the index and what stands there.
unfoldable pub frag_get : List Frag → ℕ → Slot
unfolding is_null next_slot
frag_get [] fragid = none
frag_get (f ∷ fs) fragid =
    let rest = next_slot (frag_get fs fragid) in
    if is_null f.buffer then rest else if f.fragid == fragid then some (0, f) else rest

abbrev pub cons_frag : Frag → List Frag × Slot → List Frag × Slot
cons_frag f (fs, s) = (f ∷ fs, next_slot s)

-- The slot that is taken, with the result of `realloc`; NULL is written to the array too.
unfoldable pub claim : Frag → List Frag → Option Mem → ℕ → ℕ → List Frag × Slot
claim f fs none fragid now = (record f { buffer = none } ∷ fs, none)
claim f fs (some b) fragid now = (fresh ∷ fs, some (0, fresh))
  where
    fresh : Frag
    fresh = record {
      buffer = some b;
      fragid = fragid;
      bytesreceived = 0;
      bytesneeded = 0;
      tv_sec = now;
    }

unfoldable pub frag_new : Realloc → ℕ → List Frag → ℕ → List Frag × Slot
unfolding claim is_null next_slot
frag_new realloc now [] fragid = ([], none)
frag_new realloc now (f ∷ fs) fragid =
    let rest = cons_frag f (frag_new realloc now fs fragid) in
    if is_null f.buffer || ltb (f.tv_sec + frag_ttl) now
    then claim f fs (realloc f.buffer) fragid now
    else rest

-- `overflow` is the write behind the end of the buffer, which C leaves undefined.
pub data AddResult : Type 0 where
  complete : ℕ → Mem → AddResult
  incomplete no_memory overflow : AddResult

abbrev pub frag_dst : Mem → ℕ
frag_dst packet = bit_and (get_dword packet 4 / 2 ^ 3) 0x1fff * 8

unfoldable pub find_or_new : Realloc → ℕ → List Frag → ℕ → Slot → List Frag × Slot
find_or_new realloc now frags fragid (some s) = (frags, some s)
find_or_new realloc now frags fragid none = frag_new realloc now frags fragid

-- The copy into the buffer of `frag_maxsize` bytes, behind its first four; `none` is a copy over its end.
unfoldable pub copy_payload : Frag → Mem → ℕ → ℕ → Option Frag
copy_payload f packet hlen payloadlen =
    let dst = 4 + frag_dst packet in
    if leb (dst + payloadlen) frag_maxsize
    then some (record f {
      buffer = Option.map (λ b. memcpy b dst packet hlen payloadlen) f.buffer;
      bytesreceived = f.bytesreceived + payloadlen;
    })
    else none

-- The guard of the copy.
unfoldable pub frag_copy : Frag → Mem → ℕ → ℕ → Option Frag
unfolding copy_payload
frag_copy f packet hlen payloadlen =
    if ltb (frag_dst packet + payloadlen) frag_maxsize
    then copy_payload f packet hlen payloadlen
    else some f

-- The last fragment tells the length.
unfoldable pub frag_last : Frag → Mem → ℕ → Frag
frag_last f packet payloadlen =
    if bit_and (get_dword packet 0) 0x40 == 0
    then f
    else record f { bytesneeded = frag_dst packet + payloadlen }

-- `r + 4`, and the length that is put into the first four bytes of `r`.
unfoldable pub hand_out : Frag → AddResult
hand_out f = elim f.buffer [ none ↦ incomplete | some b ↦ complete f.bytesneeded (from b 4) ]

unfoldable pub finish : List Frag → ℕ → Frag → List Frag × AddResult
finish frags i f =
    if ltb 0 f.bytesneeded && leb f.bytesneeded f.bytesreceived
    then (set frags i (record f { buffer = none }), hand_out f)
    else (set frags i f, incomplete)

unfoldable pub add_to_slot : Mem → ℕ → ℕ → List Frag × Slot → List Frag × AddResult
add_to_slot packet hlen payloadlen (frags, none) = (frags, no_memory)
add_to_slot packet hlen payloadlen (frags, some (i, f)) =
    elim (frag_copy f packet hlen payloadlen) [
      | none ↦ (frags, overflow)
      | some f' ↦ finish frags i (frag_last f' packet payloadlen)
    ]

unfoldable pub fragman_add : Realloc → ℕ → List Frag → Mem → ℕ → ℕ → List Frag × AddResult
fragman_add realloc now frags packet hlen payloadlen =
    let fragid = get_dword packet 4 / 2 ^ 16 in
    add_to_slot packet hlen payloadlen
      (find_or_new realloc now frags fragid (frag_get frags fragid))

abbrev empty_frag : Frag
empty_frag = record { buffer = none; fragid = 0; bytesreceived = 0; bytesneeded = 0; tv_sec = 0 }

-- malloc succeeds, and memset clears the array.
unfoldable pub fragman_create : List Frag
fragman_create =
    empty_frag ∷ empty_frag ∷ empty_frag ∷ empty_frag ∷ empty_frag ∷ empty_frag ∷ empty_frag
    ∷ empty_frag ∷ empty_frag ∷ empty_frag ∷ []
