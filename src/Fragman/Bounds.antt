-- ===== src/Fragman/Bounds.antt =====
-- The bound that `fragman_add` of src/cw/fragman.c sets on a fragment, and the buffer's end.
use actube.Base.{
  none, ℕ, ◌+◌, ◌≡◌, refl, sym, ap, ◌∙◌, inl, inr, arith, Mem, Bool, true, false, List, some, ltb,
  leb, ◌&&◌, Bool-cases, get_dword, ◌/◌, ◌^◌, Option-cases,
}
use actube.Fragman.{
  Frag, Realloc, AddResult, complete, incomplete, no_memory, overflow, frag_get, frag_dst,
  frag_copy, copy_payload, frag_last, frag_maxsize, hand_out, finish, find_or_new, add_to_slot,
  fragman_add,
}

abbrev pub is_overflow : AddResult → Bool
is_overflow overflow = true
is_overflow (complete n out) = false
is_overflow incomplete = false
is_overflow no_memory = false

hand_out_fits : (f : Frag) → is_overflow (hand_out f) ≡ false
unfolding hand_out
hand_out_fits f = elim (Option-cases f.buffer) [
  | inl e ↦ rw (hand_out, e) refl
  | inr (b, e) ↦ rw (hand_out, e) refl
]

finish_fits : (frags : List Frag) (i : ℕ) (f : Frag) → is_overflow (finish frags i f).1 ≡ false
unfolding finish
finish_fits frags i f =
    elim (Bool-cases (ltb 0 f.bytesneeded && leb f.bytesneeded f.bytesreceived)) [
      | inl e ↦ rw (finish, e) (hand_out_fits f)
      | inr e ↦ rw (finish, e) refl
    ]

fits : (end : ℕ) → leb (4 + end) frag_maxsize ≡ true → (ltb 65536 end && ltb end 65540) ≡ false
fits end h = ground arith

beyond :
    (end : ℕ)
    → ltb end frag_maxsize ≡ true
    → leb (4 + end) frag_maxsize ≡ false
    → (ltb 65536 end && ltb end 65540) ≡ true
beyond end g h = ground arith

skipped : (end : ℕ) → ltb end frag_maxsize ≡ false → (ltb 65536 end && ltb end 65540) ≡ false
skipped end h = ground arith

module _ (f : Frag) (packet : Mem) (hlen payloadlen : ℕ) where
  copy_skipped :
      ltb (frag_dst packet + payloadlen) frag_maxsize ≡ false
      → frag_copy f packet hlen payloadlen ≡ some f
  unfolding frag_copy
  copy_skipped passed = rw (frag_copy, passed) refl

  copy_inside :
      ltb (frag_dst packet + payloadlen) frag_maxsize ≡ true
      → leb (4 + frag_dst packet + payloadlen) frag_maxsize ≡ true
      → (f' : Frag) × (frag_copy f packet hlen payloadlen ≡ some f')
  unfolding frag_copy copy_payload
  copy_inside guarded inside = rw (frag_copy, guarded, copy_payload, inside) (_, refl)

  copy_over :
      ltb (frag_dst packet + payloadlen) frag_maxsize ≡ true
      → leb (4 + frag_dst packet + payloadlen) frag_maxsize ≡ false
      → frag_copy f packet hlen payloadlen ≡ none
  unfolding frag_copy copy_payload
  copy_over guarded over = rw (frag_copy, guarded, copy_payload, over) refl

slot_overflow :
    (frags : List Frag) (packet : Mem) (hlen payloadlen i : ℕ) (f : Frag)
    → is_overflow (add_to_slot packet hlen payloadlen (frags, some (i, f))).1
      ≡ (ltb 65536 (frag_dst packet + payloadlen) && ltb (frag_dst packet + payloadlen) 65540)
unfolding add_to_slot
slot_overflow frags packet hlen payloadlen i f =
    let end = frag_dst packet + payloadlen in
    let shift : leb (4 + end) frag_maxsize ≡ leb (4 + frag_dst packet + payloadlen) frag_maxsize =
      ap (λ n. leb n frag_maxsize) (omega arith) in
    elim (Bool-cases (ltb end frag_maxsize)) [
      | inl guarded ↦ elim (Bool-cases (leb (4 + frag_dst packet + payloadlen) frag_maxsize)) [
        | inl inside ↦
            let (f', copied) = copy_inside f packet hlen payloadlen guarded inside in
            rw (add_to_slot, copied)
              (finish_fits frags i (frag_last f' packet payloadlen)
                ∙ sym (fits end (shift ∙ inside)))
        | inr over ↦
            rw (add_to_slot, copy_over f packet hlen payloadlen guarded over)
              (sym (beyond end guarded (shift ∙ over)))
      ]
      | inr passed ↦
          rw (add_to_slot, copy_skipped f packet hlen payloadlen passed)
            (finish_fits frags i (frag_last f packet payloadlen) ∙ sym (skipped end passed))
    ]

-- When there is a slot for a fragment, its copy runs over the end of the slot's buffer exactly if the
-- end of its payload in the message is above 65536 and passes the guard, which lets through all that
-- is below 65540: the guard forgets the four bytes in front of the message.
pub fragman_add_overflow :
    (realloc : Realloc) (now : ℕ) (frags frags' : List Frag) (packet : Mem) (hlen payloadlen i : ℕ)
    (f : Frag)
    → find_or_new realloc now frags
        (get_dword packet 4 / 2 ^ 16)
        (frag_get frags (get_dword packet 4 / 2 ^ 16))
      ≡ (frags', some (i, f))
    → is_overflow (fragman_add realloc now frags packet hlen payloadlen).1
      ≡ (ltb 65536 (frag_dst packet + payloadlen) && ltb (frag_dst packet + payloadlen) 65540)
unfolding fragman_add
fragman_add_overflow realloc now frags frags' packet hlen payloadlen i f slot =
    ap (λ s. is_overflow (add_to_slot packet hlen payloadlen s).1) slot
    ∙ slot_overflow frags' packet hlen payloadlen i f
