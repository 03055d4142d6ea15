-- ===== src/Header/Fields.antt =====
-- Reading the header back after a write: `cw_get_hdr_*` against `cw_set_hdr_*`.
use actube.Base.{
  ℕ, ◌+◌, ◌*◌, ◌/◌, ◌%◌, ◌^◌, ◌≤◌, ◌<◌, ◌≡◌, ◌⊎◌, ap, ◌∙◌, arith, bit_and, Mem, Bool, true, false,
  ◌==◌, IsBytes, get_dword, set_dword_outside, set_dword-IsBytes, bit_and_mask, select_field,
}
use actube.Header.Dword.{get_dword-set_hdr_hlen, get_dword-set_hdr_wbid, get_dword-set_hdr_rid}
use actube.Header.{
  get_hdr_hlen, get_hdr_wbid, get_hdr_rid, get_hdr_fragid, get_hdr_fragoffset, get_hdr_flag,
  load_le, ntohl_le, set_hdr_hlen, set_hdr_wbid, set_hdr_rid, set_hdr_flags,
}

pub get_hdr_hlen_lem : (m : Mem) (th : ℕ) → get_hdr_hlen m th ≡ get_dword m th / 2 ^ 19 % 2 ^ 5
unfolding get_hdr_hlen
get_hdr_hlen_lem m th = bit_and_mask 5 _

pub get_hdr_wbid_lem : (m : Mem) (th : ℕ) → get_hdr_wbid m th ≡ get_dword m th / 2 ^ 9 % 2 ^ 5
unfolding get_hdr_wbid
get_hdr_wbid_lem m th = bit_and_mask 5 _

pub get_hdr_fragid_lem :
    (m : Mem) (th : ℕ) → get_hdr_fragid m th ≡ get_dword m (th + 4) / 2 ^ 16 % 2 ^ 16
unfolding get_hdr_fragid
get_hdr_fragid_lem m th = bit_and_mask 16 _

pub get_hdr_fragoffset_lem :
    (m : Mem) (th : ℕ) → get_hdr_fragoffset m th ≡ get_dword m (th + 4) / 2 ^ 3 % 2 ^ 13
unfolding get_hdr_fragoffset
get_hdr_fragoffset_lem m th = bit_and_mask 13 _

pub bit_and_l : (d : ℕ) → bit_and d 0x40 ≡ d / 2 ^ 6 % 2 * 2 ^ 6
bit_and_l d =
    ap (λ (t : ℕ). bit_and t 0x40) split
    ∙ select_field 1 6 (d / 2 ^ 7) (d / 2 ^ 6 % 2) (d % 2 ^ 6) (omega arith) (omega arith)
    ∙ omega arith
  where
    split : d ≡ (d / 2 ^ 7 * 2 ^ 1 + d / 2 ^ 6 % 2) * 2 ^ 6 + d % 2 ^ 6
    split = omega arith

pub bit_and_f : (d : ℕ) → bit_and d 0x80 ≡ d / 2 ^ 7 % 2 * 2 ^ 7
bit_and_f d =
    ap (λ (t : ℕ). bit_and t 0x80) split
    ∙ select_field 1 7 (d / 2 ^ 8) (d / 2 ^ 7 % 2) (d % 2 ^ 7) (omega arith) (omega arith)
    ∙ omega arith
  where
    split : d ≡ (d / 2 ^ 8 * 2 ^ 1 + d / 2 ^ 7 % 2) * 2 ^ 7 + d % 2 ^ 7
    split = omega arith

pub bit_and_m : (d : ℕ) → bit_and d 0x10 ≡ d / 2 ^ 4 % 2 * 2 ^ 4
bit_and_m d =
    ap (λ (t : ℕ). bit_and t 0x10) split
    ∙ select_field 1 4 (d / 2 ^ 5) (d / 2 ^ 4 % 2) (d % 2 ^ 4) (omega arith) (omega arith)
    ∙ omega arith
  where
    split : d ≡ (d / 2 ^ 5 * 2 ^ 1 + d / 2 ^ 4 % 2) * 2 ^ 4 + d % 2 ^ 4
    split = omega arith

pub get_hdr_flag_f : (m : Mem) (th : ℕ) → get_hdr_flag 0x80 m th ≡ (get_dword m th / 2 ^ 7 % 2 == 1)
unfolding get_hdr_flag
get_hdr_flag_f m th = ground (arith, bit_and_f (get_dword m th))

pub get_hdr_flag_l : (m : Mem) (th : ℕ) → get_hdr_flag 0x40 m th ≡ (get_dword m th / 2 ^ 6 % 2 == 1)
unfolding get_hdr_flag
get_hdr_flag_l m th = ground (arith, bit_and_l (get_dword m th))

pub get_hdr_flag_m : (m : Mem) (th : ℕ) → get_hdr_flag 0x10 m th ≡ (get_dword m th / 2 ^ 4 % 2 == 1)
unfolding get_hdr_flag
get_hdr_flag_m m th = ground (arith, bit_and_m (get_dword m th))

pub set_hdr_hlen_outside :
    (m : Mem) (th v i : ℕ) → (i < th) ⊎ (th + 4 ≤ i) → set_hdr_hlen m th v i ≡ m i
unfolding set_hdr_hlen
set_hdr_hlen_outside m th v i h = set_dword_outside m th _ i h

pub set_hdr_wbid_outside :
    (m : Mem) (th v i : ℕ) → (i < th) ⊎ (th + 4 ≤ i) → set_hdr_wbid m th v i ≡ m i
unfolding set_hdr_wbid
set_hdr_wbid_outside m th v i h = set_dword_outside m th _ i h

pub set_hdr_rid_outside :
    (m : Mem) (th v i : ℕ) → (i < th) ⊎ (th + 4 ≤ i) → set_hdr_rid m th v i ≡ m i
unfolding set_hdr_rid
set_hdr_rid_outside m th v i h = set_dword_outside m th _ i h

pub set_hdr_flags_outside :
    (m : Mem) (th f : ℕ) (b : Bool) (i : ℕ)
    → (i < th) ⊎ (th + 4 ≤ i)
    → set_hdr_flags m th f b i ≡ m i
unfolding set_hdr_flags
set_hdr_flags_outside m th f true i h = set_dword_outside m th _ i h
set_hdr_flags_outside m th f false i h = set_dword_outside m th _ i h

pub set_hdr_hlen-IsBytes : (m : Mem) (th v : ℕ) → IsBytes m → IsBytes (set_hdr_hlen m th v)
unfolding set_hdr_hlen
set_hdr_hlen-IsBytes m th v h = set_dword-IsBytes m th _ h

pub set_hdr_wbid-IsBytes : (m : Mem) (th v : ℕ) → IsBytes m → IsBytes (set_hdr_wbid m th v)
unfolding set_hdr_wbid
set_hdr_wbid-IsBytes m th v h = set_dword-IsBytes m th _ h

pub set_hdr_rid-IsBytes : (m : Mem) (th v : ℕ) → IsBytes m → IsBytes (set_hdr_rid m th v)
unfolding set_hdr_rid
set_hdr_rid-IsBytes m th v h = set_dword-IsBytes m th _ h

pub set_hdr_flags-IsBytes :
    (m : Mem) (th f : ℕ) (b : Bool) → IsBytes m → IsBytes (set_hdr_flags m th f b)
unfolding set_hdr_flags
set_hdr_flags-IsBytes m th f true h = set_dword-IsBytes m th _ h
set_hdr_flags-IsBytes m th f false h = set_dword-IsBytes m th _ h

-- Setting HLEN in a header of bytes: HLEN reads back as the low five bits of the value, the binding
-- id and the flags F, L and M read as before, all bits of the first dword above and below the field are
-- as before, and no byte outside the first four changes.
pub set_hdr_hlen_lem :
    (m : Mem) (th v : ℕ)
    → IsBytes m
    → (get_hdr_hlen (set_hdr_hlen m th v) th ≡ v % 2 ^ 5)
      × (get_hdr_wbid (set_hdr_hlen m th v) th ≡ get_hdr_wbid m th)
      × (get_dword (set_hdr_hlen m th v) th / 2 ^ 24 ≡ get_dword m th / 2 ^ 24)
      × (get_dword (set_hdr_hlen m th v) th % 2 ^ 19 ≡ get_dword m th % 2 ^ 19)
      × (get_hdr_flag 0x80 (set_hdr_hlen m th v) th ≡ get_hdr_flag 0x80 m th)
      × (get_hdr_flag 0x40 (set_hdr_hlen m th v) th ≡ get_hdr_flag 0x40 m th)
      × (get_hdr_flag 0x10 (set_hdr_hlen m th v) th ≡ get_hdr_flag 0x10 m th)
      × ((i : ℕ) → (i < th) ⊎ (th + 4 ≤ i) → set_hdr_hlen m th v i ≡ m i)
set_hdr_hlen_lem m th v h = (
  rw get_hdr_hlen_lem (omega (arith, dword)),
  rw (get_hdr_wbid_lem (set_hdr_hlen m th v) th, get_hdr_wbid_lem m th) (omega (arith, dword)),
  omega (arith, dword),
  omega (arith, dword),
  rw (get_hdr_flag_f (set_hdr_hlen m th v) th, get_hdr_flag_f m th)
      (ap (λ (t : ℕ). t == 1) (omega (arith, dword))),
  rw (get_hdr_flag_l (set_hdr_hlen m th v) th, get_hdr_flag_l m th)
      (ap (λ (t : ℕ). t == 1) (omega (arith, dword))),
  rw (get_hdr_flag_m (set_hdr_hlen m th v) th, get_hdr_flag_m m th)
      (ap (λ (t : ℕ). t == 1) (omega (arith, dword))),
  set_hdr_hlen_outside m th v,
)
  where
    dword :
        get_dword (set_hdr_hlen m th v) th
        ≡ (get_dword m th / 2 ^ 24 * 2 ^ 5 + v % 2 ^ 5) * 2 ^ 19 + get_dword m th % 2 ^ 19
    dword = get_dword-set_hdr_hlen m th v h

-- Setting the wireless binding id in a header of bytes: it reads back as the low five bits of the
-- value, HLEN and the flags F, L and M read as before, and no byte outside the first four changes.
pub set_hdr_wbid_lem :
    (m : Mem) (th v : ℕ)
    → IsBytes m
    → (get_hdr_wbid (set_hdr_wbid m th v) th ≡ v % 2 ^ 5)
      × (get_hdr_hlen (set_hdr_wbid m th v) th ≡ get_hdr_hlen m th)
      × (get_hdr_flag 0x80 (set_hdr_wbid m th v) th ≡ get_hdr_flag 0x80 m th)
      × (get_hdr_flag 0x40 (set_hdr_wbid m th v) th ≡ get_hdr_flag 0x40 m th)
      × (get_hdr_flag 0x10 (set_hdr_wbid m th v) th ≡ get_hdr_flag 0x10 m th)
      × ((i : ℕ) → (i < th) ⊎ (th + 4 ≤ i) → set_hdr_wbid m th v i ≡ m i)
set_hdr_wbid_lem m th v h = (
  rw get_hdr_wbid_lem (omega (arith, dword)),
  rw (get_hdr_hlen_lem (set_hdr_wbid m th v) th, get_hdr_hlen_lem m th) (omega (arith, dword)),
  rw (get_hdr_flag_f (set_hdr_wbid m th v) th, get_hdr_flag_f m th)
      (ap (λ (t : ℕ). t == 1) (omega (arith, dword))),
  rw (get_hdr_flag_l (set_hdr_wbid m th v) th, get_hdr_flag_l m th)
      (ap (λ (t : ℕ). t == 1) (omega (arith, dword))),
  rw (get_hdr_flag_m (set_hdr_wbid m th v) th, get_hdr_flag_m m th)
      (ap (λ (t : ℕ). t == 1) (omega (arith, dword))),
  set_hdr_wbid_outside m th v,
)
  where
    dword :
        get_dword (set_hdr_wbid m th v) th
        ≡ (get_dword m th / 2 ^ 14 * 2 ^ 5 + v % 2 ^ 5) * 2 ^ 9 + get_dword m th % 2 ^ 9
    dword = get_dword-set_hdr_wbid m th v h

-- `cw_set_hdr_rid` stores the low five bits of the radio id in bits 14 to 18 of the first dword, but
-- on a little-endian host `cw_get_hdr_rid` reads 0 whatever is stored: it shifts before `ntohl`.
pub get_hdr_rid-set_hdr_rid :
    (m : Mem) (th v : ℕ)
    → IsBytes m
    → (get_dword (set_hdr_rid m th v) th / 2 ^ 14 % 2 ^ 5 ≡ v % 2 ^ 5)
      × (get_hdr_rid (set_hdr_rid m th v) th ≡ 0)
unfolding get_hdr_rid
get_hdr_rid-set_hdr_rid m th v h = (
  omega (arith, get_dword-set_hdr_rid m th v h),
  bit_and_mask 5 (ntohl_le (load_le (set_hdr_rid m th v) th / 2 ^ 14))
      ∙ unfold ntohl_le load_le in omega (arith, b th, b (th + 1), b (th + 2), b (th + 3)),
)
  where
    b : IsBytes (set_hdr_rid m th v)
    b = set_hdr_rid-IsBytes m th v h
