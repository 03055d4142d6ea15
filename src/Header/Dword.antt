-- ===== src/Header/Dword.antt =====
-- The first dword of the transport header as arithmetic: what each setter makes of it.
use actube.Base.{
  ℕ, ◌+◌, ◌-◌, ◌*◌, ◌/◌, ◌%◌, ◌^◌, ◌<◌, ◌≡◌, ap₂, ◌∙◌, arith, bit_and, bit_or, bit_xor, Mem,
  IsBytes, true, false, get_dword, get_dword-set_dword, get_dword-lt, bit_and_mask, replace_field,
  fill_field, bit_and_clear,
}
use actube.Header.{set_hdr_hlen, set_hdr_wbid, set_hdr_rid, set_hdr_flags}

hlen_dword :
    (d v : ℕ)
    → d < 2 ^ 32
    → bit_or (bit_and d (bit_xor (0x1f * 2 ^ 19) 0xffffffff)) (bit_and v 0x1f * 2 ^ 19)
      ≡ (d / 2 ^ 24 * 2 ^ 5 + v % 2 ^ 5) * 2 ^ 19 + d % 2 ^ 19
hlen_dword d v h =
    ap₂ (λ (s t : ℕ). bit_or (bit_and s (bit_xor (0x1f * 2 ^ 19) 0xffffffff)) t) split value
    ∙ replace_field 8 5 19 (d / 2 ^ 24) (d / 2 ^ 19 % 2 ^ 5) (d % 2 ^ 19) (v % 2 ^ 5) (omega arith)
        (omega arith) (omega arith) (omega arith)
  where
    split : d ≡ (d / 2 ^ 24 * 2 ^ 5 + d / 2 ^ 19 % 2 ^ 5) * 2 ^ 19 + d % 2 ^ 19
    split = omega arith

    value : bit_and v 0x1f * 2 ^ 19 ≡ (0 * 2 ^ 5 + v % 2 ^ 5) * 2 ^ 19 + 0
    value = omega (arith, bit_and_mask 5 v)

wbid_dword :
    (d v : ℕ)
    → d < 2 ^ 32
    → bit_or (bit_and d (bit_xor (0x1f * 2 ^ 9) 0xffffffff)) (bit_and v 0x1f * 2 ^ 9)
      ≡ (d / 2 ^ 14 * 2 ^ 5 + v % 2 ^ 5) * 2 ^ 9 + d % 2 ^ 9
wbid_dword d v h =
    ap₂ (λ (s t : ℕ). bit_or (bit_and s (bit_xor (0x1f * 2 ^ 9) 0xffffffff)) t) split value
    ∙ replace_field 18 5 9 (d / 2 ^ 14) (d / 2 ^ 9 % 2 ^ 5) (d % 2 ^ 9) (v % 2 ^ 5) (omega arith)
        (omega arith) (omega arith) (omega arith)
  where
    split : d ≡ (d / 2 ^ 14 * 2 ^ 5 + d / 2 ^ 9 % 2 ^ 5) * 2 ^ 9 + d % 2 ^ 9
    split = omega arith

    value : bit_and v 0x1f * 2 ^ 9 ≡ (0 * 2 ^ 5 + v % 2 ^ 5) * 2 ^ 9 + 0
    value = omega (arith, bit_and_mask 5 v)

rid_dword :
    (d v : ℕ)
    → d < 2 ^ 32
    → bit_or (bit_and d (bit_xor (0x1f * 2 ^ 14) 0xffffffff)) (bit_and v 0x1f * 2 ^ 14)
      ≡ (d / 2 ^ 19 * 2 ^ 5 + v % 2 ^ 5) * 2 ^ 14 + d % 2 ^ 14
rid_dword d v h =
    ap₂ (λ (s t : ℕ). bit_or (bit_and s (bit_xor (0x1f * 2 ^ 14) 0xffffffff)) t) split value
    ∙ replace_field 13 5 14 (d / 2 ^ 19) (d / 2 ^ 14 % 2 ^ 5) (d % 2 ^ 14) (v % 2 ^ 5) (omega arith)
        (omega arith) (omega arith) (omega arith)
  where
    split : d ≡ (d / 2 ^ 19 * 2 ^ 5 + d / 2 ^ 14 % 2 ^ 5) * 2 ^ 14 + d % 2 ^ 14
    split = omega arith

    value : bit_and v 0x1f * 2 ^ 14 ≡ (0 * 2 ^ 5 + v % 2 ^ 5) * 2 ^ 14 + 0
    value = omega (arith, bit_and_mask 5 v)

module _ (m : Mem) (th v : ℕ) (bytes : IsBytes m) where
  pub get_dword-set_hdr_hlen :
      get_dword (set_hdr_hlen m th v) th
      ≡ (get_dword m th / 2 ^ 24 * 2 ^ 5 + v % 2 ^ 5) * 2 ^ 19 + get_dword m th % 2 ^ 19
  unfolding set_hdr_hlen
  get_dword-set_hdr_hlen =
      rw (get_dword-set_dword, hlen_dword (get_dword m th) v (get_dword-lt m th bytes))
        (omega (arith, get_dword-lt m th bytes))

  pub get_dword-set_hdr_wbid :
      get_dword (set_hdr_wbid m th v) th
      ≡ (get_dword m th / 2 ^ 14 * 2 ^ 5 + v % 2 ^ 5) * 2 ^ 9 + get_dword m th % 2 ^ 9
  unfolding set_hdr_wbid
  get_dword-set_hdr_wbid =
      rw (get_dword-set_dword, wbid_dword (get_dword m th) v (get_dword-lt m th bytes))
        (omega (arith, get_dword-lt m th bytes))

  pub get_dword-set_hdr_rid :
      get_dword (set_hdr_rid m th v) th
      ≡ (get_dword m th / 2 ^ 19 * 2 ^ 5 + v % 2 ^ 5) * 2 ^ 14 + get_dword m th % 2 ^ 14
  unfolding set_hdr_rid
  get_dword-set_hdr_rid =
      rw (get_dword-set_dword, rid_dword (get_dword m th) v (get_dword-lt m th bytes))
        (omega (arith, get_dword-lt m th bytes))

-- Flags: the group of `n` bits at bit `k`, with `h + n + k` = 32.
flags_on :
    (n k d a b x : ℕ)
    → d ≡ (a * 2 ^ n + b) * 2 ^ k + x
    → b < 2 ^ n
    → x < 2 ^ k
    → bit_or d ((0 * 2 ^ n + (2 ^ n - 1)) * 2 ^ k + 0) ≡ (a * 2 ^ n + (2 ^ n - 1)) * 2 ^ k + x
flags_on n k d a b x e p q = rw e (fill_field n k a b x p q)

flags_off :
    (h n k d a b x : ℕ)
    → d ≡ (a * 2 ^ n + b) * 2 ^ k + x
    → a < 2 ^ h
    → b < 2 ^ n
    → x < 2 ^ k
    → bit_and d (((2 ^ h - 1) * 2 ^ n + 0) * 2 ^ k + (2 ^ k - 1)) ≡ (a * 2 ^ n + 0) * 2 ^ k + x
flags_off h n k d a b x e p q r = rw e (bit_and_clear h n k a b x p q r)

module _ (m : Mem) (th : ℕ) (bytes : IsBytes m) where
  -- `M` is bit 4.
  pub get_dword-set_m :
      get_dword (set_hdr_flags m th 0x10 true) th
      ≡ (get_dword m th / 2 ^ 5 * 2 + 1) * 2 ^ 4 + get_dword m th % 2 ^ 4
  unfolding set_hdr_flags
  get_dword-set_m = rw get_dword-set_dword (
      omega (
        arith,
        get_dword-lt m th bytes,
        flags_on 1 4 (get_dword m th) (get_dword m th / 2 ^ 5) (get_dword m th / 2 ^ 4 % 2)
            (get_dword m th % 2 ^ 4) (omega arith) (omega arith) (omega arith),
      ))

  pub get_dword-clear_m :
      get_dword (set_hdr_flags m th 0x10 false) th
      ≡ get_dword m th / 2 ^ 5 * 2 ^ 5 + get_dword m th % 2 ^ 4
  unfolding set_hdr_flags
  get_dword-clear_m = rw get_dword-set_dword (
      omega (
        arith,
        get_dword-lt m th bytes,
        flags_off 27 1 4 (get_dword m th) (get_dword m th / 2 ^ 5) (get_dword m th / 2 ^ 4 % 2)
            (get_dword m th % 2 ^ 4) (omega arith) (omega (arith, get_dword-lt m th bytes))
            (omega arith) (omega arith),
      ))

  -- `W` is bit 5.
  pub get_dword-clear_w :
      get_dword (set_hdr_flags m th 0x20 false) th
      ≡ get_dword m th / 2 ^ 6 * 2 ^ 6 + get_dword m th % 2 ^ 5
  unfolding set_hdr_flags
  get_dword-clear_w = rw get_dword-set_dword (
      omega (
        arith,
        get_dword-lt m th bytes,
        flags_off 26 1 5 (get_dword m th) (get_dword m th / 2 ^ 6) (get_dword m th / 2 ^ 5 % 2)
            (get_dword m th % 2 ^ 5) (omega arith) (omega (arith, get_dword-lt m th bytes))
            (omega arith) (omega arith),
      ))

  -- `F` is bit 7.
  pub get_dword-set_f :
      get_dword (set_hdr_flags m th 0x80 true) th
      ≡ (get_dword m th / 2 ^ 8 * 2 + 1) * 2 ^ 7 + get_dword m th % 2 ^ 7
  unfolding set_hdr_flags
  get_dword-set_f = rw get_dword-set_dword (
      omega (
        arith,
        get_dword-lt m th bytes,
        flags_on 1 7 (get_dword m th) (get_dword m th / 2 ^ 8) (get_dword m th / 2 ^ 7 % 2)
            (get_dword m th % 2 ^ 7) (omega arith) (omega arith) (omega arith),
      ))

  pub get_dword-clear_f :
      get_dword (set_hdr_flags m th 0x80 false) th
      ≡ get_dword m th / 2 ^ 8 * 2 ^ 8 + get_dword m th % 2 ^ 7
  unfolding set_hdr_flags
  get_dword-clear_f = rw get_dword-set_dword (
      omega (
        arith,
        get_dword-lt m th bytes,
        flags_off 24 1 7 (get_dword m th) (get_dword m th / 2 ^ 8) (get_dword m th / 2 ^ 7 % 2)
            (get_dword m th % 2 ^ 7) (omega arith) (omega (arith, get_dword-lt m th bytes))
            (omega arith) (omega arith),
      ))

  -- `F | L` are bits 7 and 6.
  pub get_dword-set_fl :
      get_dword (set_hdr_flags m th 0xc0 true) th
      ≡ (get_dword m th / 2 ^ 8 * 2 ^ 2 + 3) * 2 ^ 6 + get_dword m th % 2 ^ 6
  unfolding set_hdr_flags
  get_dword-set_fl = rw get_dword-set_dword (
      omega (
        arith,
        get_dword-lt m th bytes,
        flags_on 2 6 (get_dword m th) (get_dword m th / 2 ^ 8) (get_dword m th / 2 ^ 6 % 2 ^ 2)
            (get_dword m th % 2 ^ 6) (omega arith) (omega arith) (omega arith),
      ))
