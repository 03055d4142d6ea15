-- ===== src/Value/Hex.antt =====
-- Bytes as hexadecimal digits: `format_hex` of src/cw/format.c and src/cw/cw_format_scan_hex_bytes.c.
use actube.Base.{
  ℕ, ◌+◌, ◌*◌, ◌/◌, ◌-◌, ◌%◌, ◌^◌, ◌<◌, ◌≡◌, refl, ap, ap₂, ◌∙◌, arith, Bool, true, false, Option,
  none, some, List, [], ◌∷◌, ◌==◌, ==_iff, ◌&&◌, ltb, leb, if◌then◌else◌, length,
}
use actube.Cfg.{is_space}

abbrev hex_digit : ℕ → ℕ
hex_digit n = if ltb n 10 then n + 48 else n + 87

-- "%02x" of each byte, with nothing in between.
unfoldable pub format_hex : List ℕ → List ℕ
format_hex [] = []
format_hex (b ∷ bs) = hex_digit (b / 16) ∷ hex_digit (b % 16) ∷ format_hex bs

abbrev digit_value : ℕ → Option ℕ
digit_value c =
    if leb 48 c && leb c 57
    then some (c - 48)
    else if leb 97 c && leb c 102
    then some (c - 87)
    else if leb 65 c && leb c 70
    then some (c - 55)
    else none

-- `sscanf(s,"%01X",&c)` skips spaces; where it finds no digit, 0 is taken.
unfoldable pub scan_digit : List ℕ → ℕ
scan_digit [] = 0
scan_digit (c ∷ cs) =
    let rest = scan_digit cs in
    if is_space c then rest else elim (digit_value c) [ none ↦ 0 | some d ↦ d ]

-- The second loop: two digits for each byte.
unfoldable pub scan_pairs : List ℕ → List ℕ
unfolding scan_digit
scan_pairs [] = []
scan_pairs (a ∷ []) = []
scan_pairs (a ∷ b ∷ cs) = (scan_digit (a ∷ b ∷ cs) * 2 ^ 4 + scan_digit (b ∷ cs)) ∷ scan_pairs cs

-- A digit alone stands in front, if their number is odd.
unfoldable pub scan_hex_bytes : List ℕ → List ℕ
unfolding scan_pairs
scan_hex_bytes [] = []
scan_hex_bytes (c ∷ cs) =
    if length (c ∷ cs) % 2 == 0 then scan_pairs (c ∷ cs) else scan_digit (c ∷ cs) ∷ scan_pairs cs

digit_value-hex_digit : (n : ℕ) → n < 16 → digit_value (hex_digit n) ≡ some n
digit_value-hex_digit n h = ground arith

hex_digit-space : (n : ℕ) → n < 16 → is_space (hex_digit n) ≡ false
hex_digit-space n h = ground arith

scan_digit-hex_digit : (n : ℕ) (cs : List ℕ) → n < 16 → scan_digit (hex_digit n ∷ cs) ≡ n
unfolding scan_digit
scan_digit-hex_digit n cs h = rw (hex_digit-space n h) (
    ap (λ (o : Option ℕ). elim o as (λ x. ℕ) [ none ↦ 0 | some d ↦ d ]) (digit_value-hex_digit n h))

abbrev pub AreBytes : List ℕ → Type 0
AreBytes [] = Unit
AreBytes (b ∷ bs) = (b < 256) × AreBytes bs

scan_pairs-format_hex : (bs : List ℕ) → AreBytes bs → scan_pairs (format_hex bs) ≡ bs
unfolding scan_pairs format_hex
scan_pairs-format_hex [] h = refl
scan_pairs-format_hex (b ∷ bs) (h, hs) =
    ap₂ ◌∷◌
      (ap₂ (λ (x y : ℕ). x * 2 ^ 4 + y)
          (scan_digit-hex_digit (b / 16) (hex_digit (b % 16) ∷ format_hex bs) (omega (arith, h)))
          (scan_digit-hex_digit (b % 16) (format_hex bs) (omega arith))
        ∙ omega arith)
      (scan_pairs-format_hex bs hs)

pub length-format_hex : (bs : List ℕ) → length (format_hex bs) ≡ 2 * length bs
unfolding format_hex
length-format_hex [] = omega arith
length-format_hex (b ∷ bs) = omega (arith, length-format_hex bs)

pub scan_hex_bytes-format_hex : (bs : List ℕ) → AreBytes bs → scan_hex_bytes (format_hex bs) ≡ bs
unfolding scan_hex_bytes format_hex
scan_hex_bytes-format_hex [] h = refl
scan_hex_bytes-format_hex (b ∷ bs) h =
    let even : (length (format_hex (b ∷ bs)) % 2 == 0) ≡ true =
      (==_iff (length (format_hex (b ∷ bs)) % 2) 0).1 (omega (arith, length-format_hex (b ∷ bs))) in
    ap
      (λ (e : Bool).
        if e
        then scan_pairs (format_hex (b ∷ bs))
        else scan_digit (format_hex (b ∷ bs)) ∷ scan_pairs (hex_digit (b % 16) ∷ format_hex bs))
      even
    ∙ scan_pairs-format_hex (b ∷ bs) h
