-- ===== src/Base/Bytes.antt =====
-- The memory that a C pointer `uint8_t *` gives access to: the byte at each offset from the pointer.
-- How far the object reaches is stated where it matters, in the theorems on bounds. The accessors
-- are the macros of cw/lw.h, which read and write in network byte order.
use Prim.Native.Nat.{ℕ, ◌+◌, ◌-◌, ◌*◌, ◌/◌, ◌%◌, ◌^◌, ◌≤◌, ◌<◌}
use mathlib.Core.Path.{◌≡◌}
use mathlib.Core.Logic.{◌⊎◌}
use mathlib.Core.Bool.{◌&&◌}
use mathlib.Core.List.{List, [], ◌∷◌}
use native.Mathlib.Omega.{arith}
use actube.Base.Tests.{ltb, leb, ◌==◌, if◌then◌else◌}

abbrev pub Mem : Type 0
Mem = ℕ → ℕ

abbrev pub IsBytes : Mem → Type 0
IsBytes m = (i : ℕ) → m i < 256

-- The memory seen from the pointer `p`.
abbrev pub from : Mem → ℕ → Mem
from m p i = m (p + i)

-- The bytes of a list, and zeros behind it.
abbrev pub of_list : List ℕ → Mem
of_list [] i = 0
of_list (b ∷ bs) i = if i == 0 then b else of_list bs (i - 1)

abbrev pub bytes_of : Mem → ℕ → ℕ → List ℕ
bytes_of m p Prim.Native.Nat.zero = []
bytes_of m p (Prim.Native.Nat.suc n) = m p ∷ bytes_of m (p + 1) n

unfoldable pub set_byte : Mem → ℕ → ℕ → Mem
set_byte m p v i = if i == p then v % 2 ^ 8 else m i

unfoldable pub get_word : Mem → ℕ → ℕ
get_word m p = m p * 2 ^ 8 + m (p + 1)

unfoldable pub set_word : Mem → ℕ → ℕ → Mem
unfolding set_byte
set_word m p v = set_byte (set_byte m p (v / 2 ^ 8)) (p + 1) v

unfoldable pub get_dword : Mem → ℕ → ℕ
get_dword m p = m p * 2 ^ 24 + m (p + 1) * 2 ^ 16 + m (p + 2) * 2 ^ 8 + m (p + 3)

unfoldable pub set_dword : Mem → ℕ → ℕ → Mem
unfolding set_byte
set_dword m p v =
    set_byte
      (set_byte (set_byte (set_byte m p (v / 2 ^ 24)) (p + 1) (v / 2 ^ 16)) (p + 2) (v / 2 ^ 8))
      (p + 3) v

-- memcpy(dst + d, src + s, n)
unfoldable pub memcpy : Mem → ℕ → Mem → ℕ → ℕ → Mem
memcpy dst d src s n i = if leb d i && ltb i (d + n) then src (s + (i - d)) else dst i

pub get_word-set_word : (m : Mem) (p v : ℕ) → get_word (set_word m p v) p ≡ v % 2 ^ 16
unfolding get_word set_word
get_word-set_word m p v = ground arith

pub get_dword-set_dword : (m : Mem) (p v : ℕ) → get_dword (set_dword m p v) p ≡ v % 2 ^ 32
unfolding get_dword set_dword
get_dword-set_dword m p v = ground arith

pub set_dword_outside : (m : Mem) (p v i : ℕ) → (i < p) ⊎ (p + 4 ≤ i) → set_dword m p v i ≡ m i
unfolding set_dword
set_dword_outside m p v i h = ground arith

pub set_word_outside : (m : Mem) (p v i : ℕ) → (i < p) ⊎ (p + 2 ≤ i) → set_word m p v i ≡ m i
unfolding set_word
set_word_outside m p v i h = ground arith

pub get_dword-lt : (m : Mem) (p : ℕ) → IsBytes m → get_dword m p < 2 ^ 32
unfolding get_dword
get_dword-lt m p h = omega (arith, h p, h (p + 1), h (p + 2), h (p + 3))

pub get_word-lt : (m : Mem) (p : ℕ) → IsBytes m → get_word m p < 2 ^ 16
unfolding get_word
get_word-lt m p h = omega (arith, h p, h (p + 1))

pub set_byte-IsBytes : (m : Mem) (p v : ℕ) → IsBytes m → IsBytes (set_byte m p v)
unfolding set_byte
set_byte-IsBytes m p v h i = ground (arith, h i)

pub set_dword-IsBytes : (m : Mem) (p v : ℕ) → IsBytes m → IsBytes (set_dword m p v)
unfolding set_dword
set_dword-IsBytes m p v h i = ground (arith, h i)

pub set_word-IsBytes : (m : Mem) (p v : ℕ) → IsBytes m → IsBytes (set_word m p v)
unfolding set_word
set_word-IsBytes m p v h i = ground (arith, h i)

pub memcpy-IsBytes :
    (dst : Mem) (d : ℕ) (src : Mem) (s n : ℕ)
    → IsBytes dst
    → IsBytes src
    → IsBytes (memcpy dst d src s n)
unfolding memcpy
memcpy-IsBytes dst d src s n h k i = ground (arith, h i, k (s + (i - d)))

-- A dword is read from four bytes only.
pub get_dword_ext :
    (m k : Mem) (p : ℕ) → ((i : ℕ) → p ≤ i → i < p + 4 → m i ≡ k i) → get_dword m p ≡ get_dword k p
unfolding get_dword
get_dword_ext m k p h = ground (arith, h p, h (p + 1), h (p + 2), h (p + 3))

pub memcpy_outside :
    (dst : Mem) (d : ℕ) (src : Mem) (s n i : ℕ)
    → (i < d) ⊎ (d + n ≤ i)
    → memcpy dst d src s n i ≡ dst i
unfolding memcpy
memcpy_outside dst d src s n i h = ground arith

pub memcpy_inside :
    (dst : Mem) (d : ℕ) (src : Mem) (s n j : ℕ) → j < n → memcpy dst d src s n (d + j) ≡ src (s + j)
unfolding memcpy
memcpy_inside dst d src s n j h = ground arith
