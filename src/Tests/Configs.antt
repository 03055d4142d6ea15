-- ===== src/Tests/Configs.antt =====
-- Examples for the configuration files of src/cw/cfg.c and the values of src/cw/cw_type_*.c.
use actube.Base.{
  ◌↔◌, ◌≤◌, ◌<◌, ◌/◌, ◌%◌, ◌^◌, ℕ, zero, suc, ◌≡◌, refl, ap, inl, arith, true, false, some, List,
  [], ◌∷◌, ◌++◌, length,
}
use actube.Cfg.{is_key_char, max_key_len}
use actube.Cfg.Reader.{overrun, key_read, Loaded, entry, read_key, read_line, read_from_file}
use actube.Cfg.Writer.{needs_quotes, write_entry, write_to_file}
use actube.Cfg.Line.{all, plain_key_char, IsKey}
use actube.Cfg.RoundTrip.{AreWritable, read_from_file-write_to_file}
use actube.Cfg.Limits.{read_line-quote, read_key-overrun}
use actube.Cfg.Total.Lines.{read_from_file_total}
use actube.Value.Bstr16.{bread, xput, format_is_utf8, xput-bread}
use actube.Value.Decimal.{print_int}
use actube.Lwapp.{lw_checksum}
use actube.Lwapp.Checksum.{lw_checksum_verified}
use actube.Value.Byte.{
  str_eq, Range, get_guardval, bread_byte, byte_from_str, byte_from_str-bread_byte,
}

-- "k"
abbrev key : List ℕ
key = b'k' ∷ []

-- " a"
abbrev val : List ℕ
val = b' ' ∷ b'a' ∷ []

abbrev entries : List (List ℕ × List ℕ)
entries = (key, val) ∷ (key, b'7' ∷ []) ∷ []

key-IsKey : IsKey key
unfolding is_key_char
key-IsKey = record {
  chars = refl;
  some_char = λ h. absurd (omega (arith, ap length h));
  not_comment = refl;
  in_limit = omega arith;
}

entries-AreWritable : AreWritable entries
unfolding needs_quotes
entries-AreWritable = (
  key-IsKey,
  record { chars = refl; not_quoted = λ h. refl; in_limit = omega arith },
  (key-IsKey, record { chars = refl; not_quoted = λ h. refl; in_limit = omega arith }, tt),
)

read_from_file-write_to_file_example :
    read_from_file (write_to_file entries)
    ≡ some (record { entries = entries; errs = 0; overran = false })
read_from_file-write_to_file_example = read_from_file-write_to_file entries entries-AreWritable

read_from_file_total_example : (r : Loaded) × (read_from_file (b'k' ∷ b' ' ∷ b'\n' ∷ []) ≡ some r)
read_from_file_total_example = read_from_file_total (b'k' ∷ b' ' ∷ b'\n' ∷ [])

-- The value `" "x"`: what is read ends behind the space.
read_line-quote_example :
    read_line 1 false (write_entry key (b' ' ∷ b'"' ∷ b'x' ∷ []) ++ [])
    ≡ some (entry key (b' ' ∷ []) false (b'x' ∷ b'"' ∷ b'\n' ∷ []))
unfolding needs_quotes
read_line-quote_example =
    read_line-quote 0 key (b' ' ∷ []) (b'x' ∷ []) [] key-IsKey refl refl (omega arith)

repeated : ℕ → List ℕ
repeated zero = []
repeated (suc n) = b'k' ∷ repeated n

repeated-length : (n : ℕ) → length (repeated n) ≡ n
unfolding repeated
repeated-length zero = refl
repeated-length (suc n) = omega (arith, repeated-length n)

repeated-chars : (n : ℕ) → all plain_key_char (repeated n) ≡ true
unfolding repeated is_key_char
repeated-chars zero = refl
repeated-chars (suc n) = repeated-chars n

read_key-overrun_example :
    ((read_key 1 false (repeated max_key_len ++ b':' ∷ []) ≡ some overrun)
      ↔ (max_key_len ≤ length (repeated max_key_len)))
    × (length (repeated max_key_len) < max_key_len
        → read_key 1 false (repeated max_key_len ++ b':' ∷ [])
          ≡ some (key_read (repeated max_key_len, false, b':' ∷ [])))
unfolding repeated
read_key-overrun_example =
    read_key-overrun 0 (repeated max_key_len) [] (repeated-chars max_key_len)
      (λ h. absurd (omega (arith, ap length h))) refl

abbrev binary : List ℕ
binary = 0xff ∷ 0x0a ∷ []

xput-bread_example : xput (bread binary) ≡ binary
unfolding format_is_utf8
xput-bread_example = xput-bread binary (omega arith, (omega arith, tt)) (inl refl)

abbrev ranges : List Range
ranges =
    record { min = 0; max = 0; name = b'n' ∷ b'o' ∷ [] }
    ∷ record { min = 1; max = 1; name = b'o' ∷ b'n' ∷ [] }
    ∷ []

byte_from_str-bread_byte_example : byte_from_str ranges (bread_byte ranges 1) ≡ 1
unfolding get_guardval str_eq print_int
byte_from_str-bread_byte_example =
    byte_from_str-bread_byte ranges 1 (refl, refl, (refl, refl, tt)) refl (omega arith)

-- An even number of bytes.
lw_checksum_verified_example :
    lw_checksum (binary ++ (lw_checksum binary / 2 ^ 8) ∷ (lw_checksum binary % 2 ^ 8) ∷ []) ≡ 0
lw_checksum_verified_example =
    lw_checksum_verified binary (omega arith, (omega arith, tt)) (omega arith) (omega arith)
