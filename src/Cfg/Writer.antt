-- ===== src/Cfg/Writer.antt =====
-- The writer of src/cw/cfg.c, `cw_cfg_write_to_file`. The entries are given as the iterator of the tree lists
-- them.
use actube.Base.{ℕ, Bool, false, List, [], ◌∷◌, ◌++◌, ◌||◌, if◌then◌else◌}
use actube.Cfg.{is_space}

abbrev pub last_is_space : List ℕ → Bool
last_is_space [] = false
last_is_space (c ∷ []) = is_space c
last_is_space (c ∷ d ∷ ds) = last_is_space (d ∷ ds)

-- `isspace` of the first and of the last character; an empty value has the terminating 0 for both.
unfoldable pub needs_quotes : List ℕ → Bool
needs_quotes [] = false
needs_quotes (c ∷ cs) = is_space c || last_is_space (c ∷ cs)

-- "%s: \"%s\"\n" and "%s: %s\n"
unfoldable pub write_entry : List ℕ → List ℕ → List ℕ
unfolding needs_quotes
write_entry key val =
    if needs_quotes val
    then key ++ b':' ∷ b' ' ∷ b'"' ∷ (val ++ b'"' ∷ b'\n' ∷ [])
    else key ++ b':' ∷ b' ' ∷ (val ++ b'\n' ∷ [])

unfoldable pub write_to_file : List (List ℕ × List ℕ) → List ℕ
unfolding write_entry
write_to_file [] = []
write_to_file ((key, val) ∷ entries) = write_entry key val ++ write_to_file entries
