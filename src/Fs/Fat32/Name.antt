-- ===== src/Fs/Fat32/Name.antt =====
-- src/fs/fat32.cpp, `ToShortName` and `NamesMatch`: a component of a path as the eleven characters
-- of a directory entry. A string is the list of its characters before the final 0.
pub mod Shown
pub mod Upper
use layla_os.Base.{
  ℕ, zero, suc, ◌+◌, ◌-◌, Bool, true, false, ◌&&◌, List, [], ◌∷◌, ◌++◌, if◌then◌else◌, leb, ◌==◌,
  get_or,
}

-- c -= 32 for a lower-case letter.
abbrev pub to_upper : ℕ → ℕ
to_upper c = if leb b'a' c && leb c b'z' then c - 32 else c

-- The first loop, with room for `n` characters: what it stores, and the rest of the component.
unfoldable pub short_base : ℕ → List ℕ → List ℕ × List ℕ
short_base zero cs = ([], cs)
short_base (suc n) [] = ([], [])
short_base (suc n) (c ∷ cs) =
    let rest = short_base n cs in if c == b'.' then ([], c ∷ cs) else (to_upper c ∷ rest.0, rest.1)

unfoldable pub short_ext : ℕ → List ℕ → List ℕ
short_ext zero cs = []
short_ext (suc n) [] = []
short_ext (suc n) (c ∷ cs) = to_upper c ∷ short_ext n cs

-- The characters stored over `n` blanks.
unfoldable pub over_blanks : ℕ → List ℕ → List ℕ
over_blanks zero cs = []
over_blanks (suc n) [] = b' ' ∷ over_blanks n []
over_blanks (suc n) (c ∷ cs) = c ∷ over_blanks n cs

-- The second loop runs only after a dot.
unfoldable pub after_dot : List ℕ → List ℕ
after_dot [] = []
after_dot (c ∷ cs) = if c == b'.' then short_ext 3 cs else []

unfoldable pub to_short_name : List ℕ → List ℕ
to_short_name component =
    let parts = short_base 8 component in over_blanks 8 parts.0 ++ over_blanks 3 (after_dot parts.1)

-- The comparison of the `n` characters from index `i` on.
unfoldable pub match_from : ℕ → ℕ → List ℕ → List ℕ → Bool
match_from zero i dir_name name83 = true
match_from (suc n) i dir_name name83 =
    let rest = match_from n (i + 1) dir_name name83 in
    if get_or dir_name i 0 == get_or name83 i 0 then rest else false

abbrev pub names_match : List ℕ → List ℕ → Bool
names_match dir_name name83 = match_from 11 0 dir_name name83
