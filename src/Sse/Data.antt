-- ===== src/Sse/Data.antt =====
-- src/sse.rs, `extract_data`: the data lines of one frame. The lines of a text and the removal of a
-- prefix are `str`'s.
use Prim.Native.Char.{code}
use kinetix.Base.{
  Bool, false, ◌&&◌, Option, none, some, unwrap_or, List, [], ◌∷◌, String, ◌<>◌, str_eq, ◌==◌,
  if◌then◌else◌,
}

-- A line feed at the head.
abbrev starts_lf : String → Bool
starts_lf String.[] = false
starts_lf (String.◌∷◌ c s) = code c == 10

abbrev cons_first : String → List String → List String
cons_first c [] = c ∷ []
cons_first c (l ∷ ls) = (c <> l) ∷ ls

-- `str::lines`: a line ends at a line feed, with or without a carriage return before it.
unfoldable pub lines : String → List String
lines String.[] = []
lines (String.◌∷◌ c s) =
    let rest = lines s in
    if code c == 10
    then "" ∷ rest
    else if code c == 13 && starts_lf s
    then rest
    else cons_first (String.◌∷◌ c String.[]) rest

unfoldable pub strip_prefix : String → String → Option String
strip_prefix String.[] s = some s
strip_prefix (String.◌∷◌ c p) String.[] = none
strip_prefix (String.◌∷◌ c p) (String.◌∷◌ d s) = if code c == code d then strip_prefix p s else none

-- The loop over the lines, with what is found so far.
unfoldable pub data_lines : Option String → List String → Option String
unfolding strip_prefix
data_lines found [] = found
data_lines found (line ∷ ls) = elim (strip_prefix "data:" line) [
  | none ↦ data_lines found ls
  | some rest ↦
      let so_far = unwrap_or found "" in
      let joined = if str_eq so_far "" then so_far else so_far <> "\n" in
      data_lines (some (joined <> unwrap_or (strip_prefix " " rest) rest)) ls
]

unfoldable pub extract_data : String → Option String
unfolding lines data_lines
extract_data frame = data_lines none (lines frame)
