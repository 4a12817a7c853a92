-- ===== src/Util/Strings.antt =====
-- source/utils/CommonUtils.cpp: trimming and the suffix of a file name.
pub mod Suffix
pub mod Trimming
mod Tests
use project_collection.Base.{
  ℕ, suc, ◌+◌, ◌-◌, Bool, not, true, false, ◌||◌, ◌==◌, List, [], ◌∷◌, Option, none, some, take,
  drop, if◌then◌else◌,
}
use project_collection.Base.Text.{Text, codes}

abbrev pub contains : ℕ → Text → Bool
contains c [] = false
contains c (d ∷ s) = (c == d) || contains c s

abbrev shift : Option ℕ → Option ℕ
shift none = none
shift (some n) = some (suc n)

-- `find_first_not_of` and `find_last_not_of`; none is npos.
unfoldable pub find_first_not_of : Text → Text → Option ℕ
find_first_not_of delimit [] = none
find_first_not_of delimit (c ∷ s) =
    let rest = find_first_not_of delimit s in if contains c delimit then shift rest else some 0

abbrev last_of : Option ℕ → Bool → Option ℕ
last_of (some n) skip = some (suc n)
last_of none true = none
last_of none false = some 0

unfoldable pub find_last_not_of : Text → Text → Option ℕ
find_last_not_of delimit [] = none
find_last_not_of delimit (c ∷ s) = last_of (find_last_not_of delimit s) (contains c delimit)

-- `substr(begin, end - begin + 1)`, where both were found.
abbrev cut : Text → Option ℕ → Option ℕ → Text
cut str none end = []
cut str (some begin) none = []
cut str (some begin) (some end) = take (end - begin + 1) (drop begin str)

unfoldable pub trim : Text → Text → Text
trim str delimit = cut str (find_first_not_of delimit str) (find_last_not_of delimit str)

-- `substr(begin)`
abbrev pub from : Text → Option ℕ → Text
from str none = []
from str (some begin) = drop begin str

unfoldable pub trim_left : Text → Text → Text
trim_left str delimit = from str (find_first_not_of delimit str)

-- `substr(0, end)`
abbrev before : Text → Option ℕ → Text
before str none = []
before str (some end) = take end str

unfoldable pub trim_right : Text → Text → Text
trim_right str delimit = before str (find_last_not_of delimit str)

-- `erase(end + 1)`: with nothing found, npos + 1 is 0 and all is erased.
abbrev pub through : Text → Option ℕ → Text
through str none = []
through str (some end) = take (end + 1) str

unfoldable pub clear_head_tail_space : Text → Text
clear_head_tail_space [] = []
clear_head_tail_space (c ∷ s) =
    let kept = from (c ∷ s) (find_first_not_of (codes " ") (c ∷ s)) in
    through kept (find_last_not_of (codes " ") kept)

unfoldable pub find_last_of : ℕ → Text → Option ℕ
find_last_of d [] = none
find_last_of d (c ∷ s) = last_of (find_last_of d s) (not (c == d))

-- `substr(pos + 1)`, or the word null.
abbrev behind : Text → Option ℕ → Text
behind str none = codes "null"
behind str (some pos) = drop (pos + 1) str

unfoldable pub get_file_suffix : Text → Text
get_file_suffix [] = []
get_file_suffix (c ∷ s) = behind (c ∷ s) (find_last_of b'.' (c ∷ s))
