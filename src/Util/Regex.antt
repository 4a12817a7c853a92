-- ===== src/Util/Regex.antt =====
-- The regular expressions of `std::regex` (ECMAScript) that the program's patterns are written in,
-- with `std::regex_match` and `std::regex_search` by derivatives. The anchors ^ and $ of a pattern
-- that is matched as a whole say nothing more, and are left out.
pub mod Laws
use project_collection.Base.{
  ℕ, zero, suc, Bool, true, false, ◌&&◌, ◌||◌, List, [], ◌∷◌, if◌then◌else◌,
}
use project_collection.Base.Text.{Text}

pub data Regex : Type 0 where
  never empty : Regex
  one_of : (ℕ → Bool) → Regex
  seq alt : Regex → Regex → Regex
  star : Regex → Regex

unfoldable pub nullable : Regex → Bool
nullable never = false
nullable empty = true
nullable (one_of p) = false
nullable (seq a b) = nullable a && nullable b
nullable (alt a b) = nullable a || nullable b
nullable (star a) = true

unfoldable pub derive : Regex → ℕ → Regex
unfolding nullable
derive never c = never
derive empty c = never
derive (one_of p) c = if p c then empty else never
derive (seq a b) c =
    let first = seq (derive a c) b in
    let second = derive b c in if nullable a then alt first second else first
derive (alt a b) c = alt (derive a c) (derive b c)
derive (star a) c = seq (derive a c) (star a)

-- `std::regex_match`: the whole text.
unfoldable pub regex_match : Regex → Text → Bool
unfolding derive nullable
regex_match r [] = nullable r
regex_match r (c ∷ s) = regex_match (derive r c) s

-- Whether some beginning of the text matches.
unfoldable pub match_prefix : Regex → Text → Bool
unfolding derive nullable
match_prefix r [] = nullable r
match_prefix r (c ∷ s) = nullable r || match_prefix (derive r c) s

-- `std::regex_search`: some part of the text.
unfoldable pub regex_search : Regex → Text → Bool
unfolding match_prefix
regex_search r [] = match_prefix r []
regex_search r (c ∷ s) = match_prefix r (c ∷ s) || regex_search r s

-- r{,m}, r{n,n+m} and r+.
unfoldable pub up_to : ℕ → Regex → Regex
up_to zero r = empty
up_to (suc m) r = alt empty (seq r (up_to m r))

unfoldable pub between : ℕ → ℕ → Regex → Regex
unfolding up_to
between zero m r = up_to m r
between (suc n) m r = seq r (between n m r)

abbrev pub plus : Regex → Regex
plus r = seq r (star r)
