-- ===== src/Util/Strings/Suffix.antt =====
-- The suffix of a file name.
use project_collection.Base.{
  ℕ, suc, ◌+◌, ◌≡◌, refl, ◌∙◌, ap, true, false, ◌==◌, [], ◌∷◌, ◌++◌, none, some, drop, arith,
  length,
}
use project_collection.Base.Text.{Text}
use project_collection.Util.Strings.{contains, find_last_of, get_file_suffix}

no_dot : (d : ℕ) (b : Text) → contains d b ≡ false → find_last_of d b ≡ none
unfolding find_last_of
no_dot d [] h = refl
no_dot d (c ∷ b) h =
    let rest : contains d b ≡ false = ground arith in
    let other : (c == d) ≡ false = ground arith in rw (no_dot d b rest, other) refl

dot_at : (d : ℕ) (a b : Text) → contains d b ≡ false → find_last_of d (a ++ d ∷ b) ≡ some (length a)
unfolding find_last_of
dot_at d [] b h = let same : (d == d) ≡ true = ground arith in rw (no_dot d b h, same) refl
dot_at d (c ∷ a) b h = rw (dot_at d a b h) refl

suc_first : (n : ℕ) → suc n + 1 ≡ suc (n + 1)
suc_first n = omega arith

drop_through : (d : ℕ) (a b : Text) → drop (length a + 1) (a ++ d ∷ b) ≡ b
drop_through d [] b = refl
drop_through d (c ∷ a) b =
    ap (λ n. drop n (c ∷ (a ++ d ∷ b))) (suc_first (length a)) ∙ drop_through d a b

-- The suffix of a name is what stands behind its last dot.
pub get_file_suffix_lem :
    (a b : Text) → contains b'.' b ≡ false → get_file_suffix (a ++ b'.' ∷ b) ≡ b
unfolding get_file_suffix
get_file_suffix_lem [] b h = rw (dot_at b'.' [] b h) (drop_through b'.' [] b)
get_file_suffix_lem (c ∷ a) b h = rw (dot_at b'.' (c ∷ a) b h) (drop_through b'.' (c ∷ a) b)
