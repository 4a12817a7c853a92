-- ===== src/UserCenter/Characters.antt =====
-- `checkSpecialCharacter`: the search for its pattern as a scan of the text.
use project_collection.Base.{◌≡◌, ◌↔◌, refl, true, false, not, [], ◌∷◌, All, Bool-cases, inl, inr}
use project_collection.Base.Text.{Text}
use project_collection.Util.Regex.Laws.{all, search-plus}
use project_collection.UserCenter.Service.{is_special, check_special_character}

abbrev pub IsPlain : Text → Type 0
IsPlain = All λ c. is_special c ≡ false

IsPlain-scan : (s : Text) → not (all (λ c. not (is_special c)) s) ≡ false → IsPlain s
IsPlain-scan [] h = tt
IsPlain-scan (c ∷ s) h = elim (Bool-cases (is_special c)) [
  | inl odd ↦ let found : true ≡ false = rw odd at h in cc
  | inr plain ↦ (plain, IsPlain-scan s (rw plain at h))
]

scan_plain : (s : Text) → IsPlain s → not (all (λ c. not (is_special c)) s) ≡ false
scan_plain [] h = refl
scan_plain (c ∷ s) h = rw h.0 (scan_plain s h.1)

-- The test passes a text exactly when none of its bytes is in the class.
pub check_special_character_iff : (s : Text) → (check_special_character s ≡ false) ↔ IsPlain s
unfolding check_special_character
check_special_character_iff s = (
  (λ h. IsPlain-scan s (rw search-plus at h)),
  λ h. rw (search-plus is_special s) (scan_plain s h),
)
