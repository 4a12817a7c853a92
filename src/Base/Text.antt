-- ===== src/Base/Text.antt =====
-- Texts as lists of bytes (a literal by `codes`: its characters, which are its bytes where it is ASCII;
-- the other literals are messages, which no code looks into), their comparison, and the decimal texts of
-- `std::to_string` and `atol`.
use project_collection.Base.Tests.{ltb, leb, ◌==◌, if◌then◌else◌, Bool-cases}
use project_collection.Base.Int.{ℤ, pos, negsuc, sub_ℕ}
use Prim.Native.Nat.{ℕ, zero, suc, ◌+◌, ◌-◌, ◌*◌, ◌/◌, ◌%◌, ◌<◌}
use Prim.Native.Char.{code}
use Prim.Native.String.{String}
use mathlib.Core.Path.{◌≡◌, refl, ap, sym, ◌∙◌}
use mathlib.Core.Logic.{◌↔◌, ◌≢◌, inl, inr}
use mathlib.Core.Bool.{Bool, true, false, ◌&&◌, ◌||◌}
use mathlib.Core.List.{List, [], ◌∷◌, ◌++◌, append_assoc, append-nil}
use native.Mathlib.Omega.{arith}

abbrev pub Text : Type 0
Text = List ℕ

-- The code points of a literal. It stays shut where only equality of whole texts matters.
unfoldable pub codes : String → Text
codes String.[] = []
codes (String.◌∷◌ c s) = code c ∷ codes s

unfoldable pub text_eq : Text → Text → Bool
text_eq [] [] = true
text_eq [] (_ ∷ _) = false
text_eq (_ ∷ _) [] = false
text_eq (x ∷ xs) (y ∷ ys) = (x == y) && text_eq xs ys

pub text_eq_sound : (s t : Text) → text_eq s t ≡ true → s ≡ t
unfolding text_eq
text_eq_sound [] [] h = refl
text_eq_sound [] (_ ∷ _) h = cc
text_eq_sound (_ ∷ _) [] h = cc
text_eq_sound (x ∷ xs) (y ∷ ys) h = ground (arith, text_eq_sound xs ys)

pub text_eq_refl : (s : Text) → text_eq s s ≡ true
unfolding text_eq
text_eq_refl [] = refl
text_eq_refl (x ∷ xs) = ground (arith, text_eq_refl xs)

pub text_eq_iff : (s t : Text) → (text_eq s t ≡ true) ↔ (s ≡ t)
text_eq_iff s t = (text_eq_sound s t, λ e. rw e (text_eq_refl t))

pub append_cancel : (p s t : Text) → p ++ s ≡ p ++ t → s ≡ t
append_cancel [] s t h = h
append_cancel (x ∷ p) s t h = append_cancel p s t (ground arith)

abbrev pub is_digit : ℕ → Bool
is_digit c = leb b'0' c && leb c b'9'

-- The decimal digits of a number, the last one split off first.
digits_from : ℕ → ℕ → Text
digits_from zero n = []
digits_from (suc f) n =
    let more = digits_from f (n / 10) ++ (b'0' + n % 10) ∷ [] in
    if ltb n 10 then (b'0' + n) ∷ [] else more

unfoldable pub digits : ℕ → Text
unfolding digits_from
digits n = digits_from (suc n) n

-- The loop of `atol` over the digits: it stops at the first other character.
unfoldable pub digits_value : ℕ → Text → ℕ
digits_value acc [] = acc
digits_value acc (c ∷ s) =
    let more = digits_value (acc * 10 + (c - b'0')) s in if is_digit c then more else acc

div_mod_ten : (n : ℕ) → n / 10 * 10 + (b'0' + n % 10 - b'0') ≡ n
div_mod_ten n = omega arith

digits_value-digits_from :
    (f n : ℕ) (s : Text) → n < f → digits_value 0 (digits_from f n ++ s) ≡ digits_value n s
unfolding digits_from digits_value
digits_value-digits_from zero n s h = elim h [ ]
digits_value-digits_from (suc f) n s h = elim (Bool-cases (ltb n 10)) [
  | inl small ↦ rw small (ground arith)
  | inr large ↦
      rw (large, append_assoc)
        (digits_value-digits_from f (n / 10) ((b'0' + n % 10) ∷ s) (ground arith)
          ∙ ground (arith, ap (λ (k : ℕ). digits_value k s) (div_mod_ten n)))
]

-- Reading the digits of a number gives the number back.
pub digits_value-digits : (n : ℕ) → digits_value 0 (digits n) ≡ n
unfolding digits digits_value
digits_value-digits n =
    ap (digits_value 0) (sym (append-nil (digits n)))
    ∙ digits_value-digits_from (suc n) n [] (omega arith)

unfoldable pub to_string : ℤ → Text
unfolding digits
to_string (pos n) = digits n
to_string (negsuc n) = b'-' ∷ digits (suc n)

-- `isspace` in the C locale.
abbrev pub is_space : ℕ → Bool
is_space c = (c == 32) || (leb 9 c && leb c 13)

-- After the sign.
unfoldable pub signed_value : Text → ℤ
signed_value [] = pos 0
signed_value (c ∷ s) =
    if c == b'-'
    then sub_ℕ 0 (digits_value 0 s)
    else if c == b'+'
    then pos (digits_value 0 s)
    else pos (digits_value 0 (c ∷ s))

-- `atol`: white space is skipped, then a sign and digits are read. Values outside `long` have no
-- defined result in C; here they are the integer that the digits name.
unfoldable pub atol : Text → ℤ
unfolding signed_value
atol [] = pos 0
atol (c ∷ s) = let rest = atol s in if is_space c then rest else signed_value (c ∷ s)

digits_from_head :
    (f n : ℕ) → n < f → (c : ℕ) × (s : Text) × (digits_from f n ≡ c ∷ s) × (is_digit c ≡ true)
unfolding digits_from
digits_from_head zero n h = elim h [ ]
digits_from_head (suc f) n h = elim (Bool-cases (ltb n 10)) [
  | inl small ↦ (b'0' + n, [], rw small refl, ground arith)
  | inr large ↦
      let (c, s, e, d) = digits_from_head f (n / 10) (ground arith) in
      (c, s ++ (b'0' + n % 10) ∷ [], rw (large, e) refl, d)
]

pub digits_head : (n : ℕ) → (c : ℕ) × (s : Text) × (digits n ≡ c ∷ s) × (is_digit c ≡ true)
unfolding digits
digits_head n = digits_from_head (suc n) n (omega arith)

atol_digits : (s : Text) (c : ℕ) → is_digit c ≡ true → atol (c ∷ s) ≡ pos (digits_value 0 (c ∷ s))
unfolding atol
atol_digits s c h = ground arith

-- `atol` reads back what `std::to_string` prints, of either sign.
pub atol-to_string : (z : ℤ) → atol (to_string z) ≡ z
unfolding to_string
atol-to_string (pos n) =
    let (c, s, e, d) = digits_head n in
    let read : digits_value 0 (c ∷ s) ≡ n = rw (← e) (digits_value-digits n) in
    rw e (atol_digits s c d ∙ ap pos read)
atol-to_string (negsuc n) = unfold atol in rw (digits_value-digits (suc n)) (ground arith)

pub to_string-injective : (y z : ℤ) → to_string y ≡ to_string z → y ≡ z
to_string-injective y z e = sym (atol-to_string y) ∙ ap atol e ∙ atol-to_string z

pub digits_one : (d : ℕ) → d < 10 → digits d ≡ (b'0' + d) ∷ []
unfolding digits digits_from
digits_one d h = ground arith

pub text_eq_ne : (s t : Text) → s ≢ t → text_eq s t ≡ false
text_eq_ne s t h = elim (Bool-cases (text_eq s t)) [
  | inl same ↦ absurd (h (text_eq_sound s t same))
  | inr other ↦ other
]

stop_at : (n c : ℕ) (s : Text) → is_digit c ≡ false → digits_value n (c ∷ s) ≡ n
unfolding digits_value
stop_at n c s stop = rw stop refl

digits_before : (n c : ℕ) (s : Text) → is_digit c ≡ false → digits_value 0 (digits n ++ c ∷ s) ≡ n
unfolding digits
digits_before n c s stop =
    digits_value-digits_from (suc n) n (c ∷ s) (omega arith) ∙ stop_at n c s stop

-- A number text reads the same with another text behind it that begins with no digit.
pub atol-to_string_before :
    (z : ℤ) (c : ℕ) (s : Text) → is_digit c ≡ false → atol (to_string z ++ c ∷ s) ≡ z
unfolding to_string digits
atol-to_string_before (pos n) c s stop =
    let (d, ds, e, digit) = digits_head n in
    let read : digits_value 0 (d ∷ (ds ++ c ∷ s)) ≡ n =
      ap (λ t. digits_value 0 (t ++ c ∷ s)) (sym e) ∙ digits_before n c s stop in
    rw e (atol_digits (ds ++ c ∷ s) d digit ∙ ap pos read)
atol-to_string_before (negsuc n) c s stop =
    unfold atol in rw (digits_before (suc n) c s stop) (ground arith)
