-- ===== src/Util/Patterns/Meaning.antt =====
-- What the `…Invalid` functions accept: each is true exactly for the valid texts.
use project_collection.Base.{
  ℕ, ◌+◌, ◌≤◌, ◌≡◌, ◌↔◌, Bool, true, false, ◌&&◌, ◌||◌, ◌==◌, [], ◌∷◌, arith, length, leb,
}
use project_collection.Base.Text.{Text, is_digit}
use project_collection.Util.Regex.{Regex, one_of, seq, alt, between, regex_match}
use project_collection.Util.Regex.Laws.{all, match-seq_one_of, match-seq_or, match-between}
use project_collection.Util.Patterns.{
  char, is_word, is_alphanumeric, phone_regex, password_regex, verify_code_regex, is_phone_invalid,
  is_password_invalid, is_verify_code_invalid,
}

distribute : (x y z r : Bool) → ((x && r) || ((y && r) || (z && r))) ≡ ((x || y || z) && r)
distribute x y z r = ground arith

regroup : (a b c d e : Bool) → (a && (b && (c && d && e))) ≡ (a && b && c && d && e)
regroup a b c d e = ground arith

-- A mobile number: 1, then 3, 5 or 8, then nine digits.
abbrev pub IsPhone : Text → Type 0
IsPhone phone =
    (d : ℕ) × (rest : Text) × (phone ≡ b'1' ∷ d ∷ rest)
    × (((d == b'3') || (d == b'5') || (d == b'8')) ≡ true)
    × (length rest ≡ 9)
    × (all is_digit rest ≡ true)

-- The group (3|5|8) in front of an expression.
group_test :
    (r : Regex) (d : ℕ) (rest : Text)
    → regex_match (seq (alt (char b'3') (alt (char b'5') (char b'8'))) r) (d ∷ rest)
      ≡ (((d == b'3') || (d == b'5') || (d == b'8')) && regex_match r rest)
group_test r d rest =
    rw
      (
        match-seq_or (char b'3') (alt (char b'5') (char b'8')) r (d ∷ rest),
        match-seq_or (char b'5') (char b'8') r (d ∷ rest),
        match-seq_one_of (λ x. x == b'3') r d rest,
        match-seq_one_of (λ x. x == b'5') r d rest,
        match-seq_one_of (λ x. x == b'8') r d rest,
      )
      (distribute (d == b'3') (d == b'5') (d == b'8') (regex_match r rest))

phone_test :
    (c d : ℕ) (rest : Text)
    → is_phone_invalid (c ∷ d ∷ rest) ≡ (
        (c == b'1')
        && ((d == b'3') || (d == b'5') || (d == b'8'))
        && leb 9 (length rest)
        && leb (length rest) (9 + 0)
        && all is_digit rest)
unfolding is_phone_invalid phone_regex
phone_test c d rest =
    let r = between 9 0 (one_of is_digit) in
    rw
      (
        match-seq_one_of (λ x. x == b'1') (seq (alt (char b'3') (alt (char b'5') (char b'8'))) r) c
            (d ∷ rest),
        group_test r d rest,
        match-between is_digit 9 0 rest,
      )
      (regroup (c == b'1') ((d == b'3') || (d == b'5') || (d == b'8')) (leb 9 (length rest))
        (leb (length rest) (9 + 0)) (all is_digit rest))

too_short : (c : ℕ) → is_phone_invalid (c ∷ []) ≡ false
unfolding is_phone_invalid phone_regex regex_match
too_short c = ground arith

-- The check of a phone number is true for the numbers of that form and for no other text.
pub is_phone_invalid_lem : (phone : Text) → (is_phone_invalid phone ≡ true) ↔ IsPhone phone
is_phone_invalid_lem phone = (to phone, from)
  where
    to : (phone : Text) → is_phone_invalid phone ≡ true → IsPhone phone
    to [] h = unfold is_phone_invalid phone_regex regex_match in cc
    to (c ∷ []) h = cc (too_short c)
    to (c ∷ d ∷ rest) h =
        let k = rw (phone_test c d rest) at h in
        (d, rest, ground arith, ground arith, ground arith, ground arith)

    from : IsPhone phone → is_phone_invalid phone ≡ true
    from (d, rest, e, second, nine, digits) = rw (e, phone_test b'1' d rest, second, nine, digits)

-- The check of a password is true exactly for four to 32 letters, digits and underscores.
pub is_password_invalid_lem :
    (s : Text)
    → (is_password_invalid s ≡ true) ↔ ((4 ≤ length s) × (length s ≤ 32) × (all is_word s ≡ true))
unfolding is_password_invalid password_regex
is_password_invalid_lem s = rw (match-between is_word 4 28 s) (ground arith)

-- The check of a verification code is true exactly for six letters and digits.
pub is_verify_code_invalid_lem :
    (s : Text)
    → (is_verify_code_invalid s ≡ true) ↔ ((length s ≡ 6) × (all is_alphanumeric s ≡ true))
unfolding is_verify_code_invalid verify_code_regex
is_verify_code_invalid_lem s = rw (match-between is_alphanumeric 6 0 s) (ground arith)
