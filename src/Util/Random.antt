-- ===== src/Util/Random.antt =====
-- source/utils/RandomUtils.cpp. `rand seed i` is the i-th number that `rand()` returns after
-- `srand(seed)`, which the C standard makes a function of the seed.
use project_collection.Base.{
  ℕ, zero, suc, ◌%◌, ◌≡◌, refl, true, List, [], ◌∷◌, ◌++◌, arith, length, ap, All,
}
use project_collection.Base.Text.{Text, digits, is_digit, digits_one}

-- The loop that fills `vec`.
random_digits : (ℕ → ℕ) → ℕ → ℕ → List ℕ
random_digits next i zero = []
random_digits next i (suc n) = next i % 10 ∷ random_digits next (suc i) n

-- `std::copy` to the stream, with an empty delimiter.
print_all : List ℕ → Text
print_all [] = []
print_all (d ∷ ds) = digits d ++ print_all ds

-- `seconds` is `time()`, cut to an `unsigned` by the call of `srand`.
unfoldable pub get_random_number_str : (ℕ → ℕ → ℕ) → ℕ → ℕ → Text
unfolding random_digits print_all
get_random_number_str rand seconds n =
    print_all (random_digits (rand (seconds % 0x1_0000_0000)) 0 n)

print_digits :
    (next : ℕ → ℕ) (i n : ℕ)
    → (length (print_all (random_digits next i n)) ≡ n)
      × All (λ c. is_digit c ≡ true) (print_all (random_digits next i n))
unfolding random_digits print_all
print_digits next i zero = (refl, tt)
print_digits next i (suc n) =
    let (count, chars) = print_digits next (suc i) n in
    let one = digits_one (next i % 10) (omega arith) in rw one (ap suc count, (ground arith, chars))

-- A random number text of length n has exactly n characters, and each is a decimal digit.
pub get_random_number_str_digits :
    (rand : ℕ → ℕ → ℕ) (seconds n : ℕ)
    → (length (get_random_number_str rand seconds n) ≡ n)
      × All (λ c. is_digit c ≡ true) (get_random_number_str rand seconds n)
unfolding get_random_number_str
get_random_number_str_digits rand seconds n = print_digits (rand (seconds % 0x1_0000_0000)) 0 n
