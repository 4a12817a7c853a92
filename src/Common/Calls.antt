-- ===== src/Common/Calls.antt =====
-- A C++ call as a state transition that returns or throws. What was written before a throw stays
-- written, so a throw hands the state on too.
use project_collection.Base.{Bool, true, false, ◌≡◌, refl, ◌⊎◌, inl, inr}
use project_collection.Common.Errors.{ErrorKind, business_with, Exception, business}
use project_collection.Base.Text.{Text}

pub data Outcome (A : Type 0) : Type 0 where
  ok : A → Outcome A
  raised : Exception → Outcome A

-- `W` is what the call can read and write.
abbrev pub Action : Type 0 → Type 0 → Type 0
Action W A = W → Outcome A × W

module _ {W A : Type 0} where
  abbrev pub pure : A → Action W A
  pure a w = (ok a, w)

  abbrev pub raise : Exception → Action W A
  raise e w = (raised e, w)

  -- `throw BusinessException(ErrorCode::…, description)`
  abbrev pub throw : ErrorKind → Text → Action W A
  throw k d = raise (business (business_with k d))

  abbrev pub handle : (Exception → Action W A) → Outcome A × W → Outcome A × W
  handle h (ok a, w) = (ok a, w)
  handle h (raised e, w) = h e w

  -- `try { m } catch`: the handler sees the state that the throw left.
  abbrev pub try_catch : Action W A → (Exception → Action W A) → Action W A
  try_catch m h w = handle h (m w)

abbrev pub continue : {W A B : Type 0} → Outcome A × W → (A → Action W B) → Outcome B × W
continue (ok a, w) f = f a w
continue (raised e, w) f = (raised e, w)

infixl 5 ◌>>=◌ ◌>>◌
abbrev pub ◌>>=◌ : {W A B : Type 0} → Action W A → (A → Action W B) → Action W B
◌>>=◌ m f w = continue (m w) f

abbrev pub ◌>>◌ : {W A B : Type 0} → Action W A → Action W B → Action W B
m >> k = m >>= λ _. k

-- `if (c) throw BusinessException(k, d);`
abbrev pub throw_if : {W : Type 0} → Bool → ErrorKind → Text → Action W (Unit {0})
throw_if true k d = throw k d
throw_if false k d = pure tt

-- A call returned or threw.
abbrev pub Ended : {W A : Type 0} → Outcome A × W → Type 0
Ended {W} {A} p =
    ((a : A) × (w : W) × (p ≡ (ok a, w))) ⊎ ((e : Exception) × (w : W) × (p ≡ (raised e, w)))

pub end_of : {W A : Type 0} (p : Outcome A × W) → Ended p
end_of (ok a, w) = inl (a, w, refl)
end_of (raised e, w) = inr (e, w, refl)
