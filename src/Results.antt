-- ===== src/Results.antt =====
-- Go's pair of a value and an error, of which one is meant: the value, or an error that is not nil.
use tip_olg_nats_agent_core.Common.{◌≡◌, refl, true, List, [], ◌∷◌, All, arith, if◌then◌else◌}
use tip_olg_nats_agent_core.Errors.{Error, nil, is_nil, to_public_error}

pub data Result {ℓ} (A : Type ℓ) : Type ℓ where
  err : Error → Result A
  ok : A → Result A

-- `if err := e; err != nil { return nil, err }`
abbrev pub check : Error → Result (Unit {0})
check e = if is_nil e then ok tt else err e

-- A call whose error ends the function; its value goes to the rest.
infixl 5 ◌>>=◌ ◌>>◌
abbrev pub ◌>>=◌ {ℓ κ} : {V : Type ℓ} {W : Type κ} → Result V → (V → Result W) → Result W
err e >>= rest = err e
ok value >>= rest = rest value

abbrev pub ◌>>◌ {ℓ} : {W : Type ℓ} → Result (Unit {0}) → Result W → Result W
err e >> rest = err e
ok done >> rest = rest

-- `if err := a; err != nil { return err }; return b`
infixr 6 ◌⨟◌
abbrev pub ◌⨟◌ : Error → Error → Error
a ⨟ b = if is_nil a then b else a

-- A run of checks, each of which returns its error: the first that is not nil.
unfoldable pub first_error : List Error → Error
first_error [] = nil
first_error (e ∷ rest) = let later = first_error rest in if is_nil e then later else e

-- The error of a call is converted at the facade; its value is passed on.
abbrev pub public {ℓ} : {A : Type ℓ} → Result A → Result A
public (ok a) = ok a
public (err e) = err (to_public_error e)

pub is_nil→nil : (e : Error) → is_nil e ≡ true → e ≡ nil
is_nil→nil nil h = refl
is_nil→nil _ h = ground arith

-- The error that a chain of checks returns is nil only if each is.
pub ⨟-nil : (a b : Error) → (a ⨟ b) ≡ nil → (a ≡ nil) × (b ≡ nil)
⨟-nil nil b h = (refl, h)
⨟-nil _ b h = ground arith

-- A check that is passed was at nil, and the rest is what is returned.
pub check-eq-ok {ℓ} :
    {B : Type ℓ} (e : Error) (k : Result B) {b : B} → (check e >> k) ≡ ok b → (e ≡ nil) × (k ≡ ok b)
check-eq-ok nil k h = (refl, h)
check-eq-ok _ k h = (absurd (ground arith), absurd (ground arith))

-- A run of checks passes only if each does.
pub first_error-nil : (es : List Error) → first_error es ≡ nil → All (λ e. e ≡ nil) es
unfolding first_error
first_error-nil [] h = tt
first_error-nil (e ∷ rest) h =
    let (here, later) = ⨟-nil e (first_error rest) h in (here, first_error-nil rest later)
