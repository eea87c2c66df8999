-- ===== src/Prelude/State.antt =====
-- Code that reads and changes a state: an `async` function, from the state before to its result and
-- the state after.
abbrev pub State {ℓ κ} : Type ℓ → Type κ → Type (ℓ ⊔ κ)
State S A = S → A × S

infixl 5 ◌>>=◌ ◌>>◌
abbrev pub ◌>>=◌ {ℓ κ μ} :
    {S : Type ℓ} {A : Type κ} {B : Type μ} → State S A → (A → State S B) → State S B
◌>>=◌ m f s = f (m s).0 (m s).1

abbrev pub ◌>>◌ {ℓ κ μ} : {S : Type ℓ} {A : Type κ} {B : Type μ} → State S A → State S B → State S B
◌>>◌ m k s = k (m s).1

abbrev pub pure {ℓ κ} : {S : Type ℓ} {A : Type κ} → A → State S A
pure a s = (a, s)

-- a command with no result that matters
abbrev pub run {ℓ} : {S : Type ℓ} → (S → S) → State S (Unit {0})
run f s = (tt, f s)

-- a command that only reads
abbrev pub gets {ℓ κ} : {S : Type ℓ} {A : Type κ} → (S → A) → State S A
gets f s = (f s, s)
