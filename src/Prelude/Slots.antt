-- ===== src/Prelude/Slots.antt =====
-- Code that runs several times at once: slots over one shared state, each at a phase of its own. A
-- step moves one slot, or is one of somebody else's on the shared state.
pub mod Weights
pub mod Sweep
use Prim.Native.Nat.{ℕ, zero, suc, ◌<◌}
use mathlib.Core.Logic.{ite}
use native.Mathlib.Decide.{ℕ_discrete}

abbrev pub place {ℓ} : {P : Type ℓ} → (ℕ → P) → ℕ → P → ℕ → P
place slots i p j = ite (ℕ_discrete i j) p (slots j)

pub record System (S P : Type 0) : Type 0 where
  pub shared : S
  pub slots : ℕ → P

module _ {S P : Type 0} (Move : S → P → S → P → Type 0) (Other : S → S → Type 0) (n : ℕ) where
  -- slots from `n` on never move
  pub data Step (s : System S P) : System S P → Type 0 where
    pick :
        (i : ℕ) {t : S} {p : P}
        → i < n
        → Move s.shared (s.slots i) t p
        → Step s (record { shared = t; slots = place s.slots i p })
    other : {t : S} → Other s.shared t → Step s (record s { shared = t })

  pub data Reach (s : System S P) : System S P → Type 0 where
    start : Reach s s
    later : {t u : System S P} → Reach s t → Step t u → Reach s u

  pub Reach-trans : {s t u : System S P} → Reach s t → Reach t u → Reach s u
  Reach-trans first start = first
  Reach-trans first (later rest step) = later (Reach-trans first rest) step

  pub Reach-invariant :
      (I : System S P → Type 0) {s t : System S P}
      → ((u v : System S P) → Step u v → I u → I v)
      → I s
      → Reach s t
      → I t
  Reach-invariant I keeps h start = h
  Reach-invariant I keeps h (later rest step) = keeps _ _ step (Reach-invariant I keeps h rest)
