-- ===== src/Prelude/Slots/Sweep.antt =====
-- A schedule that moves each slot once, from the first to the last.
use Prim.Native.Nat.{ℕ, zero, suc, ◌≤◌, ◌<◌}
use mathlib.Core.Path.{◌≡◌, sym, fun_ext, subst}
use mathlib.Core.Logic.{ite}
use native.Mathlib.Decide.{dec_lt}
use native.Mathlib.Omega.{arith}
use code_runner.Prelude.Slots.{place, pick, Reach, start, later}

-- the slots when the first `n` have moved
abbrev pub swept {ℓ} : {P : Type ℓ} → ℕ → (ℕ → P) → (ℕ → P) → ℕ → P
swept n before after j = ite (dec_lt j n) (after j) (before j)

pub swept_below {ℓ} :
    {P : Type ℓ} (n : ℕ) (before after : ℕ → P) (i : ℕ) → i < n → swept n before after i ≡ after i
swept_below n before after i h = ground arith

swept_at {ℓ} : {P : Type ℓ} (n : ℕ) (before after : ℕ → P) → swept n before after n ≡ before n
swept_at n before after = ground arith

swept_zero {ℓ} : {P : Type ℓ} (before after : ℕ → P) → swept 0 before after ≡ before
swept_zero before after = fun_ext λ j. ground arith

place-swept {ℓ} :
    {P : Type ℓ} (n : ℕ) (before after : ℕ → P)
    → place (swept n before after) n (after n) ≡ swept (suc n) before after
place-swept n before after = fun_ext λ j. ground arith

module _ {S P : Type 0} (Move : S → P → S → P → Type 0) (Other : S → S → Type 0) (n : ℕ) where
  -- Slot `i` finds the shared state as the moves of those in front of it have left it.
  pub sweep :
      (m : ℕ) (before after : ℕ → P) (shared : ℕ → S)
      → m ≤ n
      → ((i : ℕ) → i < n → Move (shared i) (before i) (shared (suc i)) (after i))
      → Reach Move Other n
          (record { shared = shared 0; slots = before })
          (record { shared = shared m; slots = swept m before after })
  sweep zero before after shared h moves =
      subst
        (λ (f : ℕ → P).
          Reach Move Other n (record { shared = shared 0; slots = before })
            (record { shared = shared 0; slots = f }))
        (sym (swept_zero before after)) start
  sweep (suc m) before after shared h moves =
      subst
        (λ (f : ℕ → P).
          Reach Move Other n (record { shared = shared 0; slots = before })
            (record { shared = shared (suc m); slots = f }))
        (place-swept m before after)
        (later (sweep m before after shared (omega arith) moves) (
          pick m (omega arith) (
            subst (λ (p : P). Move (shared m) p (shared (suc m)) (after m))
              (sym (swept_at m before after)) (moves m (omega arith)))))
