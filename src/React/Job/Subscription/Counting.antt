-- ===== src/React/Job/Subscription/Counting.antt =====
-- Open pulls, counted by the run of the effect that asked for them.
use code_runner.Prelude.{
  ℕ, suc, ◌-◌, ◌<◌, false, List, [], ◌∷◌, ◌≡◌, refl, All, eqb, ltb, inl, inr, Bool-cases, arith,
  if◌then◌else◌,
}
use code_runner.React.Job.Subscription.{one_of, remove_one}

abbrev pub count : ℕ → List ℕ → ℕ
count n [] = 0
count n (k ∷ ns) = if eqb k n then suc (count n ns) else count n ns

abbrev pub Earlier : ℕ → List ℕ → Type 0
Earlier n ns = All (λ k. k < n) ns

pub one_of-count : (n : ℕ) (ns : List ℕ) → one_of n ns ≡ ltb 0 (count n ns)
one_of-count n [] = refl
one_of-count n (k ∷ ns) = ground (arith, one_of-count n ns)

pub count-remove_one : (n : ℕ) (ns : List ℕ) → count n (remove_one n ns) ≡ count n ns - 1
count-remove_one n [] = refl
count-remove_one n (k ∷ ns) = ground (arith, count-remove_one n ns)

pub count-remove_other :
    (n m : ℕ) (ns : List ℕ) → eqb m n ≡ false → count m (remove_one n ns) ≡ count m ns
count-remove_other n m [] h = refl
count-remove_other n m (k ∷ ns) h = ground (arith, count-remove_other n m ns)

pub Earlier-remove_one : (m n : ℕ) (ns : List ℕ) → Earlier m ns → Earlier m (remove_one n ns)
Earlier-remove_one m n [] h = tt
Earlier-remove_one m n (k ∷ ns) h = elim (Bool-cases (eqb k n)) [
  | inl hit ↦ rw hit h.1
  | inr miss ↦ rw miss (h.0, Earlier-remove_one m n ns h.1)
]

pub Earlier-suc : (m : ℕ) (ns : List ℕ) → Earlier m ns → Earlier (suc m) ns
Earlier-suc m [] h = tt
Earlier-suc m (k ∷ ns) h = (omega (arith, h.0), Earlier-suc m ns h.1)

pub count-Earlier : (m : ℕ) (ns : List ℕ) → Earlier m ns → count m ns ≡ 0
count-Earlier m [] h = refl
count-Earlier m (k ∷ ns) h = ground (arith, h.0, count-Earlier m ns h.1)
