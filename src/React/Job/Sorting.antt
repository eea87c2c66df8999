-- ===== src/React/Job/Sorting.antt =====
-- The sorted list of the keys: an increasing list is settled by its members.
use code_runner.Prelude.{
  ℕ, suc, ◌≤◌, Bool, true, false, List, [], ◌∷◌, ◌≡◌, refl, sym, ap, ◌∙◌, arith, ltb, eqb, ◌||◌,
  any, Bool-cases, inl, inr,
}
use mathlib.Core.Path.{subst}
use code_runner.React.Job.{insert, sort}

abbrev pub has : ℕ → List ℕ → Bool
has n xs = any (λ x. eqb x n) xs

-- from a bound on, and each number above the one before it
abbrev pub Increasing : ℕ → List ℕ → Type 0
Increasing lo [] = Unit
Increasing lo (x ∷ xs) = (lo ≤ x) × Increasing (suc x) xs

abbrev pub Distinct : List ℕ → Type 0
Distinct [] = Unit
Distinct (x ∷ xs) = (has x xs ≡ false) × Distinct xs

has-above : (lo k : ℕ) (xs : List ℕ) → Increasing lo xs → has k xs ≡ true → lo ≤ k
has-above lo k [] h e = ground (arith, e)
has-above lo k (x ∷ xs) (h, hs) e = let rest = has-above (suc x) k xs hs in ground (arith, rest)

has-below : (lo k : ℕ) (xs : List ℕ) → Increasing lo xs → suc k ≤ lo → has k xs ≡ false
has-below lo k [] h e = refl
has-below lo k (x ∷ xs) (h, hs) e =
    let rest = has-below (suc x) k xs hs (omega arith) in ground (arith, rest)

tails_agree :
    (x : ℕ) (xs ys : List ℕ)
    → Increasing (suc x) xs
    → Increasing (suc x) ys
    → ((k : ℕ) → has k (x ∷ xs) ≡ has k (x ∷ ys))
    → (k : ℕ) → has k xs ≡ has k ys
tails_agree x xs ys hx hy same k = elim (Bool-cases (eqb x k)) [
  | inl e ↦
      has-below (suc x) k xs hx (ground (arith, e))
      ∙ sym (has-below (suc x) k ys hy (ground (arith, e)))
  | inr e ↦ rw e at (same k)
]

heads_agree :
    (lo x y : ℕ) (xs ys : List ℕ)
    → Increasing lo (x ∷ xs)
    → Increasing lo (y ∷ ys)
    → ((k : ℕ) → has k (x ∷ xs) ≡ has k (y ∷ ys))
    → x ≡ y
heads_agree lo x y xs ys (_, hx) (_, hy) same =
    ground (arith, same x, same y, has-above (suc x) y xs hx, has-above (suc y) x ys hy)

-- Two increasing lists with the same members are the same list.
pub Increasing-unique :
    (lo : ℕ) (xs ys : List ℕ)
    → Increasing lo xs
    → Increasing lo ys
    → ((k : ℕ) → has k xs ≡ has k ys)
    → xs ≡ ys
Increasing-unique lo [] [] hx hy same = refl
Increasing-unique lo [] (y ∷ ys) hx hy same = absurd (ground (arith, same y))
Increasing-unique lo (x ∷ xs) [] hx hy same = absurd (ground (arith, same x))
Increasing-unique lo (x ∷ xs) (y ∷ ys) (h, hx) (k, hy) same =
    let e = heads_agree lo x y xs ys (h, hx) (k, hy) same in
    let hy' = subst (λ (n : ℕ). Increasing (suc n) ys) (sym e) hy in
    let same' = subst (λ (n : ℕ). (j : ℕ) → has j (x ∷ xs) ≡ has j (n ∷ ys)) (sym e) same in
    ap (λ n. n ∷ xs) e
    ∙ ap (λ l. y ∷ l) (Increasing-unique (suc x) xs ys hx hy' (tails_agree x xs ys hx hy' same'))

has-insert : (k n : ℕ) (xs : List ℕ) → has k (insert n xs) ≡ (eqb n k || has k xs)
unfolding insert
has-insert k n [] = refl
has-insert k n (x ∷ xs) = let rest = has-insert k n xs in ground (arith, rest)

pub has-sort : (k : ℕ) (xs : List ℕ) → has k (sort xs) ≡ has k xs
unfolding sort
has-sort k [] = refl
has-sort k (x ∷ xs) = has-insert k x (sort xs) ∙ ap (λ b. eqb x k || b) (has-sort k xs)

insert-Increasing :
    (lo n : ℕ) (xs : List ℕ)
    → lo ≤ n
    → has n xs ≡ false
    → Increasing lo xs
    → Increasing lo (insert n xs)
unfolding insert
insert-Increasing lo n [] h apart hx = (h, tt)
insert-Increasing lo n (x ∷ xs) h apart (hx, hs) = elim (Bool-cases (ltb n x)) [
  | inl before ↦ rw before (h, (ground arith, hs))
  | inr behind ↦ rw behind (hx, insert-Increasing (suc x) n xs (ground arith) (ground arith) hs)
]

pub sort-Increasing : (xs : List ℕ) → Distinct xs → Increasing 0 (sort xs)
unfolding sort
sort-Increasing [] h = tt
sort-Increasing (x ∷ xs) (apart, h) =
    insert-Increasing 0 x (sort xs) (omega arith) (has-sort x xs ∙ apart) (sort-Increasing xs h)
