-- ===== src/React/Provider/Registry.antt =====
-- The registry as a Map: what is read after it is set.
use code_runner.Prelude.{
  String, Option, none, some, [], ◌∷◌, ◌++◌, ◌==◌, ◌≡◌, ◌≢◌, refl, ◌⊎◌, inl, inr, arith, eq_iff,
  eq_refl, length, Option-cases, if◌then◌else◌,
}
use code_runner.Prelude.Int.{ℤ}
use code_runner.React.Provider.{Entry, Registry, get, set_refs, update}

-- No key is set twice.
abbrev pub AreDistinct : Registry → Type 0
AreDistinct [] = Unit
AreDistinct ((key, entry) ∷ rest) = (get key rest ≡ none) × AreDistinct rest

abbrev pub appended : String → String → Entry → Option Entry → Option Entry
appended key j e (some found) = some found
appended key j e none = if key == j then some e else none

pub get-append :
    (r : Registry) (key j : String) (e : Entry)
    → get j (r ++ (key, e) ∷ []) ≡ appended key j e (get j r)
get-append [] key j e = refl
get-append ((k, x) ∷ r) key j e = ground (arith, get-append r key j e)

abbrev with_refs : ℤ → Option Entry → Option Entry
with_refs refs none = none
with_refs refs (some e) = some (record e { refs = refs })

pub get-set_refs :
    (r : Registry) (key j : String) (refs : ℤ)
    → get j (set_refs key refs r) ≡ (if key == j then with_refs refs (get j r) else get j r)
get-set_refs [] key j refs = ground arith
get-set_refs ((k, x) ∷ r) key j refs =
    ground (arith, get-set_refs r key j refs, eq_iff k key, eq_iff k j, eq_iff key j)

pub length-set_refs :
    (r : Registry) (key : String) (refs : ℤ) → length (set_refs key refs r) ≡ length r
length-set_refs [] key refs = refl
length-set_refs ((k, x) ∷ r) key refs = ground (arith, length-set_refs r key refs)

pub AreDistinct-set_refs :
    (r : Registry) (key : String) (refs : ℤ) → AreDistinct r → AreDistinct (set_refs key refs r)
AreDistinct-set_refs [] key refs h = tt
AreDistinct-set_refs ((k, x) ∷ r) key refs (new, h) =
    ground (arith, AreDistinct-set_refs r key refs h, get-set_refs r key k refs)

pub AreDistinct-append :
    (r : Registry) (key : String) (e : Entry)
    → get key r ≡ none
    → AreDistinct r
    → AreDistinct (r ++ (key, e) ∷ [])
AreDistinct-append [] key e new h = (refl, tt)
AreDistinct-append ((k, x) ∷ r) key e new (first, h) =
    ground (arith, AreDistinct-append r key e, get-append r key k e, eq_iff k key, eq_iff key k)

pub set_refs-found :
    (r : Registry) (key j : String) (n : ℤ) (d : Entry)
    → get j (set_refs key n r) ≡ some d
    → (d' : Entry) × (get j r ≡ some d') × (d'.pusher ≡ d.pusher)
set_refs-found r key j n d h = elim (Option-cases (get j r)) [
  | inl missing ↦ absurd (ground (arith, get-set_refs r key j n))
  | inr (d', found) ↦ (d', found, ground (arith, get-set_refs r key j n))
]

pub append-found :
    (r : Registry) (key j : String) (e d : Entry)
    → get j (r ++ (key, e) ∷ []) ≡ some d
    → (get j r ≡ some d) ⊎ ((key ≡ j) × (d ≡ e))
append-found r key j e d h = ground (arith, get-append r key j e, eq_iff key j)

pub update_here {ℓ} : {A : Type ℓ} (f : String → A) (key : String) (a : A) → update f key a key ≡ a
update_here f key a = ground (arith, eq_refl key)

pub update_there {ℓ} :
    {A : Type ℓ} (f : String → A) (key k : String) (a : A) → k ≢ key → update f key a k ≡ f k
update_there f key k a away = ground (arith, eq_iff key k)
