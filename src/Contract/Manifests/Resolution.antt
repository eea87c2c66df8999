-- ===== src/Contract/Manifests/Resolution.antt =====
-- The resolution of a language, against a search in one pass.
use code_runner.Prelude.{
  String, Bool, true, ◌&&◌, Option, none, some, List, [], ◌∷◌, ◌==◌, ◌≡◌, refl, arith, filter, find,
}
use mathlib.Core.Path.{subst}
use code_runner.Prelude.Result.{Result, ok, err}
use code_runner.Contract.Wire.{Manifest}
use code_runner.Contract.Manifests.{answers_to, pick, resolve_manifest}

-- Whether a manifest has the version, if one is asked for.
abbrev pub has_version : Option String → Manifest → Bool
has_version none m = true
has_version (some version) m = m.version == version

abbrev pub is_asked_for : String → Option String → Manifest → Bool
is_asked_for language version m = answers_to language m && has_version version m

-- A resolution and a search that find the same manifest, or both none.
abbrev pub Agree : Result String Manifest → Option Manifest → Type 0
Agree (ok m) (some n) = m ≡ n
Agree (ok m) none = ⊥
Agree (err e) (some n) = ⊥
Agree (err e) none = Unit

find-filter :
    (p q : Manifest → Bool) (ms : List Manifest) → find q (filter p ms) ≡ find (λ m. p m && q m) ms
find-filter p q [] = refl
find-filter p q (m ∷ ms) = let rest = find-filter p q ms in ground (arith, rest)

pick-find :
    (language : String) (version : Option String) (ms : List Manifest)
    → Agree (pick language version ms) (find (has_version version) ms)
unfolding pick
pick-find language none [] = tt
pick-find language (some version) [] = tt
pick-find language none (m ∷ ms) = refl
pick-find language (some version) (m ∷ ms) = go (find (has_version (some version)) (m ∷ ms)) refl
  where
    go :
        (o : Option Manifest)
        → find (has_version (some version)) (m ∷ ms) ≡ o
        → Agree (pick language (some version) (m ∷ ms)) (find (has_version (some version)) (m ∷ ms))
    go none e = rw (e, pick) tt
    go (some found) e = rw (e, pick) refl

-- The resolution finds the first manifest in the list that has the language for its name or for an
-- alias and, where a version is given, that version; it fails exactly when there is none. Without a
-- version it is the first of the list, which need not be the most recent that the documentation names.
pub resolve_manifest-find :
    (manifests : List Manifest) (language : String) (version : Option String)
    → Agree
        (resolve_manifest manifests language version)
        (find (is_asked_for language version) manifests)
unfolding resolve_manifest
resolve_manifest-find manifests language version =
    subst (Agree (resolve_manifest manifests language version))
      (find-filter (answers_to language) (has_version version) manifests)
      (pick-find language version (filter (answers_to language) manifests))
