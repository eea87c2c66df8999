-- ===== src/Api/Files/Paths.antt =====
-- The workspace paths that `sanitizeWorkspacePath` lets through.
use Prim.Native.String.{◌++◌}
use text.Mathlib.TextLemmas.{nil-append, cons-append, append-eq-nil_iff}
use text.Mathlib.TextEquality.{starts_with_iff}
use code_runner.Prelude.{
  String, false, List, [], ◌∷◌, ◌≡◌, ◌≢◌, refl, sym, ap, ◌∙◌, arith, eq_iff, split, join, any,
  filter, All, All-map, starts_with, Bool-cases, inl, inr,
}
use code_runner.Prelude.Splitting.{
  LacksSeparator, split-LacksSeparator, split-join, split-separator,
}
use code_runner.Prelude.Result.{ok}
use code_runner.Api.Files.{is_dots, is_kept, cleaned, sanitize_workspace_path}

-- A segment that names an entry of the directory it stands in.
abbrev pub IsSafe : String → Type 0
IsSafe seg = (seg ≢ "") × (seg ≢ ".") × (seg ≢ "..") × LacksSeparator b'/' seg

abbrev pub NotDots : String → Type 0
NotDots seg = seg ≢ ".."

filter-IsSafe :
    (segs : List String)
    → any is_dots segs ≡ false
    → All (LacksSeparator b'/') segs
    → All IsSafe (filter is_kept segs)
unfolding is_dots is_kept
filter-IsSafe [] h k = tt
filter-IsSafe (s ∷ segs) h (k, ks) =
    ground (arith, filter-IsSafe segs, eq_iff s "", eq_iff s ".", eq_iff s "..")

filter_safe : (segs : List String) → All IsSafe segs → filter is_kept segs ≡ segs
unfolding is_kept
filter_safe [] h = refl
filter_safe (s ∷ segs) (p, h) = ground (arith, filter_safe segs h, eq_iff s "", eq_iff s ".")

no_dots : (segs : List String) → All IsSafe segs → any is_dots segs ≡ false
unfolding is_dots
no_dots [] h = refl
no_dots (s ∷ segs) (p, h) = ground (arith, no_dots segs h, eq_iff s "..")

-- The name in full of what was accepted.
sanitize-ok :
    (name rel : String)
    → sanitize_workspace_path name ≡ ok rel
    → (any is_dots (split b'/' name) ≡ false)
      × (cleaned name ≡ rel)
      × (rel ≢ "")
      × (name ≢ "")
      × (starts_with name "/" ≡ false)
unfolding sanitize_workspace_path
sanitize-ok name rel h = ground (arith, eq_iff name "", eq_iff (cleaned name) "")

-- An accepted name comes out as safe segments, at least one of them, joined by slashes: it is
-- relative, and no segment is empty, "." or ".." or holds a slash.
pub sanitize_workspace_path-IsSafe :
    (name rel : String)
    → sanitize_workspace_path name ≡ ok rel
    → (segs : List String) × (rel ≡ join "/" segs) × (segs ≢ []) × All IsSafe segs
unfolding cleaned join
sanitize_workspace_path-IsSafe name rel h =
    let (dots, same, some_left, _, _) = sanitize-ok name rel h in
    let segs = filter is_kept (split b'/' name) in
    (
      segs,
      sym same,
      (λ e. some_left (sym same ∙ ap (join "/") e)),
      filter-IsSafe (split b'/' name) dots (split-LacksSeparator b'/' name),
    )

join-ne-nil : (segs : List String) → All IsSafe segs → segs ≢ [] → join "/" segs ≢ ""
unfolding join
join-ne-nil [] h k e = k refl
join-ne-nil (x ∷ []) (p, _) k e = p.0 e
join-ne-nil (x ∷ y ∷ ys) (p, _) k e = p.0 ((append-eq-nil_iff {p = x}).0 e).0

split-join_safe :
    (segs : List String) → All IsSafe segs → segs ≢ [] → split b'/' (join "/" segs) ≡ segs
split-join_safe [] h k = absurd (k refl)
split-join_safe (x ∷ xs) h k =
    split-join b'/' "/" x xs refl (All-map IsSafe (LacksSeparator b'/') (λ s p. p.3) (x ∷ xs) h)

head-ne-nil : (s : String) (segs : List String) → All IsSafe segs → ("" ∷ split b'/' s) ≢ segs
head-ne-nil s [] h e = cc
head-ne-nil s (x ∷ xs) (p, _) e = p.0 (ground arith)

slash_then : (s : String) → "/" ++ s ≡ String.◌∷◌ "/" s
slash_then s = cons-append "/" String.[] s ∙ ap (String.◌∷◌ "/") (nil-append s)

not_absolute :
    (segs : List String) → All IsSafe segs → segs ≢ [] → starts_with (join "/" segs) "/" ≡ false
not_absolute segs h k = elim (Bool-cases (starts_with (join "/" segs) "/")) [
  | inl yes_it_is ↦
      let (rest, same) = (starts_with_iff (join "/" segs) "/").0 yes_it_is in
      absurd (
        head-ne-nil rest segs h (
          sym (split-separator b'/' "/" rest refl)
          ∙ ap (split b'/') (sym (slash_then rest) ∙ same)
          ∙ split-join_safe segs h k))
  | inr relative ↦ relative
]

-- Every path of safe segments, at least one of them, is accepted and comes out unchanged.
pub sanitize_workspace_path_of_IsSafe :
    (segs : List String)
    → All IsSafe segs
    → segs ≢ []
    → sanitize_workspace_path (join "/" segs) ≡ ok (join "/" segs)
unfolding sanitize_workspace_path cleaned
sanitize_workspace_path_of_IsSafe segs h k =
    let parts = split-join_safe segs h k in
    let dots : any is_dots (split b'/' (join "/" segs)) ≡ false = rw parts (no_dots segs h) in
    let same : filter is_kept (split b'/' (join "/" segs)) ≡ segs = rw parts (filter_safe segs h) in
    ground (
      arith,
      dots,
      ap (join "/") same,
      not_absolute segs h k,
      join-ne-nil segs h k,
      eq_iff (join "/" segs) "",
      eq_iff (cleaned (join "/" segs)) "",
    )
