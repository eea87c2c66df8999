-- ===== src/Api/Blobs/Filled.antt =====
-- The three writes of the touch script in front of PTTL, as they change the keyspace.
use code_runner.Prelude.{
  String, true, false, some, List, [], ◌∷◌, ◌≡◌, ◌≢◌, refl, ap, ◌∙◌, arith, eq_iff, eq_refl, ◌==◌,
  or_default,
}
use code_runner.Keyspace
use code_runner.Keyspace.{Keyspace}
use code_runner.Contract.{blob_meta, blob_index}

-- the keyspace after the three writes in front of PTTL
abbrev pub filled : String → String → String → Keyspace → Keyspace
filled hash size created s =
    Keyspace.hsetnx (blob_meta hash) "createdAtMs" created
      (Keyspace.hsetnx (blob_meta hash) "size" size (Keyspace.sadd blob_index hash s))

fields-nonempty :
    (f v : String) (l : List (String × String))
    → Keyspace.is_nonempty (Keyspace.hsetnx_fields f v (Keyspace.field? f l) l) ≡ true
fields-nonempty f v [] = refl
fields-nonempty f v ((g, w) ∷ l) = ground arith

fields_self :
    (f v : String) (l : List (String × String))
    → Keyspace.field? f (Keyspace.hsetnx_fields f v (Keyspace.field? f l) l)
      ≡ some (or_default (Keyspace.field? f l) v)
fields_self f v l = ground (arith, eq_refl f)

fields_other :
    (f g v : String) (l : List (String × String))
    → (f == g) ≡ false
    → Keyspace.field? g (Keyspace.hsetnx_fields f v (Keyspace.field? f l) l) ≡ Keyspace.field? g l
fields_other f g v l h = ground arith

abbrev sized_fields : String → List (String × String) → List (String × String)
sized_fields size l = Keyspace.hsetnx_fields "size" size (Keyspace.field? "size" l) l

-- the fields of the blob after the writes
unfoldable pub filled_fields : String → String → List (String × String) → List (String × String)
filled_fields size created l =
    Keyspace.hsetnx_fields "createdAtMs" created
      (Keyspace.field? "createdAtMs" (sized_fields size l)) (sized_fields size l)

pub hashes-filled :
    (hash size created : String) (s : Keyspace)
    → (filled hash size created s).hashes (blob_meta hash)
      ≡ filled_fields size created (s.hashes (blob_meta hash))
unfolding filled_fields
hashes-filled hash size created s = ground (arith, eq_refl (blob_meta hash))

pub hashes-filled_ne :
    (hash size created : String) (s : Keyspace) (k : String)
    → k ≢ blob_meta hash
    → (filled hash size created s).hashes k ≡ s.hashes k
hashes-filled_ne hash size created s k h = ground (arith, eq_iff (blob_meta hash) k)

pub created-filled :
    (size created : String) (l : List (String × String))
    → Keyspace.field? "createdAtMs" (filled_fields size created l)
      ≡ some (or_default (Keyspace.field? "createdAtMs" l) created)
unfolding filled_fields
created-filled size created l =
    fields_self "createdAtMs" created (sized_fields size l)
    ∙ ap (λ o. some (or_default o created)) (fields_other "size" "createdAtMs" size l refl)

pub size-filled :
    (size created : String) (l : List (String × String))
    → Keyspace.field? "size" (filled_fields size created l)
      ≡ some (or_default (Keyspace.field? "size" l) size)
unfolding filled_fields
size-filled size created l =
    fields_other "createdAtMs" "size" created (sized_fields size l) refl ∙ fields_self "size" size l

nonempty-filled :
    (size created : String) (l : List (String × String))
    → Keyspace.is_nonempty (filled_fields size created l) ≡ true
unfolding filled_fields
nonempty-filled size created l = fields-nonempty "createdAtMs" created (sized_fields size l)

exists_of_fields :
    (k : String) (s : Keyspace)
    → Keyspace.is_nonempty (s.hashes k) ≡ true
    → Keyspace.exists k s ≡ true
exists_of_fields k s h = ground arith

pub exists-filled :
    (hash size created : String) (s : Keyspace)
    → Keyspace.exists (blob_meta hash) (filled hash size created s) ≡ true
exists-filled hash size created s =
    exists_of_fields (blob_meta hash) (filled hash size created s)
      (rw (hashes-filled hash size created s) (nonempty-filled size created _))

pub exists_same :
    (k : String) (s t : Keyspace)
    → t.strings ≡ s.strings
    → t.hashes k ≡ s.hashes k
    → t.lists ≡ s.lists
    → t.sets k ≡ s.sets k
    → Keyspace.exists k t ≡ Keyspace.exists k s
exists_same k s t e h l m = rw (e, h, l, m) refl

pub contains-with_member_self :
    (v : String) (l : List String) → Keyspace.contains v (Keyspace.with_member v l) ≡ true
contains-with_member_self v l = ground (arith, eq_refl v)

pub contains-with_member_ne :
    (v h : String) (l : List String)
    → h ≢ v
    → Keyspace.contains h (Keyspace.with_member v l) ≡ Keyspace.contains h l
contains-with_member_ne v h l apart = ground (arith, eq_iff v h)

pub set-filled :
    (hash size created : String) (s : Keyspace)
    → (filled hash size created s).sets blob_index ≡ Keyspace.with_member hash (s.sets blob_index)
set-filled hash size created s = ground (arith, eq_refl blob_index)

pub sets-filled_ne :
    (hash size created : String) (s : Keyspace) (k : String)
    → k ≢ blob_index
    → (filled hash size created s).sets k ≡ s.sets k
sets-filled_ne hash size created s k h = ground (arith, eq_iff blob_index k)
