-- ===== src/Api/Blobs/Typed.antt =====
-- The answers of the blob handshake against the schemas of the contract.
use code_runner.Prelude.{
  ℕ, ◌<◌, String, Bool, true, ◌&&◌, Option, some, List, [], ◌∷◌, ◌≡◌, refl, sym, ap, ◌∙◌, all, map,
  filter, arith, Bool-cases, inl, inr,
}
use code_runner.Prelude.Json
use code_runner.Prelude.Json.{Json, str, arr, obj, field, end}
use code_runner.Redis.{Redis}
use code_runner.Contract.{BlobUpload, BlobCheckResponse}
use code_runner.Api.Http.{valid}
use code_runner.Api.Files.{ref_re}
use code_runner.Api.Blobs.{has, upload_json, check_json, finalize_json}
use code_runner.Api.Blobs.Handshake.{
  fresh, check, finalize, blobs_check-sorted_out, blobs_finalize-blobs_check,
}
use code_runner.Schemas.{
  text, blob_check_request_schema, blob_upload_schema, blob_check_response_schema,
  blob_finalize_response_schema,
}
use code_runner.Schemas.Zod
use code_runner.Schemas.Zod.{Schema, Need, pattern, verdict, verdict-some, parse_need, IsZod}
use code_runner.Schemas.Zod.Rows.{◌&◌, parse_rows, parse_array}
use code_runner.Schemas.Fit.{row}
use code_runner.Schemas.Values.{given_value, text_fits}

abbrev pub hashes_json : List String → Json
hashes_json hashes = obj (field "hashes" (arr (Json.array str hashes)) end)

all-fresh :
    (p : String → Bool) (seen hashes : List String)
    → all p hashes ≡ true
    → all p (fresh seen hashes) ≡ true
all-fresh p seen [] h = refl
all-fresh p seen (x ∷ xs) h = elim (Bool-cases (has x seen)) [
  | inl old ↦ rw (old, fresh) (all-fresh p seen xs (ground (arith, h)))
  | inr new ↦ rw (new, fresh) (ground (arith, h, all-fresh p (x ∷ seen) xs))
]

all-filter :
    {A : Type 0} (p q : A → Bool) (xs : List A) → all p xs ≡ true → all p (filter q xs) ≡ true
all-filter p q [] h = refl
all-filter p q (x ∷ xs) h = ground (arith, h, all-filter p q xs)

abbrev upload_fits : BlobUpload → Bool
upload_fits u = ref_re u.hash

all-upload_fits :
    (url : String → String) (hashes : List String)
    → all upload_fits (map (λ h. record { hash = h; upload_url = url h }) hashes)
      ≡ all ref_re hashes
all-upload_fits url [] = refl
all-upload_fits url (h ∷ hs) = ap (λ b. ref_re h && b) (all-upload_fits url hs)

module _ (parse : Schema → Json → Option Json) (zod : IsZod parse) where
  refs_fit :
      (hashes : List String)
      → parse (Zod.array (pattern ref_re) 0) (arr (Json.array str hashes))
        ≡ verdict (all ref_re hashes) (arr (Json.array str hashes))
  refs_fit hashes =
      parse_array parse zod (pattern ref_re) 0 str str ref_re hashes (zod.pattern_law ref_re)
      ∙ ground arith

  one_array :
      (k : String) (s : Schema) (v : Json) (fits : Bool)
      → parse s v ≡ verdict fits v
      → parse (Zod.object (Zod.property k Need.required s Zod.no_more)) (obj (field k v end))
        ≡ verdict fits (obj (field k v end))
  one_array k s v fits h =
      parse_rows parse zod (row k Need.required s v fits ∷ []) refl
        (given_value parse zod Need.required s v fits h & tt)
      ∙ ground arith

  upload_parse :
      (u : BlobUpload)
      → parse blob_upload_schema (upload_json u) ≡ verdict (upload_fits u) (upload_json u)
  unfolding upload_json
  upload_parse u =
      parse_rows parse zod
        (row "hash" Need.required (pattern ref_re) (str u.hash) (ref_re u.hash)
          ∷ row "uploadUrl" Need.required text (str u.upload_url) true
          ∷ [])
        refl
        (given_value parse zod Need.required _ _ _ (zod.pattern_law ref_re u.hash)
          & given_value parse zod Need.required _ _ true (text_fits parse zod u.upload_url)
          & tt)
      ∙ ground arith

  check_parse :
      (c : BlobCheckResponse)
      → all upload_fits c.missing ≡ true
      → all ref_re c.present ≡ true
      → parse blob_check_response_schema (check_json c) ≡ some (check_json c)
  unfolding check_json
  check_parse c h k =
      parse_rows parse zod
        (row "missing" Need.required (Zod.array blob_upload_schema 0)
            (arr (Json.array upload_json c.missing)) (all upload_fits c.missing)
          ∷ row "present" Need.required (Zod.array (pattern ref_re) 0)
              (arr (Json.array str c.present)) (all ref_re c.present)
          ∷ [])
        refl
        (given_value parse zod Need.required _ _ _ (
            parse_array parse zod blob_upload_schema 0 upload_json upload_json upload_fits c.missing
              upload_parse
            ∙ ground arith)
          & given_value parse zod Need.required _ _ _ (refs_fit c.present)
          & tt)
      ∙ ground (arith, h, k)

module _ (parse : Schema → Json → Option Json) (zod : IsZod parse) (r : Redis)
    (presign : String → ℕ → String) (idle upload created_ms : ℕ) (lives : 0 < idle) where
  -- With a blob store and a positive idle time: hashes that pass BlobCheckRequestSchema are answered
  -- with bodies that pass BlobCheckResponseSchema and BlobFinalizeResponseSchema unchanged.
  pub handshake-IsTyped :
      (hashes : List String) (d : Redis.Db r)
      → parse blob_check_request_schema (hashes_json hashes) ≡ some (hashes_json hashes)
      → let checked = (check r presign true idle upload created_ms lives (valid hashes) d).0.body in
        let finalized =
          (finalize r presign true idle upload created_ms lives (valid hashes) d).0.body in
        (parse blob_check_response_schema checked ≡ some checked)
        × (parse blob_finalize_response_schema finalized ≡ some finalized)
  unfolding finalize_json
  handshake-IsTyped hashes d sent =
      let fit : all ref_re hashes ≡ true =
        verdict-some _ _ _
          (sym (one_array parse zod "hashes" _ _ _ (refs_fit parse zod hashes)) ∙ sent) in
      let once = all-fresh ref_re [] hashes fit in
      let listed =
        ((blobs_check-sorted_out r presign true idle upload created_ms lives hashes [] d).0
          refl).0 in
      let done =
        (blobs_finalize-blobs_check r presign true idle upload created_ms lives hashes d refl).0 in
      (
        rw (ap (λ o. o.body) listed) (
            check_parse parse zod _
              (all-upload_fits (λ h. presign h upload) _ ∙ all-filter ref_re _ _ once)
              (all-filter ref_re _ _ once)),
        rw (ap (λ o. o.body) done) (
            one_array parse zod "finalized" _ _ _ (refs_fit parse zod (fresh [] hashes)) ∙ rw once),
      )
