-- ===== src/Api/Blobs/Handshake.antt =====
-- The two loops of the handshake: what is reported missing and present, and that a finalized blob is
-- found by the next check.
use code_runner.Prelude.{
  ℕ, ◌*◌, ◌<◌, String, Bool, true, false, not, List, [], ◌∷◌, map, ◌≡◌, refl, sym, ap, ◌∙◌, fun_ext,
  arith, eq_iff, ◌==◌, Bool-cases, inl, inr, filter, All, if◌then◌else◌, show,
}
use code_runner.Keyspace
use code_runner.Keyspace.{Keyspace}
use code_runner.Redis.{Redis}
use code_runner.Contract.{BlobUpload, BlobCheckResponse, blob_meta}
use code_runner.Contract.Keys.{blob_meta-ne-index}
use code_runner.Api.Http.{Response, Issue, Validated, invalid, valid, validation_error}
use code_runner.Api.Blobs.{
  has, touch_now, check_one, check_from, blobs_check, finalize_from, blobs_finalize, check_json,
  finalize_json, not_configured, add_missing, add_present,
}
use code_runner.Api.Blobs.Touch.{IsTouched, touch-IsTouched}

-- The hashes without those that came before, in order.
abbrev pub fresh : List String → List String → List String
fresh seen [] = []
fresh seen (h ∷ hs) = elim (has h seen) [ true ↦ fresh seen hs | false ↦ h ∷ fresh (h ∷ seen) hs ]

-- Whether the metadata of a blob exists.
abbrev pub there : Keyspace → String → Bool
there s h = Keyspace.exists (blob_meta h) s

fresh-seen :
    (seen : List String) (h : String) (hs : List String)
    → has h seen ≡ true
    → fresh seen (h ∷ hs) ≡ fresh seen hs
fresh-seen seen h hs e = rw (e, fresh) refl

fresh-new :
    (seen : List String) (h : String) (hs : List String)
    → has h seen ≡ false
    → fresh seen (h ∷ hs) ≡ h ∷ fresh (h ∷ seen) hs
fresh-new seen h hs e = rw (e, fresh) refl

already :
    (s : Keyspace) (k j : String)
    → Keyspace.exists k s ≡ true
    → (if j == k then true else Keyspace.exists j s) ≡ Keyspace.exists j s
already s k j old = elim (Bool-cases (j == k)) [
  | inl same ↦ rw same (sym (ap (λ i. Keyspace.exists i s) ((eq_iff j k).0 same) ∙ old))
  | inr other ↦ rw other refl
]

or_true : (b : Bool) {c : Bool} → c ≡ true → (if b then true else c) ≡ true
or_true true h = refl
or_true false h = h

module _ (r : Redis) (presign : String → ℕ → String) (configured : Bool)
    (idle upload created_ms : ℕ) (lives : 0 < idle) where
  open r use {Db, view}

  abbrev pub check : Validated (List String) → Db → Response × Db
  check = blobs_check r presign configured idle upload created_ms

  abbrev pub finalize : Validated (List String) → Db → Response × Db
  finalize = blobs_finalize r presign configured idle upload created_ms

  touched : String → Db → Db
  touched h d = (touch_now r presign configured idle upload created_ms h d).1

  touched-IsTouched :
      (h : String) (d : Db)
      → IsTouched h "0" (show created_ms) (idle * 1000) (view d) (view (touched h d))
  unfolding touched touch_now
  touched-IsTouched h d =
      (touch-IsTouched r presign configured idle upload created_ms h "0" (idle * 1000) d
        (omega arith)).1

  -- A touch makes its own blob exist and changes no other.
  exists-touched :
      (h j : String) (d : Db)
      → Keyspace.exists (blob_meta j) (view (touched h d))
        ≡ (if blob_meta j == blob_meta h then true else Keyspace.exists (blob_meta j) (view d))
  exists-touched h j d =
      let t = touched-IsTouched h d in
      elim (Bool-cases (blob_meta j == blob_meta h)) [
        | inl same ↦ rw same (
            ap (λ k. Keyspace.exists k (view (touched h d)))
              ((eq_iff (blob_meta j) (blob_meta h)).0 same)
            ∙ t.there)
        | inr other ↦ rw other (
            t.others (blob_meta j) (λ e. cc ((eq_iff (blob_meta j) (blob_meta h)).1 e))
              (blob_meta-ne-index j))
      ]

  -- Touching a blob that exists changes the existence of none.
  there-touched :
      (h : String) (d : Db) → there (view d) h ≡ true → there (view (touched h d)) ≡ there (view d)
  there-touched h d old =
      fun_ext λ j. exists-touched h j d ∙ already (view d) (blob_meta h) (blob_meta j) old

  there-kept :
      (h k : String) (d : Db) → there (view d) k ≡ true → there (view (touched h d)) k ≡ true
  there-kept h k d old = exists-touched h k d ∙ or_true (blob_meta k == blob_meta h) old

  abbrev pub upload_of : String → BlobUpload
  upload_of h = record { hash = h; upload_url = presign h upload }

  -- The answer to a list of new hashes, by which of them existed before.
  abbrev sorted_by : (String → Bool) → List String → BlobCheckResponse
  sorted_by old hs = record {
    missing = map upload_of (filter (λ h. not (old h)) hs);
    present = filter old hs;
  }

  abbrev pub sorted_out : Keyspace → List String → BlobCheckResponse
  sorted_out s hs = sorted_by (there s) hs

  -- one round of the loop, by whether the hash was seen
  check_from-seen :
      (seen : List String) (h : String) (hs : List String) (d : Db)
      → has h seen ≡ true
      → check_from r presign configured idle upload created_ms seen (h ∷ hs) d
        ≡ check_from r presign configured idle upload created_ms seen hs d
  unfolding check_from
  check_from-seen seen h hs d e = rw (e, check_from) refl

  check_from-here :
      (seen : List String) (h : String) (hs : List String) (d : Db)
      → has h seen ≡ false
      → there (view d) h ≡ true
      → check_from r presign configured idle upload created_ms seen (h ∷ hs) d ≡ (
          let rest =
            check_from r presign configured idle upload created_ms (h ∷ seen) hs (touched h d) in
          (add_present h rest.0, rest.1))
  unfolding check_from check_one touched
  check_from-here seen h hs d e old =
      rw (e, check_from) (rw (r.exists_lem (blob_meta h) d) (rw old refl))

  check_from-gone :
      (seen : List String) (h : String) (hs : List String) (d : Db)
      → has h seen ≡ false
      → there (view d) h ≡ false
      → check_from r presign configured idle upload created_ms seen (h ∷ hs) d ≡ (
          let rest = check_from r presign configured idle upload created_ms (h ∷ seen) hs d in
          (add_missing h (presign h upload) rest.0, rest.1))
  unfolding check_from check_one
  check_from-gone seen h hs d e none =
      rw (e, check_from) (rw (r.exists_lem (blob_meta h) d) (rw none refl))

  IsSortedOut : List String → List String → Db → BlobCheckResponse × Db → Type 0
  IsSortedOut seen hashes d out =
      (out.0 ≡ sorted_out (view d) (fresh seen hashes)) × (there (view out.1) ≡ there (view d))

  check_from-IsSortedOut :
      (seen hashes : List String) (d : Db)
      → IsSortedOut seen hashes d
          (check_from r presign configured idle upload created_ms seen hashes d)
  unfolding check_from IsSortedOut
  check_from-IsSortedOut seen [] d = (refl, refl)
  check_from-IsSortedOut seen (h ∷ hs) d = elim (Bool-cases (has h seen)) [
    | inl old ↦
        rw (check_from-seen seen h hs d old, fresh-seen seen h hs old)
          (check_from-IsSortedOut seen hs d)
    | inr new ↦ elim (Bool-cases (there (view d) h)) [
      | inl here ↦
          let (body, kept) = check_from-IsSortedOut (h ∷ seen) hs (touched h d) in
          rw (check_from-here seen h hs d new here, fresh-new seen h hs new, here)
            (
              ap (add_present h)
                  (body ∙ ap (λ t. sorted_by t (fresh (h ∷ seen) hs)) (there-touched h d here)),
              kept ∙ there-touched h d here,
            )
      | inr gone ↦
          let (body, kept) = check_from-IsSortedOut (h ∷ seen) hs d in
          rw (check_from-gone seen h hs d new gone, fresh-new seen h hs new, gone)
            (ap (add_missing h (presign h upload)) body, kept)
    ]
  ]

  blobs_check-configured :
      (hashes : List String) (d : Db)
      → configured ≡ true
      → check (valid hashes) d ≡ (
          let out = check_from r presign configured idle upload created_ms [] hashes d in
          (record { status = 200; body = check_json out.0 }, out.1))
  unfolding blobs_check
  blobs_check-configured hashes d on = rw on refl

  blobs_finalize-configured :
      (hashes : List String) (d : Db)
      → configured ≡ true
      → finalize (valid hashes) d ≡ (
          let out = finalize_from r presign configured idle upload created_ms [] hashes d in
          (record { status = 200; body = finalize_json out.0 }, out.1))
  unfolding blobs_finalize
  blobs_finalize-configured hashes d on = rw on refl

  -- With a blob store and a positive idle time, the check route answers a list that passed
  -- validation with each hash once, in the order of the request: missing with an upload URL where no metadata exists, present where it does. It makes
  -- no blob's metadata come or go. Without a blob store it answers 501, and a request that fails
  -- validation 400, both without a command to Redis.
  pub blobs_check-sorted_out :
      (hashes : List String) (issues : List Issue) (d : Db)
      → ((configured ≡ true)
          → ((check (valid hashes) d).0
              ≡ record { status = 200; body = check_json (sorted_out (view d) (fresh [] hashes)) })
            × (there (view (check (valid hashes) d).1) ≡ there (view d)))
        × ((configured ≡ false) → check (valid hashes) d ≡ (not_configured, d))
        × (check (invalid issues) d ≡ (validation_error issues, d))
  unfolding blobs_check IsSortedOut
  blobs_check-sorted_out hashes issues d =
      let (body, kept) = check_from-IsSortedOut [] hashes d in
      (
        λ on.
            rw (blobs_check-configured hashes d on)
              (ap (λ b. record { status = 200; body = check_json b }) body, kept),
        λ off. rw off refl,
        refl,
      )

  -- what the loop of finalize leaves
  IsFinalized : List String → List String → Db → List String × Db → Type 0
  IsFinalized seen hashes d out =
      (out.0 ≡ fresh seen hashes)
      × All (λ h. there (view out.1) h ≡ true) (fresh seen hashes)
      × ((h : String) → there (view d) h ≡ true → there (view out.1) h ≡ true)

  finalize_from-seen :
      (seen : List String) (h : String) (hs : List String) (d : Db)
      → has h seen ≡ true
      → finalize_from r presign configured idle upload created_ms seen (h ∷ hs) d
        ≡ finalize_from r presign configured idle upload created_ms seen hs d
  unfolding finalize_from
  finalize_from-seen seen h hs d e = rw (e, finalize_from) refl

  finalize_from-new :
      (seen : List String) (h : String) (hs : List String) (d : Db)
      → has h seen ≡ false
      → finalize_from r presign configured idle upload created_ms seen (h ∷ hs) d ≡ (
          let rest =
            finalize_from r presign configured idle upload created_ms (h ∷ seen) hs (touched h d) in
          (h ∷ rest.0, rest.1))
  unfolding finalize_from touched
  finalize_from-new seen h hs d e = rw (e, finalize_from) refl

  finalize_from-IsFinalized :
      (seen hashes : List String) (d : Db)
      → IsFinalized seen hashes d
          (finalize_from r presign configured idle upload created_ms seen hashes d)
  unfolding finalize_from IsFinalized
  finalize_from-IsFinalized seen [] d = (refl, tt, λ h old. old)
  finalize_from-IsFinalized seen (h ∷ hs) d = elim (Bool-cases (has h seen)) [
    | inl old ↦
        rw (finalize_from-seen seen h hs d old, fresh-seen seen h hs old)
          (finalize_from-IsFinalized seen hs d)
    | inr new ↦
        let (named, all_there, kept) = finalize_from-IsFinalized (h ∷ seen) hs (touched h d) in
        rw (finalize_from-new seen h hs d new, fresh-new seen h hs new)
          (
            ap (λ l. h ∷ l) named,
            (kept h (touched-IsTouched h d).there, all_there),
            λ k old. kept k (there-kept h k d old),
          )
  ]

  All-present :
      (old : String → Bool) (hs : List String)
      → All (λ h. old h ≡ true) hs
      → sorted_by old hs ≡ record { missing = []; present = hs }
  All-present old [] all = refl
  All-present old (h ∷ hs) (e, es) = rw e (ap (add_present h) (All-present old hs es))

  -- With a blob store and a positive idle time, finalize answers with each of the hashes once, in the order of the request,
  -- and a check of the same hashes right after it reports every one of them present and none
  -- missing. No blob's metadata is lost.
  pub blobs_finalize-blobs_check :
      (hashes : List String) (d : Db)
      → configured ≡ true
      → let done = finalize (valid hashes) d in
        (done.0 ≡ record { status = 200; body = finalize_json (fresh [] hashes) })
        × ((check (valid hashes) done.1).0 ≡ record {
          status = 200;
          body = check_json (record { missing = []; present = fresh [] hashes });
        })
        × ((h : String) → there (view d) h ≡ true → there (view done.1) h ≡ true)
  unfolding IsSortedOut IsFinalized
  blobs_finalize-blobs_check hashes d on =
      let (named, all_there, kept) = finalize_from-IsFinalized [] hashes d in
      let after = (finalize_from r presign configured idle upload created_ms [] hashes d).1 in
      rw (blobs_finalize-configured hashes d on, blobs_check-configured hashes after on)
        (
          ap (λ l. record { status = 200; body = finalize_json l }) named,
          ap (λ b. record { status = 200; body = check_json b })
              ((check_from-IsSortedOut [] hashes after).0
                ∙ All-present (there (view after)) _ all_there),
          kept,
        )
