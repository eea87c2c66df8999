-- ===== src/Sdk/Client/Uploads.antt =====
-- What an upload that returns has done: the bytes are in the store.
use code_runner.Prelude.{
  ℕ, String, true, Option, none, some, List, [], ◌∷◌, ◌≡◌, refl, sym, ap, ◌∙◌, Bool-cases, inl, inr,
}
use mathlib.Core.Path.{subst}
use code_runner.Prelude.Json.{Json, num, str, arr, obj, Items, member}
use code_runner.Prelude.Result.{Result, ok, err}
use code_runner.Contract.{BlobUpload}
use code_runner.Sdk.Client.{
  HttpRequest, HttpResponse, bytes, is_ok, Thrown, find_missing, call_fetch, blobs_check,
  blobs_finalize, sha256_ref, put_missing, upload_found, upload_checked, upload_blob, settled,
}

module _ {ℓ} (W : Type ℓ) (fetch : HttpRequest → W → Result String HttpResponse × W)
    (json_parse : String → Option Json) (sha256_hex : List ℕ → String)
    (injected : List (String × String)) (base_url token : String) (threshold : ℕ) where
  abbrev get : HttpRequest → W → Result Thrown HttpResponse × W
  get = call_fetch W fetch json_parse sha256_hex injected base_url token threshold

  abbrev check : List String → W → Result Thrown (Option Json) × W
  check = blobs_check W fetch json_parse sha256_hex injected base_url token threshold

  abbrev finalize : List String → W → Result Thrown (Option Json) × W
  finalize = blobs_finalize W fetch json_parse sha256_hex injected base_url token threshold

  abbrev ref_of : List ℕ → String
  ref_of = sha256_ref W fetch json_parse sha256_hex injected base_url token threshold

  abbrev upload : List ℕ → W → Result Thrown String × W
  upload = upload_blob W fetch json_parse sha256_hex injected base_url token threshold

  abbrev put_request : List ℕ → String → HttpRequest
  put_request buffer url = record { method = "PUT"; url = url; headers = []; body = bytes buffer }

  -- The bytes went to the URL with a 2xx answer, and the finalize after it succeeded, ending in `w'`.
  pub record IsStored (buffer : List ℕ) (url : String) (w w' : W) : Type ℓ where
    pub answer : HttpResponse
    pub put : (get (put_request buffer url) w).0 ≡ ok answer
    pub is_2xx : is_ok answer ≡ true
    pub value : Option Json
    pub finalized :
        finalize (ref_of buffer ∷ []) (get (put_request buffer url) w).1 ≡ (ok value, w')

  -- The check listed the ref as missing, with a URL at which the bytes are now, or did not list it.
  abbrev pub IsUploaded : List ℕ → Option BlobUpload → W → W → Type ℓ
  IsUploaded buffer none w w' = w' ≡ w
  IsUploaded buffer (some missing) w w' = IsStored buffer missing.upload_url w w'

  -- what is left of a call that has returned
  abbrev Returned : String → W → Result Thrown String × W → Type ℓ
  Returned r w' out = (out.0 ≡ ok r) × (out.1 ≡ w')

  finalized-IsStored :
      (buffer : List ℕ) (url : String) (w : W) (answer : HttpResponse)
      (out : Result Thrown (Option Json) × W) (r : String) (w' : W)
      → (get (put_request buffer url) w).0 ≡ ok answer
      → is_ok answer ≡ true
      → finalize (ref_of buffer ∷ []) (get (put_request buffer url) w).1 ≡ out
      → Returned r w' (
          settled W fetch json_parse sha256_hex injected base_url token threshold
            (λ _ u. (ok (ref_of buffer), u))
            out)
      → (r ≡ ref_of buffer) × IsStored buffer url w w'
  finalized-IsStored buffer url w answer (ok v, u) r w' a good f (h, k) = (
    cc (h),
    record {
      answer = answer;
      put = a;
      is_2xx = good;
      value = v;
      finalized = f ∙ ap (λ z. (ok v, z)) k;
    },
  )
  finalized-IsStored buffer url w answer (err x, u) r w' a good f (h, k) = absurd (cc (h))

  put_missing-IsStored :
      (buffer : List ℕ) (url : String) (w : W) (put : Result Thrown HttpResponse × W) (r : String)
      (w' : W)
      → get (put_request buffer url) w ≡ put
      → Returned r w' (
          put_missing W fetch json_parse sha256_hex injected base_url token threshold buffer
            (ref_of buffer)
            url
            w)
      → (r ≡ ref_of buffer) × IsStored buffer url w w'
  unfolding put_missing
  put_missing-IsStored buffer url w (ok answer, u) r w' a h = elim (Bool-cases (is_ok answer)) [
    | inl good ↦
        finalized-IsStored buffer url w answer (finalize (ref_of buffer ∷ []) u) r w'
          (ap (λ o. o.0) a) good (ap (λ o. finalize (ref_of buffer ∷ []) o.1) a)
          (rw good at (rw a at h))
    | inr bad ↦ absurd (cc ((rw bad at (rw a at h)).0))
  ]
  put_missing-IsStored buffer url w (err x, u) r w' a h = absurd (cc ((rw a at h).0))

  -- What the check answered, and what followed from it.
  pub record IsChecked (buffer : List ℕ) (v : Option Json) (w w' : W) : Type ℓ where
    pub entries : Items
    pub listed : member "missing" v ≡ some (arr entries)
    pub found : Option BlobUpload
    pub searched : find_missing (ref_of buffer) entries ≡ ok found
    pub uploaded : IsUploaded buffer found w w'

  upload_found-IsUploaded :
      (buffer : List ℕ) (missing : Option BlobUpload) (w : W) (r : String) (w' : W)
      → Returned r w' (
          upload_found W fetch json_parse sha256_hex injected base_url token threshold buffer
            (ref_of buffer)
            missing
            w)
      → (r ≡ ref_of buffer) × IsUploaded buffer missing w w'
  unfolding upload_found
  upload_found-IsUploaded buffer none w r w' (h, k) = (cc (h), sym k)
  upload_found-IsUploaded buffer (some missing) w r w' h =
      put_missing-IsStored buffer missing.upload_url w _ r w' refl h

  searched-IsChecked :
      (buffer : List ℕ) (v : Option Json) (entries : Items)
      (found : Result Thrown (Option BlobUpload)) (w : W) (r : String) (w' : W)
      → member "missing" v ≡ some (arr entries)
      → find_missing (ref_of buffer) entries ≡ found
      → Returned r w' (
          settled W fetch json_parse sha256_hex injected base_url token threshold
            (upload_found W fetch json_parse sha256_hex injected base_url token threshold buffer
              (ref_of buffer))
            (found, w))
      → (r ≡ ref_of buffer) × IsChecked buffer v w w'
  searched-IsChecked buffer v entries (ok missing) w r w' e s h =
      let (same, up) = upload_found-IsUploaded buffer missing w r w' h in
      (same, record { entries = entries; listed = e; found = missing; searched = s; uploaded = up })
  searched-IsChecked buffer v entries (err x) w r w' e s (h, k) = absurd (cc (h))

  upload_checked-IsChecked :
      (buffer : List ℕ) (v : Option Json) (m : Option Json) (w : W) (r : String) (w' : W)
      → member "missing" v ≡ m
      → Returned r w' (
          upload_checked W fetch json_parse sha256_hex injected base_url token threshold buffer
            (ref_of buffer)
            m
            w)
      → (r ≡ ref_of buffer) × IsChecked buffer v w w'
  unfolding upload_checked
  upload_checked-IsChecked buffer v (some (arr entries)) w r w' e h =
      searched-IsChecked buffer v entries (find_missing (ref_of buffer) entries) w r w' e refl h
  upload_checked-IsChecked buffer v none w r w' e (h, k) = absurd (cc (h))
  upload_checked-IsChecked buffer v (some (obj f)) w r w' e (h, k) = absurd (cc (h))
  upload_checked-IsChecked buffer v (some (str s)) w r w' e (h, k) = absurd (cc (h))
  upload_checked-IsChecked buffer v (some (num s)) w r w' e (h, k) = absurd (cc (h))
  upload_checked-IsChecked buffer v (some (Json.negative s)) w r w' e (h, k) = absurd (cc (h))
  upload_checked-IsChecked buffer v (some (Json.bool s)) w r w' e (h, k) = absurd (cc (h))
  upload_checked-IsChecked buffer v (some Json.null) w r w' e (h, k) = absurd (cc (h))

  -- An upload that returns a ref returns the digest of its bytes behind "sha256:". The check of that
  -- ref succeeded, and either it did not list the ref as missing and nothing else was sent, or it
  -- did, and the bytes were put to the URL that it gave, with a 2xx answer, and then finalized.
  pub upload_blob-IsChecked :
      (buffer : List ℕ) (w : W) (r : String) (w' : W)
      → (upload buffer w).0 ≡ ok r
      → (upload buffer w).1 ≡ w'
      → (r ≡ ref_of buffer)
        × ((v : Option Json) × ((check (ref_of buffer ∷ []) w).0 ≡ ok v)
            × IsChecked buffer v (check (ref_of buffer ∷ []) w).1 w')
  unfolding upload_blob
  upload_blob-IsChecked buffer w r w' h k = go (check (ref_of buffer ∷ []) w) refl
    where
      both : Returned r w' (upload buffer w)
      both = (h, k)

      go :
          (c : Result Thrown (Option Json) × W)
          → check (ref_of buffer ∷ []) w ≡ c
          → (r ≡ ref_of buffer)
            × ((v : Option Json) × ((check (ref_of buffer ∷ []) w).0 ≡ ok v)
                × IsChecked buffer v (check (ref_of buffer ∷ []) w).1 w')
      go (ok v, u) e =
          let (same, c) =
            upload_checked-IsChecked buffer v (member "missing" v) u r w' refl (rw e at both) in
          (same, (v, ap (λ o. o.0) e, subst (λ o. IsChecked buffer v o.1 w') (sym e) c))
      go (err x, u) e = absurd (cc (rw e at h))
