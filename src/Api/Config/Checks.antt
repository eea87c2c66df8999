-- ===== src/Api/Config/Checks.antt =====
-- What a configuration that loads is known to hold.
use mathlib.Core.Bool.{not}
use mathlib.Core.Path.{subst}
use code_runner.Prelude.{
  String, Bool, true, false, ◌&&◌, Option, none, some, ◌==◌, ◌≡◌, ◌≢◌, refl, ap, arith, eq_iff,
  eq_refl, or_default, Bool-cases, inl, inr,
}
use code_runner.Prelude.Result.{Result, ok, err}
use code_runner.Api.Config.{Config, require_env, load_config}

module _ (env : String → Option String) (languages : String) where
  -- A variable that is required is set, and not to the empty text.
  abbrev pub IsGiven : String → String → Type 0
  IsGiven name value = (env name ≡ some value) × (value ≢ "")

  given_of :
      (o : Option String)
      → (or_default o "" == "") ≡ false
      → (o ≡ some (or_default o "")) × (or_default o "" ≢ "")
  given_of none h = absurd (cc (h, eq_refl ""))
  given_of (some s) h = (refl, λ e. cc (h, (eq_iff s "").1 e))

  -- The token and the URL come from the environment and are not empty, and no part of a blob store
  -- that counts as configured is empty.
  abbrev pub IsComplete : Config → Type 0
  IsComplete c =
      IsGiven "EXECUTOR_API_TOKEN" c.executor_api_token
      × IsGiven "REDIS_URL" c.redis_url
      × (c.blob_store_configured ≡ true
          → (c.blob_s3_endpoint ≢ "")
            × (c.blob_s3_bucket ≢ "")
            × (c.blob_s3_access_key_id ≢ "")
            × (c.blob_s3_secret_access_key ≢ ""))

  loaded_or : Config → Result String Config → Config
  loaded_or c (ok d) = d
  loaded_or c (err e) = c

  four_given :
      (a b c d : String)
      → (not (a == "") && not (b == "") && not (c == "") && not (d == "")) ≡ true
      → (a ≢ "") × (b ≢ "") × (c ≢ "") × (d ≢ "")
  four_given a b c d h =
      let (ha, hb, hc, hd) = all_false (a == "") (b == "") (c == "") (d == "") h in
      (nonempty a ha, nonempty b hb, nonempty c hc, nonempty d hd)
    where
      all_false :
          (p q r s : Bool)
          → (not p && not q && not r && not s) ≡ true
          → (p ≡ false) × (q ≡ false) × (r ≡ false) × (s ≡ false)
      all_false p q r s e = ground arith

      nonempty : (x : String) → (x == "") ≡ false → x ≢ ""
      nonempty x e same = cc (e, (eq_iff x "").1 same)

  -- A configuration that loads holds the token and the Redis URL of the environment, neither of them
  -- empty; and where it says that the blob store is configured, neither the endpoint nor the bucket
  -- nor one of the two keys is empty.
  pub load_config-IsComplete : (c : Config) → load_config env languages ≡ ok c → IsComplete c
  unfolding load_config require_env loaded_or
  load_config-IsComplete c h = elim (Bool-cases (or_default (env "EXECUTOR_API_TOKEN") "" == "")) [
    | inl missing ↦ absurd (cc (rw missing at h))
    | inr token ↦ elim (Bool-cases (or_default (env "REDIS_URL") "" == "")) [
      | inl missing ↦ absurd (cc (rw missing at (rw token at h)))
      | inr url ↦
          subst IsComplete (ap (loaded_or c) (rw url at (rw token at h)))
            (given_of _ token, given_of _ url, four_given _ _ _ _)
    ]
  ]
