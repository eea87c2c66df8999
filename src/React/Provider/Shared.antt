-- ===== src/React/Provider/Shared.antt =====
-- What holds of the page between two steps, and that a render keeps it.
use code_runner.Prelude.{
  ℕ, ◌<◌, String, Bool, false, not, ◌&&◌, Option, none, some, [], ◌∷◌, ◌++◌, ◌==◌, ◌≡◌, ◌≢◌, refl,
  sym, ap, ◌∙◌, inl, inr, arith, eq_iff, eq_refl, eqb, ltb, length, length-append, Option-cases,
  Bool-cases,
}
use mathlib.Core.Path.{subst}
use code_runner.Prelude.Int.{pos}
use code_runner.Prelude.Json.{Json}
use code_runner.Prelude.Slots.{place}
use code_runner.React.Provider.{
  Props, PusherJs, Entry, get, config_key, options_of, Page, found_or_made, acquire_pusher, View,
}
use code_runner.React.Provider.Registry.{AreDistinct, AreDistinct-append, append-found, get-append}

module _ (lib : PusherJs) (stringify : Json → String) where
  open lib use {Client, make, connect, disconnect, is_disconnected}

  -- What the registry holds for a key, against the providers that are mounted for it: no entry where
  -- none was ever mounted, or their number, and a client that is disconnected exactly where some
  -- were and none is.
  abbrev pub IsServed : ℕ → Bool → (ℕ → Client) → Option Entry → Type 0
  IsServed mounted used clients none = (mounted ≡ 0) × (used ≡ false)
  IsServed mounted used clients (some entry) =
      (entry.refs ≡ pos mounted)
      × (is_disconnected (clients entry.pusher) ≡ used && eqb mounted 0)
      × (ltb 0 mounted && not used ≡ false)

  pub IsServed-same :
      (m : ℕ) (u : Bool) (before after : ℕ → Client) (o : Option Entry)
      → ((d : Entry) → o ≡ some d → after d.pusher ≡ before d.pusher)
      → IsServed m u before o
      → IsServed m u after o
  IsServed-same m u before after none same h = h
  IsServed-same m u before after (some d) same (refs, state, marked) =
      (refs, ap is_disconnected (same d refl) ∙ state, marked)

  pub record IsShared (v : View lib stringify) : Type 0 where
    pub size : v.page.opened ≡ length v.page.registry
    pub distinct : AreDistinct v.page.registry
    pub below : (k : String) (e : Entry) → get k v.page.registry ≡ some e → e.pusher < v.page.opened
    pub apart :
        (j k : String) (d e : Entry)
        → get j v.page.registry ≡ some d
        → get k v.page.registry ≡ some e
        → d.pusher ≡ e.pusher
        → j ≡ k
    pub served :
        (k : String) → IsServed (v.mounted k) (v.used k) v.page.clients (get k v.page.registry)

  abbrev pub key_of : Props → String
  key_of = config_key lib stringify

  abbrev pub acquired : Props → Page lib stringify → ℕ × Page lib stringify
  acquired = acquire_pusher lib stringify

  pub acquire_pusher_lem :
      (p : Props) (page : Page lib stringify) (o : Option Entry)
      → get (key_of p) page.registry ≡ o
      → acquired p page ≡ found_or_made lib stringify p o page
  unfolding acquire_pusher
  acquire_pusher_lem p page o h = ap (λ x. found_or_made lib stringify p x page) h

  pub acquire_pusher-get :
      (p : Props) (page : Page lib stringify)
      → (e : Entry) × (get (key_of p) (acquired p page).1.registry ≡ some e)
        × (e.pusher ≡ (acquired p page).0)
  acquire_pusher-get p page = elim (Option-cases (get (key_of p) page.registry)) [
    | inl new ↦
        let e : Entry = record { pusher = page.opened; refs = pos 0 } in
        rw (acquire_pusher_lem p page none new) (
          e,
          get-append page.registry (key_of p) (key_of p) e
              ∙ ground (arith, new, eq_refl (key_of p)),
          refl,
        )
    | inr (e, found) ↦ rw (acquire_pusher_lem p page (some e) found) (e, found, refl)
  ]

  pub place_here : (f : ℕ → Client) (i : ℕ) (c : Client) → place f i c i ≡ c
  place_here f i c = ground arith

  pub place_there : (f : ℕ → Client) (i j : ℕ) (c : Client) → j ≢ i → place f i c j ≡ f j
  place_there f i j c away = ground arith

  pub new-IsShared :
      (p : Props) (v : View lib stringify)
      → get (key_of p) v.page.registry ≡ none
      → IsShared v
      → IsShared (record v { page = (found_or_made lib stringify p none v.page).1 })
  new-IsShared p v new h = record {
    size = omega (arith, h.size, length-append v.page.registry ((key_of p, e) ∷ []));
    distinct = AreDistinct-append v.page.registry (key_of p) e new h.distinct;
    below = λ k d g. elim (append-found v.page.registry (key_of p) k e d g) [
      | inl old ↦ omega (arith, h.below k d old)
      | inr (_, eq) ↦ omega (arith, ap (λ (x : Entry). x.pusher) eq)
    ];
    apart = λ j k c d g g' eq. elim (append-found v.page.registry (key_of p) j e c g) [
      | inl old ↦ elim (append-found v.page.registry (key_of p) k e d g') [
        | inl old' ↦ h.apart j k c d old old' eq
        | inr (_, same) ↦
            absurd (omega (arith, h.below j c old, eq, ap (λ (x : Entry). x.pusher) same))
      ]
      | inr (here, same) ↦ elim (append-found v.page.registry (key_of p) k e d g') [
        | inl old' ↦ absurd (omega (arith, h.below k d old', eq, ap (λ (x : Entry). x.pusher) same))
        | inr (here', _) ↦ sym here ∙ here'
      ]
    ];
    served = λ k. elim (Bool-cases (key_of p == k)) [
      | inl here ↦
          subst
            (λ j.
              IsServed (v.mounted j) (v.used j) clients
                (get j (v.page.registry ++ (key_of p, e) ∷ [])))
            ((eq_iff (key_of p) k).0 here)
            (subst (λ o. IsServed (v.mounted (key_of p)) (v.used (key_of p)) clients o) (sym at_key)
              (
                ap pos (sym unused.0),
                ap is_disconnected (place_here v.page.clients v.page.opened _)
                    ∙ lib.is_disconnected-make p.app_key (options_of p)
                    ∙ sym (ap (λ u. u && eqb (v.mounted (key_of p)) 0) unused.1),
                ap (λ (m : ℕ). ltb 0 m && not (v.used (key_of p))) unused.0,
              ))
      | inr there ↦
          let unchanged : get k (v.page.registry ++ (key_of p, e) ∷ []) ≡ get k v.page.registry =
            ground (arith, get-append v.page.registry (key_of p) k e) in
          rw unchanged (
            IsServed-same (v.mounted k) (v.used k) v.page.clients clients (get k v.page.registry)
              (λ d f.
                place_there v.page.clients v.page.opened d.pusher _
                  (λ eq. absurd (omega (arith, h.below k d f, eq))))
              (h.served k))
    ];
  }
    where
      e : Entry
      e = record { pusher = v.page.opened; refs = pos 0 }

      clients : ℕ → Client
      clients = place v.page.clients v.page.opened (make p.app_key (options_of p))

      unused : (v.mounted (key_of p) ≡ 0) × (v.used (key_of p) ≡ false)
      unused = rw new at (h.served (key_of p))

      at_key : get (key_of p) (v.page.registry ++ (key_of p, e) ∷ []) ≡ some e
      at_key =
          get-append v.page.registry (key_of p) (key_of p) e
          ∙ ground (arith, new, eq_refl (key_of p))

  pub acquire_pusher-IsShared :
      (p : Props) (v : View lib stringify)
      → IsShared v
      → IsShared (record v { page = (acquired p v.page).1 })
  acquire_pusher-IsShared p v h = elim (Option-cases (get (key_of p) v.page.registry)) [
    | inl new ↦ rw (acquire_pusher_lem p v.page none new) (new-IsShared p v new h)
    | inr (e, found) ↦ rw (acquire_pusher_lem p v.page (some e) found) h
  ]
