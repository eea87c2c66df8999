-- ===== src/React/Provider/Commit.antt =====
-- The effect of a provider and its cleanup keep what holds of the page.
use code_runner.Prelude.{
  ℕ, suc, ◌-◌, ◌<◌, String, Bool, true, false, not, ◌&&◌, some, ◌==◌, ◌≡◌, ◌≢◌, refl, sym, ap, ◌∙◌,
  inl, inr, arith, eq_iff, eq_refl, eqb, ltb, Bool-cases,
}
use mathlib.Core.Path.{subst}
use code_runner.Prelude.Int.{ℤ, pos, ◌+ℤ◌, ◌-ℤ◌, ltb_ℤ}
use code_runner.Prelude.Json.{Json}
use code_runner.React.Provider.{
  PusherJs, Entry, get, set_refs, update, reconnected, released, attach, detach, View,
}
use code_runner.React.Provider.Registry.{
  AreDistinct-set_refs, get-set_refs, length-set_refs, set_refs-found, update_here, update_there,
}
use code_runner.React.Provider.Shared.{IsServed, IsServed-same, IsShared, place_here, place_there}

module _ (lib : PusherJs) (stringify : Json → String) where
  open lib use {Client, make, connect, disconnect, is_disconnected}

  -- One entry counts anew, and its client may change.
  pub changed-IsShared :
      (key : String) (e : Entry) (v : View lib stringify) (n : ℤ) (clients : ℕ → Client)
      (mounted : String → ℕ) (used : String → Bool)
      → get key v.page.registry ≡ some e
      → IsShared lib stringify v
      → ((i : ℕ) → i ≢ e.pusher → clients i ≡ v.page.clients i)
      → ((k : String) → k ≢ key → (mounted k ≡ v.mounted k) × (used k ≡ v.used k))
      → n ≡ pos (mounted key)
      → is_disconnected (clients e.pusher) ≡ used key && eqb (mounted key) 0
      → ltb 0 (mounted key) && not (used key) ≡ false
      → IsShared lib stringify (record {
        page = record v.page { registry = set_refs key n v.page.registry; clients = clients };
        mounted = mounted;
        used = used;
      })
  changed-IsShared key e v n clients mounted used found h same others counted state marked =
      record {
        size = h.size ∙ sym (length-set_refs v.page.registry key n);
        distinct = AreDistinct-set_refs v.page.registry key n h.distinct;
        below = λ k d g.
            let (d', g', p) = set_refs-found v.page.registry key k n d g in
            subst (λ (i : ℕ). i < v.page.opened) p (h.below k d' g');
        apart = λ j k c d g g' eq.
            let (c', f, p) = set_refs-found v.page.registry key j n c g in
            let (d', f', p') = set_refs-found v.page.registry key k n d g' in
            h.apart j k c' d' f f' (p ∙ eq ∙ sym p');
        served = λ k. elim (Bool-cases (key == k)) [
          | inl here ↦
              subst
                (λ j.
                  IsServed lib stringify (mounted j) (used j) clients
                    (get j (set_refs key n v.page.registry)))
                ((eq_iff key k).0 here)
                (subst (λ o. IsServed lib stringify (mounted key) (used key) clients o) (sym at_key)
                  (counted, state, marked))
          | inr there ↦
              let away : k ≢ key = λ eq. ground (arith, eq_iff key k) in
              let (m, u) = others k away in
              let unchanged : get k (set_refs key n v.page.registry) ≡ get k v.page.registry =
                ground (arith, get-set_refs v.page.registry key k n) in
              rw (unchanged, m, u)
                (IsServed-same lib stringify (v.mounted k) (v.used k) v.page.clients clients
                  (get k v.page.registry)
                  (λ d f. same d.pusher (λ eq. away (h.apart k key d e f found eq))) (h.served k))
        ];
      }
    where
      at_key : get key (set_refs key n v.page.registry) ≡ some (record e { refs = n })
      at_key = ground (arith, get-set_refs v.page.registry key key n, eq_refl key, found)

  pub reconnected_other :
      (i j : ℕ) (clients : ℕ → Client) → j ≢ i → reconnected lib stringify i clients j ≡ clients j
  reconnected_other i j clients away = elim (Bool-cases (is_disconnected (clients i))) [
    | inl down ↦ rw down (place_there lib stringify clients i j _ away)
    | inr up ↦ rw up refl
  ]

  pub reconnected_up :
      (i : ℕ) (clients : ℕ → Client)
      → is_disconnected (reconnected lib stringify i clients i) ≡ false
  reconnected_up i clients = elim (Bool-cases (is_disconnected (clients i))) [
    | inl down ↦ rw down (
        ap is_disconnected (place_here lib stringify clients i _)
        ∙ lib.is_disconnected-connect (clients i))
    | inr up ↦ rw up up
  ]

  pub attach-IsShared :
      (key : String) (e : Entry) (v : View lib stringify)
      → get key v.page.registry ≡ some e
      → IsShared lib stringify v
      → IsShared lib stringify (record {
        page = attach lib stringify key e.pusher v.page;
        mounted = update v.mounted key (suc (v.mounted key));
        used = update v.used key true;
      })
  unfolding attach
  attach-IsShared key e v found h =
      let was : IsServed lib stringify (v.mounted key) (v.used key) v.page.clients (some e) =
        rw found at (h.served key) in
      rw (attach, found)
        (changed-IsShared key e v (e.refs +ℤ pos 1)
          (reconnected lib stringify e.pusher v.page.clients)
          (update v.mounted key (suc (v.mounted key))) (update v.used key true) found h
          (λ i away. reconnected_other e.pusher i v.page.clients away)
          (λ k away. (update_there v.mounted key k _ away, update_there v.used key k _ away))
          (rw (was.0, update_here v.mounted key (suc (v.mounted key))) (ground arith))
          (rw (update_here v.mounted key (suc (v.mounted key)), update_here v.used key true)
            (reconnected_up e.pusher v.page.clients ∙ ground arith))
          (rw (update_here v.used key true) (ground arith)))

  pub released_other :
      (refs : ℤ) (i j : ℕ) (clients : ℕ → Client)
      → j ≢ i
      → released lib stringify refs i clients j ≡ clients j
  released_other refs i j clients away = elim (Bool-cases (ltb_ℤ (pos 0) refs)) [
    | inl more ↦ rw more refl
    | inr last ↦ rw last (place_there lib stringify clients i j _ away)
  ]

  -- the last provider disconnects the client, and one before it leaves it alone
  pub released_state :
      (m i : ℕ) (refs : ℤ) (clients : ℕ → Client)
      → 0 < m
      → refs ≡ pos m
      → is_disconnected (clients i) ≡ false
      → is_disconnected (released lib stringify (refs -ℤ pos 1) i clients i) ≡ eqb (m - 1) 0
  released_state m i refs clients some_mounted counted up = elim (Bool-cases (eqb (m - 1) 0)) [
    | inl last ↦
        let gone : ltb_ℤ (pos 0) (refs -ℤ pos 1) ≡ false = rw counted (ground arith) in
        rw (gone, last)
          (ap is_disconnected (place_here lib stringify clients i _)
            ∙ lib.is_disconnected-disconnect (clients i))
    | inr more ↦
        let left : ltb_ℤ (pos 0) (refs -ℤ pos 1) ≡ true = rw counted (ground arith) in
        rw (left, more) up
  ]

  pub detach-IsShared :
      (key : String) (e : Entry) (v : View lib stringify)
      → get key v.page.registry ≡ some e
      → 0 < v.mounted key
      → IsShared lib stringify v
      → IsShared lib stringify (record {
        page = detach lib stringify key e.pusher v.page;
        mounted = update v.mounted key (v.mounted key - 1);
        used = v.used;
      })
  unfolding detach
  detach-IsShared key e v found some_mounted h =
      let was : IsServed lib stringify (v.mounted key) (v.used key) v.page.clients (some e) =
        rw found at (h.served key) in
      let marked : v.used key ≡ true = ground (arith, was.2) in
      rw (detach, found)
        (changed-IsShared key e v (e.refs -ℤ pos 1)
          (released lib stringify (e.refs -ℤ pos 1) e.pusher v.page.clients)
          (update v.mounted key (v.mounted key - 1)) v.used found h
          (λ i away. released_other (e.refs -ℤ pos 1) e.pusher i v.page.clients away)
          (λ k away. (update_there v.mounted key k _ away, refl))
          (rw (was.0, update_here v.mounted key (v.mounted key - 1)) (ground arith))
          (rw (update_here v.mounted key (v.mounted key - 1), marked)
            (released_state (v.mounted key) e.pusher e.refs v.page.clients some_mounted was.0
              (ground (arith, was.1))))
          (rw (update_here v.mounted key (v.mounted key - 1), marked) (ground arith)))
