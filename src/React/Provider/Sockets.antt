-- ===== src/React/Provider/Sockets.antt =====
-- One client for each configuration, connected while a provider needs it.
use code_runner.Prelude.{
  ℕ, suc, String, true, false, some, [], ◌≡◌, refl, inl, inr, arith, length, Option-cases,
}
use mathlib.Core.Path.{subst}
use code_runner.Prelude.Json.{Json}
use code_runner.React.Provider.{
  PusherJs, get, update, attach, View, Step, render, mount, unmount, Reach, start, later,
}
use code_runner.React.Provider.Registry.{AreDistinct}
use code_runner.React.Provider.Shared.{
  IsServed, IsShared, key_of, acquired, acquire_pusher_lem, acquire_pusher-get,
  acquire_pusher-IsShared,
}
use code_runner.React.Provider.Commit.{attach-IsShared, detach-IsShared}

module _ (lib : PusherJs) (stringify : Json → String) where
  open lib use {Client, make, connect, disconnect, is_disconnected}

  Step-IsShared :
      (v w : View lib stringify)
      → Step lib stringify v w
      → IsShared lib stringify v
      → IsShared lib stringify w
  Step-IsShared v w (render p) h = acquire_pusher-IsShared lib stringify p v h
  Step-IsShared v w (mount p) h =
      let (e, found, same) = acquire_pusher-get lib stringify p v.page in
      let rendered = acquire_pusher-IsShared lib stringify p v h in
      subst
        (λ (i : ℕ). IsShared lib stringify (record {
          page =
              attach lib stringify (key_of lib stringify p) i (acquired lib stringify p v.page).1;
          mounted =
              update v.mounted (key_of lib stringify p) (suc (v.mounted (key_of lib stringify p)));
          used = update v.used (key_of lib stringify p) true;
        }))
        same
        (attach-IsShared lib stringify (key_of lib stringify p) e
          (record v { page = (acquired lib stringify p v.page).1 }) found rendered)
  Step-IsShared v w (unmount p some_mounted) h =
      elim (Option-cases (get (key_of lib stringify p) v.page.registry)) [
        | inl missing ↦
            let none_mounted : v.mounted (key_of lib stringify p) ≡ 0 =
              (rw missing at (h.served (key_of lib stringify p))).0 in
            absurd (omega (arith, some_mounted, none_mounted))
        | inr (e, found) ↦
            rw (acquire_pusher_lem lib stringify p v.page (some e) found)
              (detach-IsShared lib stringify (key_of lib stringify p) e v found some_mounted h)
      ]

  -- A page on which nothing has been rendered.
  abbrev pub fresh : (ℕ → Client) → View lib stringify
  fresh clients = record {
    page = record { registry = []; opened = 0; clients = clients };
    mounted = λ k. 0;
    used = λ k. false;
  }

  fresh-IsShared : (clients : ℕ → Client) → IsShared lib stringify (fresh clients)
  fresh-IsShared clients = record {
    size = refl;
    distinct = tt;
    below = λ k e g. absurd (cc g);
    apart = λ j k d e g g' eq. absurd (cc g);
    served = λ k. (refl, refl);
  }

  Reach-IsShared :
      (v w : View lib stringify)
      → Reach lib stringify v w
      → IsShared lib stringify v
      → IsShared lib stringify w
  Reach-IsShared v w start h = h
  Reach-IsShared v w (later r step) h = Step-IsShared _ _ step (Reach-IsShared _ _ r h)

  -- However often providers are rendered, mounted and unmounted, in whatever order: as many clients
  -- are opened as there are keys in the registry, no key is set twice, and for each key the registry
  -- counts the providers that are mounted for it; its client is disconnected exactly where a provider
  -- was mounted for it and none is mounted now.
  pub Reach-IsServed :
      (clients : ℕ → Client) (w : View lib stringify) (key : String)
      → Reach lib stringify (fresh clients) w
      → (w.page.opened ≡ length w.page.registry)
        × AreDistinct w.page.registry
        × IsServed lib stringify
            (w.mounted key)
            (w.used key)
            w.page.clients
            (get key w.page.registry)
  Reach-IsServed clients w key r =
      let h = Reach-IsShared (fresh clients) w r (fresh-IsShared clients) in
      (h.size, h.distinct, h.served key)
