-- ===== src/Tests/Provider.antt =====
-- The theorem on the provider's registry at a concrete input.
use code_runner.Prelude.{String, Bool, true, false, none, ◌≡◌, refl, length, arith}
use code_runner.Prelude.Json.{Json}
use code_runner.React.Provider.{
  Props, PusherJs, get, View, Reach, start, later, render, mount, unmount, config_key,
}
use code_runner.React.Provider.Registry.{AreDistinct}
use code_runner.React.Provider.Shared.{IsServed}
use code_runner.React.Provider.Sockets.{fresh, Reach-IsServed}

-- a client that is nothing but its state, which reads "disconnected" where it is true
abbrev pusher_js : PusherJs
pusher_js = record {
  Client = Bool;
  make = λ key options. false;
  connect = λ client. false;
  disconnect = λ client. true;
  is_disconnected = λ client. client;
  is_disconnected-make = λ key options. refl;
  is_disconnected-connect = λ client. refl;
  is_disconnected-disconnect = λ client. refl;
}

abbrev stringify : Json → String
stringify json = "key"

abbrev props : Props
props = record {
  app_key = "code-runner-key";
  host = "localhost";
  port = none;
  use_tls = none;
  cluster = none;
  auth_endpoint = "/auth";
  auth_headers = none;
}

-- rendered twice, mounted, and taken away again
visited :
    (w : View pusher_js stringify) × Reach pusher_js stringify
      (fresh pusher_js stringify (λ i. false))
      w
unfolding config_key
visited = (
  _,
  later (later (later (later start (render props)) (render props)) (mount props))
      (unmount props (omega arith)),
)

Reach-IsServed_example :
    (visited.0.page.opened ≡ length visited.0.page.registry)
    × AreDistinct visited.0.page.registry
    × IsServed pusher_js stringify
        (visited.0.mounted "key")
        (visited.0.used "key")
        visited.0.page.clients
        (get "key" visited.0.page.registry)
Reach-IsServed_example = Reach-IsServed pusher_js stringify (λ i. false) visited.0 "key" visited.1
