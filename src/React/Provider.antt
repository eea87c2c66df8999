-- ===== src/React/Provider.antt =====
-- packages/code-runner-react/src/provider.tsx: the registry of pusher clients, which the providers
-- of a page share. pusher-js and JSON.stringify are parameters; a client is an object, known by the
-- place at which it was created. An effect and its cleanup run when React commits a provider and
-- takes it away.
pub mod Registry
pub mod Shared
pub mod Commit
pub mod Sockets
use Prim.Native.String.{◌++◌}
use mathlib.Core.List
use code_runner.Prelude.{
  ℕ, suc, ◌+◌, ◌-◌, ◌<◌, String, Bool, true, false, not, Option, none, some, List, [], ◌∷◌, ◌==◌,
  ◌≡◌, or_default, if◌then◌else◌,
}
use code_runner.Prelude.Int.{ℤ, pos, ◌+ℤ◌, ◌-ℤ◌, ltb_ℤ}
use code_runner.Prelude.Json.{Json, null, bool, num, str, arr, obj, nil, cons, Fields, end, field}
use code_runner.Prelude.Slots.{place}

-- CodeRunnerProviderProps, without the children
pub record Props : Type 0 where
  pub app_key : String
  pub host : String
  pub port : Option ℕ
  pub use_tls : Option Bool
  pub cluster : Option String
  pub auth_endpoint : String
  pub auth_headers : Option Fields

-- The options of `new Pusher`; `auth` is left out where there are no headers.
pub record Options : Type 0 where
  pub ws_host : String
  pub ws_port : ℕ
  pub wss_port : ℕ
  pub force_tls : Bool
  pub enabled_transports : List String
  pub cluster : String
  pub auth_endpoint : String
  pub auth_headers : Option Fields

-- What the provider uses of pusher-js: a client connects when it is made, and `disconnect` and
-- `connect` decide whether its state reads "disconnected".
pub record PusherJs : Type 1 where
  pub Client : Type 0
  pub make : String → Options → Client
  pub connect : Client → Client
  pub disconnect : Client → Client
  pub is_disconnected : Client → Bool
  pub is_disconnected-make : (k : String) (o : Options) → is_disconnected (make k o) ≡ false
  pub is_disconnected-connect : (c : Client) → is_disconnected (connect c) ≡ false
  pub is_disconnected-disconnect : (c : Client) → is_disconnected (disconnect c) ≡ true

abbrev headers_json : Option Fields → Json
headers_json none = null
headers_json (some headers) = obj headers

unfoldable pub config_json : Props → Json
config_json p = arr (
    cons (str p.app_key) (
      cons (str p.host) (
        cons (num (or_default p.port 6001)) (
          cons (bool (or_default p.use_tls false)) (
            cons (str (or_default p.cluster ""))
              (cons (str p.auth_endpoint) (cons (headers_json p.auth_headers) nil)))))))

unfoldable pub options_of : Props → Options
options_of p = record {
  ws_host = p.host;
  ws_port = or_default p.port 6001;
  wss_port = or_default p.port 6001;
  force_tls = or_default p.use_tls false;
  enabled_transports = "ws" ∷ "wss" ∷ [];
  cluster = or_default p.cluster "";
  auth_endpoint = p.auth_endpoint;
  auth_headers = p.auth_headers;
}

-- RegistryEntry
pub record Entry : Type 0 where
  pub pusher : ℕ
  pub refs : ℤ

-- the Map, in the order in which the keys were set
abbrev pub Registry : Type 0
Registry = List (String × Entry)

abbrev pub get : String → Registry → Option Entry
get key [] = none
get key ((k, entry) ∷ rest) = if k == key then some entry else get key rest

-- `entry.refs = ...`, on the object that the Map holds for the key
abbrev pub set_refs : String → ℤ → Registry → Registry
set_refs key refs [] = []
set_refs key refs ((k, entry) ∷ rest) =
    if k == key
    then (k, record entry { refs = refs }) ∷ rest
    else (k, entry) ∷ set_refs key refs rest

abbrev pub update {ℓ} : {A : Type ℓ} → (String → A) → String → A → String → A
update f key a k = if key == k then a else f k

module _ (lib : PusherJs) (stringify : Json → String) where
  open lib use {Client, make, connect, disconnect, is_disconnected}

  unfoldable pub config_key : Props → String
  unfolding config_json
  config_key p = stringify (config_json p)

  -- Places from `opened` on hold no client yet.
  pub record Page : Type 0 where
    pub registry : Registry
    pub opened : ℕ
    pub clients : ℕ → Client

  abbrev pub found_or_made : Props → Option Entry → Page → ℕ × Page
  found_or_made p (some entry) page = (entry.pusher, page)
  found_or_made p none page = (
    page.opened,
    record {
      registry =
          List.◌++◌ page.registry
            ((config_key p, record { pusher = page.opened; refs = pos 0 }) ∷ []);
      opened = suc page.opened;
      clients = place page.clients page.opened (make p.app_key (options_of p));
    },
  )

  -- `acquirePusher`, in the render of a provider
  unfoldable pub acquire_pusher : Props → Page → ℕ × Page
  unfolding config_key options_of
  acquire_pusher p page = found_or_made p (get (config_key p) page.registry) page

  abbrev pub reconnected : ℕ → (ℕ → Client) → ℕ → Client
  reconnected pusher clients =
      if is_disconnected (clients pusher)
      then place clients pusher (connect (clients pusher))
      else clients

  abbrev pub released : ℤ → ℕ → (ℕ → Client) → ℕ → Client
  released refs pusher clients =
      if not (ltb_ℤ (pos 0) refs)
      then place clients pusher (disconnect (clients pusher))
      else clients

  -- the effect
  unfoldable pub attach : String → ℕ → Page → Page
  attach key pusher page = elim (get key page.registry) [
    | none ↦ page
    | some entry ↦ record page {
      registry = set_refs key (entry.refs +ℤ pos 1) page.registry;
      clients = reconnected pusher page.clients;
    }
  ]

  -- its cleanup
  unfoldable pub detach : String → ℕ → Page → Page
  detach key pusher page = elim (get key page.registry) [
    | none ↦ page
    | some entry ↦
        let refs = entry.refs -ℤ pos 1 in
        record page {
          registry = set_refs key refs page.registry;
          clients = released refs pusher page.clients;
        }
  ]

  -- The page, how many providers are mounted for a key, and whether any ever was.
  pub record View : Type 0 where
    pub page : Page
    pub mounted : String → ℕ
    pub used : String → Bool

  -- React may render a provider any number of times, and commits or drops what was rendered.
  pub data Step (v : View) : View → Type 0 where
    render : (p : Props) → Step v (record v { page = (acquire_pusher p v.page).1 })
    mount :
        (p : Props)
        → Step v (
            let (pusher, page) = acquire_pusher p v.page in
            record {
              page = attach (config_key p) pusher page;
              mounted = update v.mounted (config_key p) (suc (v.mounted (config_key p)));
              used = update v.used (config_key p) true;
            })
    unmount :
        (p : Props)
        → 0 < v.mounted (config_key p)
        → Step v (record {
          used = v.used;
          page = detach (config_key p) (acquire_pusher p v.page).0 v.page;
          mounted = update v.mounted (config_key p) (v.mounted (config_key p) - 1);
        })

  pub data Reach (v : View) : View → Type 0 where
    start : Reach v v
    later : {u w : View} → Reach v u → Step u w → Reach v w
