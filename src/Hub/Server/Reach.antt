-- ===== src/Hub/Server/Reach.antt =====
-- hub/server.py: the steps that the hub's threads take, the states that they reach, and proofs on
-- these.
use tsanet.Prelude.{
  ℕ, String, ◌≡◌, refl, ap, ◌∙◌, inl, inr, true, false, Option, none, some, List, [], ◌∷◌, ◌++◌,
  arith, Bool-cases, Option-cases,
}
use tsanet.Errors.{Error, Kind, Result, ok, err}
use tsanet.Protocol.Messages.{Message, request_message, response_message, event_message}
use tsanet.Hub.Session.{
  Session, SessionManager, disconnect, select_device, evict_locked, new_session,
}
use tsanet.Hub.Session.Laws.{admit_free, admit_refused, admit_takeover}
use tsanet.Hub.Registry
use tsanet.Hub.Registry.{RegisteredDevice, DeviceRegistry, close_all}
use tsanet.Hub.State.{Library, Hub, SubscriptionManager}
use tsanet.Hub.Dispatcher.{route, dispatch}
use tsanet.Hub.Dispatcher.Laws.{owner, route-KeepsOwner}
use tsanet.Hub.Server.{
  Server, new_server, close, send, serve_start, serve_message, serve_end, end_session, leave, stop,
  reject, owns, without, admitted, entered, auto_select_device, auto_select_among, free_devices,
}
use tsanet.Hub.Server.Served.{
  listed, Served, Served-moves, Served-other, Served-none, Served-rejected, Served-added,
  unclosed-evicted, Served-owner,
}

-- The steps. A new connection has a number that none before it had; the poller may change the
-- registry and the clock in any way.
pub data Step (library : Library) : Server → Server → Type 0 where
  start :
      {s : Server} (told : Result (Unit {0})) (c : ℕ) (peer transport : String)
      → listed c s.serving ≡ false
      → listed c s.hub.sessions.closed ≡ false
      → Step library s (serve_start told c peer transport s)
  message :
      {s : Server} (c : ℕ) (m : Message)
      → listed c s.serving ≡ true
      → listed c s.ending ≡ false
      → Step library s (serve_message library c m s)
  end :
      {s : Server} (c : ℕ)
      → listed c s.serving ≡ true
      → listed c s.ending ≡ false
      → Step library s (serve_end c s)
  disconnecting : {s : Server} (c : ℕ) → listed c s.ending ≡ true → Step library s (end_session c s)
  poll :
      {s : Server} (registry : DeviceRegistry) (now : String)
      → Step library s (record s { hub = record s.hub { registry = registry; now = now } })
  halt : {s : Server} → Step library s (stop s)

pub IsServed : Server → Type 0
IsServed s = Served (owner s.hub.sessions) s.serving s.hub.sessions.closed

IsServed-message :
    (library : Library) (c : ℕ) (m : Message) (s : Server)
    → IsServed s
    → IsServed (serve_message library c m s)
unfolding IsServed serve_message send dispatch
IsServed-message library c (request_message r) s h =
    let kept = route-KeepsOwner library r s.hub in
    Served-moves (owner s.hub.sessions) (owner (route library r s.hub).1.sessions) s.serving
      s.hub.sessions.closed (route library r s.hub).1.sessions.closed kept.owner_kept
      kept.none_closed h
IsServed-message library c (response_message r) s h = h
IsServed-message library c (event_message e) s h = h

pub owner-disconnect : (m : SessionManager) → owner (disconnect m) ≡ none
unfolding disconnect evict_locked
owner-disconnect m = ground arith

IsServed-end : (c : ℕ) (s : Server) → IsServed s → IsServed (serve_end c s)
unfolding IsServed serve_end leave close
IsServed-end c s h =
    let m = s.hub.sessions in
    elim (Bool-cases (owns c m.current)) [
      | inl mine ↦ rw (mine, serve_end) h
      | inr not_mine ↦
          rw (not_mine, serve_end) (Served-other m.current c s.serving m.closed not_mine h)
    ]

IsServed-end_session : (c : ℕ) (s : Server) → IsServed (end_session c s)
unfolding IsServed end_session leave close
IsServed-end_session c s =
    let m = s.hub.sessions in
    Served-none (owner (disconnect m)) (without c s.serving) ((disconnect m).closed ++ c ∷ [])
      (owner-disconnect m)

-- A rejected connection is not the owner's.
IsServed-reject :
    (told : Result (Unit {0})) (c : ℕ) (e : Error) (s : Server)
    → listed c s.serving ≡ false
    → IsServed s
    → IsServed (reject told c e s)
unfolding IsServed reject close send
IsServed-reject (ok _) c e s unserved h =
    Served-rejected (owner s.hub.sessions) c s.serving s.hub.sessions.closed unserved h
IsServed-reject (err _) c e s unserved h = h

-- Selecting the only free device keeps the session with its connection.
pub auto_select-owner :
    (ds : List RegisteredDevice) (h : Hub) (t : Session)
    → h.sessions.current ≡ some t
    → (h' : Hub) × (auto_select_among ds h ≡ (ok tt, h'))
      × (owner h'.sessions ≡ some t.connection)
      × (h'.sessions.closed ≡ h.sessions.closed)
unfolding auto_select_among select_device
auto_select-owner [] h t e = (h, refl, rw e refl, refl)
auto_select-owner (d ∷ []) h t e = (
  record h {
    sessions = record h.sessions {
      current = some (record t { selected_device_id = some d.device_id });
    };
  },
  rw e refl,
  refl,
  refl,
)
auto_select-owner (d ∷ d' ∷ ds) h t e = (h, refl, rw e refl, refl)

IsServed-entered :
    (told : Result (Unit {0})) (c : ℕ) (h : Hub) (t : Session) (s : Server)
    → h.sessions.current ≡ some t
    → t.connection ≡ c
    → listed c h.sessions.closed ≡ false
    → IsServed (entered told c (auto_select_device h) s)
unfolding IsServed entered auto_select_device
IsServed-entered told c h t s active mine unclosed =
    let found = auto_select-owner (free_devices (Registry.list h.registry)) h t active in
    rw found.1 (
      Served-added (owner found.0.sessions) c s.serving found.0.sessions.closed
        (found.2 ∙ ap some mine) (ap (listed c) found.3 ∙ unclosed))

IsServed-start :
    (told : Result (Unit {0})) (c : ℕ) (peer transport : String) (s : Server)
    → listed c s.serving ≡ false
    → listed c s.hub.sessions.closed ≡ false
    → IsServed s
    → IsServed (serve_start told c peer transport s)
unfolding IsServed serve_start admitted
IsServed-start told c peer transport s unserved unclosed h =
    let m = s.hub.sessions in
    let new : Session = new_session c peer transport s.hub.now in
    elim (Option-cases m.current) [
      | inl e ↦ rw (admit_free c peer transport s.hub.now false m e) (
          IsServed-entered told c (record s.hub { sessions = record m { current = some new } }) new
            s refl refl unclosed)
      | inr (t, e) ↦ elim (Bool-cases m.takeover_allowed) [
        | inl allowed ↦ rw (admit_takeover c peer transport s.hub.now false m t e (inr allowed)) (
            IsServed-entered told c
              (record s.hub {
                sessions = record {
                  current = some new;
                  takeover_allowed = false;
                  closed = m.closed ++ t.connection ∷ [];
                };
              })
              new s refl refl
              (unclosed-evicted c t.connection s.serving m.closed
                (Served-owner m.current t s.serving m.closed e h) unserved unclosed))
        | inr unallowed ↦ rw (admit_refused c peer transport s.hub.now false m t e refl unallowed) (
            IsServed-reject told c
              (record { kind = Kind.session_busy; text = "a controller session is already active" })
              s unserved h)
      ]
    ]

IsServed-step : (library : Library) {s s' : Server} → Step library s s' → IsServed s → IsServed s'
unfolding IsServed stop
IsServed-step library {s} (start told c peer transport fresh unclosed) h =
    IsServed-start told c peer transport s fresh unclosed h
IsServed-step library {s} (message c m served running) h = IsServed-message library c m s h
IsServed-step library {s} (end c served running) h = IsServed-end c s h
IsServed-step library {s} (disconnecting c found) h = IsServed-end_session c s
IsServed-step library (poll registry now) h = h
IsServed-step library {s} halt h = ground arith

-- The states that the hub's threads reach from a server that was just made.
pub data Reach (library : Library) : Server → Type 0 where
  new :
      (registry : DeviceRegistry) (subscriptions : Option SubscriptionManager) (now : String)
      → Reach library (new_server registry subscriptions now)
  next : {s s' : Server} → Reach library s → Step library s s' → Reach library s'

-- In every state that the hub's threads reach, the session, if there is one, belongs to a connection
-- that the hub serves and has not closed.
pub Reach-IsServed : (library : Library) {s : Server} → Reach library s → IsServed s
unfolding IsServed
Reach-IsServed library (new registry subscriptions now) = tt
Reach-IsServed library (next r step) = IsServed-step library step (Reach-IsServed library r)
