-- ===== src/Hub/Examples.antt =====
-- The hub's theorems on sessions and connections at concrete ones, and what its tests share.
mod Devices
use tsanet.Prelude.{arith, ◌≡◌, refl, ◌⊎◌, if◌then◌else◌, none, some, [], ◌∷◌, ◌++◌, true, false}
use tsanet.Prelude.Int.{pos}
use tsanet.Errors.{Kind, ok, raise_error}
use tsanet.Protocol.Value.{null, int, text, list, nil, dict, end}
use tsanet.Protocol.Messages.{Request, request_message, error_status}
use tsanet.Hub.Session.{Session, SessionManager, new_session, admit, disconnect, allow_takeover}
use tsanet.Hub.Session.Laws.{admit_one_session, takeover_outlives_admission}
use tsanet.Hub.Registry.{empty}
use tsanet.Hub.State.{Library}
use tsanet.Hub.Dispatcher.{route}
use tsanet.Hub.Subscriptions.{new_subscriptions, subscribe}
use tsanet.Hub.Subscriptions.Laws.{Subscribed, subscribe_outcome}
use tsanet.Hub.Dispatcher.Laws.{KeepsOwner, route-KeepsOwner, owner}
use tsanet.Hub.Server.{Server, new_server, serve_start, serve_message, serve_end, end_session}
use tsanet.Hub.Server.Laws.{disconnect_request, disconnect_keeps_serving}
use tsanet.Hub.Server.Race.{end_session-race}
use tsanet.Hub.Server.Served.{listed}
use tsanet.Hub.Server.Reach.{IsServed, start, new, next, Reach-IsServed}

-- Arithmetic that no example reaches, and a zlib that stores.
abbrev pub library : Library
library = record {
  floats = record {
    greater = λ a b. false;
    float_of = λ s. none;
    int_of = λ s. raise_error Kind.value_error s;
    elapsed = λ now started. "0.0";
  };
  zlib = record { compress = λ raw. raw; crc32 = λ bytes. 0 };
}

abbrev pub incumbent : Session
incumbent = new_session 3 "peer" "tcp" "0.0"

abbrev occupied : SessionManager
occupied = record { current = some incumbent; takeover_allowed = false; closed = [] }

abbrev yielding : SessionManager
yielding = record { current = some incumbent; takeover_allowed = true; closed = [] }

admit_one_session_example :
    let (r, m') = admit 4 "other" "tcp" false "1.0" yielding in
    ((false ≡ false)
      × (true ≡ false)
      × (r ≡ raise_error Kind.session_busy "a controller session is already active")
      × (m' ≡ yielding))
    ⊎ (((false ≡ true) ⊎ (true ≡ true))
        × (r ≡ ok (new_session 4 "other" "tcp" "1.0"))
        × (m'.current ≡ some (new_session 4 "other" "tcp" "1.0"))
        × (m'.takeover_allowed ≡ false)
        × (m'.closed ≡ 3 ∷ []))
admit_one_session_example = admit_one_session 4 "other" "tcp" "1.0" false yielding incumbent refl

takeover_outlives_admission_example :
    let m₁ = (admit 1 "p" "tcp" false "0.0" (disconnect (allow_takeover occupied))).1 in
    (m₁.current ≡ some (new_session 1 "p" "tcp" "0.0"))
    × (m₁.takeover_allowed ≡ true)
    × (admit 2 "p" "tcp" false "0.0" m₁ ≡ (
      ok (new_session 2 "p" "tcp" "0.0"),
      record {
        current = some (new_session 2 "p" "tcp" "0.0");
        takeover_allowed = false;
        closed = m₁.closed ++ 1 ∷ [];
      },
    ))
takeover_outlives_admission_example = takeover_outlives_admission 1 2 "p" "tcp" "0.0" occupied

-- A hub whose session belongs to connection 3.
abbrev busy_server : Server
busy_server = record {
  hub = record { registry = empty; sessions = occupied; subscriptions = none; now = "1.0" };
  serving = 3 ∷ [];
  ending = [];
  sent = [];
  running = true;
}

abbrev ending_request : Request
ending_request = record {
  id = int (pos 1);
  domain = text "session";
  op = text "disconnect";
  args = dict end;
}

route-KeepsOwner_example :
    KeepsOwner busy_server.hub.sessions (route library ending_request busy_server.hub).1.sessions
route-KeepsOwner_example = route-KeepsOwner library ending_request busy_server.hub

disconnect_keeps_serving_example :
    let s' = serve_message library 3 (request_message (disconnect_request null null)) busy_server in
    (s'.hub.sessions.current ≡ none) × (s'.serving ≡ 3 ∷ []) × (s'.hub.sessions.closed ≡ [])
disconnect_keeps_serving_example = disconnect_keeps_serving library 3 null null busy_server

-- The session of connection 3, which has permitted a takeover.
abbrev yielding_server : Server
yielding_server = record busy_server { hub = record busy_server.hub { sessions = yielding } }

end_session-race_example :
    let taken = serve_start (ok tt) 4 "other" "tcp" (serve_end 3 yielding_server) in
    (owner taken.hub.sessions ≡ some 4)
    × (owner (end_session 3 taken).hub.sessions ≡ none)
    × (listed 4 (end_session 3 taken).serving ≡ true)
end_session-race_example =
    end_session-race (ok tt) 3 4 "other" "tcp" yielding_server incumbent refl refl refl
      (λ e. omega (arith, e))

subscribe_outcome_example :
    Subscribed
      (list nil)
      new_subscriptions
      occupied.current
      (subscribe (list nil) null empty occupied)
subscribe_outcome_example = subscribe_outcome (list nil) null empty occupied new_subscriptions

-- A server on which connection 1 has come.
abbrev one_connection : Server
one_connection = serve_start (ok tt) 1 "peer" "tcp" (new_server empty none "0.0")

Reach-IsServed_example : IsServed one_connection
unfolding listed
Reach-IsServed_example =
    Reach-IsServed library {s = one_connection}
      (next (new empty none "0.0") (start (ok tt) 1 "peer" "tcp" refl refl))
