-- ===== src/Hub/Server.antt =====
-- hub/server.py: the life of a connection. The threads of the connections are steps on one state,
-- each step a piece of code between two waits for the network. Connections are numbers.
pub mod Laws
pub mod Served
pub mod Reach
pub mod Race
use tsanet.Prelude.{
  ℕ, String, Bool, true, false, not, ◌&&◌, Option, none, some, List, [], ◌∷◌, ◌++◌, ◌==◌, ◌≡◌,
  if◌then◌else◌,
}
use tsanet.Prelude.Int.{pos}
use tsanet.Errors.{Error, Kind, Result, ok, err}
use tsanet.Protocol.Value.{Value, null, int, text}
use tsanet.Protocol.Messages.{
  Request, Response, Message, request_message, response_message, event_message, error_status,
}
use tsanet.Hub.Session.{new_manager, Session, SessionManager, admit, disconnect, select_device}
use tsanet.Hub.Registry
use tsanet.Hub.Registry.{RegisteredDevice, DeviceRegistry, close_all}
use tsanet.Hub.State.{Library, Hub, SubscriptionManager}
use tsanet.Hub.Subscriptions.{shutdown}
use tsanet.Hub.Dispatcher.{dispatch}

-- The hub, the connections whose `_serve` runs, those of them whose `finally` has found the session
-- theirs and is about to end it, what was sent to each connection, and `_running`.
pub record Server : Type 0 where
  pub hub : Hub
  pub serving : List ℕ
  pub ending : List ℕ
  pub sent : List (ℕ × Response)
  pub running : Bool

-- `HubServer(...)`, started, with no connection yet
abbrev pub new_server : DeviceRegistry → Option SubscriptionManager → String → Server
new_server registry subscriptions now = record {
  hub = record {
    registry = registry;
    sessions = new_manager;
    subscriptions = subscriptions;
    now = now;
  };
  serving = [];
  ending = [];
  sent = [];
  running = true;
}

-- `connection.close()`
unfoldable pub close : ℕ → Server → Server
close c s = record s {
  hub = record s.hub {
    sessions = record s.hub.sessions { closed = s.hub.sessions.closed ++ c ∷ [] };
  };
}

-- `connection.send(response)`
unfoldable pub send : ℕ → Response → Server → Server
send c response s = record s { sent = s.sent ++ (c, response) ∷ [] }

-- `[d for d in devices if not d.busy]`
free_devices : List RegisteredDevice → List RegisteredDevice
free_devices [] = []
free_devices (d ∷ rest) = if d.busy then free_devices rest else d ∷ free_devices rest

pub auto_select_among : List RegisteredDevice → Hub → Result (Unit {0}) × Hub
auto_select_among (d ∷ []) h =
    let (r, sessions) = select_device d.device_id h.sessions in
    (r, record h { sessions = sessions })
auto_select_among _ h = (ok tt, h)

-- `_auto_select_device()`
unfoldable pub auto_select_device : Hub → Result (Unit {0}) × Hub
unfolding auto_select_among free_devices
auto_select_device h = auto_select_among (free_devices (Registry.list h.registry)) h

-- `except SessionBusy`: the client is told, with the id 0, and hung up on; `told` is what
-- `connection.send` comes to, and an exception of it leaves `_serve` without the `close`.
unfoldable pub reject : Result (Unit {0}) → ℕ → Error → Server → Server
unfolding close send
reject (ok _) c e s = close c (
    send c (record { id = int (pos 0); status = error_status; payload = null; error = text e.text })
      s)
reject (err _) c e s = s

-- The end of `_serve`'s first `try`: on to the request loop, or out.
entered : Result (Unit {0}) → ℕ → Result (Unit {0}) × Hub → Server → Server
entered told c (ok _, h) s = record s { hub = h; serving = s.serving ++ c ∷ [] }
entered told c (err e, h) s = reject told c e (record s { hub = h })

admitted : Result (Unit {0}) → ℕ → Result Session × SessionManager → Server → Server
admitted told c (err e, m) s = reject told c e (record s { hub = record s.hub { sessions = m } })
admitted told c (ok _, m) s = entered told c (auto_select_device (record s.hub { sessions = m })) s

-- The first half of `_serve`, up to the request loop. `peer` is what `getpeername` gave.
unfoldable pub serve_start : Result (Unit {0}) → ℕ → String → String → Server → Server
unfolding entered admitted auto_select_device reject
serve_start told c peer transport s =
    admitted told c (admit c peer transport false s.hub.now s.hub.sessions) s

-- One round of `_request_loop`, for a message that came on the connection.
unfoldable pub serve_message : Library → ℕ → Message → Server → Server
unfolding send
serve_message library c (request_message request) s =
    let (response, h) = dispatch library request s.hub in send c response (record s { hub = h })
serve_message library c (response_message _) s = s
serve_message library c (event_message _) s = s

-- A connection leaves the list of those that are served.
abbrev pub without : ℕ → List ℕ → List ℕ
without c [] = []
without c (d ∷ rest) = if d == c then without c rest else d ∷ without c rest

-- Whether the session belongs to the connection.
abbrev pub owns : ℕ → Option Session → Bool
owns c none = false
owns c (some s) = s.connection == c

-- The last line of the `finally`, `connection.close()`: the thread ends.
unfoldable pub leave : ℕ → Server → Server
unfolding close
leave c s = close c (record s { serving = without c s.serving; ending = without c s.ending })

-- The `finally` of `_serve` up to its test: whether the connection still owns the session is read
-- without the lock of the sessions, so that other threads run before it acts on that.
unfoldable pub serve_end : ℕ → Server → Server
unfolding leave
serve_end c s =
    if owns c s.hub.sessions.current then record s { ending = c ∷ s.ending } else leave c s

-- `self._sessions.disconnect()`, which ends the session that there is by then, and the end.
unfoldable pub end_session : ℕ → Server → Server
unfolding leave
end_session c s = leave c (record s { hub = record s.hub { sessions = disconnect s.hub.sessions } })

-- `self._subscriptions.shutdown()`
shut : Option SubscriptionManager → Option SubscriptionManager
shut none = none
shut (some m) = some (shutdown m)

-- `stop()`: the poller's thread and the listener are not part of the state.
unfoldable pub stop : Server → Server
unfolding shut shutdown
stop s =
    if s.running
    then record s {
      running = false;
      hub = record s.hub {
        subscriptions = shut s.hub.subscriptions;
        registry = close_all s.hub.registry;
      };
    }
    else s
