-- ===== src/Hub/Server/Laws.antt =====
-- Proofs on the life of a connection in hub/server.py.
use tsanet.Prelude.{◌≡◌, refl, none, arith, ℕ}
use tsanet.Protocol.Value.{Value, text}
use tsanet.Protocol.Messages.{Request, request_message}
use tsanet.Hub.Session.{disconnect}
use tsanet.Hub.State.{Library}
use tsanet.Hub.Dispatcher.{dispatch, route, handle_session}
use tsanet.Hub.Server.{Server, serve_message}

-- The request that ends the session.
abbrev pub disconnect_request : Value → Value → Request
disconnect_request id args = record {
  id = id;
  domain = text "session";
  op = text "disconnect";
  args = args;
}

-- `session.disconnect` ends the session, and the hub goes on serving the connection: it is neither
-- closed nor taken off the list, although `SessionManager.disconnect` leaves that to the server.
pub disconnect_keeps_serving :
    (library : Library) (c : ℕ) (id args : Value) (s : Server)
    → let s' = serve_message library c (request_message (disconnect_request id args)) s in
      (s'.hub.sessions.current ≡ none)
      × (s'.serving ≡ s.serving)
      × (s'.hub.sessions.closed ≡ s.hub.sessions.closed)
unfolding serve_message dispatch route handle_session disconnect
disconnect_keeps_serving library c id args s = (ground arith, refl, ground arith)
