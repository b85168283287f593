-- ===== src/Controller/RpcClient/Refused.antt =====
-- Proofs on a client that hub/server.py turns away: what controller/rpc_client.py makes of it.
use tsanet.Prelude.{ℕ, String, ◌≡◌, refl, false, some, [], ◌∷◌, ◌++◌}
use tsanet.Errors.{Kind, ok, raise_error}
use tsanet.Protocol.Value.Text.{str}
use tsanet.Protocol.Messages.{Response}
use tsanet.Hub.Session.{Session}
use tsanet.Hub.Session.Laws.{admit_refused}
use tsanet.Hub.Server.{Server, serve_start}
use tsanet.Controller.RpcClient.{
  RpcClient, waits, begin_call, finish_call, answer_of, place, dispatch_response, connect,
  new_client,
}

pub serve_start-refused_call :
    (c : ℕ) (peer transport : String) (s : Server) (incumbent : Session)
    → s.hub.sessions.current ≡ some incumbent
    → s.hub.sessions.takeover_allowed ≡ false
    → let s' = serve_start (ok tt) c peer transport s in
      (s'.hub.sessions.current ≡ some incumbent)
      × (s'.serving ≡ s.serving)
      × (s'.hub.sessions.closed ≡ s.hub.sessions.closed ++ c ∷ [])
      × (r : Response) × (s'.sent ≡ s.sent ++ (c, r) ∷ [])
      × (let told = dispatch_response r (connect new_client) in
          (id : ℕ) × ((begin_call (ok tt) told).0 ≡ waits id)
          × (c' : RpcClient) × (finish_call id (begin_call (ok tt) told).1
              ≡ some (raise_error Kind.rpc_error "a controller session is already active", c')))
unfolding serve_start begin_call finish_call dispatch_response connect answer_of place str
serve_start-refused_call c peer transport s incumbent active unallowed =
    rw
      (admit_refused c peer transport s.hub.now false s.hub.sessions incumbent active refl
        unallowed)
      (active, refl, refl, _, refl, (0, refl, _, refl))
