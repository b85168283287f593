-- ===== src/Hub/Server/Race.antt =====
-- Proofs on the end of a connection in hub/server.py while another takes its session over.
use tsanet.Prelude.{
  ℕ, String, ◌≡◌, ◌≢◌, refl, ap, ◌∙◌, inr, true, false, none, some, List, [], ◌∷◌, ◌++◌, arith,
  ==_iff,
}
use tsanet.Errors.{Result}
use tsanet.Hub.Session.{Session, new_session}
use tsanet.Hub.Session.Laws.{admit_takeover}
use tsanet.Hub.Registry
use tsanet.Hub.Dispatcher.Laws.{owner}
use tsanet.Hub.State.{Hub}
use tsanet.Hub.Server.{
  Server, close, serve_start, serve_end, end_session, leave, admitted, entered, auto_select_device,
  free_devices, owns, without,
}
use tsanet.Hub.Server.Served.{listed, listed-append, listed-without}
use tsanet.Hub.Server.Reach.{auto_select-owner, owner-disconnect}

-- The owner's connection ends.
serve_end-owned :
    (c : ℕ) (s : Server) (incumbent : Session)
    → s.hub.sessions.current ≡ some incumbent
    → incumbent.connection ≡ c
    → serve_end c s ≡ record s { ending = c ∷ s.ending }
unfolding serve_end
serve_end-owned c s incumbent active mine =
    rw (ap (owns c) active ∙ (==_iff incumbent.connection c).1 mine, serve_end) refl

-- With the permission, a new connection has the session and is served.
pub serve_start-takeover :
    (told : Result (Unit {0})) (d : ℕ) (peer transport : String) (s : Server) (incumbent : Session)
    → s.hub.sessions.current ≡ some incumbent
    → s.hub.sessions.takeover_allowed ≡ true
    → let s' = serve_start told d peer transport s in
      (owner s'.hub.sessions ≡ some d)
      × (s'.serving ≡ s.serving ++ d ∷ [])
      × (s'.hub.sessions.closed ≡ s.hub.sessions.closed ++ incumbent.connection ∷ [])
unfolding serve_start admitted entered auto_select_device
serve_start-takeover told d peer transport s incumbent active allowed =
    let m = s.hub.sessions in
    let new : Session = new_session d peer transport s.hub.now in
    let h : Hub = record s.hub {
      sessions = record {
        current = some new;
        takeover_allowed = false;
        closed = m.closed ++ incumbent.connection ∷ [];
      };
    } in
    let (h', e, mine, unclosed) =
      auto_select-owner (free_devices (Registry.list h.registry)) h new refl in
    rw (admit_takeover d peer transport s.hub.now false m incumbent active (inr allowed))
      (rw e (mine, refl, unclosed))

listed-entered :
    (c d : ℕ) (serving : List ℕ) → d ≢ c → listed d (without c (serving ++ d ∷ [])) ≡ true
unfolding listed
listed-entered c d serving apart =
    listed-without d c (serving ++ d ∷ []) apart ∙ listed-append d serving (d ∷ []) ∙ ground arith

-- The `finally` of `_serve` can end a session that is not its connection's. The thread of the owner
-- finds the session its own; before it disconnects, a client comes that takes the session over with the
-- permission of `force_takeover`; then the first thread ends that client's session, and the hub goes on
-- serving the client without one.
pub end_session-race :
    (told : Result (Unit {0})) (c d : ℕ) (peer transport : String) (s : Server)
    (incumbent : Session)
    → s.hub.sessions.current ≡ some incumbent
    → incumbent.connection ≡ c
    → s.hub.sessions.takeover_allowed ≡ true
    → d ≢ c
    → let taken = serve_start told d peer transport (serve_end c s) in
      (owner taken.hub.sessions ≡ some d)
      × (owner (end_session c taken).hub.sessions ≡ none)
      × (listed d (end_session c taken).serving ≡ true)
unfolding end_session leave close
end_session-race told c d peer transport s incumbent active mine allowed apart =
    let noted : Server = record s { ending = c ∷ s.ending } in
    let taken = serve_start told d peer transport noted in
    let (new, served, _) =
      serve_start-takeover told d peer transport noted incumbent active allowed in
    rw (serve_end-owned c s incumbent active mine) (
      new,
      owner-disconnect taken.hub.sessions,
      ap (λ l. listed d (without c l)) served ∙ listed-entered c d s.serving apart,
    )
