-- ===== src/Hub/Session.antt =====
-- hub/session.py: the one session that the hub admits. A connection is an object with an identity,
-- here a number; the connections that were closed are listed in order.
pub mod Laws
use tsanet.Prelude.{
  ℕ, String, ◌≡◌, refl, Bool, true, false, not, ◌&&◌, Option, none, some, List, [], ◌∷◌, ◌++◌,
  if◌then◌else◌,
}
use tsanet.Errors.{Kind, Result, ok, err, Exec, raise}
use tsanet.Protocol.Value.{
  Value, Items, Fields, null, bool, text, float, dict, end, field, list, nil, cons,
}

pub record Session : Type 0 where
  pub connection : ℕ
  pub peer : String
  pub transport : String
  pub selected_device_id : Option String
  pub started_at : String

pub record SessionManager : Type 0 where
  pub current : Option Session
  pub takeover_allowed : Bool
  pub closed : List ℕ

-- `SessionManager()`
abbrev pub new_manager : SessionManager
new_manager = record { current = none; takeover_allowed = false; closed = [] }

-- `_evict_locked(close=...)`
unfoldable pub evict_locked : Bool → SessionManager → SessionManager
evict_locked close m = elim m.current [
  | none ↦ m
  | some s ↦ record m {
    current = none;
    closed = if close then m.closed ++ s.connection ∷ [] else m.closed;
  }
]

-- `Session(connection=..., peer=..., transport=...)`, started now
abbrev pub new_session : ℕ → String → String → String → Session
new_session connection peer transport now = record {
  connection = connection;
  peer = peer;
  transport = transport;
  selected_device_id = none;
  started_at = now;
}

-- `admit(connection, peer=..., transport=..., force=...)`
unfoldable pub admit : ℕ → String → String → Bool → String → Exec SessionManager Session
unfolding evict_locked
admit connection peer transport force now m =
    let session : Session = new_session connection peer transport now in
    elim m.current [
      | none ↦ (ok session, record m { current = some session })
      | some _ ↦
          if not force && not m.takeover_allowed
          then raise Kind.session_busy "a controller session is already active" m
          else (
            ok session,
            record (evict_locked true m) { takeover_allowed = false; current = some session },
          )
    ]

-- `disconnect()`
unfoldable pub disconnect : SessionManager → SessionManager
unfolding evict_locked
disconnect m = evict_locked false m

-- `select_device(device_id)`
unfoldable pub select_device : String → Exec SessionManager (Unit {0})
select_device device_id m = elim m.current [
  | none ↦ raise Kind.session_busy "no active session" m
  | some s ↦ (ok tt, record m { current = some (record s { selected_device_id = some device_id }) })
]

-- `allow_takeover()`
unfoldable pub allow_takeover : SessionManager → SessionManager
allow_takeover m = record m { takeover_allowed = true }

-- An optional text as a value.
abbrev pub text_or_null : Option String → Value
text_or_null none = null
text_or_null (some s) = text s

-- `status()`, with the seconds since the session started
unfoldable pub status : (String → String) → SessionManager → Value
status uptime m = elim m.current [
  | none ↦ dict (field "active" (bool false) end)
  | some s ↦ dict (
      field "active" (bool true) (
        field "peer" (text s.peer) (
          field "selected_device" (text_or_null s.selected_device_id)
            (field "uptime_seconds" (float (uptime s.started_at)) end))))
]

-- `list_sessions()`
unfoldable pub list_sessions : (String → String) → SessionManager → Value
list_sessions uptime m = elim m.current [
  | none ↦ list nil
  | some s ↦ list (
      cons
        (dict (
          field "peer" (text s.peer) (
            field "transport" (text s.transport) (
              field "selected_device" (text_or_null s.selected_device_id)
                (field "uptime_seconds" (float (uptime s.started_at)) end)))))
        nil)
]
