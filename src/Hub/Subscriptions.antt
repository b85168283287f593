-- ===== src/Hub/Subscriptions.antt =====
-- hub/subscriptions.py: the manager, which owns at most one subscription.
pub mod Loop
pub mod Laws
use tsanet.Prelude.{ℕ, suc, ◌+◌, String, Bool, true, false, Option, none, some, if◌then◌else◌}
use tsanet.Prelude.Int.{pos}
use tsanet.Errors.{Error, Kind, Result, ok, err, raise_error, Exec, raise}
use tsanet.Protocol.Value.{Value, bool, int, dict, end, field}
use tsanet.Hub.Session.{Session, SessionManager}
use tsanet.Hub.Registry.{DeviceRegistry, RegisteredDevice, get}
use tsanet.Hub.State.{Subscription, SubscriptionManager}

abbrev pub new_subscriptions : SubscriptionManager
new_subscriptions = record { active = none; next_id = 0 }

-- `_stop_locked()`: the thread is told to stop, and forgotten.
unfoldable pub stop_locked : SubscriptionManager → SubscriptionManager
stop_locked m = record m { active = none }

-- `subscribe(ids, interval)` with the device that the session has selected.
start_on : Value → Value → ℕ → String → Result RegisteredDevice → Exec SubscriptionManager Value
start_on ids interval connection device_id (err e) m = (err e, m)
start_on ids interval connection device_id (ok _) m = (
  ok (dict (field "subscription_id" (int (pos m.next_id)) (field "active" (bool true) end))),
  record {
    active = some (record {
      device_id = device_id;
      connection = connection;
      ids = ids;
      interval = interval;
      subscription_id = m.next_id;
    });
    next_id = m.next_id + 1;
  },
)

start_for : Value → Value → DeviceRegistry → Option Session → Exec SubscriptionManager Value
start_for ids interval registry none m = raise Kind.session_error "no active session" m
start_for ids interval registry (some s) m = elim s.selected_device_id [
  | none ↦ raise Kind.dispatch_error "no device selected" m
  | some device_id ↦ start_on ids interval s.connection device_id (get device_id registry) m
]

-- `subscribe(ids, interval)`: any subscription is stopped first, also if no other can be started.
unfoldable pub subscribe :
    Value → Value → DeviceRegistry → SessionManager → Exec SubscriptionManager Value
unfolding stop_locked start_for start_on
subscribe ids interval registry sessions m =
    start_for ids interval registry sessions.current (stop_locked m)

-- `unsubscribe()`
unfoldable pub unsubscribe : Exec SubscriptionManager Value
unfolding stop_locked
unsubscribe m = (ok (dict (field "active" (bool false) end)), stop_locked m)

-- `active()`
unfoldable pub is_active : SubscriptionManager → Bool
is_active m = elim m.active [ none ↦ false | some _ ↦ true ]

-- `shutdown()`
unfoldable pub shutdown : SubscriptionManager → SubscriptionManager
unfolding stop_locked
shutdown m = stop_locked m
