-- ===== src/Hub/State.antt =====
-- The objects that the hub's threads share, and what enters from outside.
use tsanet.Prelude.{ℕ, String, Option}
use tsanet.Protocol.Value.{Value}
use tsanet.Protocol.Value.Access.{Floats}
use tsanet.Device.Png.{Zlib}
use tsanet.Hub.Session.{SessionManager}
use tsanet.Hub.Registry.{DeviceRegistry}

-- What the hub takes from libraries: floating point and zlib.
pub record Library : Type 0 where
  pub floats : Floats
  pub zlib : Zlib

-- A running subscription (`Subscription`): the device whose handle it holds, the connection that it
-- pushes to, what it was asked for, and its number.
pub record Subscription : Type 0 where
  pub device_id : String
  pub connection : ℕ
  pub ids : Value
  pub interval : Value
  pub subscription_id : ℕ

-- The fields of `SubscriptionManager`.
pub record SubscriptionManager : Type 0 where
  pub active : Option Subscription
  pub next_id : ℕ

-- The hub: its registry, its sessions, its subscriptions if it was given a manager, and the time.
pub record Hub : Type 0 where
  pub registry : DeviceRegistry
  pub sessions : SessionManager
  pub subscriptions : Option SubscriptionManager
  pub now : String
