-- ===== src/Errors.antt =====
-- The exceptions of common/errors.py and the built-in ones that the code raises or catches. A call
-- that may raise returns a `Result`; what it wrote before it raised stays written, so a method
-- (`Exec`) returns the state beside the error too.
pub mod Chain
use tsanet.Prelude.{String, Bool, true, false, ◌≡◌, refl, ap, ◌∙◌, ◌⊎◌, inl, inr}

-- The class of an exception.
pub data Kind : Type 0 where
  tsanet_error device_error device_timeout protocol_error command_rejected : Kind
  transport_error connection_closed frame_error rpc_error : Kind
  session_error session_busy dispatch_error : Kind
  security_error authentication_error security_not_implemented_error : Kind
  value_error key_error type_error attribute_error assertion_error os_error : Kind
  overflow_error index_error : Kind
  socket_timeout unpack_exception : Kind

-- An exception: its class and `str(exc)`.
pub record Error : Type 0 where
  pub kind : Kind
  pub text : String

-- What `except DeviceError` catches.
abbrev pub is_device_error : Kind → Bool
is_device_error Kind.device_error = true
is_device_error Kind.device_timeout = true
is_device_error Kind.protocol_error = true
is_device_error Kind.command_rejected = true
is_device_error _ = false

-- What `except ValueError` and `except RpcError` catch.
abbrev pub is_value_error : Kind → Bool
is_value_error Kind.value_error = true
is_value_error _ = false

abbrev pub is_rpc_error : Kind → Bool
is_rpc_error Kind.rpc_error = true
is_rpc_error _ = false

pub data Result {ℓ} (A : Type ℓ) : Type ℓ where
  ok : A → Result A
  err : Error → Result A

-- Whether an outcome is an exception of a class.
abbrev pub raised : (Kind → Bool) → {A : Type 0} → Result A → Bool
raised test (ok a) = false
raised test (err e) = test e.kind

-- `raise kind(text)`
abbrev pub raise_error {ℓ} : {A : Type ℓ} → Kind → String → Result A
raise_error kind text = err (record { kind = kind; text = text })

-- A method on a state `S`.
abbrev pub Exec : Type 0 → Type 0 → Type 0
Exec S A = S → Result A × S

module _ {S A : Type 0} where
  abbrev pub pure : A → Exec S A
  pure a s = (ok a, s)

  abbrev pub fail : Error → Exec S A
  fail e s = (err e, s)

  abbrev pub raise : Kind → String → Exec S A
  raise kind text s = (raise_error kind text, s)

  abbrev pub lift : Result A → Exec S A
  lift r s = (r, s)

-- The rest of a block, after what its first step left.
abbrev pub continue : {S A B : Type 0} → (A → Exec S B) → Result A × S → Result B × S
continue f (ok a, s) = f a s
continue f (err e, s) = (err e, s)

infixl 5 ◌>>=◌ ◌>>◌
abbrev pub ◌>>=◌ : {S A B : Type 0} → Exec S A → (A → Exec S B) → Exec S B
◌>>=◌ m f s = continue f (m s)

abbrev pub ◌>>◌ : {S A B : Type 0} → Exec S A → Exec S B → Exec S B
m >> k = m >>= λ _. k

pub Result-cases {ℓ} :
    {A : Type ℓ} (r : Result A) → ((e : Error) × (r ≡ err e)) ⊎ ((a : A) × (r ≡ ok a))
Result-cases (ok a) = inr (a, refl)
Result-cases (err e) = inl (e, refl)

module _ {S A B : Type 0} (m : Exec S A) (f : A → Exec S B) {s s' : S} where
  -- A block goes on with what its first step returns, or ends with what that step raises.
  pub bind-ok : {a : A} → m s ≡ (ok a, s') → (m >>= f) s ≡ f a s'
  bind-ok e = ap (continue f) e

  pub bind-err : {x : Error} → m s ≡ (err x, s') → (m >>= f) s ≡ (err x, s')
  bind-err e = ap (continue f) e

-- What each step of a block leaves alone, the block leaves alone.
module _ {S A B X : Type 0} (view : S → X) where
  continue-keeps :
      (k : A → Exec S B) (r : Result A × S)
      → ((a : A) (s : S) → view (k a s).1 ≡ view s)
      → view (continue k r).1 ≡ view r.1
  continue-keeps k (ok a, s) h = h a s
  continue-keeps k (err e, s) h = refl

  pub bind-keeps :
      (m : Exec S A) (k : A → Exec S B)
      → ((s : S) → view (m s).1 ≡ view s)
      → ((a : A) (s : S) → view (k a s).1 ≡ view s)
      → (s : S) → view ((m >>= k) s).1 ≡ view s
  bind-keeps m k hm hk s = continue-keeps k (m s) hk ∙ hm s
