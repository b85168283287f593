-- ===== src/Controller/Cli/Keeps.antt =====
-- Proofs on the commands of controller/cli/app.py: one rule for each way to build a command.
use tsanet.Prelude.{
  ◌≡◌, ◌⊎◌, ◌&&◌, str_eq, str_mem, refl, Bool, true, false, Option, none, some, String, List, [],
  ◌∷◌, ◌++◌, All, fstring, if◌then◌else◌, Bool-cases, Option-cases, inl, inr,
}
use tsanet.Prelude.Int.{ℤ}
use tsanet.Errors.{Error, Result, Result-cases, ok, err, is_value_error}
use tsanet.Config.{NetworkConfig}
use tsanet.Protocol.Value.{Value, Fields, null, text, end, field}
use tsanet.Protocol.Value.Text.{str}
use tsanet.Hub.State.{Library}
use tsanet.Hub.Dispatcher.Ready.{IsUnderstood}
use tsanet.Controller.Parse.{parse_frequency}
use tsanet.Controller.Cli.{
  Effect, asked, printed, complained, printed_raw, wrote, Code, status, Outcome, returns, exits,
  raises, Remote, Environment, Context, Command, continue, ◌>>=◌, ◌>>◌, pure, exit, raise, lift,
  is_refused, is_os_error, where_is, tell, echo_value, give_up, load_config, on_remote, ask, select,
  caught, rpc, refused, call, die, parsed, freq, choose,
}

All-append :
    {A : Type 0} (P : A → Type 0) (xs : List A) (x : A) → All P xs → P x → All P (xs ++ x ∷ [])
All-append P [] x all here = (here, tt)
All-append P (y ∷ xs) x (first, all) here = (first, All-append P xs x all here)

-- Whether a command sends it, and not `--device`, which names a device that the hub may not know.
abbrev pub is_select : String → String → Bool
is_select domain op = str_eq domain "devices" && str_eq op "select"

module _ (library : Library) where
  -- A request that the hub understands; anything else that a command does.
  abbrev pub IsSound : Effect → Type 0
  IsSound (asked domain op args) =
      (is_select domain op ≡ true) ⊎ IsUnderstood library domain op args
  IsSound (printed line) = Unit
  IsSound (complained line) = Unit
  IsSound (printed_raw line) = Unit
  IsSound (wrote path v) = Unit

  pub record Keeps {S A : Type 0} (m : Command S A) : Type 0 where
    pub at : (s : Context S) → All IsSound s.log → All IsSound (m s).1.log

module _ {library : Library} {S A : Type 0} where
  pub Keeps-pure : (a : A) → Keeps library {S = S} (pure a)
  unfolding pure
  Keeps-pure a = record { at = λ s h. h }

  pub Keeps-exit : (c : Code) → Keeps library {S = S} {A = A} (exit c)
  unfolding exit
  Keeps-exit c = record { at = λ s h. h }

  pub Keeps-raise : (e : Error) → Keeps library {S = S} {A = A} (raise e)
  unfolding raise
  Keeps-raise e = record { at = λ s h. h }

  pub Keeps-lift : (r : Result A) → Keeps library {S = S} (lift r)
  unfolding lift
  Keeps-lift r = record { at = λ s h. h }

  pub Keeps-if :
      (b : Bool) (m n : Command S A)
      → Keeps library m
      → Keeps library n
      → Keeps library (if b then m else n)
  Keeps-if true m n hm hn = hm
  Keeps-if false m n hm hn = hn

module _ {library : Library} {S A B : Type 0} where
  Keeps-continue :
      (f : A → Command S B) (r : Outcome A × Context S)
      → ((a : A) → Keeps library (f a))
      → All (IsSound library) r.1.log
      → All (IsSound library) (continue f r).1.log
  Keeps-continue f (returns a, s) hf h = (hf a).at s h
  Keeps-continue f (exits c, s) hf h = h
  Keeps-continue f (raises e, s) hf h = h

  pub Keeps-bind :
      (m : Command S A) (f : A → Command S B)
      → Keeps library m
      → ((a : A) → Keeps library (f a))
      → Keeps library (m >>= f)
  unfolding ◌>>=◌
  Keeps-bind m f hm hf = record { at = λ s h. Keeps-continue f (m s) hf (hm.at s h) }

module _ {library : Library} {S : Type 0} where
  Keeps-tell : (e : Effect) → IsSound library e → Keeps library {S = S} (tell e)
  unfolding tell
  Keeps-tell e sound = record { at = λ s h. All-append (IsSound library) s.log e h sound }

  pub Keeps-echo : (line : String) → Keeps library {S = S} (tell (printed line))
  Keeps-echo line = Keeps-tell (printed line) tt

  pub Keeps-complain : (line : String) → Keeps library {S = S} (tell (complained line))
  Keeps-complain line = Keeps-tell (complained line) tt

  pub Keeps-echo_raw : (line : String) → Keeps library {S = S} (tell (printed_raw line))
  Keeps-echo_raw line = Keeps-tell (printed_raw line) tt

  pub Keeps-wrote : (path : String) (v : Value) → Keeps library {S = S} (tell (wrote path v))
  Keeps-wrote path v = Keeps-tell (wrote path v) tt

  pub Keeps-give_up : {A : Type 0} (line : String) → Keeps library {S = S} {A = A} (give_up line)
  Keeps-give_up line =
      Keeps-bind (tell (complained line)) (λ _. exit (status 1)) (Keeps-complain line)
        (λ _. Keeps-exit (status 1))

  pub Keeps-echo_value : (v : Value) → Keeps library {S = S} (echo_value v)
  unfolding echo_value
  Keeps-echo_value null = Keeps-echo ""
  Keeps-echo_value v = Keeps-echo (str v)

  pub Keeps-choose :
      (members : List String) (value : String) → Keeps library {S = S} (choose members value)
  unfolding choose
  Keeps-choose members value =
      Keeps-if (str_mem value members) (pure value) (exit (status 2)) (Keeps-pure value)
        (Keeps-exit (status 2))

pub ruleset keeps_rules = (
  Keeps-pure, Keeps-exit, Keeps-raise, Keeps-lift, Keeps-if, Keeps-bind, Keeps-echo, Keeps-complain,
  Keeps-echo_raw, Keeps-wrote, Keeps-echo_value, Keeps-choose, Keeps-give_up,
)

module _ {library : Library} {S : Type 0} (env : Environment) where
  pub Keeps-die : {A : Type 0} (msg : String) → Keeps library {S = S} {A = A} (die env msg)
  unfolding die
  Keeps-die msg = elim (Option-cases env.help) [
    | inl none_given ↦ rw (none_given, die) (Keeps-give_up _)
    | inr (help, e) ↦ rw (e, die) (search keeps_rules)
  ]

  Keeps-parsed : (r : Result ℤ) → Keeps library {S = S} (parsed env r)
  unfolding parsed
  Keeps-parsed (ok n) = Keeps-pure n
  Keeps-parsed (err e) =
      Keeps-if (is_value_error e.kind) (die env e.text) (raise e) (Keeps-die e.text) (Keeps-raise e)

  pub Keeps-freq : (raw : String) → Keeps library {S = S} (freq env raw)
  unfolding freq
  Keeps-freq raw = Keeps-parsed (parse_frequency env.numbers raw)

module _ (library : Library) {S : Type 0} (remote : Remote S) (env : Environment) where
  Keeps-on_remote : {A : Type 0} (m : S → Result A × S) → Keeps library (on_remote remote env m)
  unfolding on_remote
  Keeps-on_remote m = record { at = λ s h. h }

  Keeps-ask :
      (domain op : String) (args : Fields)
      → IsSound library (asked domain op args)
      → Keeps library (ask remote env domain op args)
  Keeps-ask domain op args sound =
      Keeps-bind (tell (asked domain op args))
        (λ _. on_remote remote env (remote.call domain op args))
        (Keeps-tell (asked domain op args) sound)
        (λ _. Keeps-on_remote (remote.call domain op args))

  Keeps-select : (id : Option String) → Keeps library (select remote env id)
  unfolding select
  Keeps-select none = Keeps-pure tt
  Keeps-select (some id) =
      Keeps-bind (ask remote env "devices" "select" (field "device_id" (text id) end))
        (λ _. pure tt) (Keeps-ask "devices" "select" (field "device_id" (text id) end) (inl refl))
        (λ _. Keeps-pure tt)

  caught-keeps_log :
      (c : NetworkConfig) (r : Outcome (Unit {0}) × Context S)
      → All (IsSound library) r.1.log
      → All (IsSound library) (caught remote env c r).1.log
  unfolding caught
  caught-keeps_log c (returns _, s) h = h
  caught-keeps_log c (exits code, s) h = h
  caught-keeps_log c (raises e, s) h =
      (Keeps-if (is_refused e.kind) (give_up (fstring ("error: " ∷ e.text ∷ [])))
          (if is_os_error e.kind
            then give_up (fstring ("error: could not reach " ∷ where_is c ∷ ": " ∷ e.text ∷ []))
            else raise e)
          (Keeps-give_up _)
          (Keeps-if (is_os_error e.kind) (give_up _) (raise e) (Keeps-give_up _)
            (Keeps-raise e))).at
        s h

  Keeps-rpc : Keeps library (rpc remote env)
  unfolding rpc
  Keeps-rpc = record {
    at = λ s h. elim (Bool-cases s.connected) [
      | inl connected ↦ rw (connected, rpc) h
      | inr new ↦ elim (Result-cases (load_config env)) [
        | inl (e, failed) ↦ rw (new, failed, rpc) h
        | inr (c, loaded) ↦
            rw (new, loaded, rpc)
              (caught-keeps_log c
                ((on_remote remote env (remote.connect c) >> select remote env env.selected_device)
                  s)
                ((Keeps-bind (on_remote remote env (remote.connect c))
                    (λ _. select remote env env.selected_device)
                    (Keeps-on_remote (remote.connect c)) (λ _. Keeps-select env.selected_device)).at
                  s h))
      ]
    ];
  }

  refused-keeps_log :
      {A : Type 0} (r : Outcome A × Context S)
      → All (IsSound library) r.1.log
      → All (IsSound library) (refused remote env r).1.log
  unfolding refused
  refused-keeps_log (returns a, s) h = h
  refused-keeps_log (exits c, s) h = h
  refused-keeps_log (raises e, s) h = h

  -- A call keeps the log sound if the hub understands its request.
  pub Keeps-call :
      (domain op : String) (args : Fields)
      → IsUnderstood library domain op args
      → Keeps library (call remote env domain op args)
  unfolding call
  Keeps-call domain op args understood = record {
    at = λ s h. refused-keeps_log ((rpc remote env >> ask remote env domain op args) s) (
        (Keeps-bind (rpc remote env) (λ _. ask remote env domain op args) Keeps-rpc
            (λ _. Keeps-ask domain op args (inr understood))).at
          s h);
  }

pub ruleset command_rules = (keeps_rules, Keeps-call, Keeps-freq, Keeps-die)
