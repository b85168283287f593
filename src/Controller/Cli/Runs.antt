-- ===== src/Controller/Cli/Runs.antt =====
-- Proofs on how the commands of controller/cli/app.py run, step by step.
use tsanet.Prelude.{
  Option-cases, inl, inr, append_assoc, ◌≡◌, refl, ap, String, true, false, Option, none, some,
  List, [], ◌∷◌, ◌++◌, fstring,
}
use tsanet.Prelude.Int.{ℤ}
use tsanet.Errors.{Error, Kind, ok, err, raise_error}
use tsanet.Config.{NetworkConfig}
use tsanet.Protocol.Value.{Value, Fields}
use tsanet.Controller.Parse.{parse_frequency}
use tsanet.Controller.Cli.{
  Effect, Code, where_is, pure, asked, complained, returns, exits, raises, status, Context, Command,
  Remote, Environment, continue, ◌>>=◌, tell, exit, on_remote, caught, load_config, rpc, refused,
  call, die, parsed, freq,
}

module _ {S A B : Type 0} (m : Command S A) (f : A → Command S B) {s s' : Context S} where
  pub bind-returns : {a : A} → m s ≡ (returns a, s') → (m >>= f) s ≡ f a s'
  unfolding ◌>>=◌
  bind-returns e = ap (continue f) e

  pub bind-raises : {x : Error} → m s ≡ (raises x, s') → (m >>= f) s ≡ (raises x, s')
  unfolding ◌>>=◌
  bind-raises e = ap (continue f) e

  pub bind-exits : {c : Code} → m s ≡ (exits c, s') → (m >>= f) s ≡ (exits c, s')
  unfolding ◌>>=◌
  bind-exits e = ap (continue f) e

-- What a command has done, one effect more.
abbrev pub done : {S : Type 0} → Effect → Context S → Context S
done e s = record s { log = s.log ++ e ∷ [] }

module _ {S : Type 0} (remote : Remote S) (env : Environment) where
  -- A call of a client that has connected.
  pub call-returns :
      (domain op : String) (args : Fields) (s : Context S) {v : Value} {t : S}
      → s.connected ≡ true
      → remote.call domain op args s.remote ≡ (ok v, t)
      → call remote env domain op args s
        ≡ (returns v, record (done (asked domain op args) s) { remote = t })
  unfolding call rpc ◌>>=◌ tell on_remote refused
  call-returns domain op args s connected e = rw (connected, rpc) (rw e refl)

  -- A call of a client that does not get to connect.
  pub call-unreachable :
      (domain op : String) (args : Fields) (t₀ : S) (log : List Effect) {c : NetworkConfig} {t : S}
      {why : String}
      → load_config env ≡ ok c
      → remote.connect c t₀ ≡ (err (record { kind = Kind.os_error; text = why }), t)
      → call remote env domain op args (record { remote = t₀; connected = false; log = log }) ≡ (
        exits (status 1),
        record {
          remote = t;
          connected = false;
          log =
              log
              ++ complained (fstring ("error: could not reach " ∷ where_is c ∷ ": " ∷ why ∷ []))
                ∷ [];
        },
      )
  unfolding call rpc ◌>>=◌ tell on_remote refused caught exit
  call-unreachable domain op args t₀ log loaded e = rw (loaded, rpc) (rw e refl)

module _ {S : Type 0} (env : Environment) where
  pub freq-returns :
      (raw : String) (s : Context S) {n : ℤ}
      → parse_frequency env.numbers raw ≡ ok n
      → freq env raw s ≡ (returns n, s)
  unfolding freq parsed pure
  freq-returns raw s e = rw (e, freq) refl

-- What `_die` says.
abbrev pub last_words : Option String → String → List Effect
last_words none msg = complained (fstring ("Error: " ∷ msg ∷ [])) ∷ []
last_words (some help) msg = complained help ∷ complained (fstring ("Error: " ∷ msg ∷ [])) ∷ []

module _ {S : Type 0} (env : Environment) where
  die-exits :
      {A : Type 0} (msg : String) (s : Context S)
      → die env {A = A} msg s
        ≡ (exits (status 1), record s { log = s.log ++ last_words env.help msg })
  unfolding die tell exit ◌>>=◌
  die-exits msg s = elim (Option-cases env.help) [
    | inl none_given ↦ rw (none_given, die) refl
    | inr (help, e) ↦
        rw (e, die)
          (ap (λ l. (exits (status 1), record s { log = l }))
            (append_assoc s.log (complained help ∷ []) _))
  ]

  pub freq-exits :
      (raw : String) (s : Context S) {why : String}
      → parse_frequency env.numbers raw ≡ raise_error Kind.value_error why
      → freq env raw s ≡ (exits (status 1), record s { log = s.log ++ last_words env.help why })
  unfolding freq parsed
  freq-exits raw s {why} e = rw (e, freq) (die-exits why s)
