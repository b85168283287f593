-- ===== src/Hub/Subscriptions/Laws.antt =====
-- Proofs on the manager and the loop of hub/subscriptions.py.
use tsanet.Prelude.{
  ℕ, zero, suc, String, ◌≡◌, refl, sym, ap, ap₂, ◌∙◌, ◌⊎◌, inl, inr, Bool, true, false, Option,
  none, some, List, [], ◌∷◌, Bool-cases, Option-cases, ◌<◌, ◌++◌, replicate, arith,
}
use tsanet.Prelude.Int.{ℤ, pos, eq_ℤ, eq_ℤ_iff}
use tsanet.Prelude.Dict.{Dict}
use tsanet.Errors.{Error, Result-cases, Exec, ok, err}
use tsanet.Protocol.Value.{Value, dict, field, end, int, bool}
use tsanet.Protocol.Value.Access.{Floats, iterate}
use tsanet.Device.Link.{TinySa}
use tsanet.Hub.Session.{Session, SessionManager}
use tsanet.Hub.Registry.{DeviceRegistry, get}
use tsanet.Hub.State.{Subscription, SubscriptionManager}
use tsanet.Hub.Subscriptions.{subscribe, start_for, start_on, stop_locked}
use tsanet.Hub.Subscriptions.Loop.{
  Update, delivered, LoopState, fetch_frequencies, fetch_traces, push, same_frequencies, is_news,
  finish_cycle, after_traces, cycle, cycles, start, run,
}

-- The frequency axis that a controller has after the updates: the last that came with one.
abbrev pub newer : Update → Option (List ℤ) → Option (List ℤ)
newer u last = elim u.frequencies [ none ↦ last | some f ↦ some f ]

unfoldable pub axis : Option (List ℤ) → List Update → Option (List ℤ)
axis last [] = last
axis last (u ∷ us) = axis (newer u last) us

axis-append :
    (last : Option (List ℤ)) (us : List Update) (u : Update)
    → axis last (us ++ u ∷ []) ≡ newer u (axis last us)
unfolding axis
axis-append last [] u = refl
axis-append last (v ∷ us) u = axis-append (newer v last) us u

-- What the device was last read to have for frequencies after some cycles, of which those count that
-- read every trace; an answer that cannot be read leaves the one before.
abbrev pub or_last : Option (List ℤ) → Option (List ℤ) → Option (List ℤ)
or_last none last = last
or_last (some f) last = some f

unfoldable pub last_read : Floats → List Value → ℕ → Option (List ℤ) → TinySa → Option (List ℤ)
last_read floats ids zero last tx = last
last_read floats ids (suc n) last tx =
    let (traces, tx₁) = fetch_traces floats ids [] tx in
    let (freqs, tx₂) = fetch_frequencies floats tx₁ in
    elim traces [
      | none ↦ last_read floats ids n last tx₁
      | some _ ↦ last_read floats ids n (or_last freqs last) tx₂
    ]

-- The frequencies that the device was last read to have in a whole subscription.
abbrev pub axis_read : Floats → Value → ℕ → TinySa → Option (List ℤ)
axis_read floats ids n tx =
    let (freqs, tx') = fetch_frequencies floats tx in
    elim (iterate ids) [ ok l ↦ last_read floats l n freqs tx' | err _ ↦ freqs ]

same_frequencies-eq : (a b : List ℤ) → same_frequencies a b ≡ true → a ≡ b
unfolding same_frequencies
same_frequencies-eq [] [] e = refl
same_frequencies-eq [] (y ∷ b) e = cc e
same_frequencies-eq (x ∷ a) [] e = cc e
same_frequencies-eq (x ∷ a) (y ∷ b) e = elim (Bool-cases (eq_ℤ x y)) [
  | inl same ↦ ap₂ (λ z l. z ∷ l) ((eq_ℤ_iff x y).0 same) (same_frequencies-eq a b (rw same at e))
  | inr other ↦ cc (rw other at e)
]

-- The loop goes on; the axis that was pushed is `last_freqs`, which is the one that was read; and the
-- handle is where the reading left it.
abbrev IsShown : Option (List ℤ) → TinySa → Bool × LoopState → Type 0
IsShown last tx (again, s) =
    (again ≡ true) × (axis none s.pushed ≡ last) × (s.last_freqs ≡ last) × (s.tx ≡ tx)

not_news : (f : List ℤ) (last : Option (List ℤ)) → is_news (some f) last ≡ false → last ≡ some f
unfolding is_news
not_news f none e = cc e
not_news f (some g) e = ap some (sym (same_frequencies-eq f g (ground arith)))

finish_cycle-IsShown :
    (traces : Dict (List String)) (freqs last : Option (List ℤ)) (s : LoopState)
    → axis none s.pushed ≡ last
    → s.last_freqs ≡ last
    → IsShown (or_last freqs last) s.tx (finish_cycle traces freqs delivered s)
unfolding finish_cycle push
finish_cycle-IsShown traces none last s h k =
    (refl, axis-append none s.pushed (record { frequencies = none; traces = traces }) ∙ h, k, refl)
finish_cycle-IsShown traces (some f) last s h k =
    elim (Bool-cases (is_news (some f) s.last_freqs)) [
      | inl news ↦ rw news (
        refl,
        axis-append none s.pushed (record { frequencies = some f; traces = traces }),
        refl,
        refl,
      )
      | inr old ↦ rw old (
        refl,
        axis-append none s.pushed (record { frequencies = none; traces = traces })
            ∙ h
            ∙ sym k
            ∙ not_news f s.last_freqs old,
        not_news f s.last_freqs old,
        refl,
      )
    ]

module _ (floats : Floats) (ids : List Value) where
  after_traces-axis :
      (n : ℕ) (traces : Option (Dict (List String))) (last : Option (List ℤ)) (s : LoopState)
      → axis none s.pushed ≡ last
      → s.last_freqs ≡ last
      → ((last : Option (List ℤ)) (s : LoopState)
          → axis none s.pushed ≡ last
          → s.last_freqs ≡ last
          → axis none (cycles floats ids (replicate n delivered) s).pushed
            ≡ last_read floats ids n last s.tx)
      → let (freqs, tx) = fetch_frequencies floats s.tx in
        let (again, s') = after_traces floats ids traces delivered s in
        axis none
          (elim again as (λ _. LoopState) [
            | true ↦ cycles floats ids (replicate n delivered) s'
            | false ↦ s'
          ]).pushed
        ≡ elim traces [
          | none ↦ last_read floats ids n last s.tx
          | some _ ↦ last_read floats ids n (or_last freqs last) tx
        ]
  unfolding after_traces
  after_traces-axis n none last s h k later = later last s h k
  after_traces-axis n (some traces) last s h k later =
      let (freqs, tx) = fetch_frequencies floats s.tx in
      let next : LoopState = record s { tx = tx } in
      let s' = (finish_cycle traces freqs delivered next).1 in
      let (again, shown, kept, handle) = finish_cycle-IsShown traces freqs last next h k in
      rw (again, after_traces)
        (later (or_last freqs last) s' shown kept
          ∙ ap (last_read floats ids n (or_last freqs last)) handle)

  cycles-axis :
      (n : ℕ) (last : Option (List ℤ)) (s : LoopState)
      → axis none s.pushed ≡ last
      → s.last_freqs ≡ last
      → axis none (cycles floats ids (replicate n delivered) s).pushed
        ≡ last_read floats ids n last s.tx
  unfolding cycles cycle last_read
  cycles-axis zero last s h k = h
  cycles-axis (suc n) last s h k =
      let (traces, tx) = fetch_traces floats ids [] s.tx in
      after_traces-axis n traces last (record s { tx = tx }) h k (cycles-axis n)

start-IsShown :
    (floats : Floats) (tx : TinySa)
    → let (freqs, tx') = fetch_frequencies floats tx in
      IsShown freqs tx' (start floats delivered tx)
unfolding start push axis
start-IsShown floats tx = elim (Option-cases (fetch_frequencies floats tx).0) [
  | inl e ↦ rw (e, start) (refl, refl, e, refl)
  | inr (f, e) ↦ rw (e, start) (refl, refl, e, refl)
]

-- As long as its events are sent, a subscription leaves its controller with the right axis: the last
-- frequencies that it pushed are the last that it could read from the device, however many cycles ran
-- and whatever the device answered. A cycle that cannot read a trace reads no frequencies.
pub run-axis :
    (floats : Floats) (ids : Value) (cycles_run : ℕ) (tx : TinySa)
    → axis none (run floats ids delivered (replicate cycles_run delivered) tx).pushed
      ≡ axis_read floats ids cycles_run tx
unfolding run
run-axis floats ids n tx =
    let (again, shown, kept, handle) = start-IsShown floats tx in
    rw (again, run)
      (elim (Result-cases (iterate ids)) [
        | inl (e, p) ↦ rw p (shown ∙ rw (p, axis_read) refl)
        | inr (l, p) ↦
            rw (p, axis_read)
              (cycles-axis floats l n (fetch_frequencies floats tx).0 (start floats delivered tx).1
                  shown kept
                ∙ ap (last_read floats l n (fetch_frequencies floats tx).0) handle)
      ])

-- How a request for a subscription can end.
abbrev pub Subscribed :
    Value → SubscriptionManager → Option Session → Exec SubscriptionManager Value → Type 0
Subscribed ids m current request =
    let (r, m') = request m in
    ((e : Error) × (r ≡ err e) × (m'.active ≡ none) × (m'.next_id ≡ m.next_id))
    ⊎ ((s : Session) × (d : Subscription) × (r
          ≡ ok (
              dict (
                field "subscription_id" (int (pos d.subscription_id))
                  (field "active" (bool true) end))))
        × (current ≡ some s)
        × (s.selected_device_id ≡ some d.device_id)
        × (d.connection ≡ s.connection)
        × (d.ids ≡ ids)
        × (m'.active ≡ some d)
        × (d.subscription_id < m'.next_id))

start_for-Subscribed :
    (ids interval : Value) (registry : DeviceRegistry) (current : Option Session)
    (m : SubscriptionManager)
    → Subscribed ids m current (λ m. start_for ids interval registry current (stop_locked m))
unfolding start_for start_on stop_locked
start_for-Subscribed ids interval registry none m = inl (_, refl, refl, refl)
start_for-Subscribed ids interval registry (some s) m = elim (Option-cases s.selected_device_id) [
  | inl e ↦ rw e (inl (_, refl, refl, refl))
  | inr (id, e) ↦ elim (Result-cases (get id registry)) [
    | inl (x, p) ↦ rw (e, p) (inl (x, refl, refl, refl))
    | inr (d, p) ↦
        rw (e, p)
          (inr (
            record s { selected_device_id = some id },
            _,
            refl,
            refl,
            refl,
            refl,
            refl,
            refl,
            omega arith,
          ))
  ]
]

-- After `subscribe` a subscription is active exactly if it returned one: it has the number in the
-- response and the ids asked for, is on the device that the session has selected, and pushes to the
-- session's connection. If it raised, none is active, not even the one from before, and no number is
-- used up.
pub subscribe_outcome :
    (ids interval : Value) (registry : DeviceRegistry) (sessions : SessionManager)
    (m : SubscriptionManager)
    → Subscribed ids m sessions.current (subscribe ids interval registry sessions)
unfolding subscribe
subscribe_outcome ids interval registry sessions m =
    start_for-Subscribed ids interval registry sessions.current m
