-- ===== src/Hub/Subscriptions/Loop.antt =====
-- `Subscription._run`: the thread that polls the device and pushes events.
use tsanet.Prelude.{
  String, Bool, true, false, not, Option, none, some, List, [], ◌∷◌, ◌++◌, if◌then◌else◌,
}
use tsanet.Prelude.Dict.{Dict, insert}
use tsanet.Prelude.Int.{ℤ, eq_ℤ}
use tsanet.Errors.{ok, err, lift, ◌>>=◌}
use tsanet.Protocol.Value.{Value}
use tsanet.Protocol.Value.Text.{str}
use tsanet.Protocol.Value.Access.{Floats, iterate}
use tsanet.Device.Link.{TinySa}
use tsanet.Device.Parsing.{parse_frequencies, parse_trace_values}
use tsanet.Device.Commands.Trace

-- The data of a pushed event: the frequencies, where it carries any, and the values of each trace.
pub record Update : Type 0 where
  pub frequencies : Option (List ℤ)
  pub traces : Dict (List String)

-- How a push ends: the event is sent, the stop event was set before it, or the connection fails.
pub data Outcome : Type 0 where
  delivered stopped broken : Outcome

-- The variables of the loop: the handle, `last_freqs`, and the events that were sent.
pub record LoopState : Type 0 where
  pub tx : TinySa
  pub last_freqs : Option (List ℤ)
  pub pushed : List Update

-- `a == b` on lists of frequencies
unfoldable pub same_frequencies : List ℤ → List ℤ → Bool
same_frequencies [] [] = true
same_frequencies (a ∷ rest) (b ∷ bs) = if eq_ℤ a b then same_frequencies rest bs else false
same_frequencies _ _ = false

module _ (floats : Floats) where
  -- `_fetch_frequencies()`: any exception is `None`.
  unfoldable pub fetch_frequencies : TinySa → Option (List ℤ) × TinySa
  fetch_frequencies tx =
      let (r, tx') =
        (do answer ← Trace.get_frequencies; lift (parse_frequencies floats answer)) tx in
      (elim r [ ok freqs ↦ some freqs | err _ ↦ none ], tx')

  -- The loop over the ids of a cycle; `none` is the `break` at a trace that cannot be read.
  unfoldable pub fetch_traces :
      List Value → Dict (List String) → TinySa → Option (Dict (List String)) × TinySa
  fetch_traces [] traces tx = (some traces, tx)
  fetch_traces (tid ∷ rest) traces tx =
      let (r, tx') = Trace.fetch_value tid tx in
      elim r [
        | err _ ↦ (none, tx')
        | ok answer ↦
            fetch_traces rest (insert (str tid) (parse_trace_values floats answer) traces) tx'
      ]

-- `_push(data)`, and whether the loop goes on.
unfoldable pub push : Update → Outcome → LoopState → Bool × LoopState
push update delivered s = (true, record s { pushed = s.pushed ++ update ∷ [] })
push update stopped s = (false, s)
push update broken s = (false, s)

-- `freqs is not None and freqs != last_freqs`
unfoldable pub is_news : Option (List ℤ) → Option (List ℤ) → Bool
unfolding same_frequencies
is_news none last = false
is_news (some freqs) none = true
is_news (some freqs) (some last) = not (same_frequencies freqs last)

-- The data of a cycle that read every trace.
unfoldable pub finish_cycle :
    Dict (List String) → Option (List ℤ) → Outcome → LoopState → Bool × LoopState
unfolding is_news
finish_cycle traces freqs outcome s =
    if is_news freqs s.last_freqs
    then push (record { frequencies = freqs; traces = traces }) outcome
        (record s { last_freqs = freqs })
    else push (record { frequencies = none; traces = traces }) outcome s

module _ (floats : Floats) (ids : List Value) where
  -- The `else` of the loop over the ids, or its `break`.
  unfoldable pub after_traces : Option (Dict (List String)) → Outcome → LoopState → Bool × LoopState
  after_traces none outcome s = (true, s)
  after_traces (some traces) outcome s =
      let (freqs, tx') = fetch_frequencies floats s.tx in
      finish_cycle traces freqs outcome (record s { tx = tx' })

  -- One pass through the body of the `while`.
  unfoldable pub cycle : Outcome → LoopState → Bool × LoopState
  unfolding after_traces
  cycle outcome s =
      let (traces, tx') = fetch_traces floats ids [] s.tx in
      after_traces traces outcome (record s { tx = tx' })

  -- The `while`: an entry for each cycle that began before the stop event was set.
  unfoldable pub cycles : List Outcome → LoopState → LoopState
  cycles [] s = s
  cycles (outcome ∷ rest) s =
      let (again, s') = cycle outcome s in elim again [ true ↦ cycles rest s' | false ↦ s' ]

-- The frequencies that go ahead of the loop, pushed if they could be read.
unfoldable pub start : Floats → Outcome → TinySa → Bool × LoopState
start floats outcome tx =
    let (freqs, tx') = fetch_frequencies floats tx in
    let s : LoopState = record { tx = tx'; last_freqs = freqs; pushed = [] } in
    elim freqs [
      | none ↦ (true, s)
      | some f ↦ push (record { frequencies = some f; traces = [] }) outcome s
    ]

-- `_run()`; an exception that leaves the loop ends it, as that of ids that are no sequence does.
unfoldable pub run : Floats → Value → Outcome → List Outcome → TinySa → LoopState
run floats ids first outcomes tx =
    let (again, s) = start floats first tx in
    elim again [
      | true ↦ elim (iterate ids) [ ok l ↦ cycles floats l outcomes s | err _ ↦ s ]
      | false ↦ s
    ]
