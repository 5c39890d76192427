-- ===== src/Generator/Ticks.antt =====
-- generator/mutation/__main__.py: the days that one invocation advances through, a transaction
-- each. The reconciliation after a day, the synchronisation
-- of the sequences after the loop and the clock are parameters.
pub mod Reached
pub mod Reseeded
use nordbank_data_platform.Common.{
  ℕ, zero, suc, ◌+◌, ◌-◌, ◌≡◌, refl, Bool, true, false, String, Option, none, some, List, [], ◌∷◌,
  leb, if◌then◌else◌, Error, Result, err, ok,
}
use nordbank_data_platform.Generator.Source.{Source, SimulationState, next_date}
use nordbank_data_platform.Generator.Tick.{Engine, Request, TickReport, run}

-- The loop of `_dates`, for at most a number of days.
abbrev pub days_upto : ℕ → ℕ → ℕ → List (Option ℕ)
days_upto zero day upto = []
days_upto (suc left) day upto =
    let rest = days_upto left (suc day) upto in if leb day upto then some day ∷ rest else []

-- From a day on there are no more days up to another than its own number.
unfoldable pub dates : SimulationState → Option ℕ → Option ℕ → List (Option ℕ)
dates state requested none = requested ∷ []
dates state requested (some upto) = days_upto (suc upto) (next_date state) upto

-- What an invocation has beside the tick's engine.
pub record Runner (Book : Type 0) : Type 0 where
  pub engine : Engine Book
  pub profile : String
  -- The tick's two readings of the clock.
  pub clock : Source Book → ℕ × ℕ
  -- `reconcile_latest` and `assert_agrees`
  pub reconcile : Source Book → Result (Unit {0})
  -- `synchronise_sequences`, which moves the database's sequences and no table
  pub synchronise : Source Book → Result (Unit {0})

abbrev pub request_of : {Book : Type 0} → Runner Book → Option ℕ → Source Book → Request
request_of runner target source = record {
  requested_date = target;
  profile = runner.profile;
  fail_after = none;
  started_at = (runner.clock source).0;
  completed_at = (runner.clock source).1;
}

-- The source as it was last committed, and how the loop ended.
abbrev pub Ended : Type 0 → Type 0
Ended Book = Source Book × Result (Unit {0})

-- A tick that raised ends the loop with the source as it was; so does a reconciliation that raises,
-- with the source that the tick committed.
abbrev pub after_tick :
    {Book : Type 0}
    → Source Book
    → Result (Source Book × TickReport)
    → (Source Book → Ended Book)
    → Ended Book
after_tick source (err raised) next = (source, err raised)
after_tick source (ok (later, report)) next = next later

abbrev pub after_reconciling :
    {Book : Type 0} → Source Book → Result (Unit {0}) → (Source Book → Ended Book) → Ended Book
after_reconciling source (err raised) next = (source, err raised)
after_reconciling source (ok _) next = next source

unfoldable pub run_ticks :
    {Book : Type 0} → Runner Book → List (Option ℕ) → Source Book → Ended Book
unfolding run
run_ticks runner [] source = (source, runner.synchronise source)
run_ticks runner (target ∷ targets) source =
    after_tick source (run runner.engine (request_of runner target source) source) (λ later.
      after_reconciling later (runner.reconcile later) (λ agreed. run_ticks runner targets agreed))
