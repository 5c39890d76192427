-- ===== src/Backfill/Days/InStep.antt =====
-- The source stands at the day whose rows are extracted.
use nordbank_data_platform.Common.{
  ℕ, suc, ◌≡◌, ◌<◌, Option, none, some, List, [], ◌∷◌, Result, ok, err,
}
use nordbank_data_platform.Warehouse.Action.{Action, pure, gets, resume, ◌>>=◌}
use nordbank_data_platform.Backfill.Days

-- What the latest calls say of the day that the source stands at.
abbrev pub known : List Days.Call → Option ℕ
known [] = none
known (Days.simulation_read simulated ∷ calls) = some simulated
known (Days.ticked day ∷ calls) = some day
known (Days.files_sent day ∷ calls) = known calls
known (Days.list_published day ∷ calls) = known calls
known (Days.extracted dag day ∷ calls) = known calls
known (Days.feed_started dag day ∷ calls) = known calls
known (Days.waited dag ∷ calls) = known calls

module _ (anchor : ℕ) where
  -- A tick follows a reading of the day before and goes past the anchor; reference data and core
  -- banking are extracted for the day that the source stands at.
  abbrev pub IsInStepAfter : List Days.Call → Days.Call → Type 0
  IsInStepAfter calls (Days.ticked day) =
      (simulated : ℕ) × (known calls ≡ some simulated) × (suc simulated ≡ day) × (anchor < day)
  IsInStepAfter calls (Days.extracted dag day) = known calls ≡ some day
  IsInStepAfter calls call = Unit

  abbrev pub IsInStep : List Days.Call → Type 0
  IsInStep [] = Unit
  IsInStep (call ∷ calls) = IsInStepAfter calls call × IsInStep calls

module _ {S : Type 0} (I : S → Type 0) where
  -- A call from a state ends in one that `I` holds of, and that `Q` holds of where it returned.
  abbrev pub Leaves : {A : Type 0} → (A → S → Type 0) → Result A × S → Type 0
  Leaves Q (ok a, s) = I s × Q a s
  Leaves Q (err e, s) = I s

  Leaves-resume :
      {A B : Type 0} (Q : A → S → Type 0) (R : B → S → Type 0) (r : Result A × S)
      (f : A → Action S B)
      → Leaves Q r
      → ((a : A) (s : S) → I s → Q a s → Leaves R (f a s))
      → Leaves R (resume r.0 f r.1)
  Leaves-resume Q R (ok a, s) f h k = k a s h.0 h.1
  Leaves-resume Q R (err e, s) f h k = h

  pub Leaves-bind :
      {A B : Type 0} (Q : A → S → Type 0) (R : B → S → Type 0) (m : Action S A) (f : A → Action S B)
      (s : S)
      → Leaves Q (m s)
      → ((a : A) (t : S) → I t → Q a t → Leaves R (f a t))
      → Leaves R ((m >>= f) s)
  Leaves-bind Q R m f s h k = Leaves-resume Q R (m s) f h k

module _ {W : Type 0} (stack : Days.Stack W) (anchor : ℕ) where
  abbrev pub StandsInStep : Days.Session W → Type 0
  StandsInStep s = IsInStep anchor s.calls

  -- A call that leaves what is known of the source as it is.
  pub record KeepsAt {A : Type 0} (k : Option ℕ) (m : Days.Act stack A) : Type 0 where
    pub at :
        (s : Days.Session W)
        → StandsInStep s
        → known s.calls ≡ k
        → Leaves StandsInStep (λ _ t. known t.calls ≡ k) (m s)

  pub KeepsAt-pure : {A : Type 0} (k : Option ℕ) (a : A) → KeepsAt k (pure a)
  KeepsAt-pure k a = record { at = λ s i e. (i, e) }

  pub KeepsAt-bind :
      {A B : Type 0} (k : Option ℕ) (m : Days.Act stack A) (f : A → Days.Act stack B)
      → KeepsAt k m
      → ((a : A) → KeepsAt k (f a))
      → KeepsAt k (m >>= f)
  KeepsAt-bind k m f h g = record {
    at = λ s i e.
        Leaves-bind StandsInStep (λ _ t. known t.calls ≡ k) (λ _ t. known t.calls ≡ k) m f s
          (h.at s i e) (λ a t j q. (g a).at t j q);
  }

  pub KeepsAt-gets : {A : Type 0} (k : Option ℕ) (f : Days.Session W → A) → KeepsAt k (gets f)
  KeepsAt-gets k f = record { at = λ s i e. (i, e) }

  pub on_world-Leaves :
      {A : Type 0} (Q : Days.Session W → Type 0) (r : Result A × W) (s : Days.Session W)
      → StandsInStep s
      → ((w : W) → Q (record s { world = w }))
      → Leaves StandsInStep (λ _. Q) (Days.on_world stack r s)
  on_world-Leaves Q (ok a, w) s i h = (i, h w)
  on_world-Leaves Q (err e, w) s i h = i

  pub KeepsAt-quietly :
      {A : Type 0} (k : Option ℕ) (m : Action W A) → KeepsAt k (Days.quietly stack m)
  unfolding Days.quietly
  KeepsAt-quietly k m = record {
    at = λ s i e. on_world-Leaves (λ t. known t.calls ≡ k) (m s.world) s i (λ w. e);
  }

  pub KeepsAt-calling :
      {A : Type 0} (k : Option ℕ) (c : Days.Call) (m : Action W A)
      → ((calls : List Days.Call) → known calls ≡ k → IsInStepAfter anchor calls c)
      → ((calls : List Days.Call) → known calls ≡ k → known (c ∷ calls) ≡ k)
      → KeepsAt k (Days.calling stack c m)
  unfolding Days.calling
  KeepsAt-calling k c m allowed same = record {
    at = λ s i e.
        on_world-Leaves (λ t. known t.calls ≡ k) (m s.world) (Days.note stack c s)
          (allowed s.calls e, i) (λ w. same s.calls e);
  }
