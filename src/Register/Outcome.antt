-- ===== src/Register/Outcome.antt =====
-- What a register step does with the batches of a run, whether it returns or raises.
use nordbank_data_platform.Common.{
  ℕ, ◌≡◌, refl, sym, ap, ◌∙◌, List, [], ◌∷◌, ◌++◌, All, Result, ok, err, ok-injective, append_nil,
  append_assoc, Bool-cases, inl, inr,
}
use nordbank_data_platform.Common.Dict.{Dict}
use mathlib.Core.Path.{subst}
use nordbank_data_platform.Validation.Schema.{Contract}
use nordbank_data_platform.Warehouse.{Warehouse}
use nordbank_data_platform.Warehouse.Action.{settle, bind-ok}
use nordbank_data_platform.Registry.Table.{IsWellFormed}
use nordbank_data_platform.Register.{Services, Entry}
use nordbank_data_platform.Register.Run.{
  RegisterReport, empty_report, register_entry, register_entries, register_run,
}
use nordbank_data_platform.Register.Frame.{
  Kept, Kept-refl, Kept-trans, Keeps, bind-Keeps, register_entry-Keeps,
}
use nordbank_data_platform.Register.Settled.{
  is_failed, IsSettled, Kept-IsSettled, registered_entities, failed_entities,
  register_entry-EntryDone,
}

-- The registry has evolved along its lifecycle, the batch of every report is settled, and the
-- step's report adds the registered entities and the failed ones in the order of the reports.
pub record RunDone (es : List Entry) (before after : RegisterReport) (w w' : Warehouse)
    : Type 0 where
  pub kept : Kept w.batches w'.batches
  pub settled : All (IsSettled w'.batches) es
  pub registered_names : after.registered ≡ before.registered ++ registered_entities es
  pub failed_names : after.failed ≡ before.failed ++ failed_entities es

-- A step that raised has changed nothing at all.
abbrev pub Outcome : List Entry → Warehouse → Result RegisterReport × Warehouse → Type 0
Outcome es w (ok report, w') = RunDone es empty_report report w w'
Outcome es w (err e, w') = w' ≡ w

registered_entities-cons :
    (e : Entry) (es : List Entry)
    → registered_entities (e ∷ []) ++ registered_entities es ≡ registered_entities (e ∷ es)
registered_entities-cons e es = elim (Bool-cases (is_failed e)) [
  | inl q ↦ rw q refl
  | inr q ↦ rw q refl
]

failed_entities-cons :
    (e : Entry) (es : List Entry)
    → failed_entities (e ∷ []) ++ failed_entities es ≡ failed_entities (e ∷ es)
failed_entities-cons e es = elim (Bool-cases (is_failed e)) [
  | inl q ↦ rw q refl
  | inr q ↦ rw q refl
]

-- Two additions to a list, one after the other.
added_twice :
    {A : Type 0} (xs ys zs us vs ws : List A)
    → ys ≡ xs ++ us
    → zs ≡ ys ++ vs
    → us ++ vs ≡ ws
    → zs ≡ xs ++ ws
added_twice xs ys zs us vs ws h k l =
    k ∙ ap (λ x. x ++ vs) h ∙ append_assoc xs us vs ∙ ap (λ x. xs ++ x) l

module _ (s : Services) (date now : ℕ) (contracts : Dict Contract) where
  register_entries-Keeps :
      (es : List Entry) (report : RegisterReport)
      → Keeps (register_entries s date now contracts es report)
  unfolding register_entries
  register_entries-Keeps [] report = record { kept = λ w h. Kept-refl w.batches h }
  register_entries-Keeps (e ∷ es) report =
      bind-Keeps _ _ (register_entry-Keeps s date now contracts e report)
        (λ next. register_entries-Keeps es next)

  register_entries-RunDone :
      (es : List Entry) (report last : RegisterReport) (w : Warehouse)
      → IsWellFormed w.batches
      → (register_entries s date now contracts es report w).0 ≡ ok last
      → RunDone es report last w (register_entries s date now contracts es report w).1
  unfolding register_entries
  register_entries-RunDone [] report last w valid h = record {
    kept = Kept-refl w.batches valid;
    settled = tt;
    registered_names =
        ap (λ (r : RegisterReport). r.registered) (sym (ok-injective h))
        ∙ sym (append_nil report.registered);
    failed_names =
        ap (λ (r : RegisterReport). r.failed) (sym (ok-injective h))
        ∙ sym (append_nil report.failed);
  }
  register_entries-RunDone (e ∷ es) report last w valid h =
      let entry = register_entry s date now contracts e report in
      let one = bind-ok entry (λ next. register_entries s date now contracts es next) w last h in
      let next = one.value in
      let v : Warehouse = (entry w).1 in
      let first = register_entry-EntryDone s date now contracts e report next w one.first in
      let kept = (register_entry-Keeps s date now contracts e report).kept w valid in
      let rest = register_entries-RunDone es next last v kept.valid one.rest in
      subst (λ x. RunDone (e ∷ es) report last w x) (sym one.state)
        (record {
          kept = Kept-trans w.batches v.batches _ kept rest.kept;
          settled = (Kept-IsSettled v.batches _ e rest.kept first.settled, rest.settled);
          registered_names =
              added_twice report.registered next.registered last.registered _ _ _
                first.registered_names rest.registered_names (registered_entities-cons e es);
          failed_names =
              added_twice report.failed next.failed last.failed _ _ _ first.failed_names
                rest.failed_names (failed_entities-cons e es);
        })

  settle-Outcome :
      (es : List Entry) (w : Warehouse) (r : Result RegisterReport) (v : Warehouse)
      → ((last : RegisterReport) → r ≡ ok last → RunDone es empty_report last w v)
      → Outcome es w (settle r w v)
  settle-Outcome es w (ok last) v h = h last refl
  settle-Outcome es w (err e) v h = refl

  -- From a well-formed registry, a register step either raises and changes nothing, or has settled
  -- the batch of every report, each old batch having evolved along the lifecycle, and reports the
  -- entities registered and failed in the order of the reports.
  pub register_run-Outcome :
      (es : List Entry) (w : Warehouse)
      → IsWellFormed w.batches
      → Outcome es w (register_run s date now contracts es w)
  unfolding register_run
  register_run-Outcome es w valid =
      settle-Outcome es w _ _ (λ last. register_entries-RunDone es empty_report last w valid)
