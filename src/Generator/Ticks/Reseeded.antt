-- ===== src/Generator/Ticks/Reseeded.antt =====
-- A seed over a simulation under way: the source is where a simulation starts.
use nordbank_data_platform.Common.{
  ℕ, ◌+◌, ◌≡◌, refl, ap, sym, ◌∙◌, arith, Bool, true, false, not, String, none, List, [], ◌∷◌, ◌++◌,
  map, filter, All, append_nil, leb,
}
use nordbank_data_platform.Generator.Drift.{
  Column, risk_score, is_at, classification_rows, reversed, revert_all, apply_deltas,
}
use nordbank_data_platform.Generator.Drift.Replay.{
  IsBaseline, live, is_column_at, schema_after, revert_all-fired_by,
}
use nordbank_data_platform.Generator.Drift.Timetable.{names, fired_by, earlier_due}
use nordbank_data_platform.Generator.Source.{
  Source, SimulationState, classification_of, fired_names, unclassify, reset,
}
use nordbank_data_platform.Generator.Source.Log.{classified_after, fired_names_lem}
use nordbank_data_platform.Generator.Tick.Progress.{IsOnTime}

none_at_anchor : (anchor : ℕ) → fired_by anchor anchor ≡ []
none_at_anchor anchor =
    let first : leb (anchor + 12) anchor ≡ false = ground arith in
    let second : leb (anchor + 37) anchor ≡ false = ground arith in rw first (rw second refl)

score_row_dropped :
    (documented : List Column)
    → All (λ c. is_column_at "core" "merchants" "merchant_risk_score" c ≡ false) documented
    → filter
        (λ r.
          not (
            is_at r.schema_name r.table_name r.column_name "core" "merchants"
              "merchant_risk_score"))
        (map classification_of (documented ++ (risk_score ∷ [])))
      ≡ map classification_of documented
score_row_dropped [] h = refl
score_row_dropped (c ∷ documented) h =
    rw h.0 (ap (λ rest. classification_of c ∷ rest) (score_row_dropped documented h.1))

unclassify-names :
    (documented : List Column) (first second : Bool)
    → IsBaseline documented
    → (second ≡ true → first ≡ true)
    → unclassify (reversed (names first second)) (classified_after documented (names first second))
      ≡ map classification_of documented
unfolding classification_rows
unclassify-names documented true true h k = score_row_dropped documented h.without_score
unclassify-names documented true false h k = score_row_dropped documented h.without_score
unclassify-names documented false true h k = let out_of_order : false ≡ true = k refl in cc
unclassify-names documented false false h k = ap (map classification_of) (append_nil documented)

-- A seed leaves a source that was on time at any day of any simulation on time at the new anchor: no
-- tick and no drift event logged, and the schema and the classifications those of the dictionary,
-- if the dictionary is the one the events are written for.
pub reset-IsOnTime :
    {Book : Type 0} (documented : List Column) (profile : String) (seed anchor : ℕ)
    (source : Source Book) (state : SimulationState)
    → IsBaseline documented
    → IsOnTime documented source state
    → IsOnTime documented (reset profile seed anchor source) (record {
      profile = profile;
      seed = seed;
      anchor_date = anchor;
      simulated_date = anchor;
      tick_sequence = 0;
      last_tick_completed_at = none;
    })
      × ((reset profile seed anchor source).schema ≡ map live documented)
      × ((reset profile seed anchor source).classifications ≡ map classification_of documented)
unfolding reset classification_rows apply_deltas
reset-IsOnTime documented profile seed anchor source state h on_time =
    let first : Bool = leb (state.anchor_date + 12) state.simulated_date in
    let second : Bool = leb (state.anchor_date + 37) state.simulated_date in
    let fired : fired_names source.drift_log ≡ fired_by state.anchor_date state.simulated_date =
      fired_names_lem source.drift_log first second on_time.fired in
    let back : (revert_all (fired_names source.drift_log) source.schema).0 ≡ map live documented =
      rw fired (
        rw on_time.shaped (
          ap (λ r. r.0)
            (revert_all-fired_by documented state.anchor_date state.simulated_date h))) in
    let unclassified : unclassify (reversed (fired_names source.drift_log)) source.classifications
        ≡ map classification_of documented =
      rw fired (
        rw on_time.classified (
          unclassify-names documented first second h
            (earlier_due state.anchor_date state.simulated_date))) in
    (
      record {
        running = refl;
        dated = omega arith;
        ticked = refl;
        fired = sym (none_at_anchor anchor);
        shaped = back ∙ ap (schema_after documented) (sym (none_at_anchor anchor));
        classified =
            unclassified
            ∙ ap (map classification_of) (sym (append_nil documented))
            ∙ ap (classified_after documented) (sym (none_at_anchor anchor));
      },
      back,
      unclassified,
    )
