-- ===== src/Backfill/Verdict.antt =====
-- When a feed is complete for a day, and what its standing names.
use nordbank_data_platform.Common.{
  String, ◌≡◌, ◌≢◌, ◌↔◌, ◌⊎◌, refl, ap, Bool, true, false, Option, none, some, List, [], ◌∷◌, ◌++◌,
  map, filter, any, any_of_Any, Any_of_any, All, All-impl, Any, Bool-cases, inl, inr, arith, str_eq,
  str_eq_iff, filter-from-All,
}
use nordbank_data_platform.Warehouse.{Status, opened, written, registered, failed, is_registered}
use nordbank_data_platform.Feeds.Admission.{is_failed_batch}
use nordbank_data_platform.Backfill.{
  Delivery, landed, parked, FeedBatch, sender_resolves, accounted, registers_interval, fate_by,
  fate, is_waiting, is_failing, has_failed, printed, early_failure, is_empty, failing_of,
  judge_feed, FeedDay,
}

-- A batch that asks nothing of a person: it did not fail, its delivery has landed since, the sender
-- is to send it again, or, where it has no delivery, its interval was registered.
pub data IsAccountedFor (batches : List FeedBatch) (b : FeedBatch) : Type 0 where
  not_failed : has_failed b ≡ false → IsAccountedFor batches b
  landed_since : b.delivery ≡ some landed → IsAccountedFor batches b
  awaited :
      b.delivery ≡ some parked → sender_resolves b.failure_reason ≡ true → IsAccountedFor batches b
  registered_since :
      b.delivery ≡ none
      → Any
          (λ (r : FeedBatch).
            (r.status ≡ registered) × (r.entity ≡ b.entity) × (r.interval_start ≡ b.interval_start))
          batches
      → IsAccountedFor batches b

-- A batch that failed and waits for its sender.
pub record IsAwaited (b : FeedBatch) : Type 0 where
  pub status : b.status ≡ failed
  pub delivery : b.delivery ≡ some parked
  pub sender : sender_resolves b.failure_reason ≡ true

-- A run that was made, and that did not fail before its batches.
abbrev pub IsRun : Option String → List FeedBatch → Type 0
IsRun none batches = ⊥
IsRun (some state) batches = (state ≢ "failed") ⊎ Any (λ (b : FeedBatch). b.status ≡ failed) batches

pub record IsJudgement (state : Option String) (batches : List FeedBatch) (v : FeedDay)
    : Type 0 where
  pub complete : (v.complete ≡ true) ↔ (IsRun state batches × All (IsAccountedFor batches) batches)
  pub parked : All IsAwaited v.parked

is_failed_iff : (b : FeedBatch) → (has_failed b ≡ true) ↔ (b.status ≡ failed)
is_failed_iff b = ((λ h. failed_of b.status h), λ h. ap is_failed_batch h)
  where
    failed_of : (s : Status) → is_failed_batch s ≡ true → s ≡ failed
    failed_of failed h = refl
    failed_of opened h = cc
    failed_of written h = cc
    failed_of registered h = cc

registered_of : (s : Status) → is_registered s ≡ true → s ≡ registered
registered_of registered h = refl
registered_of opened h = cc
registered_of written h = cc
registered_of failed h = cc

registers_interval_iff :
    (b r : FeedBatch)
    → (registers_interval b r ≡ true)
      ↔ ((r.status ≡ registered) × (r.entity ≡ b.entity) × (r.interval_start ≡ b.interval_start))
registers_interval_iff b r = (
  (λ h. (
    registered_of r.status (ground arith),
    ground (arith, str_eq_iff r.entity b.entity),
    ground arith,
  )),
  (λ h. ground (arith, str_eq_iff r.entity b.entity, ap is_registered h.0)),
)

fate-IsAccountedFor :
    (batches : List FeedBatch) (b : FeedBatch)
    → IsAccountedFor batches b
    → is_failing (fate batches b) ≡ false
fate-IsAccountedFor batches b (not_failed h) = ground arith
fate-IsAccountedFor batches b (landed_since h) = ground arith
fate-IsAccountedFor batches b (awaited h k) = ground arith
fate-IsAccountedFor batches b (registered_since h k) =
    let some_one : any (registers_interval b) batches ≡ true =
      any_of_Any _ (registers_interval b) (registers_interval_iff b) batches k in
    ground arith

accounted_by :
    (batches : List FeedBatch) (b : FeedBatch) (d : Option Delivery)
    → b.delivery ≡ d
    → is_failing (fate_by batches b d) ≡ false
    → IsAccountedFor batches b
accounted_by batches b none e h =
    registered_since e
      (Any_of_any _ (registers_interval b) (registers_interval_iff b) batches (ground arith))
accounted_by batches b (some landed) e h = landed_since e
accounted_by batches b (some parked) e h = awaited e (ground arith)

IsAccountedFor-fate :
    (batches : List FeedBatch) (b : FeedBatch)
    → is_failing (fate batches b) ≡ false
    → IsAccountedFor batches b
IsAccountedFor-fate batches b h = elim (Bool-cases (has_failed b)) [
  | inl e ↦ accounted_by batches b b.delivery refl (rw e at h)
  | inr e ↦ not_failed e
]

-- Nothing fails exactly where everything is accounted for.
none_failing :
    (f : FeedBatch → Bool) (bs : List FeedBatch)
    → map printed (filter f bs) ≡ []
    → All (λ (b : FeedBatch). f b ≡ false) bs
none_failing f [] h = tt
none_failing f (b ∷ bs) h = elim (Bool-cases (f b)) [
  | inl e ↦ let k : map printed (b ∷ filter f bs) ≡ [] = rw e at h in cc
  | inr e ↦ (e, none_failing f bs (rw e at h))
]

none_left :
    (f : FeedBatch → Bool) (bs : List FeedBatch)
    → All (λ (b : FeedBatch). f b ≡ false) bs
    → map printed (filter f bs) ≡ []
none_left f [] h = refl
none_left f (b ∷ bs) h = rw h.0 (none_left f bs h.1)

awaited_of :
    (batches : List FeedBatch) (b : FeedBatch) (d : Option Delivery)
    → b.delivery ≡ d
    → has_failed b ≡ true
    → is_waiting (fate_by batches b d) ≡ true
    → IsAwaited b
awaited_of batches b none e f h = ground arith
awaited_of batches b (some landed) e f h = cc
awaited_of batches b (some parked) e f h = record {
  status = (is_failed_iff b).0 f;
  delivery = e;
  sender = ground arith;
}

waiting-IsAwaited :
    (batches : List FeedBatch) (b : FeedBatch) → is_waiting (fate batches b) ≡ true → IsAwaited b
waiting-IsAwaited batches b h = elim (Bool-cases (has_failed b)) [
  | inl e ↦ awaited_of batches b b.delivery refl e (rw e at h)
  | inr e ↦ let k : is_waiting accounted ≡ true = rw e at h in cc
]

no_early_failure :
    (dag state : String) (batches : List FeedBatch)
    → early_failure dag state batches ≡ []
    → IsRun (some state) batches
no_early_failure dag state batches h = elim (Bool-cases (any has_failed batches)) [
  | inl e ↦ inr (Any_of_any _ has_failed is_failed_iff batches e)
  | inr e ↦ inl (λ same. ground (arith, (str_eq_iff state "failed").1 same))
]

IsRun-early_failure :
    (dag state : String) (batches : List FeedBatch)
    → IsRun (some state) batches
    → early_failure dag state batches ≡ []
IsRun-early_failure dag state batches (inl h) = elim (Bool-cases (str_eq state "failed")) [
  | inl e ↦ absurd (h ((str_eq_iff state "failed").0 e))
  | inr e ↦ rw e refl
]
IsRun-early_failure dag state batches (inr h) =
    let some_one : any has_failed batches ≡ true =
      any_of_Any _ has_failed is_failed_iff batches h in
    ground arith

both_empty :
    (xs ys : List (String × Option String)) → is_empty (xs ++ ys) ≡ true → (xs ≡ []) × (ys ≡ [])
both_empty [] [] h = (refl, refl)
both_empty [] (y ∷ ys) h = cc
both_empty (x ∷ xs) ys h = cc

-- A feed is complete for a day exactly where its run was made, did not fail before its batches, and
-- every batch is accounted for; the parked ones are failed batches that wait for their sender.
pub judge_feed-IsJudgement :
    (dag : String) (state : Option String) (batches : List FeedBatch)
    → IsJudgement state batches (judge_feed dag state batches)
unfolding judge_feed failing_of
judge_feed-IsJudgement dag none batches = record {
  complete = ((λ h. cc), (λ h. absurd h.0));
  parked = tt;
}
judge_feed-IsJudgement dag (some state) batches = record {
  complete = (
    (λ h.
        let (nothing_failing, nothing_early) =
          both_empty (failing_of batches) (early_failure dag state batches) h in
        (
          no_early_failure dag state batches nothing_early,
          All-impl _ _ batches (IsAccountedFor-fate batches)
              (none_failing (λ b. is_failing (fate batches b)) batches nothing_failing),
        )),
    (λ h.
        rw
          (
            none_left (λ b. is_failing (fate batches b)) batches
                (All-impl _ _ batches (fate-IsAccountedFor batches) h.1),
            IsRun-early_failure dag state batches h.0,
          )
          refl),
  );
  parked =
      filter-from-All IsAwaited (λ b. is_waiting (fate batches b)) batches
        (all_of batches (waiting-IsAwaited batches));
}
  where
    all_of : {P : FeedBatch → Type 0} (bs : List FeedBatch) → ((b : FeedBatch) → P b) → All P bs
    all_of [] f = tt
    all_of (b ∷ bs) f = (f b, all_of bs f)
