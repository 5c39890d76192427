-- ===== src/Phases/Outcome.antt =====
-- What the open step does with the entities of a run, and when it passes one over.
use nordbank_data_platform.Common.{
  ℕ, String, ◌≡◌, ◌++◌, ◌⊎◌, ◌↔◌, Any, append_nil, append_assoc, refl, sym, ap, ◌∙◌, inl, inr,
  Option, none, some, List, [], ◌∷◌, All, Any-impl, sorted_set, Bool-cases, Result, ok, err,
  ok-injective,
}
use mathlib.Core.Path.{subst}
use nordbank_data_platform.Common.Dict.{keys}
use nordbank_data_platform.Common.Time.{date_of}
use nordbank_data_platform.Validation.Schema.{Contract}
use nordbank_data_platform.Warehouse.{BatchRow, Warehouse}
use nordbank_data_platform.Warehouse.Action.{pure, lift, settle, resume, bind-ok, then-ok}
use nordbank_data_platform.Contracts.{VersionChains, chain_of, sync, select, body}
use nordbank_data_platform.Registry.{
  BatchKey, Allocation, find_batch, existing_batches, existing_in, watermark, watermark_in,
  allocate, batch,
}
use nordbank_data_platform.Registry.Table.{IsWellFormed, find_batch-Any}
use nordbank_data_platform.Register.Frame.{Kept, Kept-refl, Keeps, bind-Keeps}
use nordbank_data_platform.Register.Statuses.{HasStatus, Evolution-HasStatus}
use nordbank_data_platform.Phases.{
  Opened, OpenReport, current_of, has_registered, read_back, opened_as, with_opened, with_already,
  key_of, opening_of, open_batch, open_unless, open_entity, open_entities, open_all, open_phase,
}
use nordbank_data_platform.Phases.Frame.{open_entity-Keeps, sync-Leaves, select-Leaves, body-Leaves}
use nordbank_data_platform.Phases.Divided.{
  HasRegistered, Divided, nothing, passing, opening, has_registered-HasRegistered,
  has_registered-none, Evolution-HasRegistered, allocate-HasRegistered, body-InChain,
}

-- The batch of an allocation stands in the registry.
abbrev pub IsOpenedIn : List BatchRow → Opened → Type 0
IsOpenedIn rows o = HasStatus (λ _. Unit) o.batch_id rows

-- A batch was opened for an entity: it stands, and no batch became registered.
record BatchOpened (entity : String) (before after : OpenReport) (rows rows' : List BatchRow)
    : Type 0 where
  o : Opened
  of_entity : o.entity ≡ entity
  added : after ≡ with_opened o before
  stands : IsOpenedIn rows' o
  back : (k : BatchKey) → HasRegistered k rows' → HasRegistered k rows

-- One entity more is dealt with: its batch was opened, or it was passed over.
abbrev Dealt :
    VersionChains → ℕ → String → OpenReport → OpenReport → List BatchRow → List BatchRow → Type 0
Dealt chains start entity before after rows rows' =
    (c : Contract) × Any (λ (x : Contract). x ≡ c) (chain_of entity chains)
    × ((HasRegistered
            (record { source_system = c.source_system; entity = entity; interval_start = start })
            rows
          × (after ≡ with_already entity before)
          × (rows' ≡ rows))
        ⊎ ((¬ HasRegistered
              (record { source_system = c.source_system; entity = entity; interval_start = start })
              rows)
            × BatchOpened entity before after rows rows'))

module _ (chains : VersionChains) (start opened_at : ℕ) (run_id : String) (lag : ℕ) where
  read_back-BatchOpened :
      (entity : String) (a : Allocation) (report next : OpenReport) (w : Warehouse)
      (rows : List BatchRow) (found : Option BatchRow)
      → ((k : BatchKey) → HasRegistered k w.batches → HasRegistered k rows)
      → find_batch w.batches a.batch_id ≡ found
      → (resume
          (read_back a.batch_id found)
          (λ b. pure (with_opened (opened_as entity b a.reused) report))
          w).0
        ≡ ok next
      → BatchOpened entity report next rows
          (resume
            (read_back a.batch_id found)
            (λ b. pure (with_opened (opened_as entity b a.reused) report))
            w).1.batches
  read_back-BatchOpened entity a report next w rows none back e h = cc
  read_back-BatchOpened entity a report next w rows (some b) back e h = record {
    o = opened_as entity b a.reused;
    of_entity = refl;
    added = sym (ok-injective h);
    stands =
        Any-impl _ _ w.batches (λ x m. (ap (λ (y : BatchRow). y.batch_id) m.1, tt))
          (find_batch-Any w.batches a.batch_id b e);
    back = back;
  }

  open_batch-BatchOpened :
      (entity : String) (c : Contract) (held : Option ℕ) (report next : OpenReport) (w : Warehouse)
      → (open_batch chains start opened_at run_id lag entity c held report w).0 ≡ ok next
      → BatchOpened entity report next w.batches
          (open_batch chains start opened_at run_id lag entity c held report w).1.batches
  unfolding open_batch batch
  open_batch-BatchOpened entity c held report next w h =
      let key = key_of chains start opened_at run_id lag c entity in
      let o = opening_of chains start opened_at run_id lag c held in
      let one = bind-ok (allocate key o) _ w next h in
      let v : Warehouse = (allocate key o w).1 in
      subst (λ (x : Warehouse). BatchOpened entity report next w.batches x.batches) (sym one.state)
        (read_back-BatchOpened entity one.value report next v w.batches
          (find_batch v.batches one.value.batch_id) (λ k. allocate-HasRegistered key k o w) refl
          one.rest)

  open_unless-Dealt :
      (entity : String) (c : Contract) (held : Option ℕ) (report next : OpenReport) (w : Warehouse)
      → Any (λ (x : Contract). x ≡ c) (chain_of entity chains)
      → (open_unless chains start opened_at run_id lag entity c held report
          (existing_in w.batches (key_of chains start opened_at run_id lag c entity))
          w).0
        ≡ ok next
      → Dealt chains start entity report next w.batches
          (open_unless chains start opened_at run_id lag entity c held report
            (existing_in w.batches (key_of chains start opened_at run_id lag c entity))
            w).1.batches
  unfolding open_unless
  open_unless-Dealt entity c held report next w in_chain h =
      let key = key_of chains start opened_at run_id lag c entity in
      elim (Bool-cases (has_registered (existing_in w.batches key))) [
        | inl e ↦
            let k : with_already entity report ≡ next = ok-injective (rw e at h) in
            rw e (c, in_chain, inl (has_registered-HasRegistered key w.batches e, sym k, refl))
        | inr e ↦ rw e (
          c,
          in_chain,
          inr (
            has_registered-none key w.batches e,
            open_batch-BatchOpened entity c held report next w (rw e at h),
          ),
        )
      ]

  open_entity-Dealt :
      (entity : String) (report next : OpenReport) (w : Warehouse)
      → (open_entity chains start opened_at run_id lag entity report w).0 ≡ ok next
      → Dealt chains start entity report next w.batches
          (open_entity chains start opened_at run_id lag entity report w).1.batches
  unfolding open_entity watermark existing_batches
  open_entity-Dealt entity report next w h =
      let one = bind-ok (lift (current_of (chain_of entity chains))) _ w next h in
      let system = one.value.source_system in
      let two = bind-ok (select system entity (date_of start)) _ w next one.rest in
      let v : Warehouse = (select system entity (date_of start) w).1 in
      let three = bind-ok (body chains entity two.value) _ v next two.rest in
      let c : Contract = three.value in
      let u : Warehouse = (body chains entity two.value v).1 in
      let held = watermark_in u.watermarks c.source_system entity in
      let in_chain = body-InChain chains entity two.value v c three.first in
      let same : u.batches ≡ w.batches =
        (body-Leaves chains entity two.value).same v
        ∙ (select-Leaves system entity (date_of start)).same w in
      let last = open_unless-Dealt entity c held report next u in_chain three.rest in
      subst (λ (x : Warehouse). Dealt chains start entity report next w.batches x.batches)
        (sym (one.state ∙ two.state ∙ three.state))
        (subst
          (λ rows.
            Dealt chains start entity report next rows
              (open_unless chains start opened_at run_id lag entity c held report
                (existing_in u.batches (key_of chains start opened_at run_id lag c entity))
                u).1.batches)
          same last)

  open_entities-Keeps :
      (es : List String) (report : OpenReport)
      → Keeps (open_entities chains start opened_at run_id lag es report)
  unfolding open_entities
  open_entities-Keeps [] report = record { kept = λ w h. Kept-refl w.batches h }
  open_entities-Keeps (e ∷ es) report =
      bind-Keeps _ _ (open_entity-Keeps chains start opened_at run_id lag e report)
        (λ next. open_entities-Keeps es next)

  -- What the loop adds to a report, where `rows` was the registry before it and `rows'` is now.
  record Went (es : List String) (report last : OpenReport) (rows rows' : List BatchRow)
      : Type 0 where
    os : List Opened
    ks : List String
    divided : Divided chains start rows es os ks
    allocations : last.allocations ≡ report.allocations ++ os
    already : last.already ≡ report.already ++ ks
    stands : All (IsOpenedIn rows') os

  -- A registered batch of the first table is one of the second, and the other way round.
  abbrev Agree : List BatchRow → List BatchRow → Type 0
  Agree rows rows' = (k : BatchKey) → HasRegistered k rows ↔ HasRegistered k rows'

  Divided-Agree :
      (rows rows' : List BatchRow) (es : List String) (os : List Opened) (ks : List String)
      → Agree rows rows'
      → Divided chains start rows' es os ks
      → Divided chains start rows es os ks
  Divided-Agree rows rows' _ _ _ agree nothing = nothing
  Divided-Agree rows rows' _ _ _ agree (passing e c es os ks i h d) =
      passing e c es os ks i ((agree _).1 h) (Divided-Agree rows rows' es os ks agree d)
  Divided-Agree rows rows' _ _ _ agree (opening e c o es os ks i h same d) =
      opening e c o es os ks i (λ there. h ((agree _).0 there)) same
        (Divided-Agree rows rows' es os ks agree d)

  after_one :
      (e : String) (es : List String) (report next last : OpenReport)
      (rows rows' rows'' : List BatchRow)
      → Kept rows rows'
      → Kept rows' rows''
      → Dealt chains start e report next rows rows'
      → Went es next last rows' rows''
      → Went (e ∷ es) report last rows rows''
  after_one e es report next last rows rows' rows'' kept later (c, i, inl (there, is, same)) rest =
      record {
        os = rest.os;
        ks = e ∷ rest.ks;
        divided =
            passing e c es rest.os rest.ks i there
              (subst (λ x. Divided chains start x es rest.os rest.ks) same rest.divided);
        allocations = rest.allocations ∙ ap (λ (x : OpenReport). x.allocations ++ rest.os) is;
        already =
            rest.already
            ∙ ap (λ (x : OpenReport). x.already ++ rest.ks) is
            ∙ append_assoc report.already (e ∷ []) rest.ks;
        stands = rest.stands;
      }
  after_one e es report next last rows rows' rows'' kept later (c, i, inr (none_there, one)) rest =
      record {
        os = one.o ∷ rest.os;
        ks = rest.ks;
        divided = opening e c one.o es rest.os rest.ks i none_there one.of_entity (
            Divided-Agree rows rows' es rest.os rest.ks
              (λ k. (Evolution-HasRegistered k rows rows' kept.evolved, one.back k)) rest.divided);
        allocations =
            rest.allocations
            ∙ ap (λ (x : OpenReport). x.allocations ++ rest.os) one.added
            ∙ append_assoc report.allocations (one.o ∷ []) rest.os;
        already = rest.already ∙ ap (λ (x : OpenReport). x.already ++ rest.ks) one.added;
        stands = (
          Evolution-HasStatus (λ _. Unit) (λ s t u l. tt) one.o.batch_id rows' rows'' later.evolved
              one.stands,
          rest.stands,
        );
      }

  open_entities-Went :
      (es : List String) (report last : OpenReport) (w : Warehouse)
      → IsWellFormed w.batches
      → (open_entities chains start opened_at run_id lag es report w).0 ≡ ok last
      → Went es report last w.batches
          (open_entities chains start opened_at run_id lag es report w).1.batches
  unfolding open_entities
  open_entities-Went [] report last w valid h =
      subst (λ (x : OpenReport). Went [] report x w.batches w.batches) (ok-injective h)
        (record {
          os = [];
          ks = [];
          divided = nothing;
          allocations = sym (append_nil report.allocations);
          already = sym (append_nil report.already);
          stands = tt;
        })
  open_entities-Went (e ∷ es) report last w valid h =
      let entity = open_entity chains start opened_at run_id lag e report in
      let one =
        bind-ok entity (λ next. open_entities chains start opened_at run_id lag es next) w last h in
      let next = one.value in
      let v : Warehouse = (entity w).1 in
      let kept = (open_entity-Keeps chains start opened_at run_id lag e report).kept w valid in
      let after = (open_entities-Keeps es next).kept v kept.valid in
      subst (λ (x : Warehouse). Went (e ∷ es) report last w.batches x.batches) (sym one.state)
        (after_one e es report next last w.batches v.batches _ kept after
          (open_entity-Dealt e report next w one.first)
          (open_entities-Went es next last v kept.valid one.rest))

-- The registry has evolved along its lifecycle, every allocation's batch stands in it, and the
-- entities were divided as the registry stood before.
pub record OpenDone (chains : VersionChains) (start : ℕ) (r : OpenReport) (w w' : Warehouse)
    : Type 0 where
  pub kept : Kept w.batches w'.batches
  pub divided : Divided chains start w.batches (sorted_set (keys chains)) r.allocations r.already
  pub stands : All (IsOpenedIn w'.batches) r.allocations

abbrev pub OpenOutcome : VersionChains → ℕ → Warehouse → Result OpenReport × Warehouse → Type 0
OpenOutcome chains start w (ok r, w') = OpenDone chains start r w w'
OpenOutcome chains start w (err e, w') = w' ≡ w

settle-OpenOutcome :
    (chains : VersionChains) (start : ℕ) (w : Warehouse) (r : Result OpenReport) (v : Warehouse)
    → ((last : OpenReport) → r ≡ ok last → OpenDone chains start last w v)
    → OpenOutcome chains start w (settle r w v)
settle-OpenOutcome chains start w (ok last) v h = h last refl
settle-OpenOutcome chains start w (err e) v h = refl

-- From a well-formed registry, the open step either raises and changes nothing, the versions it
-- recorded included, or every old batch evolved along the lifecycle, and the entities, in their
-- order, are divided by the registry as it stood: an entity with a registered batch of the interval
-- was passed over, and every other was allocated a batch, which stands in the registry.
pub open_phase-OpenOutcome :
    (chains : VersionChains) (start opened_at : ℕ) (run_id : String) (lag : ℕ) (w : Warehouse)
    → IsWellFormed w.batches
    → OpenOutcome chains start w (open_phase chains start opened_at run_id lag w)
unfolding open_phase open_all
open_phase-OpenOutcome chains start opened_at run_id lag w valid =
    settle-OpenOutcome chains start w _ _ done
  where
    es : List String
    es = sorted_set (keys chains)

    none_yet : OpenReport
    none_yet = record { allocations = []; already = [] }

    v : Warehouse
    v = (sync chains opened_at w).1

    same : v.batches ≡ w.batches
    same = (sync-Leaves chains opened_at).same w

    done :
        (last : OpenReport)
        → (open_all chains start opened_at run_id lag w).0 ≡ ok last
        → OpenDone chains start last w (open_all chains start opened_at run_id lag w).1
    done last h =
        let run = open_entities chains start opened_at run_id lag es none_yet in
        let one = then-ok (sync chains opened_at) run w last h in
        let fine : IsWellFormed v.batches = subst IsWellFormed (sym same) valid in
        let went =
          open_entities-Went chains start opened_at run_id lag es none_yet last v fine one.rest in
        let kept =
          (open_entities-Keeps chains start opened_at run_id lag es none_yet).kept v fine in
        subst (λ x. OpenDone chains start last w x) (sym one.state)
          (record {
            kept = subst (λ rows. Kept rows (run v).1.batches) same kept;
            divided =
                subst (λ rows. Divided chains start rows es last.allocations last.already) same
                  (subst (λ os. Divided chains start v.batches es os last.already)
                    (sym went.allocations)
                    (subst (λ ks. Divided chains start v.batches es went.os ks) (sym went.already)
                      went.divided));
            stands = subst (All (IsOpenedIn (run v).1.batches)) (sym went.allocations) went.stands;
          })
