-- ===== src/Feeds/Settlement/Files.antt =====
-- The files of a settlement run, opened one after the other.
use nordbank_data_platform.Common.{◌≡◌, sym, List, [], ◌∷◌, All-impl, ok, ok-injective}
use mathlib.Core.Path.{subst}
use nordbank_data_platform.Warehouse.{BatchRow, Warehouse}
use nordbank_data_platform.Warehouse.Action.{bind-ok}
use nordbank_data_platform.Registry.Table.{IsWellFormed}
use nordbank_data_platform.Register.Frame.{Kept, Keeps, Leaves-Keeps, bind-Keeps, pure-Leaves}
use nordbank_data_platform.Feeds.Allocation.Stands.{Kept-StandsIn}
use nordbank_data_platform.Feeds.Admission.{Run, open_delivery}
use nordbank_data_platform.Feeds.SettlementFile.{SettlementFile}
use nordbank_data_platform.Feeds.Settlement.{
  SettlementUnit, Progress, allocate_file, judge_file, open_file, open_files,
}
use nordbank_data_platform.Feeds.Settlement.Placed.{
  UnitsStandIn, open_delivery-Places, judge_file-Leaves, judged_units,
}

pub Kept-UnitsStandIn :
    (rows rows' : List BatchRow) (us : List SettlementUnit)
    → Kept rows rows'
    → UnitsStandIn rows us
    → UnitsStandIn rows' us
Kept-UnitsStandIn rows rows' us k h =
    All-impl _ _ us (λ u m. Kept-StandsIn rows rows' u.batches k m) h

module _ (r : Run) where
  open_file-Keeps : (f : SettlementFile) (p : Progress) → Keeps (open_file r f p)
  unfolding open_file
  open_file-Keeps f p =
      bind-Keeps _ _ (open_delivery-Places r f p.attempted).keeps
        (λ one. Leaves-Keeps _ (judge_file-Leaves r f one.0 (record p { attempted = one.1 })))

  open_file-UnitsStandIn :
      (f : SettlementFile) (p q : Progress) (w : Warehouse)
      → IsWellFormed w.batches
      → UnitsStandIn w.batches p.units
      → (open_file r f p w).0 ≡ ok q
      → UnitsStandIn (open_file r f p w).1.batches q.units
  unfolding open_file
  open_file-UnitsStandIn f p q w valid h e =
      let delivery = open_delivery r (λ _. allocate_file r f) f.candidate p.attempted in
      let one =
        bind-ok delivery (λ one. judge_file r f one.0 (record p { attempted = one.1 })) w q e in
      let v : Warehouse = (delivery w).1 in
      let placed = open_delivery-Places r f p.attempted in
      let now : Progress = record p { attempted = one.value.1 } in
      let same = (judge_file-Leaves r f one.value.0 now).same v in
      let stand = placed.stands w one.value valid one.first in
      let before = Kept-UnitsStandIn w.batches v.batches p.units (placed.keeps.kept w valid) h in
      subst (λ (x : Warehouse). UnitsStandIn x.batches q.units) (sym one.state)
        (subst (λ rows. UnitsStandIn rows q.units) (sym same)
          (judged_units r f one.value.0 now q v stand before one.rest))

  pub open_files-Places :
      (fs : List SettlementFile) (p : Progress) (w : Warehouse) (q : Progress)
      → IsWellFormed w.batches
      → UnitsStandIn w.batches p.units
      → (open_files r fs p w).0 ≡ ok q
      → UnitsStandIn (open_files r fs p w).1.batches q.units
  unfolding open_files
  open_files-Places [] p w q valid h e =
      subst (λ (x : Progress). UnitsStandIn w.batches x.units) (ok-injective e) h
  open_files-Places (f ∷ fs) p w q valid h e =
      let one = bind-ok (open_file r f p) (open_files r fs) w q e in
      let v : Warehouse = (open_file r f p w).1 in
      subst (λ (x : Warehouse). UnitsStandIn x.batches q.units) (sym one.state)
        (open_files-Places fs one.value v q ((open_file-Keeps f p).kept w valid).valid
          (open_file-UnitsStandIn f p one.value w valid h one.first) one.rest)

  pub open_files-Keeps : (fs : List SettlementFile) (p : Progress) → Keeps (open_files r fs p)
  unfolding open_files
  open_files-Keeps [] p = Leaves-Keeps _ (pure-Leaves p)
  open_files-Keeps (f ∷ fs) p = bind-Keeps _ _ (open_file-Keeps f p) (λ q. open_files-Keeps fs q)
