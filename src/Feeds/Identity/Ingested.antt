-- ===== src/Feeds/Identity/Ingested.antt =====
-- The files recorded as landed: one row per content.
use nordbank_data_platform.Common.{
  String, ◌≡◌, ◌≢◌, refl, Bool, true, false, List, [], ◌∷◌, ◌++◌, any, All, Any, str_eq_iff,
  Bool-cases, inl, inr, arith, ok,
}
use nordbank_data_platform.Warehouse.{IngestedRow, Warehouse}
use nordbank_data_platform.Feeds.Identity.{has_checksum, record_ingested}

abbrev pub DistinctContent : List IngestedRow → Type 0
DistinctContent [] = Unit
DistinctContent (r ∷ rs) =
    All (λ (x : IngestedRow). r.content_checksum ≢ x.content_checksum) rs × DistinctContent rs

-- A file that is recorded, or refused because its content had landed.
pub data IsRecorded (r : IngestedRow) (w : Warehouse) : Bool → Warehouse → Type 0 where
  is_new :
      All (λ (x : IngestedRow). x.content_checksum ≢ r.content_checksum) w.ingested
      → IsRecorded r w true (record w { ingested = w.ingested ++ r ∷ [] })
  is_known :
      Any (λ (x : IngestedRow). x.content_checksum ≡ r.content_checksum) w.ingested
      → IsRecorded r w false w

any_found :
    (c : String) (rows : List IngestedRow)
    → any (has_checksum c) rows ≡ true
    → Any (λ (x : IngestedRow). x.content_checksum ≡ c) rows
any_found c [] h = cc
any_found c (x ∷ xs) h = elim (Bool-cases (has_checksum c x)) [
  | inl e ↦ inl ((str_eq_iff x.content_checksum c).0 e)
  | inr e ↦ inr (any_found c xs (rw e at h))
]

none_found :
    (c : String) (rows : List IngestedRow)
    → any (has_checksum c) rows ≡ false
    → All (λ (x : IngestedRow). x.content_checksum ≢ c) rows
none_found c [] h = tt
none_found c (x ∷ xs) h =
    (ground (arith, str_eq_iff x.content_checksum c), none_found c xs (ground arith))

one_more :
    (c : String) (rows : List IngestedRow) (r : IngestedRow)
    → c ≢ r.content_checksum
    → All (λ (x : IngestedRow). c ≢ x.content_checksum) rows
    → All (λ (x : IngestedRow). c ≢ x.content_checksum) (rows ++ r ∷ [])
one_more c [] r n h = (n, tt)
one_more c (x ∷ xs) r n h = (h.0, one_more c xs r n h.1)

append-DistinctContent :
    (rows : List IngestedRow) (r : IngestedRow)
    → All (λ (x : IngestedRow). x.content_checksum ≢ r.content_checksum) rows
    → DistinctContent rows
    → DistinctContent (rows ++ r ∷ [])
append-DistinctContent [] r n d = (tt, tt)
append-DistinctContent (x ∷ xs) r n d =
    (one_more x.content_checksum xs r n.0 d.0, append-DistinctContent xs r n.1 d.1)

-- Where no two recorded files have one content, recording a file answers true and adds it where its
-- content is new, answers false and changes nothing where it had landed, and again no two have one.
pub record_ingested-IsRecorded :
    (r : IngestedRow) (w : Warehouse)
    → DistinctContent w.ingested
    → (b : Bool) × ((record_ingested r w).0 ≡ ok b)
      × IsRecorded r w b (record_ingested r w).1
      × DistinctContent (record_ingested r w).1.ingested
unfolding record_ingested
record_ingested-IsRecorded r w d =
    elim (Bool-cases (any (has_checksum r.content_checksum) w.ingested)) [
      | inl e ↦ rw e (false, refl, is_known (any_found r.content_checksum w.ingested e), d)
      | inr e ↦
          let fresh = none_found r.content_checksum w.ingested e in
          rw e (true, refl, is_new fresh, append-DistinctContent w.ingested r fresh d)
    ]
