-- ===== src/Contracts/Recorded.antt =====
-- What a `sync` that returns has recorded, and that a second one changes nothing.
use mathlib.Core.Path.{subst}
use nordbank_data_platform.Common.{
  ℕ, String, ◌≡◌, refl, ◌∙◌, inl, inr, true, Option, none, some, List, [], ◌∷◌, ◌++◌, All, All-impl,
  arith, Bool-cases, ok, err, Error, str_eq_refl, sorted_set, sorted_set-All, sym,
}
use nordbank_data_platform.Common.Dict.{keys}
use nordbank_data_platform.Validation.Schema.{Contract}
use nordbank_data_platform.Warehouse.{VersionRow, Warehouse}
use nordbank_data_platform.Warehouse.Action.{bind-ok}
use nordbank_data_platform.Contracts.{
  VersionChains, chain_of, is_version, find_version, version_row, agrees, same_date, sync_found,
  sync_one, sync_chain, sync_entities, sync,
}

-- The row of a version is there, and says what the file says.
pub record Recorded (w : Warehouse) (entity : String) (c : Contract) : Type 0 where
  pub row : VersionRow
  pub found : find_version w.versions c.source_system entity c.contract_version ≡ some row
  pub same : agrees row c ≡ true

-- No recorded version is lost or altered.
pub record Grows (w w' : Warehouse) : Type 0 where
  pub at :
      (system entity : String) (version : ℕ) (r : VersionRow)
      → find_version w.versions system entity version ≡ some r
      → find_version w'.versions system entity version ≡ some r

Grows-refl : (w : Warehouse) → Grows w w
Grows-refl w = record { at = λ s e v r h. h }

Grows-trans : (u v w : Warehouse) → Grows u v → Grows v w → Grows u w
Grows-trans u v w g h = record { at = λ s e n r k. h.at s e n r (g.at s e n r k) }

Recorded-Grows :
    (w w' : Warehouse) (entity : String) (c : Contract)
    → Grows w w'
    → Recorded w entity c
    → Recorded w' entity c
Recorded-Grows w w' entity c g h = record {
  row = h.row;
  found = g.at c.source_system entity c.contract_version h.row h.found;
  same = h.same;
}

find_version-append :
    (rows : List VersionRow) (x : VersionRow) (s e : String) (v : ℕ) (r : VersionRow)
    → find_version rows s e v ≡ some r
    → find_version (rows ++ x ∷ []) s e v ≡ some r
unfolding find_version
find_version-append [] x s e v r h = cc
find_version-append (y ∷ ys) x s e v r h = ground (arith, find_version-append ys x s e v r)

find_version-append_new :
    (rows : List VersionRow) (x : VersionRow) (s e : String) (v : ℕ)
    → find_version rows s e v ≡ none
    → is_version s e v x ≡ true
    → find_version (rows ++ x ∷ []) s e v ≡ some x
unfolding find_version
find_version-append_new [] x s e v h k = rw k refl
find_version-append_new (y ∷ ys) x s e v h k = ground (arith, find_version-append_new ys x s e v)

same_date_refl : (o : Option ℕ) → same_date o o ≡ true
same_date_refl none = refl
same_date_refl (some n) = ground arith

version_row-agrees :
    (entity : String) (c : Contract) (now : ℕ)
    → (is_version c.source_system entity c.contract_version (version_row entity c now) ≡ true)
      × (agrees (version_row entity c now) c ≡ true)
unfolding version_row
version_row-agrees entity c now = (
  rw (str_eq_refl c.source_system, str_eq_refl entity) (ground arith),
  rw (str_eq_refl c.fingerprint) (same_date_refl c.in_force_from),
)

raise-ne-ok : {A : Type 0} {e : Error} {a : A} → err e ≡ ok a → ⊥
raise-ne-ok h = cc

sync_one-Recorded :
    (entity : String) (c : Contract) (now : ℕ) (w : Warehouse) (n : ℕ)
    → (sync_one entity c now w).0 ≡ ok n
    → Recorded (sync_one entity c now w).1 entity c × Grows w (sync_one entity c now w).1
unfolding sync_one
sync_one-Recorded entity c now w n h =
    go (find_version w.versions c.source_system entity c.contract_version) refl h
  where
    go :
        (o : Option VersionRow)
        → find_version w.versions c.source_system entity c.contract_version ≡ o
        → (sync_found entity c now o w).0 ≡ ok n
        → Recorded (sync_found entity c now o w).1 entity c
          × Grows w (sync_found entity c now o w).1
    go none e k = (
      record {
        row = version_row entity c now;
        found = find_version-append_new w.versions _ _ _ _ e (version_row-agrees entity c now).0;
        same = (version_row-agrees entity c now).1;
      },
      record { at = λ s e' v r f. find_version-append w.versions _ s e' v r f },
    )
    go (some r) e k = elim (Bool-cases (agrees r c)) [
      | inl same ↦ rw same (record { row = r; found = e; same = same }, Grows-refl w)
      | inr edited ↦ absurd (raise-ne-ok (rw edited at k))
    ]

sync_chain-Recorded :
    (entity : String) (cs : List Contract) (now : ℕ) (w : Warehouse) (n : ℕ)
    → (sync_chain entity cs now w).0 ≡ ok n
    → All (Recorded (sync_chain entity cs now w).1 entity) cs
      × Grows w (sync_chain entity cs now w).1
unfolding sync_chain
sync_chain-Recorded entity [] now w n h = (tt, Grows-refl w)
sync_chain-Recorded entity (c ∷ cs) now w n h =
    let one = bind-ok (sync_one entity c now) _ w n h in
    let v = (sync_one entity c now w).1 in
    let two = bind-ok (sync_chain entity cs now) _ v n one.rest in
    let u = (sync_chain entity cs now v).1 in
    let (here, grown) = sync_one-Recorded entity c now w one.value one.first in
    let (later, more) = sync_chain-Recorded entity cs now v two.value two.first in
    subst (λ x. All (Recorded x entity) (c ∷ cs) × Grows w x) (sym (one.state ∙ two.state))
      ((Recorded-Grows v u entity c more here, later), Grows-trans w v u grown more)

-- Every version of every one of the entities.
abbrev pub AllRecorded : Warehouse → VersionChains → List String → Type 0
AllRecorded w chains es = All (λ e. All (Recorded w e) (chain_of e chains)) es

All-Recorded-Grows :
    (w w' : Warehouse) (e : String) (cs : List Contract)
    → Grows w w'
    → All (Recorded w e) cs
    → All (Recorded w' e) cs
All-Recorded-Grows w w' e cs g h = All-impl _ _ cs (λ c. Recorded-Grows w w' e c g) h

sync_entities-Recorded :
    (chains : VersionChains) (es : List String) (now : ℕ) (w : Warehouse) (n : ℕ)
    → (sync_entities chains es now w).0 ≡ ok n
    → AllRecorded (sync_entities chains es now w).1 chains es
      × Grows w (sync_entities chains es now w).1
unfolding sync_entities
sync_entities-Recorded chains [] now w n h = (tt, Grows-refl w)
sync_entities-Recorded chains (e ∷ es) now w n h =
    let one = bind-ok (sync_chain e (chain_of e chains) now) _ w n h in
    let v = (sync_chain e (chain_of e chains) now w).1 in
    let two = bind-ok (sync_entities chains es now) _ v n one.rest in
    let u = (sync_entities chains es now v).1 in
    let (here, grown) = sync_chain-Recorded e (chain_of e chains) now w one.value one.first in
    let (later, more) = sync_entities-Recorded chains es now v two.value two.first in
    subst (λ x. AllRecorded x chains (e ∷ es) × Grows w x) (sym (one.state ∙ two.state))
      (
        (All-Recorded-Grows v u e (chain_of e chains) more here, later),
        Grows-trans w v u grown more,
      )

-- A version that is recorded is passed over.
sync_one-again :
    (entity : String) (c : Contract) (now : ℕ) (w : Warehouse)
    → Recorded w entity c
    → sync_one entity c now w ≡ (ok 0, w)
unfolding sync_one
sync_one-again entity c now w h = rw (h.found, sync_found) (rw h.same refl)

sync_chain-again :
    (entity : String) (cs : List Contract) (now : ℕ) (w : Warehouse)
    → All (Recorded w entity) cs
    → sync_chain entity cs now w ≡ (ok 0, w)
unfolding sync_chain
sync_chain-again entity [] now w h = refl
sync_chain-again entity (c ∷ cs) now w h =
    rw (sync_one-again entity c now w h.0, sync_chain-again entity cs now w h.1) refl

sync_entities-again :
    (chains : VersionChains) (es : List String) (now : ℕ) (w : Warehouse)
    → AllRecorded w chains es
    → sync_entities chains es now w ≡ (ok 0, w)
unfolding sync_entities
sync_entities-again chains [] now w h = refl
sync_entities-again chains (e ∷ es) now w h =
    rw (sync_chain-again e (chain_of e chains) now w h.0, sync_entities-again chains es now w h.1)
      refl

-- A `sync` that returns has recorded every version of every entity as its file has it, and lost or
-- altered no version that was recorded; repeated at any later time, it adds nothing.
pub sync-Recorded :
    (chains : VersionChains) (now later n : ℕ) (w : Warehouse)
    → (sync chains now w).0 ≡ ok n
    → AllRecorded (sync chains now w).1 chains (keys chains)
      × Grows w (sync chains now w).1
      × (sync chains later (sync chains now w).1 ≡ (ok 0, (sync chains now w).1))
unfolding sync
sync-Recorded chains now later n w h =
    let (recorded, grown) = sync_entities-Recorded chains (sorted_set (keys chains)) now w n h in
    (
      sorted_set-All _ (keys chains) recorded,
      grown,
      sync_entities-again chains (sorted_set (keys chains)) later _ recorded,
    )
