-- ===== src/Phases/Closing/Reported.antt =====
-- The batches of an interval that did not report: all of them are among the reports the step makes.
use nordbank_data_platform.Common.{
  ℕ, String, ◌≡◌, arith, refl, sym, ◌∙◌, true, false, ◌⊎◌, Bool-cases, inl, inr, List, [], ◌∷◌,
  ◌++◌, map, filter, All, All-impl, filter-All, has_name, str_eq_iff, leb, str_lt, ok, ◌>>=◌,
  bind-eq-ok, ok-injective,
}
use mathlib.Core.Path.{subst}
use nordbank_data_platform.Common.Dict.{Dict, lookup}
use nordbank_data_platform.Validation.Schema.{Contract}
use nordbank_data_platform.Warehouse.{
  Status, opened, written, registered, failed, BatchRow, is_unregistered,
}
use nordbank_data_platform.Registry.{
  BatchKey, is_of_key, insert_by_sequence, by_sequence, existing_in, sequence_and_status,
  format_batch_id,
}
use nordbank_data_platform.Registry.Table.{IsNamed, Evolution, Later}
use nordbank_data_platform.Registry.History.{AnyRow}
use nordbank_data_platform.Register.{Entry}
use nordbank_data_platform.Register.Run.{contract_for}
use nordbank_data_platform.Register.Statuses.{HasStatus, IsEnded, IsEnded-stays}
use nordbank_data_platform.Register.Settled.{IsSettled}
use nordbank_data_platform.Phases.Closing.{
  unreported, unreported_of, unreported_all, key_at, insert_entry, by_entity,
}

module _ (P : Entry → Type 0) where
  insert_entry-All : (e : Entry) (es : List Entry) → All P (insert_entry e es) → P e × All P es
  unfolding insert_entry
  insert_entry-All e [] h = h
  insert_entry-All e (f ∷ fs) h = elim (Bool-cases (str_lt f.entity e.entity)) [
    | inl before ↦
        let k : All P (f ∷ insert_entry e fs) = rw before at h in
        let rest = insert_entry-All e fs k.1 in (rest.0, (k.0, rest.1))
    | inr after ↦ rw after at h
  ]

  pub by_entity-All : (es : List Entry) → All P (by_entity es) → All P es
  unfolding by_entity
  by_entity-All [] h = tt
  by_entity-All (e ∷ es) h =
      let k = insert_entry-All e (by_entity es) h in (k.0, by_entity-All es k.1)

module _ (P : ℕ × Status → Type 0) where
  insert_by_sequence-All :
      (p : ℕ × Status) (ps : List (ℕ × Status)) → All P (insert_by_sequence p ps) → P p × All P ps
  unfolding insert_by_sequence
  insert_by_sequence-All p [] h = h
  insert_by_sequence-All p (q ∷ qs) h = elim (Bool-cases (leb p.0 q.0)) [
    | inl e ↦ rw e at h
    | inr e ↦
        let k : All P (q ∷ insert_by_sequence p qs) = rw e at h in
        let rest = insert_by_sequence-All p qs k.1 in (rest.0, (k.0, rest.1))
  ]

  pub by_sequence-All : (ps : List (ℕ × Status)) → All P (by_sequence ps) → All P ps
  unfolding by_sequence
  by_sequence-All [] h = tt
  by_sequence-All (p ∷ ps) h =
      let k = insert_by_sequence-All p (by_sequence ps) h in (k.0, by_sequence-All ps k.1)

pub map-All :
    {A B : Type 0} (P : B → Type 0) (f : A → B) (xs : List A)
    → All P (map f xs)
    → All (λ x. P (f x)) xs
map-All P f [] h = tt
map-All P f (x ∷ xs) h = (h.0, map-All P f xs h.1)

-- A batch under a key that is not registered, as a report that was settled in a later table.
abbrev EndsIn : List BatchRow → BatchKey → ℕ × Status → Type 0
EndsIn rows' key p =
    is_unregistered p.1 ≡ true
    → HasStatus IsEnded (format_batch_id key.entity key.interval_start p.0) rows'

unreported_of-EndsIn :
    (rows rows' : List BatchRow) (key : BatchKey)
    → All (IsSettled rows') (unreported_of rows key)
    → All (λ (r : BatchRow). is_of_key key r ≡ true → EndsIn rows' key (sequence_and_status r)) rows
unfolding unreported_of existing_in
unreported_of-EndsIn rows rows' key h =
    let settled : All (λ p. IsSettled rows' (unreported key.entity key.interval_start p))
        (filter (λ p. is_unregistered p.1) (existing_in rows key)) =
      map-All (IsSettled rows') (unreported key.entity key.interval_start)
        (filter (λ p. is_unregistered p.1) (existing_in rows key)) h in
    let ended : All (EndsIn rows' key) (existing_in rows key) =
      All-impl
        (λ p.
          is_unregistered p.1 ≡ true → IsSettled rows' (unreported key.entity key.interval_start p))
        (EndsIn rows' key) (existing_in rows key) (λ p f e. (f e).ended refl)
        (filter-All (λ p. IsSettled rows' (unreported key.entity key.interval_start p))
          (λ p. is_unregistered p.1) (existing_in rows key) settled) in
    filter-All (λ r. EndsIn rows' key (sequence_and_status r)) (is_of_key key) rows
      (map-All (EndsIn rows' key) sequence_and_status (filter (is_of_key key) rows) (
        by_sequence-All (EndsIn rows' key) (map sequence_and_status (filter (is_of_key key) rows))
          ended))

finality_kept :
    (rows rows' : List BatchRow)
    → Evolution Later AnyRow rows rows'
    → All (λ (r : BatchRow). IsEnded r.status → HasStatus IsEnded r.batch_id rows') rows
finality_kept [] rows' e = tt
finality_kept (r ∷ rs) [] e = absurd e
finality_kept (r ∷ rs) (s ∷ ss) e = (
  λ ended. inl (e.0.batch_id, IsEnded-stays r.status s.status ended e.0.moved),
  All-impl _ _ rs (λ x f ended. inr (f ended)) (finality_kept rs ss e.1),
)

status_cases : (s : Status) → (is_unregistered s ≡ true) ⊎ IsEnded s
status_cases opened = inl refl
status_cases written = inl refl
status_cases registered = inr (inr refl)
status_cases failed = inr (inl refl)

named_by_key :
    (key : BatchKey) (r : BatchRow)
    → is_of_key key r ≡ true
    → IsNamed r
    → format_batch_id key.entity key.interval_start r.batch_sequence ≡ r.batch_id
named_by_key key r of_key named =
    let parts : (r.entity ≡ key.entity) × (r.interval_start ≡ key.interval_start) =
      ground (arith, str_eq_iff r.entity key.entity) in
    let same_entity = parts.0 in let same_start = parts.1 in cc

-- Every batch under a key that a table had is registered or failed in a later one.
abbrev pub AllEnded : BatchKey → List BatchRow → List BatchRow → Type 0
AllEnded key rows rows' =
    All (λ (r : BatchRow). is_of_key key r ≡ true → HasStatus IsEnded r.batch_id rows') rows

each-AllEnded :
    (key : BatchKey) (rows rows' : List BatchRow)
    → All IsNamed rows
    → All (λ (r : BatchRow). IsEnded r.status → HasStatus IsEnded r.batch_id rows') rows
    → All (λ (r : BatchRow). is_of_key key r ≡ true → EndsIn rows' key (sequence_and_status r)) rows
    → AllEnded key rows rows'
each-AllEnded key [] rows' named stays ends = tt
each-AllEnded key (r ∷ rs) rows' named stays ends = (
  λ of_key. elim (status_cases r.status) [
    | inl left_open ↦
        subst (λ id. HasStatus IsEnded id rows') (named_by_key key r of_key named.0)
          (ends.0 of_key left_open)
    | inr ended ↦ stays.0 ended
  ],
  each-AllEnded key rs rows' named.1 stays.1 ends.1,
)

pub unreported_of-AllEnded :
    (key : BatchKey) (rows rows' : List BatchRow)
    → All IsNamed rows
    → Evolution Later AnyRow rows rows'
    → All (IsSettled rows') (unreported_of rows key)
    → AllEnded key rows rows'
unreported_of-AllEnded key rows rows' named evolved settled =
    each-AllEnded key rows rows' named (finality_kept rows rows' evolved)
      (unreported_of-EndsIn rows rows' key settled)

pub append-All :
    {A : Type 0} (P : A → Type 0) (xs ys : List A) → All P (xs ++ ys) → All P xs × All P ys
append-All P [] ys h = (tt, h)
append-All P (x ∷ xs) ys h = let rest = append-All P xs ys h.1 in ((h.0, rest.0), rest.1)

-- What is to hold of an entity of the run: a report, or no batch of the interval left open.
abbrev pub IsClosed :
    Dict Contract → ℕ → List String → List BatchRow → List BatchRow → String → Type 0
IsClosed contracts start reported rows rows' entity =
    has_name entity reported ≡ false
    → (c : Contract) × (contract_for entity (lookup entity contracts) ≡ ok c)
      × AllEnded (key_at c entity start) rows rows'

pub unreported_all-IsClosed :
    (contracts : Dict Contract) (start : ℕ) (reported : List String) (rows rows' : List BatchRow)
    (entities : List String) {missing : List Entry}
    → All IsNamed rows
    → Evolution Later AnyRow rows rows'
    → unreported_all contracts start reported rows entities ≡ ok missing
    → All (IsSettled rows') missing
    → All (IsClosed contracts start reported rows rows') entities
unfolding unreported_all
unreported_all-IsClosed contracts start reported rows rows' [] named evolved found settled = tt
unreported_all-IsClosed contracts start reported rows rows' (entity ∷ entities) named evolved found
      settled =
    elim (Bool-cases (has_name entity reported)) [
      | inl e ↦ (
        (λ missed. let reported_and_not : true ≡ false = sym e ∙ missed in cc),
        unreported_all-IsClosed contracts start reported rows rows' entities named evolved
            (rw e at found) settled,
      )
      | inr e ↦
          let with_contract =
            bind-eq-ok (contract_for entity (lookup entity contracts))
              (λ c. unreported_all contracts start reported rows entities >>= λ later.
                ok (unreported_of rows (key_at c entity start) ++ later))
              (rw e at found) in
          let c : Contract = with_contract.0 in
          let with_rest =
            bind-eq-ok (unreported_all contracts start reported rows entities)
              (λ later. ok (unreported_of rows (key_at c entity start) ++ later)) with_contract.2 in
          let both =
            append-All (IsSettled rows') (unreported_of rows (key_at c entity start)) with_rest.0
              (subst (All (IsSettled rows')) (sym (ok-injective with_rest.2)) settled) in
          (
            (λ _. (
              c,
              with_contract.1,
              unreported_of-AllEnded (key_at c entity start) rows rows' named evolved both.0,
            )),
            unreported_all-IsClosed contracts start reported rows rows' entities named evolved
                with_rest.1 both.1,
          )
    ]
