-- ===== src/Validation/Conformance.antt =====
-- `validate_record` against the contract's demands on one record, stated apart from the code.
use nordbank_data_platform.Common.{
  String, ◌≡◌, refl, ◌⊎◌, inl, inr, true, false, Option, none, some, List, [], ◌∷◌, arith, All, Any,
  Bool-cases, Option-cases, ok, bind-eq-ok,
}
use nordbank_data_platform.Common.Dict.{lookup}
use nordbank_data_platform.Validation.{
  Key, record_key, key_eq, has_key, hash_key, Rejection, null_key, check_column, check_columns,
  check_unseen, validate_record,
}
use nordbank_data_platform.Validation.Values.{Value, is_null, matches_type}
use nordbank_data_platform.Validation.Schema.{Column, Contract, Record, get, contract_keys}

-- A column's rule for what the record holds under its name.
abbrev pub Fits : Column → Option Value → Type 0
Fits c none = ⊥
Fits c (some v) =
    ((is_null v ≡ true) × (c.is_nullable ≡ true))
    ⊎ ((is_null v ≡ false) × (matches_type v c.data_type ≡ ok true))

-- The contract's demands on one record, apart from the other records.
abbrev pub Conforms : Contract → Record → Type 0
Conforms c r =
    All (λ k. is_null (get r k) ≡ false) (contract_keys c)
    × All (λ (k : Column). Fits k (lookup k.name r)) c.columns

pub null_key-none :
    (ks : List String) (r : Record) → null_key ks r ≡ none → All (λ k. is_null (get r k) ≡ false) ks
unfolding null_key
null_key-none [] r h = tt
null_key-none (k ∷ ks) r h = elim (Bool-cases (is_null (get r k))) [
  | inl n ↦ absurd (ground arith)
  | inr p ↦ (p, null_key-none ks r (rw p at h))
]

check_column-none :
    (c : Column) (o : Option Value) (key : Key) → check_column c o key ≡ ok none → Fits c o
unfolding check_column
check_column-none c none key h = cc
check_column-none c (some v) key h = ground arith

pub check_columns-none :
    (cs : List Column) (r : Record) (key : Key)
    → check_columns cs r key ≡ ok none
    → All (λ (k : Column). Fits k (lookup k.name r)) cs
unfolding check_columns
check_columns-none [] r key h = tt
check_columns-none (c ∷ cs) r key h =
    let (o, p, q) = bind-eq-ok (check_column c (lookup c.name r) key) _ h in
    go o p q (check_columns-none cs r key)
  where
    go :
        (o : Option Rejection)
        → check_column c (lookup c.name r) key ≡ ok o
        → (elim o [ some j ↦ ok (some j) | none ↦ check_columns cs r key ]) ≡ ok none
        → (check_columns cs r key ≡ ok none → All (λ (k : Column). Fits k (lookup k.name r)) cs)
        → All (λ (k : Column). Fits k (lookup k.name r)) (c ∷ cs)
    go none p q rest = (check_column-none c (lookup c.name r) key p, rest q)
    go (some j) p q rest = cc

-- A record that conforms is found fault with only for its key.
null_key-All :
    (ks : List String) (r : Record) → All (λ k. is_null (get r k) ≡ false) ks → null_key ks r ≡ none
unfolding null_key
null_key-All [] r h = refl
null_key-All (k ∷ ks) r h = rw (h.0) (null_key-All ks r h.1)

check_column-Fits :
    (c : Column) (o : Option Value) (key : Key) → Fits c o → check_column c o key ≡ ok none
unfolding check_column
check_column-Fits c none key h = absurd h
check_column-Fits c (some v) key h = ground arith

check_columns-Fits :
    (cs : List Column) (r : Record) (key : Key)
    → All (λ (k : Column). Fits k (lookup k.name r)) cs
    → check_columns cs r key ≡ ok none
unfolding check_columns
check_columns-Fits [] r key h = refl
check_columns-Fits (c ∷ cs) r key h =
    rw (check_column-Fits c (lookup c.name r) key h.0) (check_columns-Fits cs r key h.1)

-- The keys seen so far hold the key.
abbrev pub IsIn : Key → List Key → Type 0
IsIn k ks = Any (λ j. key_eq k j ≡ true) ks

pub has_key-IsIn : (k : Key) (ks : List Key) → has_key k ks ≡ true → IsIn k ks
unfolding has_key
has_key-IsIn k [] h = cc
has_key-IsIn k (j ∷ js) h = elim (Bool-cases (key_eq k j)) [
  | inl e ↦ inl e
  | inr n ↦ inr (has_key-IsIn k js (ground arith))
]

pub has_key-All :
    (k : Key) (ks : List Key) → has_key k ks ≡ false → All (λ j. key_eq k j ≡ false) ks
unfolding has_key
has_key-All k [] h = tt
has_key-All k (j ∷ js) h = (ground arith, has_key-All k js (ground arith))

check_unseen-none :
    (r : Record) (c : Contract) (seen : List Key)
    → check_unseen r c seen ≡ ok none
    → (has_key (record_key r c) seen ≡ false)
      × (check_columns c.columns r (record_key r c) ≡ ok none)
unfolding check_unseen
check_unseen-none r c seen h = elim (Bool-cases (has_key (record_key r c) seen)) [
  | inl dup ↦ absurd (ground arith)
  | inr new ↦ (new, rw new at h)
]

pub validate_record-none :
    (r : Record) (c : Contract) (seen : List Key)
    → validate_record r c seen ≡ ok none
    → Conforms c r × (has_key (record_key r c) seen ≡ false)
unfolding validate_record
validate_record-none r c seen h = elim (Option-cases (null_key (contract_keys c) r)) [
  | inl e ↦
      let (_, _, q) = bind-eq-ok (hash_key (record_key r c)) _ (rw (e, validate_record) at h) in
      let (new, fits) = check_unseen-none r c seen q in
      (
        (null_key-none (contract_keys c) r e, check_columns-none c.columns r (record_key r c) fits),
        new,
      )
  | inr (k, e) ↦ absurd (ground arith)
]

pub validate_record-some :
    (r : Record) (c : Contract) (seen : List Key) (j : Rejection)
    → validate_record r c seen ≡ ok (some j)
    → ¬ Conforms c r ⊎ IsIn (record_key r c) seen
unfolding validate_record
validate_record-some r c seen j h = elim (Bool-cases (has_key (record_key r c) seen)) [
  | inl dup ↦ inr (has_key-IsIn (record_key r c) seen dup)
  | inr new ↦ inl λ (keyed, fits).
      let e = null_key-All (contract_keys c) r keyed in
      let (_, _, q) = bind-eq-ok (hash_key (record_key r c)) _ (rw (e, validate_record) at h) in
      ground (arith, check_columns-Fits c.columns r (record_key r c) fits)
]
