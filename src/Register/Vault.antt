-- ===== src/Register/Vault.antt =====
-- The vault after an upsert: one row per token, the rows of before where they stood, and the raw
-- value of every token that was put in.
use nordbank_data_platform.Common.{
  ℕ, String, ◌+◌, ◌-◌, ◌≡◌, ◌≢◌, refl, sym, ap, ◌∙◌, inl, inr, true, false, List, [], ◌∷◌, ◌++◌,
  length, length-append, any, All, All-impl, All-append, Any, append_nil, append_assoc, Bool-cases,
  arith, str_eq_iff, ok,
}
use mathlib.Core.Path.{subst}
use nordbank_data_platform.Warehouse.{VaultRow, Warehouse}
use nordbank_data_platform.Register.{
  FirstSeen, has_token, vault_row, insert_new, incoming_rows, insert_rows, upserted, upsert_vault,
}

abbrev pub DistinctTokens : List VaultRow → Type 0
DistinctTokens [] = Unit
DistinctTokens (r ∷ rs) = All (λ (x : VaultRow). r.token ≢ x.token) rs × DistinctTokens rs

-- Every row's token is its raw value's.
abbrev pub IsFaithful : (String → String) → List VaultRow → Type 0
IsFaithful token rows = All (λ (r : VaultRow). r.token ≡ token r.raw_value) rows

abbrev pub HasToken : String → List VaultRow → Type 0
HasToken t rows = Any (λ (r : VaultRow). r.token ≡ t) rows

abbrev pub Extends : List VaultRow → List VaultRow → Type 0
Extends rows rows' = (extra : List VaultRow) × (rows' ≡ rows ++ extra)

Extends-refl : (rows : List VaultRow) → Extends rows rows
Extends-refl rows = ([], sym (append_nil rows))

Extends-trans : (xs ys zs : List VaultRow) → Extends xs ys → Extends ys zs → Extends xs zs
Extends-trans xs ys zs (us, h) (vs, k) = (us ++ vs, k ∙ ap (λ x. x ++ vs) h ∙ append_assoc xs us vs)

Any-left : (P : VaultRow → Type 0) (xs ys : List VaultRow) → Any P xs → Any P (xs ++ ys)
Any-left P [] ys h = absurd h
Any-left P (x ∷ xs) ys (inl h) = inl h
Any-left P (x ∷ xs) ys (inr h) = inr (Any-left P xs ys h)

Any-last : (P : VaultRow → Type 0) (xs : List VaultRow) (r : VaultRow) → P r → Any P (xs ++ r ∷ [])
Any-last P [] r h = inl h
Any-last P (x ∷ xs) r h = inr (Any-last P xs r h)

Extends-HasToken :
    (t : String) (xs ys : List VaultRow) → Extends xs ys → HasToken t xs → HasToken t ys
Extends-HasToken t xs ys (us, h) m = subst (HasToken t) (sym h) (Any-left _ xs us m)

any-HasToken : (t : String) (rows : List VaultRow) → any (has_token t) rows ≡ true → HasToken t rows
any-HasToken t [] h = cc
any-HasToken t (r ∷ rs) h = elim (Bool-cases (has_token t r)) [
  | inl e ↦ inl ((str_eq_iff r.token t).0 e)
  | inr e ↦ inr (any-HasToken t rs (rw e at h))
]

last-others :
    (t : String) (rows : List VaultRow) (r : VaultRow)
    → t ≢ r.token
    → All (λ (x : VaultRow). t ≢ x.token) rows
    → All (λ (x : VaultRow). t ≢ x.token) (rows ++ r ∷ [])
last-others t [] r n h = (n, tt)
last-others t (x ∷ xs) r n h = (h.0, last-others t xs r n h.1)

last-DistinctTokens :
    (rows : List VaultRow) (r : VaultRow)
    → any (has_token r.token) rows ≡ false
    → DistinctTokens rows
    → DistinctTokens (rows ++ r ∷ [])
last-DistinctTokens [] r n h = (tt, tt)
last-DistinctTokens (x ∷ xs) r n h = (
  last-others x.token xs r (ground (arith, str_eq_iff x.token r.token)) h.0,
  last-DistinctTokens xs r (ground arith) h.1,
)

-- A table into which rows were inserted `on conflict (token) do nothing`.
pub record Inserted (P : VaultRow → Type 0) (rows rows' : List VaultRow) : Type 0 where
  pub extends : Extends rows rows'
  pub distinct : DistinctTokens rows → DistinctTokens rows'
  pub every : All P rows → All P rows'

module _ (P : VaultRow → Type 0) where
  Inserted-refl : (rows : List VaultRow) → Inserted P rows rows
  Inserted-refl rows = record { extends = Extends-refl rows; distinct = λ h. h; every = λ h. h }

  Inserted-trans :
      (xs ys zs : List VaultRow) → Inserted P xs ys → Inserted P ys zs → Inserted P xs zs
  Inserted-trans xs ys zs h k = record {
    extends = Extends-trans xs ys zs h.extends k.extends;
    distinct = λ d. k.distinct (h.distinct d);
    every = λ p. k.every (h.every p);
  }

  insert_new-Inserted :
      (r : VaultRow) (rows : List VaultRow)
      → P r
      → Inserted P rows (insert_new r rows) × HasToken r.token (insert_new r rows)
  unfolding insert_new
  insert_new-Inserted r rows p = elim (Bool-cases (any (has_token r.token) rows)) [
    | inl e ↦ rw e (Inserted-refl rows, any-HasToken r.token rows e)
    | inr e ↦ rw e (
      record {
        extends = (r ∷ [], refl);
        distinct = last-DistinctTokens rows r e;
        every = λ h. All-append P rows (r ∷ []) h (p, tt);
      },
      Any-last _ rows r refl,
    )
  ]

  insert_rows-Inserted :
      (table rs : List VaultRow)
      → All P rs
      → Inserted P table (insert_rows table rs)
        × All (λ (r : VaultRow). HasToken r.token (insert_rows table rs)) rs
  unfolding insert_rows
  insert_rows-Inserted table [] h = (Inserted-refl table, tt)
  insert_rows-Inserted table (r ∷ rs) h =
      let (one, here) = insert_new-Inserted r table h.0 in
      let (rest, others) = insert_rows-Inserted (insert_new r table) rs h.1 in
      (
        Inserted-trans table (insert_new r table) _ one rest,
        (Extends-HasToken r.token (insert_new r table) _ rest.extends here, others),
      )

-- No value of some shares another's token without being that value.
abbrev pub IsClearOf : (String → String) → List String → String → Type 0
IsClearOf token vs x = All (λ v. token v ≡ token x → v ≡ x) vs

module _ (token : String → String) (f : FirstSeen) (all : List String) where
  -- A row with its own value's token, which no other value of the upsert has.
  abbrev Fits : VaultRow → Type 0
  Fits r = (r.token ≡ token r.raw_value) × IsClearOf token all r.raw_value

  incoming_rows-Inserted :
      (rows : List VaultRow) (vs : List String)
      → All (IsClearOf token all) vs
      → Inserted Fits rows (incoming_rows token f rows vs)
        × All (λ v. HasToken (token v) (incoming_rows token f rows vs)) vs
  unfolding incoming_rows
  incoming_rows-Inserted rows [] clear = (Inserted-refl Fits rows, tt)
  incoming_rows-Inserted rows (v ∷ vs) clear =
      let next = insert_new (vault_row f (token v) v) rows in
      let (one, here) = insert_new-Inserted Fits (vault_row f (token v) v) rows (refl, clear.0) in
      let (rest, others) = incoming_rows-Inserted next vs clear.1 in
      (
        Inserted-trans Fits rows next _ one rest,
        (Extends-HasToken (token v) next _ rest.extends here, others),
      )

  found_token :
      (t : String) (table rows : List VaultRow)
      → All (λ (r : VaultRow). HasToken r.token table) rows
      → HasToken t rows
      → HasToken t table
  found_token t table [] h m = absurd m
  found_token t table (r ∷ rs) h (inl e) = subst (λ x. HasToken x table) e h.0
  found_token t table (r ∷ rs) h (inr m) = found_token t table rs h.1 m

  upserted-Inserted :
      (vs : List String) (table : List VaultRow)
      → All (IsClearOf token all) vs
      → Inserted Fits table (upserted token f vs table)
        × All (λ v. HasToken (token v) (upserted token f vs table)) vs
  unfolding upserted
  upserted-Inserted vs table clear =
      let rows = incoming_rows token f [] vs in
      let (made, tokens) = incoming_rows-Inserted [] vs clear in
      let (put, present) = insert_rows-Inserted Fits table rows (made.every tt) in
      (put, All-impl _ _ vs (λ v m. found_token (token v) _ rows present m) tokens)

  raw_of_token :
      (v : String) (rows : List VaultRow)
      → All
          (λ (r : VaultRow).
            (r.token ≡ token r.raw_value) × (token v ≡ token r.raw_value → v ≡ r.raw_value))
          rows
      → HasToken (token v) rows
      → Any (λ (r : VaultRow). (r.token ≡ token v) × (r.raw_value ≡ v)) rows
  raw_of_token v [] h m = absurd m
  raw_of_token v (r ∷ rs) h (inl e) = inl (e, sym (h.0.1 (sym e ∙ h.0.0)))
  raw_of_token v (r ∷ rs) h (inr m) = inr (raw_of_token v rs h.1 m)

  raws_of_tokens :
      (vs : List String) (rows : List VaultRow)
      → All (λ (r : VaultRow). (r.token ≡ token r.raw_value) × IsClearOf token vs r.raw_value) rows
      → All (λ v. HasToken (token v) rows) vs
      → All (λ v. Any (λ (r : VaultRow). (r.token ≡ token v) × (r.raw_value ≡ v)) rows) vs
  raws_of_tokens [] rows h m = tt
  raws_of_tokens (v ∷ vs) rows h m = (
    raw_of_token v rows (All-impl _ _ rows (λ r k. (k.0, k.1.0)) h) m.0,
    raws_of_tokens vs rows (All-impl _ _ rows (λ r k. (k.0, k.1.1)) h) m.1,
  )

-- What an upsert of some values has done: no other table is touched, every row of before stands
-- where it stood, the count is of the rows added, and each value is found under its token.
pub record Stored (token : String → String) (vs : List String) (n : ℕ) (w w' : Warehouse)
    : Type 0 where
  pub distinct : DistinctTokens w'.vault
  pub faithful : IsFaithful token w'.vault
  pub extends : Extends w.vault w'.vault
  pub counted : length w.vault + n ≡ length w'.vault
  pub found : All (λ v. Any (λ (r : VaultRow). (r.token ≡ token v) × (r.raw_value ≡ v)) w'.vault) vs
  pub others : w' ≡ record w { vault = w'.vault }

both :
    (P Q : VaultRow → Type 0) (rows : List VaultRow)
    → All P rows
    → All Q rows
    → All (λ r. P r × Q r) rows
both P Q [] h k = tt
both P Q (r ∷ rs) h k = ((h.0, k.0), both P Q rs h.1 k.1)

-- Where no two of the values put in share a token without being one value, and none shares the token
-- of another value that the vault holds, an upsert into a vault of one row per token, each of its own
-- raw value, returns and has stored every value under its token.
pub upsert_vault-Stored :
    (token : String → String) (f : FirstSeen) (vs : List String) (w : Warehouse)
    → All (IsClearOf token vs) vs
    → All (λ (r : VaultRow). IsClearOf token vs r.raw_value) w.vault
    → DistinctTokens w.vault
    → IsFaithful token w.vault
    → (n : ℕ) × ((upsert_vault token f vs w).0 ≡ ok n)
      × Stored token vs n w (upsert_vault token f vs w).1
unfolding upsert_vault
upsert_vault-Stored token f [] w clear clear_of_vault distinct faithful = (
  0,
  refl,
  record {
    distinct = distinct;
    faithful = faithful;
    extends = Extends-refl w.vault;
    counted = omega arith;
    found = tt;
    others = refl;
  },
)
upsert_vault-Stored token f (v ∷ vs) w clear clear_of_vault distinct faithful =
    let table = upserted token f (v ∷ vs) w.vault in
    let (put, present) = upserted-Inserted token f (v ∷ vs) (v ∷ vs) w.vault clear in
    let kept = put.every (both _ _ w.vault faithful clear_of_vault) in
    (
      length table - length w.vault,
      refl,
      record {
        distinct = put.distinct distinct;
        faithful = All-impl _ _ table (λ r k. k.0) kept;
        extends = put.extends;
        counted = omega (arith, ap length put.extends.1, length-append w.vault put.extends.0);
        found = raws_of_tokens token f (v ∷ vs) (v ∷ vs) table kept present;
        others = refl;
      },
    )
