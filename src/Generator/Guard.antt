-- ===== src/Generator/Guard.antt =====
-- generator/mutation/guard.py: the coherence guard of a tick. The three queries on the book, the
-- sampling of accounts and the floor of the profile are parameters; a share is compared with the
-- floor as the fractions they are.
pub mod Verdict
use nordbank_data_platform.Common.{
  ℕ, zero, suc, ◌*◌, ◌≡◌, refl, Bool, true, false, ◌||◌, Option, none, some, List, [], ◌∷◌, length,
  any, ltb, leb, ◌==◌, if◌then◌else◌, Error, Result, err, ok, ◌>>=◌,
}

pub record GuardResult : Type 0 where
  pub accounts_checked : ℕ
  pub accounts_touched : ℕ
  pub balance_offenders : ℕ
  pub coverage_population : ℕ
  pub coverage_covered : ℕ
  pub coverage_asserted : Bool
  pub orphan_logins : ℕ
  -- How many notes say that the coverage is reported and not asserted.
  pub notes : ℕ

-- The answers of the database about a book: the accounts of a list whose balance is not the sum
-- of their movements, the login sessions of a day that do not resolve, and how many of the
-- digital transactions of a day a login precedes, with how many there are.
pub record Queries (Book : Type 0) : Type 0 where
  pub check_balances : Book → List ℕ → ℕ
  pub check_login_sessions_resolve : Book → ℕ → ℕ
  pub check_login_coverage : Book → ℕ → ℕ × ℕ

abbrev pub coverage_min_population : ℕ
coverage_min_population = 200

abbrev pub balance_sample : ℕ
balance_sample = 40

abbrev pub insert_sorted : ℕ → List ℕ → List ℕ
insert_sorted n [] = n ∷ []
insert_sorted n (m ∷ ms) = let rest = insert_sorted n ms in if leb n m then n ∷ m ∷ ms else m ∷ rest

abbrev pub sorted : List ℕ → List ℕ
sorted [] = []
sorted (n ∷ ns) = insert_sorted n (sorted ns)

-- The set of accounts, where a list may name one more than once.
abbrev pub as_set : List ℕ → List ℕ
as_set [] = []
as_set (n ∷ ns) = let rest = as_set ns in if any (λ m. m == n) ns then rest else n ∷ rest

-- `rng.sample`, where there is a random source
abbrev pub Sampler : Type 0
Sampler = Option (List ℕ → ℕ → List ℕ)

unfoldable pub sample : List ℕ → Sampler → List ℕ
sample account_ids none = account_ids
sample account_ids (some draw) =
    if leb (length account_ids) balance_sample
    then account_ids
    else sorted (draw account_ids balance_sample)

abbrev pub guard_failed {ℓ} : {A : Type ℓ} → Result A
guard_failed = err (Error.other "GuardFailedError")

-- The part of the check that a tick with accounts moved runs first: the accounts it checked.
unfoldable pub check_accounts : {Book : Type 0} → Queries Book → Book → List ℕ → Sampler → Result ℕ
unfolding sample
check_accounts queries book [] sampler = ok 0
check_accounts queries book (a ∷ touched) sampler =
    let account_ids = sample (sorted (as_set (a ∷ touched))) sampler in
    if queries.check_balances book account_ids == 0 then ok (length account_ids) else guard_failed

-- The result of a run that passed, before the coverage is asserted.
abbrev pub report_of : {Book : Type 0} → Queries Book → Book → List ℕ → ℕ → ℕ → GuardResult
report_of queries book touched_accounts window checked = record {
  accounts_checked = checked;
  accounts_touched = length (as_set touched_accounts);
  balance_offenders = 0;
  coverage_population = (queries.check_login_coverage book window).1;
  coverage_covered = (queries.check_login_coverage book window).0;
  coverage_asserted = false;
  orphan_logins = 0;
  notes = 0;
}

unfoldable pub run_guard :
    {Book : Type 0} → Queries Book → Book → List ℕ → ℕ → Sampler → Result GuardResult
unfolding check_accounts
run_guard queries book touched_accounts window sampler =
    check_accounts queries book touched_accounts sampler >>= λ checked.
    if queries.check_login_sessions_resolve book window == 0
    then ok (report_of queries book touched_accounts window checked)
    else guard_failed

abbrev pub noted : GuardResult → GuardResult
noted r = record {
  accounts_checked = r.accounts_checked;
  accounts_touched = r.accounts_touched;
  balance_offenders = r.balance_offenders;
  coverage_population = r.coverage_population;
  coverage_covered = r.coverage_covered;
  coverage_asserted = r.coverage_asserted;
  orphan_logins = r.orphan_logins;
  notes = suc r.notes;
}

abbrev pub asserted : GuardResult → GuardResult
asserted r = record {
  accounts_checked = r.accounts_checked;
  accounts_touched = r.accounts_touched;
  balance_offenders = r.balance_offenders;
  coverage_population = r.coverage_population;
  coverage_covered = r.coverage_covered;
  coverage_asserted = true;
  orphan_logins = r.orphan_logins;
  notes = r.notes;
}

-- `coverage_share < floor`, the floor a fraction
abbrev pub is_below : GuardResult → ℕ × ℕ → Bool
is_below r (numerator, denominator) =
    ltb (r.coverage_covered * denominator) (numerator * r.coverage_population)

unfoldable pub assert_coverage : GuardResult → ℕ × ℕ → Result GuardResult
assert_coverage result floor =
    if ltb result.coverage_population coverage_min_population
    then ok (noted result)
    else if is_below result floor
    then guard_failed
    else ok (asserted result)

-- What a tick does with the guard.
unfoldable pub guard :
    {Book : Type 0} → Queries Book → Book → List ℕ → ℕ → Sampler → ℕ × ℕ → Result GuardResult
unfolding run_guard assert_coverage
guard queries book touched_accounts window sampler floor =
    run_guard queries book touched_accounts window sampler >>= λ result.
    assert_coverage result floor
