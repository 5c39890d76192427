-- ===== src/Generator/Guard/Verdict.antt =====
-- The guard's verdict: it raises exactly where the book it sees is not coherent.
use nordbank_data_platform.Common.{
  ℕ, suc, ◌*◌, ◌≤◌, ◌<◌, min, ◌≡◌, refl, ap, sym, ◌∙◌, arith, true, false, Bool-cases, inl, inr,
  ◌⊎◌, some, List, [], ◌∷◌, length, ltb, leb, leb→le, ltb→lt, ◌==◌, ==_iff, ok,
}
use nordbank_data_platform.Generator.Guard.{
  Queries, GuardResult, Sampler, balance_sample, insert_sorted, sorted, as_set, sample,
  check_accounts, assert_coverage, guard, guard_failed, report_of, noted, asserted, is_below,
}

length-insert_sorted : (n : ℕ) (ms : List ℕ) → length (insert_sorted n ms) ≡ suc (length ms)
length-insert_sorted n [] = refl
length-insert_sorted n (m ∷ ms) = ground (arith, length-insert_sorted n ms)

length-sorted : (ns : List ℕ) → length (sorted ns) ≡ length ns
length-sorted [] = refl
length-sorted (n ∷ ns) = length-insert_sorted n (sorted ns) ∙ ap (λ k. suc k) (length-sorted ns)

-- A sample has as many entries as were asked for.
abbrev pub DrawsAll : (List ℕ → ℕ → List ℕ) → Type 0
DrawsAll draw = (ids : List ℕ) (k : ℕ) → k ≤ length ids → length (draw ids k) ≡ k

length-sample :
    (ids : List ℕ) (draw : List ℕ → ℕ → List ℕ)
    → DrawsAll draw
    → length (sample ids (some draw)) ≡ min balance_sample (length ids)
unfolding sample
length-sample ids draw h = elim (Bool-cases (leb (length ids) 40)) [
  | inl e ↦ rw e (ground arith)
  | inr e ↦ rw e (
      rw (length-sorted (draw ids 40))
        (let many : 40 ≤ length ids = ground arith in omega (arith, h ids 40 many, many)))
]

-- Every account that is checked has the balance its movements sum to.
abbrev pub BalancesAgree : {Book : Type 0} → Queries Book → Book → List ℕ → Sampler → Type 0
BalancesAgree queries book [] sampler = Unit
BalancesAgree queries book (a ∷ touched) sampler =
    queries.check_balances book (sample (sorted (as_set (a ∷ touched))) sampler) ≡ 0

-- What the guard looks at.
pub record IsCoherent {Book : Type 0} (queries : Queries Book) (book : Book) (touched : List ℕ)
    (window : ℕ) (sampler : Sampler) (floor : ℕ × ℕ) : Type 0 where
  pub balances : BalancesAgree queries book touched sampler
  pub logins : queries.check_login_sessions_resolve book window ≡ 0
  pub covered :
      (200 ≤ (queries.check_login_coverage book window).1)
      → floor.0 * (queries.check_login_coverage book window).1
        ≤ (queries.check_login_coverage book window).0 * floor.1

-- What a guard that passed reports.
pub record Reports {Book : Type 0} (queries : Queries Book) (book : Book) (touched : List ℕ)
    (window : ℕ) (result : GuardResult) : Type 0 where
  pub checked_of : result.accounts_checked ≡ min balance_sample (length (as_set touched))
  pub touched_all : result.accounts_touched ≡ length (as_set touched)
  pub covered_of : result.coverage_covered ≡ (queries.check_login_coverage book window).0
  pub population_of : result.coverage_population ≡ (queries.check_login_coverage book window).1
  pub asserted_iff : result.coverage_asserted ≡ leb 200 result.coverage_population

check_accounts_cases :
    {Book : Type 0} (queries : Queries Book) (book : Book) (touched : List ℕ)
    (draw : List ℕ → ℕ → List ℕ)
    → DrawsAll draw
    → ((n : ℕ) × (check_accounts queries book touched (some draw) ≡ ok n)
        × (n ≡ min balance_sample (length (as_set touched)))
        × BalancesAgree queries book touched (some draw))
      ⊎ ((check_accounts queries book touched (some draw) ≡ guard_failed)
          × (BalancesAgree queries book touched (some draw) → ⊥))
unfolding check_accounts
check_accounts_cases queries book [] draw h = inl (0, refl, refl, tt)
check_accounts_cases queries book (a ∷ touched) draw h =
    let ids : List ℕ = sample (sorted (as_set (a ∷ touched))) (some draw) in
    elim (Bool-cases (queries.check_balances book ids == 0)) [
      | inl e ↦ inl (
        length ids,
        rw e refl,
        length-sample (sorted (as_set (a ∷ touched))) draw h
            ∙ ap (λ k. min balance_sample k) (length-sorted (as_set (a ∷ touched))),
        (==_iff (queries.check_balances book ids) 0).0 e,
      )
      | inr e ↦ inr (
        rw e refl,
        λ agree.
            let t : (queries.check_balances book ids == 0) ≡ true =
              (==_iff (queries.check_balances book ids) 0).1 agree in
            cc,
      )
    ]

-- What a coverage that passed leaves as it was, and what it notes.
record Measured (result : GuardResult) (floor : ℕ × ℕ) (r : GuardResult) : Type 0 where
  pub checked : r.accounts_checked ≡ result.accounts_checked
  pub touched_of : r.accounts_touched ≡ result.accounts_touched
  pub covered_of : r.coverage_covered ≡ result.coverage_covered
  pub population_of : r.coverage_population ≡ result.coverage_population
  pub asserted_iff :
      result.coverage_asserted ≡ false → r.coverage_asserted ≡ leb 200 r.coverage_population
  pub high :
      200 ≤ result.coverage_population
      → floor.0 * result.coverage_population ≤ result.coverage_covered * floor.1

assert_cases :
    (result : GuardResult) (floor : ℕ × ℕ)
    → ((r : GuardResult) × (assert_coverage result floor ≡ ok r) × Measured result floor r)
      ⊎ ((assert_coverage result floor ≡ guard_failed)
          × (200 ≤ result.coverage_population)
          × (result.coverage_covered * floor.1 < floor.0 * result.coverage_population))
unfolding assert_coverage
assert_cases result floor = elim (Bool-cases (ltb result.coverage_population 200)) [
  | inl few ↦
      let low : leb 200 result.coverage_population ≡ false = ground arith in
      inl (
        noted result,
        rw few refl,
        record {
          checked = refl;
          touched_of = refl;
          covered_of = refl;
          population_of = refl;
          asserted_iff = λ before. before ∙ sym low;
          high = λ many. absurd (ground arith);
        },
      )
  | inr many ↦
      let enough : leb 200 result.coverage_population ≡ true = ground arith in
      elim (Bool-cases (is_below result floor)) [
        | inl below ↦ inr (
          rw many (rw below refl),
          leb→le 200 result.coverage_population enough,
          ltb→lt (result.coverage_covered * floor.1) (floor.0 * result.coverage_population) below,
        )
        | inr above ↦ inl (
          asserted result,
          rw many (rw above refl),
          record {
            checked = refl;
            touched_of = refl;
            covered_of = refl;
            population_of = refl;
            asserted_iff = λ before. sym enough;
            high = λ _. ground arith;
          },
        )
      ]
]

too_low : {a b : ℕ} → a < b → b ≤ a → ⊥
too_low h k = omega arith

abbrev Verdict :
    {Book : Type 0} → Queries Book → Book → List ℕ → ℕ → (List ℕ → ℕ → List ℕ) → ℕ × ℕ → Type 0
Verdict queries book touched window draw floor =
    ((r : GuardResult) × (guard queries book touched window (some draw) floor ≡ ok r)
      × IsCoherent queries book touched window (some draw) floor
      × Reports queries book touched window r)
    ⊎ ((guard queries book touched window (some draw) floor ≡ guard_failed)
        × (IsCoherent queries book touched window (some draw) floor → ⊥))

with_accounts :
    {Book : Type 0} (queries : Queries Book) (book : Book) (touched : List ℕ) (window : ℕ)
    (draw : List ℕ → ℕ → List ℕ) (floor : ℕ × ℕ) (n : ℕ)
    → check_accounts queries book touched (some draw) ≡ ok n
    → n ≡ min balance_sample (length (as_set touched))
    → BalancesAgree queries book touched (some draw)
    → Verdict queries book touched window draw floor
unfolding guard
with_accounts queries book touched window draw floor n checked bound agree =
    let orphans : ℕ = queries.check_login_sessions_resolve book window in
    elim (Bool-cases (orphans == 0)) [
      | inr e ↦ inr (
        rw checked (rw e refl),
        λ coherent.
            let none_left : (orphans == 0) ≡ true = (==_iff orphans 0).1 coherent.logins in cc,
      )
      | inl e ↦ elim (assert_cases (report_of queries book touched window n) floor) [
        | inl passed ↦ inl (
          passed.0,
          rw checked (rw e passed.1),
          record { balances = agree; logins = (==_iff orphans 0).0 e; covered = passed.2.high },
          record {
            checked_of = passed.2.checked ∙ bound;
            touched_all = passed.2.touched_of;
            covered_of = passed.2.covered_of;
            population_of = passed.2.population_of;
            asserted_iff = passed.2.asserted_iff refl;
          },
        )
        | inr failed ↦ inr (
          rw checked (rw e failed.0),
          λ coherent. absurd (too_low failed.2 (coherent.covered failed.1)),
        )
      ]
    ]

-- With a random source that draws as many accounts as it is asked for, the guard returns a report
-- exactly where every checked account's balance agrees, every login session resolves, and, from 200
-- transactions on, the share covered is not below the floor; it raises otherwise. The report has the
-- number of accounts touched, that of those checked, which is 40 at most and otherwise all, the two
-- counts of the coverage, and whether they were asserted.
pub guard-IsVerdict :
    {Book : Type 0} (queries : Queries Book) (book : Book) (touched : List ℕ) (window : ℕ)
    (draw : List ℕ → ℕ → List ℕ) (floor : ℕ × ℕ)
    → DrawsAll draw
    → ((r : GuardResult) × (guard queries book touched window (some draw) floor ≡ ok r)
        × IsCoherent queries book touched window (some draw) floor
        × Reports queries book touched window r)
      ⊎ ((guard queries book touched window (some draw) floor ≡ guard_failed)
          × (IsCoherent queries book touched window (some draw) floor → ⊥))
unfolding guard
guard-IsVerdict queries book touched window draw floor h =
    elim (check_accounts_cases queries book touched draw h) [
      | inr failed ↦ inr (rw failed.0 refl, λ coherent. failed.1 coherent.balances)
      | inl passed ↦
          with_accounts queries book touched window draw floor passed.0 passed.1 passed.2 passed.3
    ]
