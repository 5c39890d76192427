-- ===== src/Generator/Lending.antt =====
-- generator/realism/lending.py: the level payment of a loan and its installment plan. Python's
-- power of a decimal is a parameter, its last digit being the library's own.
pub mod Plan
use nordbank_data_platform.Common.{
  ℕ, zero, suc, ◌+◌, ◌-◌, ◌≡◌, refl, Bool, true, false, List, [], ◌∷◌, ◌==◌, if◌then◌else◌, Error,
  Result, err, ok, ◌>>=◌,
}
use nordbank_data_platform.Common.Time.{CivilDate}
use nordbank_data_platform.Common.Int.{ℤ, pos}
use nordbank_data_platform.Generator.Money.{
  Decimal, of_int, magnitude, cents, times, over, plus, minus, less,
}
use nordbank_data_platform.Generator.Calendar.{add_months}

pub record Installment : Type 0 where
  pub number : ℕ
  pub due_date : CivilDate
  pub due_amount : Decimal
  pub principal_component : Decimal
  pub interest_component : Decimal

abbrev pub is_zero : Decimal → Bool
is_zero x = magnitude x.unscaled == 0

-- `over` with the exceptions of a division by 0
unfoldable pub divided : Decimal → Decimal → Result Decimal
unfolding over
divided x y = if is_zero y then err (Error.other "DivisionByZero") else ok (over x y)

-- A term that is not positive is given as 0.
unfoldable pub annuity_payment : (Decimal → ℕ → Decimal) → Decimal → Decimal → ℕ → Result Decimal
unfolding cents times over plus minus divided
annuity_payment power principal annual_rate zero = err (Error.other "ValueError")
annuity_payment power principal annual_rate (suc n) =
    let monthly = over annual_rate (of_int 12) in
    let factor = power (plus (of_int 1) monthly) (suc n) in
    if is_zero annual_rate
    then ok (cents (over principal (of_int (suc n))))
    else (divided (times (times principal monthly) factor) (minus factor (of_int 1)) >>= λ payment.
        ok (cents payment))

unfoldable pub principal_part : ℕ → ℕ → Decimal → Decimal → Decimal → Decimal
unfolding cents minus less
principal_part number term payment outstanding interest =
    let part = cents (minus payment interest) in
    if number == term then outstanding else if less outstanding part then outstanding else part

unfoldable pub installment : ℕ → ℕ → Decimal → Decimal → Decimal → CivilDate → Installment
unfolding cents times plus principal_part
installment number term payment monthly_rate outstanding due =
    let interest = cents (times outstanding monthly_rate) in
    let part = principal_part number term payment outstanding interest in
    record {
      number = number;
      due_date = due;
      due_amount = cents (plus part interest);
      principal_component = part;
      interest_component = interest;
    }

-- The body of the loop, for the numbers from `number` on that are left.
unfoldable pub installments :
    ℕ → ℕ → ℕ → Decimal → Decimal → Decimal → CivilDate → Result (List Installment)
unfolding installment add_months minus cents
installments zero number term payment monthly_rate outstanding first_due = ok []
installments (suc left) number term payment monthly_rate outstanding first_due =
    add_months first_due (pos (number - 1)) >>= λ due.
    let entry = installment number term payment monthly_rate outstanding due in
    installments left (suc number) term payment monthly_rate
      (cents (minus outstanding entry.principal_component)) first_due
    >>= λ rest. ok (entry ∷ rest)

unfoldable pub schedule :
    (Decimal → ℕ → Decimal) → Decimal → Decimal → ℕ → CivilDate → Result (List Installment)
unfolding annuity_payment over installments
schedule power principal annual_rate term_months first_due =
    annuity_payment power principal annual_rate term_months >>= λ payment.
    installments term_months 1 term_months payment (over annual_rate (of_int 12)) principal
      first_due
