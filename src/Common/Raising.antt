-- ===== src/Common/Raising.antt =====
-- A call that may raise: its value, or the exception. The constructors of `Error` are the
-- exceptions that the modelled code raises, with what their messages name.
use Prim.Native.Nat.{ℕ}
use Prim.Native.String.{String}
use mathlib.Core.Path.{◌≡◌, refl}
use mathlib.Core.Logic.{◌⊎◌, inl, inr}
use mathlib.Core.Bool.{Bool, true, false}

pub data Error : Type 0 where
  -- `RegistryError`
  not_in_registry : String → Error
  already_registered : String → Error
  not_written : String → Error
  vanished : String → Error
  -- a primary key constraint of the warehouse
  duplicate_key : String → Error
  -- `ValueError` for a declared type that the gate does not know
  unknown_type : String → Error
  -- `TypeError` for a list or a mapping put into a set
  unhashable : Error
  -- `ContractSelectionError`
  edited_in_place : String → ℕ → Error
  none_in_force : String → ℕ → Error
  no_file : String → ℕ → Error
  -- `TokeniserError`
  no_salt : Error
  -- `KeyError`
  missing_key : String → Error
  -- `SystemExit` of the backfill
  no_simulation : Error
  unreached : ℕ → ℕ → Error
  out_of_step : ℕ → ℕ → Error
  not_ticked : ℕ → Error
  not_delivered : ℕ → Error
  -- any other exception of the code that is not modelled
  other : String → Error

-- A raised call is listed first: it is the one that ends a block.
pub data Result {ℓ} (V : Type ℓ) : Type ℓ where
  err : Error → Result V
  ok : V → Result V

-- What a block goes on with after a call.
infixl 5 ◌>>=◌
abbrev pub ◌>>=◌ {ℓ κ} : {V : Type ℓ} {W : Type κ} → Result V → (V → Result W) → Result W
err raised >>= next = err raised
ok v >>= next = next v

-- A block that returned went through its first call.
pub bind-eq-ok {ℓ κ} :
    {V : Type ℓ} {W : Type κ} (call : Result V) (next : V → Result W) {w : W}
    → (call >>= next) ≡ ok w
    → (v : V) × (call ≡ ok v) × (next v ≡ ok w)
bind-eq-ok (err raised) next h = cc
bind-eq-ok (ok v) next h = (v, refl, h)

infixl 5 ◌>>◌
abbrev pub ◌>>◌ {ℓ κ} : {V : Type ℓ} {W : Type κ} → Result V → Result W → Result W
call >> next = call >>= λ _. next

pub ok-injective {ℓ} : {A : Type ℓ} {a b : A} → ok a ≡ ok b → a ≡ b
ok-injective h = cc

-- To split on a call and keep what it gave.
pub Result-cases {ℓ} :
    {A : Type ℓ} (r : Result A) → ((a : A) × (r ≡ ok a)) ⊎ ((e : Error) × (r ≡ err e))
Result-cases (ok a) = inl (a, refl)
Result-cases (err e) = inr (e, refl)

-- The call returns.
abbrev pub is_ok {ℓ} : {A : Type ℓ} → Result A → Bool
is_ok (ok _) = true
is_ok (err _) = false

pub value_of_ok {ℓ} : {A : Type ℓ} (m : Result A) → is_ok m ≡ true → (a : A) × (m ≡ ok a)
value_of_ok (ok a) h = (a, refl)
value_of_ok (err e) h = cc

pub is_ok-bind {ℓ κ} :
    {A : Type ℓ} {B : Type κ} (m : Result A) (f : A → Result B)
    → is_ok m ≡ true
    → ((a : A) → m ≡ ok a → is_ok (f a) ≡ true)
    → is_ok (m >>= f) ≡ true
is_ok-bind (ok a) f h k = k a refl
is_ok-bind (err e) f h k = cc
