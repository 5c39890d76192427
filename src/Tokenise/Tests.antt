-- ===== src/Tokenise/Tests.antt =====
-- A row with a name, a null identifier and a number.
use Prim.Native.String.{String, ◌++◌}
use nordbank_data_platform.Common.{◌≡◌, refl, [], ◌∷◌, ok, err, no_salt, List}
use nordbank_data_platform.Common.Int.{pos}
use nordbank_data_platform.Common.Dict.{Dict}
use nordbank_data_platform.Validation.Values.{Value, null, str, integer}
use nordbank_data_platform.Tokenise.{from_environment, tokenise_row}
use nordbank_data_platform.Tokenise.Row.{IsTokenised, tokenise_row-IsTokenised}

abbrev keyed : String → String → String
keyed salt text = salt ++ ("-" ++ (text ++ "0123456789abcdef0123456789abcdef"))

abbrev shown : Value → String
shown v = "7"

abbrev customer : Dict Value
customer = ("name", str "Ada") ∷ ("iban", null) ∷ ("age", integer (pos 7)) ∷ []

abbrev identifiers : List String
identifiers = "name" ∷ "iban" ∷ "phone" ∷ []

tokenises : tokenise_row keyed shown "k" customer identifiers ≡ (
  ("name", str "k-Ada0123456789abcdef0123456789a") ∷ ("iban", null) ∷ ("age", integer (pos 7)) ∷ [],
  ("Ada", "k-Ada0123456789abcdef0123456789a") ∷ [],
)
unfolding tokenise_row
tokenises = refl

salted : from_environment (("PII_TOKEN_SALT", " k") ∷ []) ≡ ok " k"
unfolding from_environment
salted = refl

unsalted : from_environment (("PII_TOKEN_SALT", "  ") ∷ []) ≡ err no_salt
unfolding from_environment
unsalted = refl

tokenise_row-IsTokenised_example :
    IsTokenised keyed shown "k" customer identifiers
      (tokenise_row keyed shown "k" customer identifiers)
tokenise_row-IsTokenised_example =
    tokenise_row-IsTokenised keyed shown "k" customer identifiers (refl, (refl, (refl, tt)))
