-- ===== src/Tokenise.antt =====
-- airflow/plugins/nordbank_ops/tokenise.py: the tokens that replace the identifiers of a row. The
-- keyed hash of a text, in hexadecimal digits, and Python's `str` of a value that is no text are
-- parameters; a salt is carried as its text.
pub mod Row
mod Tests
use Prim.Native.String.{String}
use nordbank_data_platform.Common.{
  ℕ, zero, suc, Bool, Option, none, some, List, [], ◌∷◌, if◌then◌else◌, str_eq, strip, Result, ok,
  err, no_salt,
}
use nordbank_data_platform.Common.Dict.{Dict, lookup, insert}
use nordbank_data_platform.Validation.Values.{Value, null, str}

abbrev pub token_width : ℕ
token_width = 32

abbrev pub raw_salt : Option String → String
raw_salt none = ""
raw_salt (some raw) = raw

unfoldable pub from_environment : Dict String → Result String
unfolding strip
from_environment source =
    let raw = raw_salt (lookup "PII_TOKEN_SALT" source) in
    if str_eq (strip raw) "" then err no_salt else ok raw

-- `text[:n]`
unfoldable pub leading : ℕ → String → String
leading zero text = ""
leading (suc n) String.[] = ""
leading (suc n) (String.◌∷◌ c text) = String.◌∷◌ c (leading n text)

module _ (hexdigest : String → String → String) (text_of : Value → String) (salt : String) where
  -- What is hashed for a value, and the text that it is recorded under.
  abbrev pub material : Value → String
  material (str s) = s
  material v = text_of v

  unfoldable pub token_of_text : String → String
  unfolding leading
  token_of_text text = leading token_width (hexdigest salt text)

  unfoldable pub token : Value → Option String
  unfolding token_of_text
  token null = none
  token v = some (token_of_text (material v))

  abbrev pub as_value : Option String → Value
  as_value none = null
  as_value (some t) = str t

  abbrev pub recorded : Value → Option String → Dict String → Dict String
  recorded raw none seen = seen
  recorded raw (some t) seen = insert (material raw) t seen

  -- One column: the rewritten row and the pairs seen.
  unfoldable pub tokenise_column :
      String → Option Value → Dict Value × Dict String → Dict Value × Dict String
  unfolding token
  tokenise_column column none state = state
  tokenise_column column (some raw) (rewritten, seen) =
      (insert column (as_value (token raw)) rewritten, recorded raw (token raw) seen)

  unfoldable pub tokenise_columns :
      List String → Dict Value × Dict String → Dict Value × Dict String
  unfolding tokenise_column
  tokenise_columns [] state = state
  tokenise_columns (column ∷ columns) state =
      tokenise_columns columns (tokenise_column column (lookup column state.0) state)

  unfoldable pub tokenise_row : Dict Value → List String → Dict Value × Dict String
  unfolding tokenise_columns
  tokenise_row row columns = tokenise_columns columns (row, [])
