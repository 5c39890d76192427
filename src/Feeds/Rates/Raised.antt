-- ===== src/Feeds/Rates/Raised.antt =====
-- The one way in which the requests of an interval raise.
use nordbank_data_platform.Common.{ℕ, String, ◌≡◌, true, Error, err}
use nordbank_data_platform.Common.Dict.{Dict}
use nordbank_data_platform.Feeds.Fetch.{FetchResult, Fetched, returned, is_ok_result}
use nordbank_data_platform.Feeds.Rates.{Formats, parse_response}
use nordbank_data_platform.Feeds.Rates.Requests.{request_url, body_text}

module _ (f : Formats) (expected : Dict String) (base_url : String) (fetch : String → Fetched) where
  -- The date was answered with a body that does not parse for it.
  abbrev pub IsUnreadable : Error → ℕ → Type 0
  IsUnreadable e d =
      (r : FetchResult) × (fetch (request_url base_url d) ≡ returned r)
      × (is_ok_result r ≡ true)
      × (parse_response f expected (body_text f expected base_url fetch r.body) d ≡ err e)
