-- ===== src/Feeds/Rates/Dates.antt =====
-- Which dates a run requests.
use nordbank_data_platform.Common.{
  ℕ, suc, zero, ◌+◌, ◌-◌, ◌≤◌, ◌<◌, ◌≡◌, refl, Bool-cases, inl, inr, Option, none, some, List, [],
  ◌∷◌, arith, ltb, ltb→lt,
}
use nordbank_data_platform.Feeds.Rates.{days_after, dates_to_fetch}

-- Every date after one and up to another, in order.
abbrev pub IsConsecutive : ℕ → List ℕ → ℕ → Type 0
IsConsecutive first [] last = first ≡ last
IsConsecutive first (d ∷ ds) last = (d ≡ suc first) × IsConsecutive d ds last

days_after-IsConsecutive : (first n : ℕ) → IsConsecutive first (days_after first n) (first + n)
days_after-IsConsecutive first zero = omega arith
days_after-IsConsecutive first (suc n) =
    (refl, rw (moved first n) (days_after-IsConsecutive (suc first) n))
  where
    moved : (a b : ℕ) → a + suc b ≡ suc a + b
    moved a b = omega arith

-- What a run of a day requests, the watermark being the last date requested.
abbrev pub Requests : Option ℕ → ℕ → List ℕ → Type 0
Requests none day dates = dates ≡ day ∷ []
Requests (some watermark) day dates =
    (watermark < day → IsConsecutive watermark dates day) × (day ≤ watermark → dates ≡ day ∷ [])

-- Behind its day a run requests every date after the watermark up to the day, in order and once;
-- otherwise its own day.
pub dates_to_fetch-Requests :
    (watermark : Option ℕ) (day : ℕ) → Requests watermark day (dates_to_fetch watermark day)
unfolding dates_to_fetch
dates_to_fetch-Requests none day = refl
dates_to_fetch-Requests (some w) day = elim (Bool-cases (ltb w day)) [
  | inl e ↦ rw e (
    (λ h. rw (reaches w day h) at (days_after-IsConsecutive w (day - w))),
    (λ h. absurd (ground (arith, ltb→lt w day))),
  )
  | inr e ↦ rw e ((λ h. absurd (ground arith)), (λ _. refl))
]
  where
    reaches : (a b : ℕ) → a < b → a + (b - a) ≡ b
    reaches a b h = omega (arith, h)
