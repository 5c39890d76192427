-- ===== src/Warehouse/Action.antt =====
-- A call that works on the warehouse and may raise. What it wrote before it raised stays written,
-- unless the call stands in a transaction.
use nordbank_data_platform.Common.{◌≡◌, refl, Result, ok, err, Error}

abbrev pub Action {ℓ} : Type ℓ → Type ℓ → Type ℓ
Action W A = W → Result A × W

module _ {ℓ} {W A : Type ℓ} where
  abbrev pub pure : A → Action W A
  pure a w = (ok a, w)

  abbrev pub raise : Error → Action W A
  raise e w = (err e, w)

  abbrev pub lift : Result A → Action W A
  lift r w = (r, w)

  abbrev pub gets : (W → A) → Action W A
  gets f w = (ok (f w), w)

  -- `begin transaction`: a commit where the body returned, a rollback where it raised.
  abbrev pub settle : Result A → W → W → Result A × W
  settle (ok a) before after = (ok a, after)
  settle (err e) before after = (err e, before)

  abbrev pub transaction : Action W A → Action W A
  transaction m w = let (r, w') = m w in settle r w w'

-- The rest of a block, after a step that returned or raised.
abbrev pub resume {ℓ} : {W A B : Type ℓ} → Result A → (A → Action W B) → Action W B
resume (ok a) f w = f a w
resume (err e) f w = (err e, w)

infixl 5 ◌>>=◌ ◌>>◌
abbrev pub ◌>>=◌ {ℓ} : {W A B : Type ℓ} → Action W A → (A → Action W B) → Action W B
◌>>=◌ m f w = let (r, w') = m w in resume r f w'

abbrev pub ◌>>◌ {ℓ} : {W A B : Type ℓ} → Action W A → Action W B → Action W B
m >> n = m >>= λ _. n

-- A statement that only writes.
abbrev pub modify {ℓ} : {W : Type ℓ} → (W → W) → Action W (Unit {ℓ})
modify f w = (ok tt, f w)

-- What follows an action and only returns changes nothing.
returned_state {ℓ} :
    {W A B : Type ℓ} (b : B) (r : Result A) (w : W) → (resume r (λ (a : A). pure b) w).1 ≡ w
returned_state b (ok a) w = refl
returned_state b (err e) w = refl

pub then_pure_state {ℓ} :
    {W A B : Type ℓ} (m : Action W A) (b : B) (w : W) → ((m >> pure b) w).1 ≡ (m w).1
then_pure_state m b w = let (r, w') = m w in returned_state b r w'

-- A block that returned: its first step returned, and the rest went on from there.
pub record Bound {ℓ} {W A B : Type ℓ} (m : Action W A) (f : A → Action W B) (w : W) (b : B)
    : Type ℓ where
  pub value : A
  pub first : (m w).0 ≡ ok value
  pub rest : (f value (m w).1).0 ≡ ok b
  pub state : ((m >>= f) w).1 ≡ (f value (m w).1).1

resume-ok {ℓ} :
    {W A B : Type ℓ} (r : Result A) (f : A → Action W B) (w : W) (b : B)
    → (resume r f w).0 ≡ ok b
    → (a : A) × (r ≡ ok a) × ((f a w).0 ≡ ok b) × ((resume r f w).1 ≡ (f a w).1)
resume-ok (ok a) f w b h = (a, refl, h, refl)
resume-ok (err e) f w b h = cc

pub bind-ok {ℓ} :
    {W A B : Type ℓ} (m : Action W A) (f : A → Action W B) (w : W) (b : B)
    → ((m >>= f) w).0 ≡ ok b
    → Bound m f w b
bind-ok m f w b h =
    let (a, first, rest, state) = resume-ok (m w).0 f (m w).1 b h in
    record { value = a; first = first; rest = rest; state = state }

pub then-ok {ℓ} :
    {W A B : Type ℓ} (m : Action W A) (n : Action W B) (w : W) (b : B)
    → ((m >> n) w).0 ≡ ok b
    → Bound m (λ _. n) w b
then-ok m n = bind-ok m (λ _. n)
