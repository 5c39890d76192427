-- ===== src/Warehouse/Connect/Budget.antt =====
-- How often the warehouse file is tried, and how long the waits are.
use nordbank_data_platform.Common.{
  ℕ, suc, zero, String, ◌+◌, ◌-◌, ◌*◌, ◌≤◌, ◌<◌, min, ◌≡◌, refl, ap, sym, true, false, Option, none,
  some, List, [], ◌∷◌, ltb, ltb→lt, arith, Bool-cases, inl, inr, ◌∙◌,
}
use mathlib.Core.Path.{subst}
use native.Mathlib.Nat.{mul-le-mul_right}
use nordbank_data_platform.Warehouse.Connect.{
  Patience, delay_after, is_lock_conflict, Opened, connected, refused, Access, access_to, raised,
  busy, busy_message, pause, after_open, last_error, connect_from, connect,
}

-- `n` waits in a row, the first after the attempt that follows `made`.
unfoldable pub delays : Patience → ℕ → ℕ → List ℕ
delays p made zero = []
delays p made (suc n) = delay_after p (suc made) ∷ delays p (suc made) n

unfoldable pub total : List ℕ → ℕ
total [] = 0
total (n ∷ ns) = n + total ns

delay_after-capped :
    (p : Patience) (most : ℕ)
    → p.max_delay ≡ some most
    → (attempt : ℕ) → delay_after p attempt ≤ most
unfolding delay_after
delay_after-capped p most e attempt = rw e (omega arith)

total-delays :
    (p : Patience) (most : ℕ)
    → p.max_delay ≡ some most
    → (made n : ℕ) → total (delays p made n) ≤ n * most
unfolding delays total
total-delays p most e made zero = omega arith
total-delays p most e made (suc n) =
    omega (arith, delay_after-capped p most e (suc made), total-delays p most e (suc made) n)

-- Waits that last, together, no longer than `n` times the cap, where there is one.
abbrev pub IsCapped : ℕ → Option ℕ → List ℕ → Type 0
IsCapped n none ns = Unit
IsCapped n (some most) ns = total ns ≤ n * most

delays-IsCapped :
    (p : Patience) (n m made : ℕ)
    → m ≤ n
    → (cap : Option ℕ) → p.max_delay ≡ cap
    → IsCapped n cap (delays p made m)
delays-IsCapped p n m made h none e = tt
delays-IsCapped p n m made h (some most) e =
    omega (arith, total-delays p most e made m, mul-le-mul_right most h)

module _ {C : Type 0} (p : Patience) (target : String) (open_db : ℕ → Opened C) where
  -- The first `n` attempts met a lock.
  abbrev pub IsLockedFor : ℕ → Type 0
  IsLockedFor n =
      (k : ℕ)
      → k < n
      → (message : String) × (open_db (suc k) ≡ refused message) × (is_lock_conflict message ≡ true)

  abbrev pub IsLastError : ℕ → Option String → Type 0
  IsLastError n none = n ≡ 0
  IsLastError n (some message) = open_db n ≡ refused message

  -- The attempt that ended the access, `tries` locked ones before it.
  abbrev pub IsEnding : ℕ → Access C → Type 0
  IsEnding tries (access_to connection) =
      (tries < p.attempts) × (open_db (suc tries) ≡ connected connection)
  IsEnding tries (raised message) =
      (tries < p.attempts)
      × (open_db (suc tries) ≡ refused message)
      × (is_lock_conflict message ≡ false)
  IsEnding tries (busy text) =
      (tries ≡ p.attempts)
      × (last : Option String) × IsLastError tries last
      × (text ≡ busy_message target p.attempts last)

  -- Waits are slept between attempts only.
  record IsEndedFrom (made : ℕ) (access : Access C × List ℕ) : Type 0 where
    tries : ℕ
    after : made ≤ tries
    locked : IsLockedFor tries
    ending : IsEnding tries access.0
    slept : access.1 ≡ delays p made (min tries (p.attempts - 1) - made)

  locked_next :
      (made : ℕ) (message : String)
      → open_db (suc made) ≡ refused message
      → is_lock_conflict message ≡ true
      → IsLockedFor made
      → IsLockedFor (suc made)
  locked_next made message e c h k below = elim (Bool-cases (ltb k made)) [
    | inl q ↦ h k (ltb→lt k made q)
    | inr q ↦ let last : k ≡ made = ground arith in (message, ap (λ m. open_db (suc m)) last ∙ e, c)
  ]

  pause-delays :
      (made n : ℕ) (later : List ℕ)
      → n ≤ p.attempts - 1
      → (suc made < p.attempts → made < n)
      → later ≡ delays p (suc made) (n - suc made)
      → pause p target open_db (suc made) later ≡ delays p made (n - made)
  unfolding pause delays
  pause-delays made n later h k e = elim (Bool-cases (ltb (suc made) p.attempts)) [
    | inl q ↦
        let below : made < n = k (ltb→lt (suc made) p.attempts q) in
        let more : n - made ≡ suc (n - suc made) = omega arith in rw (q, e, more) refl
    | inr q ↦
        let none_left : n - made ≡ 0 = ground arith in
        let none_later : n - suc made ≡ 0 = omega arith in rw (q, e, none_left, none_later) refl
  ]

  none_slept : (made : ℕ) → [] ≡ delays p made (min made (p.attempts - 1) - made)
  unfolding delays
  none_slept made =
      let zero_left : min made (p.attempts - 1) - made ≡ 0 = omega arith in rw zero_left refl

  waited :
      (made : ℕ) (again : Access C × List ℕ)
      → IsEndedFrom (suc made) again
      → IsEndedFrom made (again.0, pause p target open_db (suc made) again.1)
  waited made again h = record {
    tries = h.tries;
    after = omega (arith, h.after);
    locked = h.locked;
    ending = h.ending;
    slept =
        pause-delays made (min h.tries (p.attempts - 1)) again.1 (omega arith)
          (λ below. omega (arith, h.after)) h.slept;
  }

  after_open-IsEndedFrom :
      (made : ℕ) (reply : Opened C) (again : Access C × List ℕ)
      → made < p.attempts
      → open_db (suc made) ≡ reply
      → IsLockedFor made
      → ((message : String)
          → reply ≡ refused message
          → is_lock_conflict message ≡ true
          → IsEndedFrom (suc made) again)
      → IsEndedFrom made (after_open p target open_db (suc made) reply again)
  unfolding after_open
  after_open-IsEndedFrom made (connected connection) again below e h k = record {
    tries = made;
    after = omega arith;
    locked = h;
    ending = (below, e);
    slept = none_slept made;
  }
  after_open-IsEndedFrom made (refused message) again below e h k =
      elim (Bool-cases (is_lock_conflict message)) [
        | inl q ↦ rw q (waited made again (k message refl q))
        | inr q ↦ rw q (record {
          tries = made;
          after = omega arith;
          locked = h;
          ending = (below, e, q);
          slept = none_slept made;
        })
      ]

  connect_from-IsEndedFrom :
      (left made : ℕ) (last : Option String)
      → made + left ≡ p.attempts
      → IsLockedFor made
      → IsLastError made last
      → IsEndedFrom made (connect_from p target open_db left (suc made) last)
  unfolding connect_from
  connect_from-IsEndedFrom zero made last n h l = record {
    tries = made;
    after = omega arith;
    locked = h;
    ending = (omega (arith, n), last, l, refl);
    slept = none_slept made;
  }
  connect_from-IsEndedFrom (suc left) made last n h l =
      after_open-IsEndedFrom made (open_db (suc made)) _ (omega (arith, n)) refl h (λ message e c.
        connect_from-IsEndedFrom left (suc made) (last_error p target open_db (open_db (suc made)))
          (omega (arith, n)) (locked_next made message e c h)
          (subst (λ r. IsLastError (suc made) (last_error p target open_db r)) (sym e) e))

  -- An access of the warehouse: the attempts it made, and the waits between them.
  pub record IsAccess (access : Access C × List ℕ) : Type 0 where
    pub tries : ℕ
    pub locked : IsLockedFor tries
    pub ending : IsEnding tries access.0
    pub slept : access.1 ≡ delays p 0 (min tries (p.attempts - 1))
    pub bounded : IsCapped (p.attempts - 1) p.max_delay access.1

  access_of : (access : Access C × List ℕ) → IsEndedFrom 0 access → IsAccess access
  access_of access h =
      let slept : access.1 ≡ delays p 0 (min h.tries (p.attempts - 1)) =
        h.slept ∙ ap (delays p 0) (omega arith) in
      record {
        tries = h.tries;
        locked = h.locked;
        ending = h.ending;
        slept = slept;
        bounded = subst (IsCapped (p.attempts - 1) p.max_delay) (sym slept) (
            delays-IsCapped p (p.attempts - 1) (min h.tries (p.attempts - 1)) 0 (omega arith)
              p.max_delay refl);
      }

  -- An access of the warehouse hands over the first connection the engine gives, raises the first
  -- error that is no lock conflict, or, where every attempt allowed met a lock, says so and names
  -- the holder the last one named; it sleeps between the attempts it made and not after the last
  -- one allowed, and with capped waits no longer than the cap for each wait allowed.
  pub connect-IsAccess : IsAccess (connect p target open_db)
  unfolding connect
  connect-IsAccess = access_of _ (
      connect_from-IsEndedFrom p.attempts 0 none (omega arith)
        (λ k below. absurd (omega (arith, below))) refl)
