-- ===== src/Registry/Sequence.antt =====
-- The choice of a batch's sequence against what the registry's docstring promises.
use nordbank_data_platform.Common.{
  ℕ, ◌+◌, ◌≤◌, ◌<◌, max, ◌≡◌, refl, sym, ◌⊎◌, inl, inr, Bool, true, false, ◌&&◌, Option, List, [],
  ◌∷◌, map, arith, All, Any, Bool-cases, All-impl,
}
use nordbank_data_platform.Warehouse.{Status, is_unregistered}
use nordbank_data_platform.Registry.{
  may_reuse, max_of, first_of_pair, reusable_sequences, chosen, choose_sequence,
}

le-max_of : (m : ℕ) (ns : List ℕ) → m ≤ max_of m ns
le-max_of m [] = omega arith
le-max_of m (n ∷ ns) = omega (arith, le-max_of (max m n) ns)

max_of_bounds : (m : ℕ) (ns : List ℕ) → All (λ n. n ≤ max_of m ns) ns
max_of_bounds m [] = tt
max_of_bounds m (n ∷ ns) = (omega (arith, le-max_of (max m n) ns), max_of_bounds (max m n) ns)

-- The greatest of a list stands in it.
max_of_mem : (m : ℕ) (ns : List ℕ) → (max_of m ns ≡ m) ⊎ Any (λ n. n ≡ max_of m ns) ns
max_of_mem m [] = inl refl
max_of_mem m (n ∷ ns) = ground (arith, max_of_mem (max m n) ns)

-- A pair that the caller may reuse.
abbrev pub MayReuse : Option (List ℕ) → ℕ × Status → Type 0
MayReuse reusable p = (is_unregistered p.1 ≡ true) × (may_reuse reusable p.0 ≡ true)

-- `s` is the greatest sequence of the unregistered batches that may be reused.
pub record IsReuse (existing : List (ℕ × Status)) (reusable : Option (List ℕ)) (s : ℕ)
    : Type 0 where
  pub recorded : Any (λ (p : ℕ × Status). (p.0 ≡ s) × MayReuse reusable p) existing
  pub greatest : All (λ (p : ℕ × Status). MayReuse reusable p → p.0 ≤ s) existing

-- Nothing may be reused, and `s` is the sequence after the last, or 1 where there is none.
pub record IsNext (existing : List (ℕ × Status)) (reusable : Option (List ℕ)) (s : ℕ) : Type 0 where
  pub none_open : All (λ (p : ℕ × Status). ¬ MayReuse reusable p) existing
  pub above : All (λ (p : ℕ × Status). p.0 < s) existing
  pub follows : ((existing ≡ []) × (s ≡ 1)) ⊎ Any (λ (p : ℕ × Status). p.0 + 1 ≡ s) existing

abbrev pub IsChoice : List (ℕ × Status) → Option (List ℕ) → ℕ × Bool → Type 0
IsChoice existing reusable (s, true) = IsReuse existing reusable s
IsChoice existing reusable (s, false) = IsNext existing reusable s

and-split : (a b : Bool) → (a && b) ≡ true → (a ≡ true) × (b ≡ true)
and-split a b h = ground arith

cons-ne-nil : (n : ℕ) (ns : List ℕ) → n ∷ ns ≡ [] → ⊥
cons-ne-nil n ns h = cc

reusable-Any :
    (reusable : Option (List ℕ)) (s : ℕ) (ps : List (ℕ × Status))
    → Any (λ n. n ≡ s) (reusable_sequences ps reusable)
    → Any (λ (p : ℕ × Status). (p.0 ≡ s) × MayReuse reusable p) ps
reusable-Any reusable s [] h = h
reusable-Any reusable s ((n, t) ∷ ps) h =
    elim (Bool-cases (is_unregistered t && may_reuse reusable n)) [
      | inl e ↦
          let k : Any (λ n. n ≡ s) (n ∷ reusable_sequences ps reusable) = rw e at h in
          elim k [
            | inl q ↦ inl (q, and-split (is_unregistered t) (may_reuse reusable n) e)
            | inr q ↦ inr (reusable-Any reusable s ps q)
          ]
      | inr e ↦ inr (reusable-Any reusable s ps (rw e at h))
    ]

reusable-All :
    (reusable : Option (List ℕ)) (s : ℕ) (ps : List (ℕ × Status))
    → All (λ n. n ≤ s) (reusable_sequences ps reusable)
    → All (λ (p : ℕ × Status). MayReuse reusable p → p.0 ≤ s) ps
reusable-All reusable s [] h = tt
reusable-All reusable s ((n, t) ∷ ps) h =
    elim (Bool-cases (is_unregistered t && may_reuse reusable n)) [
      | inl e ↦
          let k : All (λ n. n ≤ s) (n ∷ reusable_sequences ps reusable) = rw e at h in
          ((λ _. k.0), reusable-All reusable s ps k.1)
      | inr e ↦ ((λ q. absurd (ground arith)), reusable-All reusable s ps (rw e at h))
    ]

reusable-none :
    (reusable : Option (List ℕ)) (ps : List (ℕ × Status))
    → reusable_sequences ps reusable ≡ []
    → All (λ (p : ℕ × Status). ¬ MayReuse reusable p) ps
reusable-none reusable [] h = tt
reusable-none reusable ((n, t) ∷ ps) h =
    elim (Bool-cases (is_unregistered t && may_reuse reusable n)) [
      | inl e ↦ absurd (cons-ne-nil _ _ (rw e at h))
      | inr e ↦ ((λ q. ground arith), reusable-none reusable ps (rw e at h))
    ]

map-All :
    (P : ℕ → Type 0) (ps : List (ℕ × Status))
    → All P (map first_of_pair ps)
    → All (λ (p : ℕ × Status). P p.0) ps
map-All P [] h = tt
map-All P (p ∷ ps) h = (h.0, map-All P ps h.1)

max_of-Any : (us : List ℕ) (u : ℕ) → Any (λ n. n ≡ max_of u us) (u ∷ us)
max_of-Any us u = elim (max_of_mem u us) [ inl m ↦ inl (sym m) | inr m ↦ inr m ]

map-Any_suc :
    (m : ℕ) (ps : List (ℕ × Status))
    → Any (λ n. n ≡ m) (map first_of_pair ps)
    → Any (λ (p : ℕ × Status). p.0 + 1 ≡ m + 1) ps
map-Any_suc m [] h = h
map-Any_suc m (p ∷ ps) (inl e) = inl (omega arith)
map-Any_suc m (p ∷ ps) (inr h) = inr (map-Any_suc m ps h)

follows_max :
    (p : ℕ × Status) (ps : List (ℕ × Status))
    → Any (λ (q : ℕ × Status). q.0 + 1 ≡ max_of p.0 (map first_of_pair ps) + 1) (p ∷ ps)
follows_max p ps = elim (max_of_mem p.0 (map first_of_pair ps)) [
  | inl e ↦ inl (omega arith)
  | inr h ↦ inr (map-Any_suc _ ps h)
]

chosen-IsChoice :
    (p : ℕ × Status) (ps : List (ℕ × Status)) (reusable : Option (List ℕ)) (us : List ℕ)
    → reusable_sequences (p ∷ ps) reusable ≡ us
    → IsChoice (p ∷ ps) reusable (chosen us p.0 ps)
chosen-IsChoice p ps reusable [] e = record {
  none_open = reusable-none reusable (p ∷ ps) e;
  above = (
    omega (arith, le-max_of p.0 (map first_of_pair ps)),
    All-impl _ _ ps (λ q h. omega arith)
        (map-All (λ n. n ≤ max_of p.0 (map first_of_pair ps)) ps
          (max_of_bounds p.0 (map first_of_pair ps))),
  );
  follows = inr (follows_max p ps);
}
chosen-IsChoice p ps reusable (u ∷ us) e = record {
  recorded = reusable-Any reusable _ (p ∷ ps) (rw e (max_of-Any us u));
  greatest = reusable-All reusable _ (p ∷ ps) (rw e (le-max_of u us, max_of_bounds u us));
}

-- The sequence is the greatest one that may be reused, and reuses it; or, where nothing may be
-- reused, it is above every recorded one, and reuses nothing.
pub choose_sequence-IsChoice :
    (existing : List (ℕ × Status)) (reusable : Option (List ℕ))
    → IsChoice existing reusable (choose_sequence existing reusable)
unfolding choose_sequence
choose_sequence-IsChoice [] reusable = record {
  none_open = tt;
  above = tt;
  follows = inl (refl, refl);
}
choose_sequence-IsChoice (p ∷ ps) reusable = chosen-IsChoice p ps reusable _ refl
