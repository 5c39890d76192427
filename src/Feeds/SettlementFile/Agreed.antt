-- ===== src/Feeds/SettlementFile/Agreed.antt =====
-- What the declarations recorded in a run say of a file that is not refused.
use nordbank_data_platform.Common.{
  ℕ, String, ◌≡◌, refl, ap, ◌∙◌, inl, inr, true, Option, none, some, [], ◌∷◌, arith, Bool-cases,
  str_eq, str_eq_iff,
}
use nordbank_data_platform.Feeds.SettlementFile.{
  SettlementFile, Declared, same_declaration, earlier_of, declare, conflict_with, conflict_text,
  refusal_of, concat,
}

same_declaration-eq : (d e : ℕ × ℕ × ℕ) → same_declaration d e ≡ true → d ≡ e
same_declaration-eq (a, b, c) (d, e, f) h =
    let one : a ≡ d = ground (arith, h) in
    let two : b ≡ e = ground (arith, h) in let three : c ≡ f = ground (arith, h) in cc

same_declaration_refl : (d : ℕ × ℕ × ℕ) → same_declaration d d ≡ true
same_declaration_refl (a, b, c) = ground arith

declare_new :
    (e : ℕ × ℕ × ℕ) (entry : String × String) (declared : Declared)
    → earlier_of e declared ≡ none
    → declare (some e) entry declared ≡ (e, entry) ∷ declared
declare_new e entry declared q = rw (declare, q) refl

earlier_of-declare :
    (d e : ℕ × ℕ × ℕ) (o : Option (String × String)) (entry held : String × String)
    (declared : Declared)
    → earlier_of e declared ≡ o
    → earlier_of d declared ≡ some held
    → earlier_of d (declare (some e) entry declared) ≡ some held
earlier_of-declare d e (some x) entry held declared q h = rw (declare, q) h
earlier_of-declare d e none entry held declared q h = elim (Bool-cases (same_declaration d e)) [
  | inl same ↦ let hit = ap (λ x. earlier_of x declared) (same_declaration-eq d e same) in cc
  | inr apart ↦ rw (declare_new e entry declared q, apart) h
]

-- What is recorded stays recorded.
pub earlier_of-declare_any :
    (d : ℕ × ℕ × ℕ) (o : Option (ℕ × ℕ × ℕ)) (entry held : String × String) (declared : Declared)
    → earlier_of d declared ≡ some held
    → earlier_of d (declare o entry declared) ≡ some held
earlier_of-declare_any d none entry held declared h = h
earlier_of-declare_any d (some e) entry held declared h =
    earlier_of-declare d e (earlier_of e declared) entry held declared refl h

pub refusal_of-none :
    (business : ℕ) (f : SettlementFile) (fault conflict : Option String)
    → refusal_of business f fault conflict ≡ none
    → conflict ≡ none
unfolding refusal_of conflict_text
refusal_of-none business f fault none h = refl
refusal_of-none business f none (some c) h = cc
refusal_of-none business f (some fault) (some c) h = elim (Bool-cases (str_eq fault "")) [
  | inl e ↦ let k : conflict_text business f (some c) ≡ none = rw e at h in cc
  | inr e ↦
      let k : some (concat ("structurally malformed file " ∷ f.candidate.key ∷ ": " ∷ fault ∷ []))
          ≡ none =
        rw e at h in
      cc
]

-- A file without a conflict that declares what is recorded has the recorded checksum.
pub conflict_with-none :
    (landed : Option String) (id held checksum : String)
    → conflict_with landed (some (id, held)) checksum ≡ none
    → held ≡ checksum
conflict_with-none (some b) id held checksum h = cc
conflict_with-none none id held checksum h = elim (Bool-cases (str_eq held checksum)) [
  | inl e ↦ (str_eq_iff held checksum).0 e
  | inr e ↦ let k : some id ≡ none = rw e at h in cc
]

-- What a file without a conflict declares is then recorded with its checksum.
pub declared-Backed :
    (d : ℕ × ℕ × ℕ) (o : Option (String × String)) (landed : Option String) (id checksum : String)
    (declared : Declared)
    → earlier_of d declared ≡ o
    → conflict_with landed o checksum ≡ none
    → (i : String) × (earlier_of d (declare (some d) (id, checksum) declared) ≡ some (i, checksum))
declared-Backed d none landed id checksum declared q h =
    (id, rw (declare_new d (id, checksum) declared q, same_declaration_refl d) refl)
declared-Backed d (some (i, held)) landed id checksum declared q h =
    let same = conflict_with-none landed i held checksum h in
    (i, rw (q, declare) (q ∙ ap (λ c. some (i, c)) same))
