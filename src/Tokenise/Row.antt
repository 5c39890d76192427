-- ===== src/Tokenise/Row.antt =====
-- What a row is after its identifiers are replaced.
use Prim.Native.String.{String}
use nordbank_data_platform.Common.{
  ◌≡◌, ◌⊎◌, refl, sym, ap, ◌∙◌, Bool, true, false, Option, none, some, List, [], ◌∷◌, if◌then◌else◌,
  str_eq, str_eq_iff, has_name, All, arith, Bool-cases, inl, inr, str_eq_refl,
}
use mathlib.Core.Path.{subst}
use nordbank_data_platform.Common.Dict.{Dict, lookup, insert, lookup-insert}
use nordbank_data_platform.Validation.Values.{Value, null}
use nordbank_data_platform.Tokenise.{
  material, token_of_text, token, as_value, tokenise_column, tokenise_columns, tokenise_row,
}

-- No column is named twice.
abbrev pub AreDistinct : List String → Type 0
AreDistinct [] = Unit
AreDistinct (c ∷ cs) = (has_name c cs ≡ false) × AreDistinct cs

false-ne-true : {b : Bool} → b ≡ false → b ≡ true → ⊥
false-ne-true e t = cc

All-of-has_name :
    (P : String → Type 0) (cs : List String)
    → ((c : String) → has_name c cs ≡ true → P c)
    → All P cs
All-of-has_name P [] h = tt
All-of-has_name P (c ∷ cs) h =
    (h c (rw (str_eq_refl c) refl), All-of-has_name P cs (λ d m. h d (ground (arith, m))))

module _ (hexdigest : String → String → String) (text_of : Value → String) (salt : String) where
  abbrev pub replaced : Option Value → Option Value
  replaced none = none
  replaced (some raw) = some (as_value hexdigest text_of salt (token hexdigest text_of salt raw))

  -- A text is recorded with its own token.
  abbrev pub IsOwnToken : String × String → Type 0
  IsOwnToken (text, t) = t ≡ token_of_text hexdigest text_of salt text

  -- A value that has a token is recorded.
  abbrev pub IsSeenIn : Dict String → Option Value → Type 0
  IsSeenIn seen none = Unit
  IsSeenIn seen (some null) = Unit
  IsSeenIn seen (some raw) =
      lookup (material hexdigest text_of salt raw) seen ≡ token hexdigest text_of salt raw

  column-lookup :
      (k c : String) (state : Dict Value × Dict String) (found : Option Value)
      → lookup c state.0 ≡ found
      → lookup k (tokenise_column hexdigest text_of salt c found state).0
        ≡ (if str_eq k c then replaced (lookup k state.0) else lookup k state.0)
  unfolding tokenise_column
  column-lookup k c state none e = elim (Bool-cases (str_eq k c)) [
    | inl q ↦ rw (q, ap (λ j. lookup j state.0) ((str_eq_iff k c).0 q) ∙ e) refl
    | inr q ↦ rw q refl
  ]
  column-lookup k c state (some raw) e = elim (Bool-cases (str_eq k c)) [
    | inl q ↦
        let same : k ≡ c = (str_eq_iff k c).0 q in
        rw
          (
            lookup-insert c k (as_value hexdigest text_of salt (token hexdigest text_of salt raw))
                state.0,
            q,
            (str_eq_iff c k).1 (sym same),
            ap (λ j. lookup j state.0) same ∙ e,
          )
          refl
    | inr q ↦
        let other : str_eq c k ≡ false = ground (arith, str_eq_iff k c, str_eq_iff c k) in
        rw
          (
            lookup-insert c k (as_value hexdigest text_of salt (token hexdigest text_of salt raw))
                state.0,
            q,
            other,
          )
          refl
  ]

  columns-lookup :
      (k : String) (cs : List String) (state : Dict Value × Dict String)
      → AreDistinct cs
      → lookup k (tokenise_columns hexdigest text_of salt cs state).0
        ≡ (if has_name k cs then replaced (lookup k state.0) else lookup k state.0)
  unfolding tokenise_columns
  columns-lookup k [] state h = refl
  columns-lookup k (c ∷ cs) state h =
      let next = tokenise_column hexdigest text_of salt c (lookup c state.0) state in
      let first = column-lookup k c state (lookup c state.0) refl in
      let rest = columns-lookup k cs next h.1 in
      elim (Bool-cases (str_eq k c)) [
        | inl q ↦
            let later : has_name k cs ≡ false =
              ap (λ j. has_name j cs) ((str_eq_iff k c).0 q) ∙ h.0 in
            rw (rest, later, first, q) refl
        | inr q ↦ rw (rest, first, q) refl
      ]

  recorded-IsOwnToken :
      (text : String) (seen : Dict String)
      → All IsOwnToken seen
      → All IsOwnToken (insert text (token_of_text hexdigest text_of salt text) seen)
  recorded-IsOwnToken text [] h = (refl, tt)
  recorded-IsOwnToken text ((j, t) ∷ seen) h = elim (Bool-cases (str_eq j text)) [
    | inl q ↦ rw q (refl, h.1)
    | inr q ↦ rw q (h.0, recorded-IsOwnToken text seen h.1)
  ]

  column-IsOwnToken :
      (c : String) (found : Option Value) (state : Dict Value × Dict String)
      → All IsOwnToken state.1
      → All IsOwnToken (tokenise_column hexdigest text_of salt c found state).1
  unfolding tokenise_column token
  column-IsOwnToken c none state h = h
  column-IsOwnToken c (some null) state h = h
  column-IsOwnToken c (some raw) state h = recorded-IsOwnToken _ state.1 h

  columns-IsOwnToken :
      (cs : List String) (state : Dict Value × Dict String)
      → All IsOwnToken state.1
      → All IsOwnToken (tokenise_columns hexdigest text_of salt cs state).1
  unfolding tokenise_columns
  columns-IsOwnToken [] state h = h
  columns-IsOwnToken (c ∷ cs) state h =
      columns-IsOwnToken cs _ (column-IsOwnToken c (lookup c state.0) state h)

  -- The text has its token among the pairs seen.
  abbrev HasToken : String → Dict String → Type 0
  HasToken text seen = lookup text seen ≡ some (token_of_text hexdigest text_of salt text)

  insert-HasToken :
      (text new : String) (seen : Dict String)
      → HasToken text seen ⊎ (text ≡ new)
      → HasToken text (insert new (token_of_text hexdigest text_of salt new) seen)
  insert-HasToken text new seen h = elim (Bool-cases (str_eq new text)) [
    | inl q ↦
        rw
          (
            lookup-insert new text (token_of_text hexdigest text_of salt new) seen,
            q,
            (str_eq_iff new text).0 q,
          )
          refl
    | inr q ↦
        rw (lookup-insert new text (token_of_text hexdigest text_of salt new) seen, q)
          (elim h [
            | inl before ↦ before
            | inr same ↦ absurd (false-ne-true q ((str_eq_iff new text).1 (sym same)))
          ])
  ]

  column-HasToken :
      (text c : String) (found : Option Value) (state : Dict Value × Dict String)
      → HasToken text state.1
      → HasToken text (tokenise_column hexdigest text_of salt c found state).1
  unfolding tokenise_column token
  column-HasToken text c none state h = h
  column-HasToken text c (some null) state h = h
  column-HasToken text c (some raw) state h = insert-HasToken text _ state.1 (inl h)

  columns-HasToken :
      (text : String) (cs : List String) (state : Dict Value × Dict String)
      → HasToken text state.1
      → HasToken text (tokenise_columns hexdigest text_of salt cs state).1
  unfolding tokenise_columns
  columns-HasToken text [] state h = h
  columns-HasToken text (c ∷ cs) state h =
      columns-HasToken text cs _ (column-HasToken text c (lookup c state.0) state h)

  columns-IsSeenIn :
      (c : String) (cs : List String) (found : Option Value) (state : Dict Value × Dict String)
      → IsSeenIn
          (tokenise_columns hexdigest text_of salt cs
            (tokenise_column hexdigest text_of salt c found state)).1
          found
  unfolding tokenise_column token
  columns-IsSeenIn c cs none state = tt
  columns-IsSeenIn c cs (some null) state = tt
  columns-IsSeenIn c cs (some raw) state =
      columns-HasToken _ cs _ (insert-HasToken _ _ state.1 (inr refl))

  -- Every column named has its value recorded, as the row had it.
  columns-AreSeen :
      (c : String) (cs : List String) (state : Dict Value × Dict String)
      → AreDistinct cs
      → has_name c cs ≡ true
      → IsSeenIn (tokenise_columns hexdigest text_of salt cs state).1 (lookup c state.0)
  unfolding tokenise_columns
  columns-AreSeen c [] state h m = cc
  columns-AreSeen c (d ∷ cs) state h m = elim (Bool-cases (str_eq c d)) [
    | inl q ↦
        let same : d ≡ c = sym ((str_eq_iff c d).0 q) in
        subst
          (λ (e : String).
            IsSeenIn
              (tokenise_columns hexdigest text_of salt cs
                (tokenise_column hexdigest text_of salt d (lookup d state.0) state)).1
              (lookup e state.0))
          same (columns-IsSeenIn d cs (lookup d state.0) state)
    | inr q ↦
        let next = tokenise_column hexdigest text_of salt d (lookup d state.0) state in
        let there : has_name c cs ≡ true = rw q at m in
        let still : lookup c next.0 ≡ lookup c state.0 =
          column-lookup c d state (lookup d state.0) refl
          ∙ ap (λ (b : Bool). if b then replaced (lookup c state.0) else lookup c state.0) q in
        subst (IsSeenIn (tokenise_columns hexdigest text_of salt cs next).1) still
          (columns-AreSeen c cs next h.1 there)
  ]

  -- A row whose identifiers are replaced, with the pairs of raw values and tokens seen.
  pub record IsTokenised (row : Dict Value) (cs : List String) (result : Dict Value × Dict String)
      : Type 0 where
    pub values :
        (k : String)
        → lookup k result.0 ≡ (if has_name k cs then replaced (lookup k row) else lookup k row)
    pub own : All IsOwnToken result.1
    pub seen : All (λ c. IsSeenIn result.1 (lookup c row)) cs

  -- Where no column is named twice: each column named holds its value's token, or null where it was
  -- null, and every other is as it was; each pair seen is a text with its own token, and every
  -- value that has a token is among them.
  pub tokenise_row-IsTokenised :
      (row : Dict Value) (cs : List String)
      → AreDistinct cs
      → IsTokenised row cs (tokenise_row hexdigest text_of salt row cs)
  unfolding tokenise_row
  tokenise_row-IsTokenised row cs h = record {
    values = λ k. columns-lookup k cs (row, []) h;
    own = columns-IsOwnToken cs (row, []) tt;
    seen = All-of-has_name _ cs (λ c m. columns-AreSeen c cs (row, []) h m);
  }
