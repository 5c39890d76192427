-- ===== src/Common/Text.antt =====
-- Texts that the program only compares, sorts and concatenates, and numbers written out in decimal.
use Prim.Native.Nat.{ℕ, zero, suc, ◌-◌, ◌/◌, ◌%◌}
use Prim.Native.Char.{Char, code}
use Prim.Native.String.{String, compare, ◌++◌}
use mathlib.Core.Bool.{Bool, false, ◌||◌, ◌&&◌}
use mathlib.Core.List.{List, [], ◌∷◌}
use text.Mathlib.Text.{is_lt, ◌==◌ as str_eq}
use native.Mathlib.Omega.{arith}
use mathlib.Core.Path.{sym, subst}
use mathlib.Core.Logic.{inl, inr}
use text.Mathlib.TextEquality.{eq_iff as str_eq_iff}
use nordbank_data_platform.Common.Tests.{ltb, leb, ◌==◌, if◌then◌else◌, Bool-cases}
use nordbank_data_platform.Common.Lists.{get_or, All}

-- `name in names`
abbrev pub has_name : String → List String → Bool
has_name n [] = false
has_name n (m ∷ ms) = str_eq n m || has_name n ms

abbrev pub str_lt : String → String → Bool
str_lt s t = is_lt (compare s t)

-- One name put into a sorted list without repetition.
pub insert_name : String → List String → List String
insert_name n [] = n ∷ []
insert_name n (m ∷ ms) =
    if str_lt n m then n ∷ m ∷ ms else if str_eq n m then m ∷ ms else m ∷ insert_name n ms

-- `sorted(set(names))`
unfoldable pub sorted_set : List String → List String
unfolding insert_name
sorted_set [] = []
sorted_set (n ∷ ns) = insert_name n (sorted_set ns)

digit : ℕ → String
digit d = get_or ("0" ∷ "1" ∷ "2" ∷ "3" ∷ "4" ∷ "5" ∷ "6" ∷ "7" ∷ "8" ∷ "9" ∷ []) d ""

digits_of : ℕ → ℕ → String
digits_of zero n = ""
digits_of (suc f) n =
    let rest = digits_of f (n / 10) in if ltb n 10 then digit n else rest ++ digit (n % 10)

-- `str(n)`; a number has at most as many digits as its value plus one.
unfoldable pub str_of : ℕ → String
unfolding digits_of digit
str_of n = digits_of (suc n) n

-- `f"{n:02d}"`
unfoldable pub pad_two : ℕ → String
unfolding str_of
pad_two n = if ltb n 10 then "0" ++ str_of n else str_of n

-- `text.split("(", 1)[0]`
abbrev pub before_paren : String → String
before_paren String.[] = ""
before_paren (String.◌∷◌ c s) = if code c == b'(' then "" else String.◌∷◌ c (before_paren s)

is_space : Char → Bool
is_space c = code c == 32 || (leb 9 (code c) && leb (code c) 13)

strip_left : String → String
strip_left String.[] = ""
strip_left (String.◌∷◌ c s) = let rest = strip_left s in if is_space c then rest else String.◌∷◌ c s

strip_right : String → String
strip_right String.[] = ""
strip_right (String.◌∷◌ c s) =
    let rest = strip_right s in if is_space c && str_eq rest "" then "" else String.◌∷◌ c rest

lower_letters : List Char
lower_letters =
    "a" ∷ "b" ∷ "c" ∷ "d" ∷ "e" ∷ "f" ∷ "g" ∷ "h" ∷ "i" ∷ "j" ∷ "k" ∷ "l" ∷ "m" ∷ "n" ∷ "o" ∷ "p"
    ∷ "q" ∷ "r" ∷ "s" ∷ "t" ∷ "u" ∷ "v" ∷ "w" ∷ "x" ∷ "y" ∷ "z" ∷ []

-- `text.strip()` and `text.lower()`, for texts in ASCII.
unfoldable pub strip : String → String
unfolding strip_left strip_right is_space
strip s = strip_left (strip_right s)

unfoldable pub lower : String → String
unfolding lower_letters
lower String.[] = ""
lower (String.◌∷◌ c s) =
    String.◌∷◌
      (if leb b'A' (code c) && leb (code c) b'Z' then get_or lower_letters (code c - b'A') c else c)
      (lower s)

-- Sorting names loses none.
insert_name-All :
    (P : String → Type 0) (n : String) (ms : List String)
    → All P (insert_name n ms)
    → P n × All P ms
unfolding insert_name
insert_name-All P n [] h = (h.0, tt)
insert_name-All P n (m ∷ ms) h = elim (Bool-cases (str_lt n m)) [
  | inl e ↦ rw e at h
  | inr e ↦ elim (Bool-cases (str_eq n m)) [
    | inl q ↦
        let k : All P (m ∷ ms) = rw (e, q) at h in (subst P (sym ((str_eq_iff n m).0 q)) (k.0), k)
    | inr q ↦
        let k : All P (m ∷ insert_name n ms) = rw (e, q) at h in
        let (a, b) = insert_name-All P n ms k.1 in (a, (k.0, b))
  ]
]

pub sorted_set-All : (P : String → Type 0) (ns : List String) → All P (sorted_set ns) → All P ns
unfolding sorted_set
sorted_set-All P [] h = tt
sorted_set-All P (n ∷ ns) h =
    let (a, b) = insert_name-All P n (sorted_set ns) h in (a, sorted_set-All P ns b)

insert_name-keeps-All :
    (P : String → Type 0) (n : String) (ms : List String)
    → P n
    → All P ms
    → All P (insert_name n ms)
unfolding insert_name
insert_name-keeps-All P n [] h hs = (h, tt)
insert_name-keeps-All P n (m ∷ ms) h hs = ground (arith, insert_name-keeps-All P n ms h hs.1)

pub sorted_set-keeps-All :
    (P : String → Type 0) (ns : List String) → All P ns → All P (sorted_set ns)
unfolding sorted_set
sorted_set-keeps-All P [] h = tt
sorted_set-keeps-All P (n ∷ ns) h =
    insert_name-keeps-All P n (sorted_set ns) h.0 (sorted_set-keeps-All P ns h.1)
