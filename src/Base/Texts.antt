-- ===== src/Base/Texts.antt =====
-- Texts: cuts and tests that Python's `str` has and the library lacks.
use Prim.Native.Nat.{ℕ, zero, suc, ◌/◌, ◌%◌}
use grokcli_2api.Base.Tests.{◌==◌ as nat_eq, if◌then◌else◌}
use Prim.Native.String.{String, ◌++◌}
use mathlib.Core.Bool.{Bool, ◌||◌, false, true}
use mathlib.Core.Option.{Option, none, some}
use mathlib.Core.List.{List, [], ◌∷◌}
use text.Mathlib.Text.{◌==◌, find?}

-- `s[:n]`, in code points
unfoldable pub cut : ℕ → String → String
cut zero s = ""
cut (suc n) String.[] = ""
cut (suc n) (String.◌∷◌ c s) = String.◌∷◌ c (cut n s)

abbrev pub str_eq : String → String → Bool
str_eq s t = s == t

-- `s in (a, b, …)`
abbrev pub one_of : String → List String → Bool
one_of s [] = false
one_of s (t ∷ ts) = str_eq s t || one_of s ts

infixr 66 ◌<>◌
abbrev pub ◌<>◌ : String → String → String
s <> t = s ++ t

-- `if s:`
abbrev pub is_text : String → Bool
is_text String.[] = false
is_text (String.◌∷◌ c s) = true

-- `len(s)`
unfoldable pub text_length : String → ℕ
text_length String.[] = 0
text_length (String.◌∷◌ c s) = suc (text_length s)

-- `s[n:]`
unfoldable pub text_from : ℕ → String → String
text_from zero s = s
text_from (suc n) String.[] = ""
text_from (suc n) (String.◌∷◌ c s) = text_from n s

-- `s.startswith(t)`
abbrev pub starts_with : String → String → Bool
starts_with s t = str_eq (cut (text_length t) s) t

-- `len(s) > n`
unfoldable pub longer_than : ℕ → String → Bool
longer_than n String.[] = false
longer_than zero (String.◌∷◌ c s) = true
longer_than (suc n) (String.◌∷◌ c s) = longer_than n s

-- `t in s`
abbrev pub contains_text : String → String → Bool
contains_text s t = elim (find? s t) [ none ↦ false | some i ↦ true ]

unfoldable pub digit : ℕ → String
digit d =
    if nat_eq d 0
    then "0"
    else if nat_eq d 1
    then "1"
    else if nat_eq d 2
    then "2"
    else if nat_eq d 3
    then "3"
    else if nat_eq d 4
    then "4"
    else if nat_eq d 5
    then "5"
    else if nat_eq d 6
    then "6"
    else if nat_eq d 7
    then "7"
    else if nat_eq d 8
    then "8"
    else "9"

show_digits : ℕ → ℕ → String
unfolding digit
show_digits zero n = digit (n % 10)
show_digits (suc fuel) n =
    let rest = show_digits fuel (n / 10) in
    if nat_eq (n / 10) 0 then digit (n % 10) else rest ++ digit (n % 10)

-- `str(n)`; the number itself is enough fuel for its digits.
unfoldable pub show_ℕ : ℕ → String
unfolding show_digits
show_ℕ n = show_digits n n

-- `f"{x}"` of an optional number
unfoldable pub show_optional : Option ℕ → String
unfolding show_ℕ
show_optional none = "None"
show_optional (some n) = show_ℕ n
