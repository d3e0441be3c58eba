-- ===== src/Base/Chars.antt =====
-- Texts by their characters: what `std::string`, `std::getline` and `>>` do to ASCII text.
use Prim.Native.String.{String, ◌++◌}
use Prim.Native.Char.{Char, code}
use Prim.Native.Nat.{ℕ, zero, suc, ◌+◌, ◌-◌, ◌*◌, ◌%◌, ◌^◌}
use rouge_v.Base.Tests.{◌==◌, leb, if◌then◌else◌}
use rouge_v.Base.Text.{starts_with}
use mathlib.Core.Bool.{Bool, true, false, ◌&&◌, ◌||◌}
use mathlib.Core.Option.{Option, none, some}
use mathlib.Core.List.{List, [], ◌∷◌}

abbrev pub concat : String → String → String
concat s t = s ++ t

abbrev pub is_empty : String → Bool
is_empty String.[] = true
is_empty (String.◌∷◌ c s) = false

-- The texts between the occurrences of a character: the first, and the others.
unfoldable pub pieces : ℕ → String → String × List String
pieces d String.[] = (String.[], [])
pieces d (String.◌∷◌ c s) =
    let (first, others) = pieces d s in
    if code c == d then (String.[], first ∷ others) else (String.◌∷◌ c first, others)

unfoldable pub split : ℕ → String → List String
unfolding pieces
split d s = let (first, others) = pieces d s in first ∷ others

-- `find` of a character: what stands before its first occurrence and behind it.
unfoldable pub cut : ℕ → String → Option (String × String)
cut d String.[] = none
cut d (String.◌∷◌ c s) =
    if code c == d
    then some (String.[], s)
    else elim (cut d s) [ none ↦ none | some (before, behind) ↦ some (String.◌∷◌ c before, behind) ]

-- What stands before the first occurrence of a character, or all.
unfoldable pub before : ℕ → String → String
before d String.[] = String.[]
before d (String.◌∷◌ c s) = if code c == d then String.[] else String.◌∷◌ c (before d s)

-- `substr(n)`, for a text of at least `n` characters.
unfoldable pub drop : ℕ → String → String
drop zero s = s
drop (suc n) String.[] = String.[]
drop (suc n) (String.◌∷◌ c s) = drop n s

-- " \t\r\n".
abbrev pub is_trimmed : Char → Bool
is_trimmed c = code c == 32 || code c == 9 || code c == 13 || code c == 10

unfoldable pub trim_front : String → String
trim_front String.[] = String.[]
trim_front (String.◌∷◌ c s) =
    let rest = trim_front s in if is_trimmed c then rest else String.◌∷◌ c s

unfoldable pub trim_back : String → String
trim_back String.[] = String.[]
trim_back (String.◌∷◌ c s) =
    let rest = trim_back s in if is_trimmed c && is_empty rest then String.[] else String.◌∷◌ c rest

unfoldable pub trim : String → String
unfolding trim_front trim_back
trim s = trim_back (trim_front s)

-- `isspace`: the tabs, line ends, form feed and the space.
abbrev pub is_space : Char → Bool
is_space c = code c == 32 || (leb 9 (code c) && leb (code c) 13)

-- `>>` till the end: the word that a text begins with, perhaps empty, and the words behind it.
unfoldable pub word_pieces : String → String × List String
word_pieces String.[] = (String.[], [])
word_pieces (String.◌∷◌ c s) =
    let (first, others) = word_pieces s in
    if is_space c
    then (String.[], if is_empty first then others else first ∷ others)
    else (String.◌∷◌ c first, others)

unfoldable pub words : String → List String
unfolding word_pieces
words s = let (first, others) = word_pieces s in if is_empty first then others else first ∷ others

abbrev pub is_digit : Char → Bool
is_digit c = leb 48 (code c) && leb (code c) 57

unfoldable pub digits_from : ℕ → String → ℕ
digits_from n String.[] = n
digits_from n (String.◌∷◌ c s) =
    let rest = digits_from (n * 10 + (code c - 48)) s in if is_digit c then rest else n

-- `atoi`, as the pattern of an `int`: blanks, a sign and digits. A number that leaves the range,
-- which C leaves undefined, wraps around.
unfoldable pub atoi : String → ℕ
unfolding digits_from
atoi String.[] = 0
atoi (String.◌∷◌ c s) =
    let behind_blank = atoi s in
    if is_space c
    then behind_blank
    else if code c == b'-'
    then (2 ^ 32 - digits_from 0 s % 2 ^ 32) % 2 ^ 32
    else if code c == b'+'
    then digits_from 0 s % 2 ^ 32
    else digits_from 0 (String.◌∷◌ c s) % 2 ^ 32

-- `find` of a text, that it is somewhere.
unfoldable pub contains : String → String → Bool
contains t String.[] = starts_with String.[] t
contains t (String.◌∷◌ c s) = starts_with (String.◌∷◌ c s) t || contains t s

-- A text without as many characters as another has.
unfoldable pub behind_prefix : String → String → String
behind_prefix String.[] s = s
behind_prefix (String.◌∷◌ d t) String.[] = String.[]
behind_prefix (String.◌∷◌ d t) (String.◌∷◌ c s) = behind_prefix t s

-- What stands behind the first occurrence of a text.
unfoldable pub find_text : String → String → Option String
find_text t String.[] = none
find_text t (String.◌∷◌ c s) =
    let rest = find_text t s in
    if starts_with (String.◌∷◌ c s) t then some (behind_prefix t (String.◌∷◌ c s)) else rest
