-- ===== src/Flagd/Environment.antt =====
-- What providers/flagd/pkg/configuration.go does with the texts of environment variables: the
-- functions of Go's `strconv` and `strings` packages that it calls, and getIntFromEnvVarOrDefault.
-- Environment variables are a function, which has "" where a variable is not set.
use Prim.Native.Char.{code}
use mathlib.Core.List.{map}
use go_sdk_contrib.Common.{
  ℕ, zero, suc, ◌+◌, ◌-◌, ◌*◌, ◌%◌, String, ◌==◌, Bool, true, false, ◌&&◌, Option, none, some, List,
  [], ◌∷◌, eqb, leb, trim_space, if◌then◌else◌,
}
use go_sdk_contrib.OpenFeature.{ℤ, pos, negsuc}

abbrev pub Environment : Type 0
Environment = String → String

-- the number that the digits of a text continue
unfoldable pub digits : ℕ → String → Option ℕ
digits n String.[] = some n
digits n (String.◌∷◌ c s) =
    let rest = digits (n * 10 + (code c - 48)) s in
    if leb 48 (code c) && leb (code c) 57 then rest else none

unfoldable pub unsigned : String → Option ℕ
unfolding digits
unsigned String.[] = none
unsigned (String.◌∷◌ c s) = digits 0 (String.◌∷◌ c s)

unfoldable pub opposite : ℕ → ℤ
opposite zero = pos 0
opposite (suc n) = negsuc n

-- strconv.Atoi with 64 bits, `none` its error
unfoldable pub atoi : String → Option ℤ
unfolding unsigned opposite
atoi String.[] = none
atoi (String.◌∷◌ c s) =
    if eqb (code c) 45
    then elim (unsigned s) [
      | none ↦ none
      | some n ↦ if leb n 9223372036854775808 then some (opposite n) else none
    ]
    else elim (if eqb (code c) 43 then unsigned s else unsigned (String.◌∷◌ c s)) [
      | none ↦ none
      | some n ↦ if leb n 9223372036854775807 then some (pos n) else none
    ]

-- unicode.ToLower, as far as it gives ASCII characters
unfoldable pub lower : ℕ → ℕ
lower c =
    if leb 65 c && leb c 90
    then c + 32
    else if eqb c 0x130
    then 105
    else if eqb c 0x212a
    then 107
    else c

-- strings.ToLower(s) == t, for a text t of ASCII characters
unfoldable pub lowers_to : String → String → Bool
unfolding lower
lowers_to String.[] String.[] = true
lowers_to (String.◌∷◌ c s) (String.◌∷◌ d t) = eqb (lower (code c)) (code d) && lowers_to s t
lowers_to _ _ = false

-- strings.Split(s, ",")
unfoldable pub split_commas : String → List String
split_commas String.[] = "" ∷ []
split_commas (String.◌∷◌ c s) = elim (split_commas s) [
  | [] ↦ []
  | word ∷ words ↦ if eqb (code c) 44 then "" ∷ word ∷ words else String.◌∷◌ c word ∷ words
]

-- uint16(n)
unfoldable pub to_uint16 : ℤ → ℕ
to_uint16 (pos n) = n % 65536
to_uint16 (negsuc n) = 65535 - n % 65536

-- the value of a variable that is set, else the value that is there
unfoldable pub set_or : String → String → String
set_or value old = if value == "" then old else value

-- getIntFromEnvVarOrDefault, given the variable's value
unfoldable pub int_or_default : String → ℤ → ℤ
unfolding atoi
int_or_default value default_value =
    if value == "" then default_value else elim (atoi value) [ none ↦ default_value | some n ↦ n ]

-- the codes of a list that is separated by commas
unfoldable pub status_codes : String → List String
unfolding split_commas trim_space
status_codes value = if value == "" then [] else map trim_space (split_commas value)
