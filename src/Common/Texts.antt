-- ===== src/Common/Texts.antt =====
-- The functions of Go's `strings` and `slices` packages that the providers call on texts.
use Prim.Native.Nat.{ℕ, Ordering}
use Prim.Native.Char.{Char, code}
use Prim.Native.String.{String, compare, ◌++◌ as append}
use mathlib.Core.Bool.{Bool, true, false, ◌&&◌, ◌||◌}
use mathlib.Core.Option.{Option, none, some}
use mathlib.Core.List.{List, [], ◌∷◌}
use go_sdk_contrib.Common.Tests.{leb, eqb, if◌then◌else◌}

-- s + t
abbrev pub concat : String → String → String
concat s t = append s t

-- strings.Join(texts, separator)
unfoldable pub join : String → List String → String
join separator [] = ""
join separator (s ∷ []) = s
join separator (s ∷ t ∷ r) = append s (append separator (join separator (t ∷ r)))

-- s <= t, by bytes
abbrev pub le_text : String → String → Bool
le_text s t = elim (compare s t) [ Ordering.gt ↦ false | _ ↦ true ]

insert_sorted : String → List String → List String
insert_sorted s [] = s ∷ []
insert_sorted s (t ∷ r) = if le_text s t then s ∷ t ∷ r else t ∷ insert_sorted s r

-- slices.Sort: equal texts cannot be told apart, so any sorting algorithm gives this list
unfoldable pub sort : List String → List String
unfolding insert_sorted
sort [] = []
sort (s ∷ r) = insert_sorted s (sort r)

-- unicode.IsSpace
unfoldable pub is_space : ℕ → Bool
is_space c =
    (leb 9 c && leb c 13)
    || eqb c 32
    || eqb c 133
    || eqb c 160
    || eqb c 0x1680
    || (leb 0x2000 c && leb c 0x200a)
    || eqb c 0x2028
    || eqb c 0x2029
    || eqb c 0x202f
    || eqb c 0x205f
    || eqb c 0x3000

trim_left : String → String
unfolding is_space
trim_left String.[] = String.[]
trim_left (String.◌∷◌ c s) =
    let rest = trim_left s in if is_space (code c) then rest else String.◌∷◌ c s

-- a character is dropped if only white space follows it and it is white space itself
trim_right : String → String
unfolding is_space
trim_right String.[] = String.[]
trim_right (String.◌∷◌ c s) = let rest = trim_right s in keep c rest
  where
    keep : Char → String → String
    keep c String.[] = if is_space (code c) then String.[] else String.◌∷◌ c String.[]
    keep c (String.◌∷◌ d r) = String.◌∷◌ c (String.◌∷◌ d r)

-- strings.TrimSpace
unfoldable pub trim_space : String → String
unfolding trim_left trim_right
trim_space s = trim_right (trim_left s)

-- strings.CutPrefix: what follows the prefix
unfoldable pub cut_prefix : String → String → Option String
cut_prefix String.[] s = some s
cut_prefix (String.◌∷◌ c p) String.[] = none
cut_prefix (String.◌∷◌ c p) (String.◌∷◌ d s) =
    if eqb (code c) (code d) then cut_prefix p s else none

-- the part of a text before its first line feed
unfoldable pub first_line : String → String
first_line String.[] = String.[]
first_line (String.◌∷◌ c s) = if eqb (code c) 10 then String.[] else String.◌∷◌ c (first_line s)
