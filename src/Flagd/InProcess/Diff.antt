-- ===== src/Flagd/InProcess/Diff.antt =====
-- computeChangedFlags of providers/flagd/pkg/service/in_process/service.go.
use go_sdk_contrib.Common.{
  String, ◌==◌, Bool, false, not, ◌||◌, none, some, List, [], ◌∷◌, ◌++◌, Assoc, lookup, insert, any,
  if◌then◌else◌,
}

-- model.Flag
pub record StoredFlag (A : Type 0) : Type 0 where
  pub key : String
  pub content : A

-- whether a list of keys has this one
abbrev pub contains : String → List String → Bool
contains k keys = any (λ j. j == k) keys

module _ {A : Type 0} where
  -- the map of the old flags, from the flags to be added to the map that there is
  unfoldable pub add_flags : Assoc A → List (StoredFlag A) → Assoc A
  unfolding insert
  add_flags m [] = m
  add_flags m (flag ∷ flags) = add_flags (insert flag.key flag.content m) flags

  unfoldable pub flag_map : List (StoredFlag A) → Assoc A
  unfolding add_flags
  flag_map flags = add_flags [] flags

  -- the loop over the new flags
  unfoldable pub added_or_modified : (A → A → Bool) → Assoc A → List (StoredFlag A) → List String
  unfolding lookup
  added_or_modified same old [] = []
  added_or_modified same old (flag ∷ flags) =
      let rest = added_or_modified same old flags in
      elim (lookup flag.key old) [
        | none ↦ flag.key ∷ rest
        | some old_flag ↦ if not (same old_flag flag.content) then flag.key ∷ rest else rest
      ]

  -- whether newKeys has the key
  unfoldable pub has_key : String → List (StoredFlag A) → Bool
  has_key k [] = false
  has_key k (flag ∷ flags) = flag.key == k || has_key k flags

  -- the loop over the old flags
  unfoldable pub deleted : List (StoredFlag A) → Assoc A → List String
  unfolding has_key
  deleted new [] = []
  deleted new ((key, flag) ∷ old) =
      let rest = deleted new old in if has_key key new then rest else key ∷ rest

  unfoldable pub compute_changed_flags :
      (A → A → Bool) → Assoc A → List (StoredFlag A) → List String
  unfolding added_or_modified deleted
  compute_changed_flags same old_flag_map new_flags =
      added_or_modified same old_flag_map new_flags ++ deleted new_flags old_flag_map
