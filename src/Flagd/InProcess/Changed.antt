-- ===== src/Flagd/InProcess/Changed.antt =====
-- computeChangedFlags against the keys whose flags differ.
use go_sdk_contrib.Common.{
  String, ◌≡◌, refl, ◌==◌, eq_iff, Bool, true, false, not, ◌||◌, Option, none, some, List, [], ◌∷◌,
  ◌++◌, Assoc, lookup, arith, if◌then◌else◌, Option-cases, inl, inr,
}
use go_sdk_contrib.Flagd.InProcess.Diff.{
  StoredFlag, contains, added_or_modified, has_key, deleted, compute_changed_flags,
}

module _ {A : Type 0} where
  -- the flag of a key
  abbrev pub find : String → List (StoredFlag A) → Option A
  find k [] = none
  find k (flag ∷ flags) = if flag.key == k then some flag.content else find k flags

  -- no two flags have the same key
  abbrev pub IsKeyed : List (StoredFlag A) → Type 0
  IsKeyed [] = Unit {0}
  IsKeyed (flag ∷ flags) = (find flag.key flags ≡ none) × IsKeyed flags

  has_key-find :
      (k : String) (flags : List (StoredFlag A)) → find k flags ≡ none → has_key k flags ≡ false
  unfolding has_key
  has_key-find k [] h = refl
  has_key-find k (flag ∷ flags) h = ground (arith, has_key-find k flags)

  has_key-found :
      (k : String) (a : A) (flags : List (StoredFlag A))
      → find k flags ≡ some a
      → has_key k flags ≡ true
  unfolding has_key
  has_key-found k a [] h = cc
  has_key-found k a (flag ∷ flags) h = ground (arith, has_key-found k a flags)

contains-append :
    (k : String) (xs ys : List String) → contains k (xs ++ ys) ≡ (contains k xs || contains k ys)
contains-append k [] ys = refl
contains-append k (x ∷ xs) ys = ground (arith, contains-append k xs ys)

-- whether a flag that may be there differs from another
abbrev pub differs : {A : Type 0} → (A → A → Bool) → Option A → Option A → Bool
differs same none none = false
differs same (some o) (some n) = not (same o n)
differs same _ _ = true

module _ {A : Type 0} (same : A → A → Bool) (k : String) where
  added_or_modified-find :
      (old : Assoc A) (flags : List (StoredFlag A))
      → IsKeyed flags
      → contains k (added_or_modified same old flags)
        ≡ elim (find k flags) [ none ↦ false | some n ↦ differs same (lookup k old) (some n) ]
  unfolding added_or_modified
  added_or_modified-find old [] h = refl
  added_or_modified-find old (flag ∷ flags) h =
      ground (arith, added_or_modified-find old flags h.1, eq_iff flag.key k, h.0)

  deleted-lookup :
      (flags : List (StoredFlag A)) (old : Assoc A)
      → contains k (deleted flags old)
        ≡ elim (lookup k old) [ none ↦ false | some o ↦ not (has_key k flags) ]
  unfolding deleted lookup
  deleted-lookup flags [] = refl
  deleted-lookup flags ((key, o) ∷ old) = ground (arith, deleted-lookup flags old, eq_iff key k)

  -- If no two of the new flags have the same key, the keys that are reported are those at which the
  -- old and the new flags differ: those of the flags that were added, modified or deleted.
  pub compute_changed_flags-differs :
      (old : Assoc A) (new : List (StoredFlag A))
      → IsKeyed new
      → contains k (compute_changed_flags same old new) ≡ differs same (lookup k old) (find k new)
  unfolding compute_changed_flags
  compute_changed_flags-differs old new h =
      let split = contains-append k (added_or_modified same old new) (deleted new old) in
      elim (Option-cases (find k new)) [
        | inl e ↦ ground (
          arith,
          split,
          added_or_modified-find old new h,
          deleted-lookup new old,
          has_key-find k new,
        )
        | inr (n, e) ↦ ground (
          arith,
          split,
          added_or_modified-find old new h,
          deleted-lookup new old,
          has_key-found k n new,
        )
      ]
