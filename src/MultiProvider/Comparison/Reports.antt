-- ===== src/MultiProvider/Comparison/Reports.antt =====
-- What the providers' answers become as events in comparison.go, and the values that the loop has
-- gathered once every provider has answered.
use mathlib.Core.Logic.{∥∥₁_map}
use mathlib.Core.Logic.Or
use mathlib.Core.List.{Mem, Memᴰ, mem-cons, mem-cons_self, not-mem-nil}
use go_sdk_contrib.Common.{
  ◌≡◌, ◌≢◌, refl, ap, sym, ◌∙◌, Bool, true, false, none, some, List, [], ◌∷◌, arith, Option-cases,
  Bool-cases, inl, inr, eq_iff,
}
use go_sdk_contrib.OpenFeature.{ResolutionDetail, Sdk, SdkLaws}
use go_sdk_contrib.MultiProvider.Strategies.{NamedProvider, ResultWrapper, wrap}
use go_sdk_contrib.MultiProvider.Strategies.Answers.{Succeeds, IsNotFound, Fails}
use go_sdk_contrib.MultiProvider.Comparison.{
  Event, received, not_found, done, context_canceled, report, all_equal, comp_func,
}
use go_sdk_contrib.MultiProvider.Comparison.Loop.{odd, values}

module _ {V E F X : Type 0} (sdk : Sdk E F X) (laws : SdkLaws sdk) (r : ResultWrapper V E F X) where
  pub report-Succeeds : Succeeds sdk r.detail → report sdk r ≡ received r
  unfolding report
  report-Succeeds h = ground (arith, laws.no_code_iff r.detail.resolution_error)

  pub report-IsNotFound : IsNotFound sdk r.detail → report sdk r ≡ not_found none
  unfolding report
  report-IsNotFound h = ground arith

  pub report-Fails : Fails sdk r.detail → report sdk r ≡ done context_canceled
  unfolding report
  report-Fails h = ground arith

  pub report-received :
      {q : ResultWrapper V E F X} → report sdk r ≡ received q → Succeeds sdk r.detail × (r ≡ q)
  unfolding report
  report-received h = (ground arith, ground arith)

module _ {V E F X : Type 0} (sdk : Sdk E F X) (p : NamedProvider E F X)
    (a : ResolutionDetail V E F X) where
  pub report-odd : odd (report sdk (wrap p a)) ≡ 0
  unfolding report
  report-odd = ground (arith, eq_iff context_canceled context_canceled)

module _ {V E F X : Type 0} where
  mem-valuesᴰ :
      (r : ResultWrapper V E F X) (v : V) (evs : List (Event V E F X))
      → r.value ≡ some v
      → Memᴰ (received r) evs
      → Memᴰ v (values evs)
  mem-valuesᴰ r v [] e m = elim m [ ]
  mem-valuesᴰ r v (received q ∷ evs) e (Memᴰ.head p) =
      let same : q.value ≡ some v = ground arith in rw same (Memᴰ.head refl)
  mem-valuesᴰ r v (not_found t ∷ evs) e (Memᴰ.head p) = cc
  mem-valuesᴰ r v (done t ∷ evs) e (Memᴰ.head p) = cc
  mem-valuesᴰ r v (received q ∷ evs) e (Memᴰ.tail m) = elim (Option-cases q.value) [
    | inl g ↦ rw g (mem-valuesᴰ r v evs e m)
    | inr (u, g) ↦ rw g (Memᴰ.tail (mem-valuesᴰ r v evs e m))
  ]
  mem-valuesᴰ r v (not_found t ∷ evs) e (Memᴰ.tail m) = mem-valuesᴰ r v evs e m
  mem-valuesᴰ r v (done t ∷ evs) e (Memᴰ.tail m) = mem-valuesᴰ r v evs e m

  pub mem-values :
      (r : ResultWrapper V E F X) (v : V) (evs : List (Event V E F X))
      → r.value ≡ some v
      → Mem (received r) evs
      → Mem v (values evs)
  mem-values r v evs e m = ∥∥₁_map m (mem-valuesᴰ r v evs e)

  -- the received result that a value comes from
  abbrev pub Source : V → List (Event V E F X) → Type 0
  Source v evs = (r : ResultWrapper V E F X) × Memᴰ (received r) evs × (r.value ≡ some v)

  later :
      (v : V) (ev : Event V E F X) {evs : List (Event V E F X)} → Source v evs → Source v (ev ∷ evs)
  later v ev (r, m, e) = (r, Memᴰ.tail m, e)

  values-memᴰ : (v : V) (evs : List (Event V E F X)) → Memᴰ v (values evs) → Source v evs
  values-memᴰ v [] m = elim m [ ]
  values-memᴰ v (received q ∷ evs) m = elim (Option-cases q.value) [
    | inl g ↦ later v (received q) (values-memᴰ v evs (rw g at m))
    | inr (u, g) ↦ here q u g (rw g at m) (values-memᴰ v evs)
  ]
    where
      here :
          (q : ResultWrapper V E F X) (u : V)
          → q.value ≡ some u
          → Memᴰ v (u ∷ values evs)
          → (Memᴰ v (values evs) → Source v evs)
          → Source v (received q ∷ evs)
      here q u g (Memᴰ.head e) rec = (q, Memᴰ.head refl, g ∙ ap some (sym e))
      here q u g (Memᴰ.tail m) rec = later v (received q) (rec m)
  values-memᴰ v (not_found t ∷ evs) m = later v (not_found t) (values-memᴰ v evs m)
  values-memᴰ v (done t ∷ evs) m = later v (done t) (values-memᴰ v evs m)

  pub values-mem :
      (v : V) (evs : List (Event V E F X))
      → Mem v (values evs)
      → ∥ ((r : ResultWrapper V E F X) × Mem (received r) evs × (r.value ≡ some v)) ∥₁
  values-mem v evs m = ∥∥₁_map m (λ md. let (r, mr, e) = values-memᴰ v evs md in (r, ∣ mr ∣₁, e))

module _ {V : Type 0} (same : V → V → Bool) where
  all_equal-intro :
      (c : V) (vs : List V) → ((b : V) → Mem b vs → same c b ≡ true) → all_equal same c vs ≡ true
  unfolding all_equal
  all_equal-intro c [] h = refl
  all_equal-intro c (v ∷ vs) h =
      rw (h v mem-cons_self) (all_equal-intro c vs (λ b m. h b (mem-cons.1 (Or.inr m))))

  all_equal-elim :
      (c : V) (vs : List V) → all_equal same c vs ≡ true → (b : V) → Mem b vs → same c b ≡ true
  unfolding all_equal
  all_equal-elim c [] h b m = absurd (not-mem-nil m)
  all_equal-elim c (v ∷ vs) h b m =
      Or.elim (hlevel) (mem-cons.0 m) (λ e. rw e (ground arith))
        (all_equal-elim c vs (ground arith) b)

  -- The loop over a slice accepts values that are equal pairwise.
  pub comp_func-agree :
      (vs : List V)
      → vs ≢ []
      → ((a b : V) → Mem a vs → Mem b vs → same a b ≡ true)
      → comp_func same vs ≡ some true
  unfolding comp_func
  comp_func-agree [] n h = absurd (n refl)
  comp_func-agree (v ∷ vs) n h =
      ap some (all_equal-intro v vs (λ b m. h v b mem-cons_self (mem-cons.1 (Or.inr m))))

  -- It rejects two values that differ.
  pub comp_func-disagree :
      ((a b : V) → same a b ≡ true → same b a ≡ true)
      → ((a b c : V) → same a b ≡ true → same b c ≡ true → same a c ≡ true)
      → (vs : List V) (a b : V) → Mem a vs
      → Mem b vs
      → same a a ≡ true
      → same a b ≡ false
      → comp_func same vs ≡ some false
  unfolding comp_func
  comp_func-disagree symm trans [] a b ma mb aa ab = absurd (not-mem-nil ma)
  comp_func-disagree symm trans (c ∷ vs) a b ma mb aa ab = elim (Bool-cases (all_equal same c vs)) [
    | inr e ↦ ap some e
    | inl e ↦
        let equal : same a b ≡ true =
          Or.elim (hlevel) (mem-cons.0 ma)
            (λ ac.
              Or.elim (hlevel) (mem-cons.0 mb) (λ bc. rw (bc ∙ sym ac) aa)
                (λ mb'. rw ac (all_equal-elim c vs e b mb')))
            (λ ma'.
              let ca = all_equal-elim c vs e a ma' in
              Or.elim (hlevel) (mem-cons.0 mb) (λ bc. rw bc (symm c a ca))
                (λ mb'. trans a c b (symm c a ca) (all_equal-elim c vs e b mb'))) in
        cc
  ]
