-- ===== src/MultiProvider/FirstSuccess/Reports.antt =====
-- What the goroutines of first_success.go send, and how many events of each kind there are once
-- every provider has answered.
use mathlib.Core.List.{Mem, Perm, mem-cons, mem-cons_self, mem-map_of_mem}
use mathlib.Core.Logic.Or
use go_sdk_contrib.Common.{
  ℕ, ◌+◌, ◌<◌, ◌≤◌, ◌≡◌, refl, ap, ◌∙◌, true, none, some, List, [], ◌∷◌, map, length, length-map,
  length-perm, total, total-perm, total-mem, total-All_one, total-All_zero, All, All-map, All-intro,
  arith,
}
use go_sdk_contrib.OpenFeature.{ResolutionDetail, Sdk}
use go_sdk_contrib.MultiProvider.Strategies.{NamedProvider, ResultWrapper, wrap}
use go_sdk_contrib.MultiProvider.Strategies.Answers.{Succeeds, IsNotFound, Fails}
use go_sdk_contrib.MultiProvider.FirstSuccess.{Event, finished, failed, not_found, done, report}
use go_sdk_contrib.MultiProvider.FirstSuccess.Counts.{win, failure, miss, cancel, first_win}

module _ {V E F X : Type 0} where
  pub kinds :
      (evs : List (Event V E F X))
      → total win evs + total failure evs + total miss evs + total cancel evs ≡ length evs
  kinds [] = refl
  kinds (finished r ∷ evs) = omega (arith, kinds evs)
  kinds (failed r ∷ evs) = omega (arith, kinds evs)
  kinds (not_found ∷ evs) = omega (arith, kinds evs)
  kinds (done r ∷ evs) = omega (arith, kinds evs)

  pub first_win-mem :
      (evs : List (Event V E F X))
      → 0 < total win evs
      → (r : ResultWrapper V E F X) × (first_win evs ≡ some r) × Mem (finished r) evs
  first_win-mem [] h = absurd (omega arith)
  first_win-mem (finished r ∷ evs) h = (r, refl, mem-cons_self)
  first_win-mem (failed e ∷ evs) h =
      let (r, first, m) = first_win-mem evs (omega arith) in (r, first, mem-cons.1 (Or.inr m))
  first_win-mem (not_found ∷ evs) h =
      let (r, first, m) = first_win-mem evs (omega arith) in (r, first, mem-cons.1 (Or.inr m))
  first_win-mem (done t ∷ evs) h =
      let (r, first, m) = first_win-mem evs (omega arith) in (r, first, mem-cons.1 (Or.inr m))

  pub first_win-none : (evs : List (Event V E F X)) → total win evs ≡ 0 → first_win evs ≡ none
  first_win-none [] h = refl
  first_win-none (finished r ∷ evs) h = absurd (omega arith)
  first_win-none (failed e ∷ evs) h = first_win-none evs (omega arith)
  first_win-none (not_found ∷ evs) h = first_win-none evs (omega arith)
  first_win-none (done t ∷ evs) h = first_win-none evs (omega arith)

module _ {V E F X : Type 0} (sdk : Sdk E F X) (p : NamedProvider E F X)
    (r : ResultWrapper V E F X) where
  pub report-Succeeds : Succeeds sdk r.detail → report sdk p r ≡ finished r
  unfolding report
  report-Succeeds h = ground arith

  report-IsNotFound : IsNotFound sdk r.detail → report sdk p r ≡ not_found
  unfolding report
  report-IsNotFound h = ground arith

  report-Fails :
      Fails sdk r.detail
      → report sdk p r ≡ failed (record { err = r.detail.resolution_error; provider_name = p.name })
  unfolding report
  report-Fails h = ground arith

  report-cancel : cancel (report sdk p r) ≡ 0
  unfolding report
  report-cancel = ground arith

  pub report-error : sdk.has_error r.detail.resolution_error ≡ true → win (report sdk p r) ≡ 0
  unfolding report
  report-error h = ground arith

  pub report-finished :
      {q : ResultWrapper V E F X} → report sdk p r ≡ finished q → Succeeds sdk r.detail × (r ≡ q)
  unfolding report
  report-finished h = (ground arith, ground arith)

module _ {V E F X : Type 0} (sdk : Sdk E F X) (providers : List (NamedProvider E F X))
    (ask : NamedProvider E F X → ResolutionDetail V E F X) (events : List (Event V E F X)) where
  -- every provider has answered before the deadline, in some order
  abbrev pub Delivered : Type 0
  Delivered = Perm events (map (λ p. report sdk p (wrap p (ask p))) providers)

  pub n_events : Delivered → length events ≡ length providers
  n_events d = length-perm d ∙ length-map (λ p. report sdk p (wrap p (ask p))) providers

  -- the number of events of a kind, if each provider's event is known to be of it or not
  pub every_event :
      (w : Event V E F X → ℕ) (P : NamedProvider E F X → Type 0)
      → ((p : NamedProvider E F X) → P p → w (report sdk p (wrap p (ask p))) ≡ 1)
      → Delivered
      → All P providers
      → total w events ≡ length providers
  every_event w P h d a =
      total-perm w d
      ∙ total-All_one w _
          (All-map P (λ e. w e ≡ 1) (λ p. report sdk p (wrap p (ask p))) h providers a)
      ∙ length-map (λ p. report sdk p (wrap p (ask p))) providers

  pub no_event :
      (w : Event V E F X → ℕ) (P : NamedProvider E F X → Type 0)
      → ((p : NamedProvider E F X) → P p → w (report sdk p (wrap p (ask p))) ≡ 0)
      → Delivered
      → All P providers
      → total w events ≡ 0
  no_event w P h d a =
      total-perm w d
      ∙ total-All_zero w _
          (All-map P (λ e. w e ≡ 0) (λ p. report sdk p (wrap p (ask p))) h providers a)

  pub some_event :
      (w : Event V E F X → ℕ) {p : NamedProvider E F X}
      → Delivered
      → Mem p providers
      → w (report sdk p (wrap p (ask p))) ≤ total w events
  some_event w {p} d m =
      omega
        (arith, total-perm w d, total-mem w (mem-map_of_mem (λ p. report sdk p (wrap p (ask p))) m))

  pub no_cancel : Delivered → total cancel events ≡ 0
  no_cancel d =
      no_event cancel (λ _. Unit {0}) (λ p _. report-cancel sdk p (wrap p (ask p))) d
        (All-intro (λ _. Unit {0}) (λ _. tt) providers)

  pub failing :
      (p : NamedProvider E F X)
      → Fails sdk (ask p).detail
      → failure (report sdk p (wrap p (ask p))) ≡ 1
  failing p h = ap failure (report-Fails sdk p (wrap p (ask p)) h)

  pub missing :
      (p : NamedProvider E F X)
      → IsNotFound sdk (ask p).detail
      → miss (report sdk p (wrap p (ask p))) ≡ 1
  missing p h = ap miss (report-IsNotFound sdk p (wrap p (ask p)) h)
