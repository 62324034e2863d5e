-- ===== src/Common/Sums.antt =====
-- Sums over lists, which do not depend on the order.
use Prim.Native.Nat.{ℕ, ◌+◌, ◌≤◌}
use native.Mathlib.Nat.{ℕ_set}
use native.Mathlib.Omega.{arith}
use mathlib.Core.Path.{◌≡◌, refl, ap, ◌∙◌}
use mathlib.Core.Logic.{∥∥₁_elim}
use mathlib.Core.List.{List, [], ◌∷◌, Mem, Memᴰ, Perm, Permᴰ, map, mem-map_of_mem}
use native.Mathlib.Bridge.{le_prop}
use go_sdk_contrib.Common.Lists.{length, length-map, All, All-map, All-intro}

module _ {A : Type 0} (w : A → ℕ) where
  abbrev pub total : List A → ℕ
  total [] = 0
  total (x ∷ xs) = w x + total xs

  total-permᴰ : {xs ys : List A} → Permᴰ xs ys → total xs ≡ total ys
  total-permᴰ Permᴰ.nil = refl
  total-permᴰ (Permᴰ.cons e p) = omega (arith, ap w e, total-permᴰ p)
  total-permᴰ (Permᴰ.swap d e) = omega (arith, ap w d, ap w e)
  total-permᴰ (Permᴰ.trans p q) = total-permᴰ p ∙ total-permᴰ q

  pub total-perm : {xs ys : List A} → Perm xs ys → total xs ≡ total ys
  total-perm p = ∥∥₁_elim p (ℕ_set _ _) total-permᴰ

  pub total-le-length : ((x : A) → w x ≤ 1) → (xs : List A) → total xs ≤ length xs
  total-le-length h [] = omega arith
  total-le-length h (x ∷ xs) = omega (arith, h x, total-le-length h xs)

  pub total-All_one : (xs : List A) → All (λ x. w x ≡ 1) xs → total xs ≡ length xs
  total-All_one [] h = refl
  total-All_one (x ∷ xs) h = omega (arith, h.0, total-All_one xs h.1)

  pub total-All_zero : (xs : List A) → All (λ x. w x ≡ 0) xs → total xs ≡ 0
  total-All_zero [] h = refl
  total-All_zero (x ∷ xs) h = omega (arith, h.0, total-All_zero xs h.1)

  total-memᴰ : {x : A} {xs : List A} → Memᴰ x xs → w x ≤ total xs
  total-memᴰ (Memᴰ.head e) = omega (arith, ap w e)
  total-memᴰ (Memᴰ.tail m) = omega (arith, total-memᴰ m)

  -- A member's share is within the sum.
  pub total-mem : {x : A} {xs : List A} → Mem x xs → w x ≤ total xs
  total-mem m = ∥∥₁_elim m le_prop total-memᴰ

total-one : {A : Type 0} (xs : List A) → total (λ _. 1) xs ≡ length xs
total-one [] = refl
total-one (x ∷ xs) = omega (arith, total-one xs)

pub length-perm : {A : Type 0} {xs ys : List A} → Perm xs ys → length xs ≡ length ys
length-perm {xs = xs} {ys = ys} p = omega (arith, total-one xs, total-one ys, total-perm (λ _. 1) p)

-- Events that arrive in some order, one from each sender.
module _ {A B : Type 0} (f : A → B) (senders : List A) (events : List B) where
  abbrev pub Arrived : Type 0
  Arrived = Perm events (map f senders)

  pub length-Arrived : Arrived → length events ≡ length senders
  length-Arrived d = length-perm d ∙ length-map f senders

  -- the number of events of a kind, if every sender's event is known to be of it, or not to be
  pub every_event :
      (w : B → ℕ) (P : A → Type 0)
      → ((a : A) → P a → w (f a) ≡ 1)
      → Arrived
      → All P senders
      → total w events ≡ length senders
  every_event w P h d a =
      total-perm w d
      ∙ total-All_one w _ (All-map P (λ e. w e ≡ 1) f h senders a)
      ∙ length-map f senders

  pub no_event :
      (w : B → ℕ) (P : A → Type 0)
      → ((a : A) → P a → w (f a) ≡ 0)
      → Arrived
      → All P senders
      → total w events ≡ 0
  no_event w P h d a = total-perm w d ∙ total-All_zero w _ (All-map P (λ e. w e ≡ 0) f h senders a)

  pub never_event : (w : B → ℕ) → ((a : A) → w (f a) ≡ 0) → Arrived → total w events ≡ 0
  never_event w h d =
      no_event w (λ _. Unit {0}) (λ a _. h a) d (All-intro (λ _. Unit {0}) (λ _. tt) senders)

  pub some_event : (w : B → ℕ) {a : A} → Arrived → Mem a senders → w (f a) ≤ total w events
  some_event w {a} d m = omega (arith, total-perm w d, total-mem w (mem-map_of_mem f m))
