-- ===== src/Prelude/Cyclic.antt =====
-- Indices that go round at the length of a vector, and the run of elements read from one.
use Prim.Native.Nat.{ℕ, zero, suc, ◌+◌, ◌-◌, ◌%◌, ◌≤◌, ◌<◌}
use mathlib.Core.Path.{◌≡◌, refl, ap, ap₂}
use mathlib.Core.Logic.{◌≢◌, ◌⊎◌, inl, inr}
use mathlib.Core.List.{List, [], ◌∷◌, ◌++◌}
use native.Mathlib.Nat.{mod-eq_of_lt, mod-eq-sub-mod}
use native.Mathlib.Decide.{dec_lt}
use native.Mathlib.Omega.{arith}
use alpamayo.Prelude.Lists.{length}

-- The index `i` steps after `t` on a ring of `n` places.
unfoldable pub cyc : ℕ → ℕ → ℕ → ℕ
cyc n t i = (t + i) % n

-- Within two rounds the remainder is the sum, or the sum less one round.
pub mod-cases : (n x : ℕ) → x < n + n → ((x < n) × (x % n ≡ x)) ⊎ ((n ≤ x) × (x % n ≡ x - n))
mod-cases n x h = elim (dec_lt x n) [
  | yes p ↦ inl (p, mod-eq_of_lt p)
  | no p ↦ inr (omega arith, wrapped p)
]
  where
    wrapped : ¬ (x < n) → x % n ≡ x - n
    wrapped p = omega (
      arith,
      mod-eq-sub-mod {n = x} {m = n} (omega arith),
      mod-eq_of_lt {n = x - n} {m = n} (omega arith),
    )

pub cyc-cases :
    (n t i : ℕ)
    → t < n
    → i ≤ n
    → ((t + i < n) × (cyc n t i ≡ t + i)) ⊎ ((n ≤ t + i) × (cyc n t i ≡ t + i - n))
unfolding cyc
cyc-cases n t i ht hi = mod-cases n (t + i) (omega arith)

pub cyc-lt : (n t i : ℕ) → t < n → i ≤ n → cyc n t i < n
cyc-lt n t i ht hi = omega (arith, cyc-cases n t i ht hi)

-- Fewer than a round apart, two places are different.
pub cyc-ne : (n t i j : ℕ) → t < n → i < n → j < n → i ≢ j → cyc n t i ≢ cyc n t j
cyc-ne n t i j ht hi hj ne =
    omega (arith, cyc-cases n t i ht (omega arith), cyc-cases n t j ht (omega arith))

module _ {ℓ} {A : Type ℓ} where
  -- The first `k` values of a sequence.
  unfoldable pub window : (ℕ → A) → ℕ → List A
  window f zero = []
  window f (suc k) = f 0 ∷ window (λ i. f (suc i)) k

  pub length-window : (f : ℕ → A) (k : ℕ) → length (window f k) ≡ k
  unfolding window
  length-window f zero = refl
  length-window f (suc k) = ap suc (length-window (λ i. f (suc i)) k)

  pub window_ext : (f g : ℕ → A) (k : ℕ) → ((i : ℕ) → i < k → f i ≡ g i) → window f k ≡ window g k
  unfolding window
  window_ext f g zero h = refl
  window_ext f g (suc k) h =
      ap₂ ◌∷◌ (h 0 (omega arith))
        (window_ext (λ i. f (suc i)) (λ i. g (suc i)) k (λ i hi. h (suc i) (omega arith)))

  pub window_snoc : (f : ℕ → A) (k : ℕ) → window f (suc k) ≡ window f k ++ (f k ∷ [])
  unfolding window
  window_snoc f zero = refl
  window_snoc f (suc k) = ap (λ l. f 0 ∷ l) (window_snoc (λ i. f (suc i)) k)

  pub window_cons : (f : ℕ → A) (k : ℕ) → window f (suc k) ≡ f 0 ∷ window (λ i. f (suc i)) k
  unfolding window
  window_cons f k = refl
