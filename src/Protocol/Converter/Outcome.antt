-- ===== src/Protocol/Converter/Outcome.antt =====
-- How the outcome of a conversion is taken apart.
use emlabcpp.Prelude.{
  ℕ, ◌+◌, ◌≤◌, ◌≡◌, refl, sym, ap, ◌∙◌, subst, ◌⊎◌, inl, inr, Bool, true, false, if◌then◌else◌,
}
use emlabcpp.Protocol.Converter.{Mark, Conversion, done, fail, used, add_used, map_value, ◌>>=◌}

-- To split on the outcome of a conversion and keep the equation.
pub Conversion-cases :
    {A : Type 0} (r : Conversion A)
    → ((n : ℕ) × (v : A) × (r ≡ done n v)) ⊎ ((n : ℕ) × (m : Mark) × (r ≡ fail n m))
Conversion-cases (done n v) = inl (n, v, refl)
Conversion-cases (fail n m) = inr (n, m, refl)

pub value_or {ℓ} : {A : Type 0} {B : Type ℓ} → (A → B) → B → Conversion A → B
value_or f b (done n v) = f v
value_or f b (fail n m) = b

pub done-injective :
    {A : Type 0} {n k : ℕ} {v w : A} → ◌≡◌ {A = Conversion A} (done n v) (done k w) → v ≡ w
unfolding value_or
done-injective {v = v} e = ap (value_or (λ x. x) v) e

pub map_value-done :
    {A B : Type 0} (f : A → B) (r : Conversion A) {n : ℕ} {w : B}
    → map_value f r ≡ done n w
    → (v : A) × (r ≡ done n v) × (f v ≡ w)
map_value-done f (done u v) e = (v, ap (λ k. done k v) (ap used e), done-injective e)
map_value-done f (fail u m) e = cc

pub add_used-done :
    {A : Type 0} (u : ℕ) (r : Conversion A) {n : ℕ} {w : A}
    → add_used u r ≡ done n w
    → (k : ℕ) × (r ≡ done k w)
add_used-done u (done k v) e = (k, ap (done k) (done-injective e))
add_used-done u (fail k m) e = cc

pub used-map_value : {A B : Type 0} (f : A → B) (r : Conversion A) → used (map_value f r) ≡ used r
used-map_value f (done u v) = refl
used-map_value f (fail u m) = refl

pub used-add_used : {A : Type 0} (u : ℕ) (r : Conversion A) → used (add_used u r) ≡ used r + u
used-add_used u (done n v) = refl
used-add_used u (fail n m) = refl

-- What passes a guard was not stopped by it.
pub guard_passed :
    {A : Type 0} (t : Bool) (u : ℕ) (m : Mark) (r : Conversion A) {n : ℕ} {v : A}
    → (if t then fail u m else r) ≡ done n v
    → (t ≡ false) × (r ≡ done n v)
guard_passed true u m r e = cc
guard_passed false u m r e = (refl, e)

module _ {A B : Type 0} (m : Conversion A) (f : ℕ × A → Conversion B) where
  pub >>=-eq-done :
      {n : ℕ} {w : B}
      → (m >>= f) ≡ done n w
      → (u : ℕ) × (v : A) × (m ≡ done u v) × (f (u, v) ≡ done n w)
  >>=-eq-done e = elim (Conversion-cases m) [
    | inl (u, v, d) ↦ (u, v, d, ap (λ t. t >>= f) (sym d) ∙ e)
    | inr (u, k, d) ↦ cc (ap (λ t. t >>= f) d)
  ]

  -- A bound on what is used passes through the early return.
  pub used->>= :
      {bound : ℕ}
      → used m ≤ bound
      → ((u : ℕ) (v : A) → m ≡ done u v → used (f (u, v)) ≤ bound)
      → used (m >>= f) ≤ bound
  used->>= {bound} h k = elim (Conversion-cases m) [
    | inl (u, v, d) ↦ subst (λ t. used (t >>= f) ≤ bound) (sym d) (k u v d)
    | inr (u, x, d) ↦ subst (λ t. used (t >>= f) ≤ bound) (sym d) (subst (λ t. used t ≤ bound) d h)
  ]
