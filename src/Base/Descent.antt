-- ===== src/Base/Descent.antt =====
-- Termination by counts on levels: every step lowers the count of some level and keeps those of the
-- levels before it, whatever it adds after it.
use Prim.Native.Nat.{ℕ, zero, suc, ◌+◌, ◌<◌}
use mathlib.Core.Path.{◌≡◌, subst, ◌∙◌}
use mathlib.Core.Logic.{◌⊎◌, inl, inr}
use native.Mathlib.Omega.{arith}
use tarantula.Base.Tests.{Bool-cases, ltb}

-- Every run from there ends.
pub data Halts {A : Type 0} (R : A → A → Type 0) : A → Type 0 where
  halts : (s : A) → ((t : A) → R s t → Halts R t) → Halts R s

-- From the first counts to the second, some level falls, and none before it changes.
pub record Falls (levels : ℕ) (f g : ℕ → ℕ) : Type 0 where
  pub level : ℕ
  pub below : level < levels
  pub less : g level < f level
  pub same : (before : ℕ) → before < level → g before ≡ f before

Falls-after :
    (first : ℕ) (f g h : ℕ → ℕ)
    → ((before : ℕ) → before < first → g before ≡ f before)
    → Falls first g h
    → Falls first f h
Falls-after first f g h e l = record {
  level = l.level;
  below = l.below;
  less = omega (arith, l.less, e l.level l.below);
  same = λ before lt. l.same before lt ∙ e before (omega (arith, lt, l.below));
}

module _ {A : Type 0} (R : A → A → Type 0) (P : A → Type 0) (count : A → ℕ → ℕ) where
  module _ (levels : ℕ)
      (step : (s t : A) → P s → R s t → P t × Falls levels (count s) (count t)) where
    descend :
        (rest first : ℕ)
        → first + rest ≡ levels
        → (bound : ℕ) (s : A) → P s
        → count s first < bound
        → ((t : A) → P t → Falls first (count s) (count t) → Halts R t)
        → Halts R s
    descend zero first e bound s p lt known = halts s (λ t r.
        let (q, f) = step s t p r in
        known t q (record {
          level = f.level;
          below = omega (arith, f.below, e);
          less = f.less;
          same = f.same;
        }))
    descend (suc rest) first e zero s p lt known = absurd (omega (arith, lt))
    descend (suc rest) first e (suc bound) s p lt known =
        descend rest (suc first) (omega (arith, e)) (suc (count s (suc first))) s p (omega arith)
          λ t q f. elim (Bool-cases (ltb f.level first)) [
            | inl before ↦ known t q (record {
              level = f.level;
              below = ground (arith, before);
              less = f.less;
              same = f.same;
            })
            | inr after ↦
                let at : f.level ≡ first = ground (arith, after, f.below) in
                descend (suc rest) first e bound t q
                  (omega (arith, lt, subst (λ l. count t l < count s l) at f.less))
                  λ u v g. known u v (
                    Falls-after first (count s) (count t) (count u)
                      (λ before l. f.same before (omega (arith, l, at))) g)
          ]

    pub Halts-count : (s : A) → P s → Halts R s
    Halts-count s p =
        descend levels 0 (omega arith) (suc (count s 0)) s p (omega arith)
          (λ t q f. absurd (omega (arith, f.below)))

-- Whichever steps are made, a state with the property is come to, and a step can be made until then.
pub data Eventually {A : Type 0} (R : A → A → Type 0) (Q : A → Type 0) : A → Type 0 where
  now : (s : A) → Q s → Eventually R Q s
  later : (s t : A) → R s t → ((u : A) → R s u → Eventually R Q u) → Eventually R Q s

pub Eventually-halts :
    {A : Type 0} (R : A → A → Type 0) (P Q : A → Type 0)
    → ((s t : A) → P s → R s t → P t)
    → ((s : A) → P s → Q s ⊎ ((t : A) × R s t))
    → (s : A) → P s
    → Halts R s
    → Eventually R Q s
Eventually-halts R P Q keep progress s p (halts _ h) = elim (progress s p) [
  | inl q ↦ now s q
  | inr (t, r) ↦ later s t r (λ u e. Eventually-halts R P Q keep progress u (keep s u p e) (h u e))
]

pub Eventually-mono :
    {A : Type 0} (R : A → A → Type 0) (P Q S : A → Type 0)
    → ((s t : A) → P s → R s t → P t)
    → ((s : A) → P s → Q s → S s)
    → (s : A) → P s
    → Eventually R Q s
    → Eventually R S s
Eventually-mono R P Q S keep f s p (now _ q) = now s (f s p q)
Eventually-mono R P Q S keep f s p (later _ t r h) =
    later s t r λ u e. Eventually-mono R P Q S keep f u (keep s u p e) (h u e)
