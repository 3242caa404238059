-- ===== src/Base/Io.antt =====
-- Code that talks to the outside: a step from a state of the world, which may panic.
use mathlib.Core.Path.{◌≡◌, refl, subst}
use mathlib.Core.Bool.{Bool, true, false}
use mathlib.Core.Option.{Option, none, some}
use tarantula.Base.Panics.{Outcome, done, panic}

abbrev pub Io : Type 0 → Type 0 → Type 0
Io W A = W → Outcome (A × W)

infixl 5 ◌>>=◌
unfoldable pub ◌>>=◌ : {W A B : Type 0} → Io W A → (A → Io W B) → Io W B
◌>>=◌ m f w = elim (m w) [ panic ↦ panic | done (a, w') ↦ f a w' ]

unfoldable pub pure : {W A : Type 0} → A → Io W A
pure a w = done (a, w)

-- A computation that does not touch the world.
unfoldable pub lift : {W A : Type 0} → Outcome A → Io W A
lift panic w = panic
lift (done a) w = done (a, w)

-- A read of the world that changes it, such as the clock's.
unfoldable pub action : {W A : Type 0} → (W → A × W) → Io W A
action f w = done (f w)

-- Every result satisfies the predicate.
pub record Ensures {W A : Type 0} (P : A → Type 0) (m : Io W A) : Type 0 where
  pub apply : (w w' : W) (a : A) → m w ≡ done (a, w') → P a

-- The rule for a chain.
pub Ensures->>= :
    {W A B : Type 0} (P : A → Type 0) {Q : B → Type 0} {m : Io W A} {f : A → Io W B}
    → Ensures P m
    → ((a : A) → P a → Ensures Q (f a))
    → Ensures Q (m >>= f)
unfolding ◌>>=◌
Ensures->>= {W} {A} {B} P {Q} {m} {f} hm hf = record {
  apply = λ w w' b e. go w w' b (m w) (hm.apply w) e;
}
  where
    go :
        (w w' : W) (b : B) (o : Outcome (A × W))
        → ((w1 : W) (a : A) → o ≡ done (a, w1) → P a)
        → (elim o [ panic ↦ panic | done (a, w1) ↦ f a w1 ]) ≡ done (b, w')
        → Q b
    go w w' b panic p h = cc
    go w w' b (done (a, w1)) p h = (hf a (p w1 a refl)).apply w1 w' b h

-- A step of which nothing is known.
pub Ensures-then :
    {W A B : Type 0} {Q : B → Type 0} (m : Io W A) {f : A → Io W B}
    → ((a : A) → Ensures Q (f a))
    → Ensures Q (m >>= f)
Ensures-then m hf = Ensures->>= (λ _. Unit {0}) (record { apply = λ w w' a e. tt }) (λ a _. hf a)

pub Ensures-pure : {W A : Type 0} {P : A → Type 0} (a : A) → P a → Ensures {W = W} P (pure a)
unfolding pure
Ensures-pure {W} {A} {P} a h = record {
  apply = λ w w' b e. let same : a ≡ b = cc in subst P same h;
}

pub Ensures-lift : {W A : Type 0} (o : Outcome A) → Ensures {W = W} (λ a. o ≡ done a) (lift o)
unfolding lift
Ensures-lift panic = record { apply = λ w w' a e. cc }
Ensures-lift (done b) = record { apply = λ w w' a e. cc }

pub Ensures-mono :
    {W A : Type 0} {P Q : A → Type 0} {m : Io W A}
    → ((a : A) → P a → Q a)
    → Ensures P m
    → Ensures Q m
Ensures-mono k h = record { apply = λ w w' a e. k a (h.apply w w' a e) }

-- The branches of a test, each with the equation that chooses it.
pub Ensures-test :
    {W A : Type 0} {Q : A → Type 0} (b : Bool) {x y : Io W A}
    → (b ≡ false → Ensures Q x)
    → (b ≡ true → Ensures Q y)
    → Ensures Q (elim b [ false ↦ x | true ↦ y ])
Ensures-test true hx hy = hy refl
Ensures-test false hx hy = hx refl

pub Ensures-option :
    {W A B : Type 0} {Q : B → Type 0} (o : Option A) {x : Io W B} {f : A → Io W B}
    → (o ≡ none → Ensures Q x)
    → ((a : A) → o ≡ some a → Ensures Q (f a))
    → Ensures Q (elim o [ none ↦ x | some a ↦ f a ])
Ensures-option none hx hf = hx refl
Ensures-option (some a) hx hf = hf a refl

-- The computation has that result from some state of the world.
pub record Gives {W A : Type 0} (m : Io W A) (a : A) : Type 0 where
  pub world : W
  pub world' : W
  pub runs : m world ≡ done (a, world')

pub Ensures-Gives : {W A : Type 0} (m : Io W A) → Ensures (Gives m) m
Ensures-Gives m = record { apply = λ w w' a e. record { world = w; world' = w'; runs = e } }

pub Ensures-both :
    {W A : Type 0} {P Q : A → Type 0} {m : Io W A}
    → Ensures P m
    → Ensures Q m
    → Ensures (λ a. P a × Q a) m
Ensures-both h k = record { apply = λ w w' a e. (h.apply w w' a e, k.apply w w' a e) }
