-- ===== src/Common/Exit.antt =====
-- Code that may end the process (`log.Fatal`, `os.Exit`) or panic on its way to a result.
use runner_io.Common.{◌≡◌, refl, subst, Option, none, some}

pub data Exit {ℓ} (A : Type ℓ) : Type ℓ where
  exited : Exit A
  panicked : Exit A
  returned : A → Exit A

-- Shut, so that the rules below find its steps.
infixl 5 ◌>>=◌
unfoldable pub ◌>>=◌ {ℓ κ} : {A : Type ℓ} {B : Type κ} → Exit A → (A → Exit B) → Exit B
exited >>= g = exited
panicked >>= g = panicked
returned a >>= g = g a

-- A value, or the end of the process where there is an error: `if err != nil { log.Fatal(…) }`.
abbrev pub or_exit {ℓ} : {A : Type ℓ} → Option A → Exit A
or_exit none = exited
or_exit (some a) = returned a

pub returned-injective {ℓ} : {A : Type ℓ} {a b : A} → returned a ≡ returned b → a ≡ b
returned-injective e = cc

-- The code exits, panics, or returns a value with the property.
pub data Ensures {ℓ κ} {A : Type ℓ} (P : A → Type κ) : Exit A → Type (ℓ ⊔ κ) where
  exits : Ensures P exited
  panics : Ensures P panicked
  returns : (a : A) → P a → Ensures P (returned a)

-- Rules for a chain, from its first step on.
module _ {ℓ κ μ} {A : Type ℓ} {B : Type κ} {P : B → Type μ} where
  pub Ensures->>= :
      (m : Exit A) (g : A → Exit B)
      → ((a : A) → m ≡ returned a → Ensures P (g a))
      → Ensures P (m >>= g)
  unfolding ◌>>=◌
  Ensures->>= exited g h = exits
  Ensures->>= panicked g h = panics
  Ensures->>= (returned a) g h = h a refl

  pub Ensures-or_exit :
      (o : Option A) (g : A → Exit B)
      → ((a : A) → o ≡ some a → Ensures P (g a))
      → Ensures P (or_exit o >>= g)
  unfolding ◌>>=◌
  Ensures-or_exit none g h = exits
  Ensures-or_exit (some a) g h = h a refl

-- Chains that end the process.
module _ {ℓ κ} {A : Type ℓ} {B : Type κ} where
  pub exited->>= : (m : Exit A) (g : A → Exit B) → m ≡ exited → (m >>= g) ≡ exited
  unfolding ◌>>=◌
  exited->>= exited g e = refl
  exited->>= panicked g e = cc
  exited->>= (returned a) g e = cc

  pub exited-or_exit :
      (o : Option A) (g : A → Exit B)
      → ((a : A) → o ≡ some a → g a ≡ exited)
      → (or_exit o >>= g) ≡ exited
  unfolding ◌>>=◌
  exited-or_exit none g h = refl
  exited-or_exit (some a) g h = h a refl

  pub returned->>= : (a : A) (g : A → Exit B) → (returned a >>= g) ≡ g a
  unfolding ◌>>=◌
  returned->>= a g = refl

  pub exited-none : (o : Option A) (g : A → Exit B) → o ≡ none → (or_exit o >>= g) ≡ exited
  unfolding ◌>>=◌
  exited-none none g e = refl
  exited-none (some a) g e = cc

pub exited-or_exit-nested {ℓ κ μ} :
    {A : Type ℓ} {B : Type κ} {C : Type μ} (o : Option A) (f : A → Exit B) (g : B → Exit C)
    → ((a : A) → o ≡ some a → (f a >>= g) ≡ exited)
    → ((or_exit o >>= f) >>= g) ≡ exited
unfolding ◌>>=◌
exited-or_exit-nested none f g h = refl
exited-or_exit-nested (some a) f g h = h a refl

-- The property of the value that a chain returned.
pub of_Ensures {ℓ κ} :
    {A : Type ℓ} {P : A → Type κ} {a : A} {m : Exit A} → m ≡ returned a → Ensures P m → P a
of_Ensures e exits = cc
of_Ensures e panics = cc
of_Ensures {P} e (returns b h) = subst P (returned-injective e) h
