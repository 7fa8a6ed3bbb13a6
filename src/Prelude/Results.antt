-- ===== src/Prelude/Results.antt =====
-- What a call that returns `Result<T, E>` may do: return `Ok`, return `Err`, or panic.
use mathlib.Core.Path.{◌≡◌, refl, ap, subst}
use mathlib.Core.Logic.{◌⊎◌, inl, inr}
use mathlib.Core.Bool.{Bool, true, false}
use mathlib.Core.Option.{Option, none, some}

pub data Outcome {ℓ κ} (E : Type κ) (A : Type ℓ) : Type (ℓ ⊔ κ) where
  ok : A → Outcome E A
  err : E → Outcome E A
  panic : Outcome E A

infixl 5 ◌>>=◌ ◌>>◌
abbrev pub ◌>>=◌ {ℓ κ ι} :
    {E : Type ι} {A : Type ℓ} {B : Type κ} → Outcome E A → (A → Outcome E B) → Outcome E B
panic >>= next = panic
err e >>= next = err e
ok first >>= next = next first

abbrev pub ◌>>◌ {ℓ κ ι} :
    {E : Type ι} {A : Type ℓ} {B : Type κ} → Outcome E A → Outcome E B → Outcome E B
m >> k = m >>= λ _. k

-- `if !b { return Err(e) }`
abbrev pub guard {ι} : {E : Type ι} → Bool → E → Outcome E (Unit {0})
guard true e = ok tt
guard false e = err e

module _ {ℓ ι} {E : Type ι} {A : Type ℓ} where
  -- `o.ok_or(e)?`
  abbrev pub ok_or : Option A → E → Outcome E A
  ok_or none e = err e
  ok_or (some a) e = ok a

  -- `o.unwrap()`
  abbrev pub unwrap : Option A → Outcome E A
  unwrap none = panic
  unwrap (some a) = ok a

  -- `if let Ok(a) = r { a } else { d }`
  abbrev pub ok_or_default : Outcome E A → A → Outcome E A
  ok_or_default (ok a) d = ok a
  ok_or_default (err e) d = ok d
  ok_or_default panic d = panic

-- `r.unwrap()` of a result
abbrev pub unwrap_ok {ℓ ι κ} : {E : Type ι} {F : Type κ} {A : Type ℓ} → Outcome E A → Outcome F A
unwrap_ok (ok a) = ok a
unwrap_ok (err e) = panic
unwrap_ok panic = panic

-- `r.map_err(f)`
abbrev pub map_err {ℓ ι κ} :
    {E : Type ι} {F : Type κ} {A : Type ℓ} → Outcome E A → (E → F) → Outcome F A
map_err (ok a) f = ok a
map_err (err e) f = err (f e)
map_err panic f = panic

module _ {ℓ κ ι} {E : Type ι} {A : Type ℓ} {B : Type κ} where
  -- A chain that returns went through its first call.
  pub >>=-eq-ok :
      {last : B} (call : Outcome E A) (next : A → Outcome E B)
      → (call >>= next) ≡ ok last
      → (first : A) × (call ≡ ok first) × (next first ≡ ok last)
  >>=-eq-ok panic next returned = cc
  >>=-eq-ok (err e) next returned = cc
  >>=-eq-ok (ok first) next returned = (first, refl, returned)

module _ {ℓ κ μ ι} {E : Type ι} {A : Type ℓ} {B : Type κ} {C : Type μ} where
  pub >>=-assoc :
      (m : Outcome E A) (f : A → Outcome E B) (g : B → Outcome E C)
      → ((m >>= f) >>= g) ≡ (m >>= λ a. f a >>= g)
  >>=-assoc (ok a) f g = refl
  >>=-assoc (err e) f g = refl
  >>=-assoc panic f g = refl

module _ {ℓ ι} {E : Type ι} {A : Type ℓ} where
  IsOk : A → Outcome E A → Type ℓ
  IsOk a (ok b) = a ≡ b
  IsOk a r = a ≡ a

  pub ok-injective : {a b : A} → Path (Outcome E A) (ok a) (ok b) → a ≡ b
  unfolding IsOk
  ok-injective {a = a} p = subst (IsOk a) p refl

pub map_err-eq-ok {ℓ ι κ} :
    {E : Type ι} {F : Type κ} {A : Type ℓ} (r : Outcome E A) (f : E → F) {a : A}
    → map_err r f ≡ ok a
    → r ≡ ok a
map_err-eq-ok (ok b) f e = ap ok (ok-injective e)
map_err-eq-ok (err x) f e = cc
map_err-eq-ok panic f e = cc

-- The three ends of a call, with the equation kept.
pub Outcome-cases {ℓ ι} :
    {E : Type ι} {A : Type ℓ} (r : Outcome E A)
    → ((a : A) × (r ≡ ok a)) ⊎ ((e : E) × (r ≡ err e)) ⊎ (r ≡ panic)
Outcome-cases (ok a) = inl (a, refl)
Outcome-cases (err e) = inr (inl (e, refl))
Outcome-cases panic = inr (inr refl)

module _ {ℓ ι} {E : Type ι} {A : Type ℓ} where
  pub ok_or-eq-ok : (o : Option A) (e : E) {a : A} → ok_or o e ≡ ok a → o ≡ some a
  ok_or-eq-ok none e h = cc
  ok_or-eq-ok (some b) e h = cc

  pub unwrap-eq-ok : (o : Option A) {a : A} → unwrap {E = E} o ≡ ok a → o ≡ some a
  unwrap-eq-ok none h = cc
  unwrap-eq-ok (some b) h = cc

module _ {ι} {E : Type ι} where
  pub guard-eq-ok : (b : Bool) (e : E) {u : Unit {0}} → guard b e ≡ ok u → b ≡ true
  guard-eq-ok true e h = refl
  guard-eq-ok false e h = cc

-- The value and the equation of a successful call.
abbrev pub Returns {ℓ ι} : {E : Type ι} {A : Type ℓ} → Outcome E A → Type (ℓ ⊔ ι)
Returns {A = A} r = (a : A) × (r ≡ ok a)

abbrev pub is_ok {ℓ ι} : {E : Type ι} {A : Type ℓ} → Outcome E A → Bool
is_ok (ok a) = true
is_ok (err e) = false
is_ok panic = false

pub is_ok→Returns {ℓ ι} : {E : Type ι} {A : Type ℓ} (r : Outcome E A) → is_ok r ≡ true → Returns r
is_ok→Returns (ok a) h = (a, refl)
is_ok→Returns (err e) h = cc
is_ok→Returns panic h = cc
