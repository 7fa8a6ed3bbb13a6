-- ===== src/Common/Method.antt =====
-- Methods that take `&mut self` and return a `Result`: the state comes back with an error too, since
-- what was written stays written. Beside a panic it has no meaning.
pub mod Failures
use forcerelay_verifier.Prelude.{
  ◌≡◌, refl, ap, subst, Bool, true, false, if◌then◌else◌, arith, Outcome, ok, err, panic, map_err,
}

-- a method of `S`, with errors in `E`
abbrev pub Method : Type 0 → Type 0 → Type 0 → Type 0
Method S E A = S → Outcome E A × S

-- the rest of a method, after its first call
abbrev pub resume : {S E A B : Type 0} → (A → Method S E B) → Outcome E A × S → Outcome E B × S
resume f (ok a, c) = f a c
resume f (err e, c) = (err e, c)
resume f (panic, c) = (panic, c)

infixl 5 ◌>>=◌ ◌>>◌
abbrev pub ◌>>=◌ : {S E A B : Type 0} → Method S E A → (A → Method S E B) → Method S E B
◌>>=◌ m f c = resume f (m c)

abbrev pub ◌>>◌ : {S E A B : Type 0} → Method S E A → Method S E B → Method S E B
m >> k = m >>= λ _. k

module _ {S E A : Type 0} where
  -- a result that does not depend on the state: an RPC call, a check of its answer
  abbrev pub lift : Outcome E A → Method S E A
  lift r c = (r, c)

  -- a call of a `&self` method
  abbrev pub reads : (S → Outcome E A) → Method S E A
  reads f c = (f c, c)

-- a call of a method on a field of the state, `view`, that `update` writes back
abbrev pub on_field :
    {S T E F A : Type 0} → (S → T) → (T → S → S) → (E → F) → Method T E A → Method S F A
on_field view update f m s = let (r, t) = m (view s) in (map_err r f, update t s)

-- a call of a `&mut self` method with no result
abbrev pub writes : {S E : Type 0} → (S → Outcome E S) → Method S E (Unit {0})
writes f c = elim (f c) [ ok c' ↦ (ok tt, c') | err e ↦ (err e, c) | panic ↦ (panic, c) ]

-- `if res.is_ok() { … }`: an error is dropped
abbrev pub attempt :
    {S E : Type 0} → (S → Outcome E (Unit {0})) → Method S E (Unit {0}) → Method S E (Unit {0})
attempt f m c = elim (f c) [ ok _ ↦ m c | err e ↦ (ok tt, c) | panic ↦ (panic, c) ]

-- `m` keeps `P`, whatever it returns.
pub record Keeps {S E A : Type 0} (P : S → Type 0) (m : Method S E A) : Type 0 where
  pub at : (c : S) → P c → P (m c).1

module _ {S E A : Type 0} {P : S → Type 0} where
  pub Keeps-lift : (r : Outcome E A) → Keeps P (lift r)
  Keeps-lift r = record { at = λ c h. h }

  pub Keeps-reads : (f : S → Outcome E A) → Keeps P (reads f)
  Keeps-reads f = record { at = λ c h. h }

  -- the method after a check may use that the check passed
  pub Keeps-check :
      (f : S → Outcome E (Unit {0})) (m : Method S E A)
      → ((c : S) → P c → f c ≡ ok tt → P (m c).1)
      → Keeps P (reads f >> m)
  Keeps-check f m k = record { at = λ c h. go c h (f c) refl }
    where
      go : (c : S) → P c → (r : Outcome E (Unit {0})) → f c ≡ r → P ((lift r >> m) c).1
      go c h (ok _) e = k c h e
      go c h (err x) e = h
      go c h panic e = h

module _ {S E : Type 0} {P : S → Type 0} where
  pub Keeps-writes :
      (f : S → S) → ((c : S) → P c → P (f c)) → Keeps {E = E} P (writes (λ c. ok (f c)))
  Keeps-writes f k = record { at = k }

  pub Keeps-attempt :
      (f : S → Outcome E (Unit {0})) (m : Method S E (Unit {0}))
      → ((c : S) → P c → f c ≡ ok tt → P (m c).1)
      → Keeps P (attempt f m)
  Keeps-attempt f m k = record { at = λ c h. ground (arith, k c h) }

module _ {S E A : Type 0} {P : S → Type 0} where
  pub Keeps-if :
      (b : Bool) (m n : Method S E A) → Keeps P m → Keeps P n → Keeps P (if b then m else n)
  Keeps-if true m n km kn = km
  Keeps-if false m n km kn = kn

module _ {S E A B : Type 0} where
  pub Keeps-bind :
      {P : S → Type 0} (m : Method S E A) (f : A → Method S E B)
      → Keeps P m
      → ((a : A) → Keeps P (f a))
      → Keeps P (m >>= f)
  Keeps-bind {P} m f km kf = record { at = λ c h. let (r, c') = m c in go r c' (km.at c h) }
    where
      go : (r : Outcome E A) (c' : S) → P c' → P ((lift r >>= f) c').1
      go (ok a) c' h = (kf a).at c' h
      go (err e) c' h = h
      go panic c' h = h

  -- What holds after a method, and is kept by the rest, holds at the end.
  pub then_kept :
      {P : S → Type 0} (m : Method S E A) (f : A → Method S E B) (c : S)
      → P (m c).1
      → ((a : A) → Keeps P (f a))
      → P ((m >>= f) c).1
  then_kept {P} m f c h k = go (m c) h
    where
      go : (r : Outcome E A × S) → P r.1 → P (resume f r).1
      go (ok a, d) h = (k a).at d h
      go (err e, d) h = h
      go (panic, d) h = h

  -- A chain that returns went through its first call.
  pub bind-eq-ok :
      (m : Method S E A) (f : A → Method S E B) (c : S) {b : B} {last : S}
      → (m >>= f) c ≡ (ok b, last)
      → (a : A) × (m c ≡ (ok a, (m c).1)) × (f a (m c).1 ≡ (ok b, last))
  bind-eq-ok m f c e = go (m c) e
    where
      go :
          (r : Outcome E A × S) {b : B} {last : S}
          → resume f r ≡ (ok b, last)
          → (a : A) × (r ≡ (ok a, r.1)) × (f a r.1 ≡ (ok b, last))
      go (ok a, d) e = (a, refl, e)
      go (err x, d) e = cc
      go (panic, d) e = cc

  -- The steps of a bind, by how its first call ends.
  pub bind_ok :
      (m : Method S E A) (f : A → Method S E B) (c : S) {a : A} {c' : S}
      → m c ≡ (ok a, c')
      → (m >>= f) c ≡ f a c'
  bind_ok m f c e = ap (resume f) e

  pub bind_err :
      (m : Method S E A) (f : A → Method S E B) (c : S) {e : E} {c' : S}
      → m c ≡ (err e, c')
      → (m >>= f) c ≡ (err e, c')
  bind_err m f c e = ap (resume f) e

  pub bind_panic :
      (m : Method S E A) (f : A → Method S E B) (c : S) {c' : S}
      → m c ≡ (panic, c')
      → (m >>= f) c ≡ (panic, c')
  bind_panic m f c e = ap (resume f) e

  -- The rest of a method after a read may use what the read returned.
  pub Keeps-bind_reads :
      {P : S → Type 0} (f : S → Outcome E A) (k : A → Method S E B)
      → ((a : A) (c : S) → P c → f c ≡ ok a → P (k a c).1)
      → Keeps P (reads f >>= k)
  Keeps-bind_reads {P} f k kept = record { at = λ c h. go c h (f c) refl }
    where
      go : (c : S) → P c → (r : Outcome E A) → f c ≡ r → P ((lift r >>= k) c).1
      go c h (ok a) e = kept a c h e
      go c h (err x) e = h
      go c h panic e = h

pub writes_ok :
    {S E : Type 0} (f : S → Outcome E S) (c : S) {d : S} → f c ≡ ok d → writes f c ≡ (ok tt, d)
writes_ok f c e = rw (writes, e) refl

-- Where `m` returns, `Q` holds of the state.
pub record Ensures {S E A : Type 0} (Q : S → Type 0) (m : Method S E A) : Type 0 where
  pub at : (c : S) {a : A} {last : S} → m c ≡ (ok a, last) → Q last

module _ {S E A B : Type 0} {Q : S → Type 0} where
  pub Ensures-bind :
      (m : Method S E A) (f : A → Method S E B) → ((a : A) → Ensures Q (f a)) → Ensures Q (m >>= f)
  Ensures-bind m f k = record { at = λ c e. go (m c) e }
    where
      go : (r : Outcome E A × S) {b : B} {last : S} → resume f r ≡ (ok b, last) → Q last
      go (ok a, next) e = (k a).at next e
      go (err x, next) e = cc
      go (panic, next) e = cc

pub Ensures-writes :
    {S E : Type 0} {Q : S → Type 0} (f : S → S)
    → ((c : S) → Q (f c))
    → Ensures {E = E} Q (writes (λ c. ok (f c)))
Ensures-writes {Q = Q} f k = record { at = λ c e. subst Q (ap (λ x. x.1) e) (k c) }
