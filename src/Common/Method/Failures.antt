-- ===== src/Common/Method/Failures.antt =====
-- How a method ends: its errors by their kind, and what a call on a field of the state returned.
use forcerelay_verifier.Prelude.{
  ◌≡◌, refl, ap, subst, map_err-eq-ok, Outcome, ok, err, panic, map_err,
}
use forcerelay_verifier.Common.Method.{Method, resume, reads, writes, on_field, ◌>>=◌}

-- Each error of `m` satisfies `Q`.
pub record Fails {S E A : Type 0} (Q : E → Type 0) (m : Method S E A) : Type 0 where
  pub at : (c : S) {e : E} {last : S} → m c ≡ (err e, last) → Q e

module _ {S E A B : Type 0} where
  -- A chain that fails did so in its first call, or after that.
  pub bind-eq-err :
      (m : Method S E A) (f : A → Method S E B) (c : S) {e : E} {last : S}
      → (m >>= f) c ≡ (err e, last)
      → (P : Type 0) → (m c ≡ (err e, last) → P)
      → ((a : A) → m c ≡ (ok a, (m c).1) → f a (m c).1 ≡ (err e, last) → P)
      → P
  bind-eq-err m f c e P first later = go (m c) first later e
    where
      go :
          (r : Outcome E A × S) {x : E} {last : S}
          → (r ≡ (err x, last) → P)
          → ((a : A) → r ≡ (ok a, r.1) → f a r.1 ≡ (err x, last) → P)
          → resume f r ≡ (err x, last)
          → P
      go (ok a, d) first later q = later a refl q
      go (err y, d) first later q = first (cc q)
      go (panic, d) first later q = cc q

  pub Fails-bind :
      {Q : E → Type 0} (m : Method S E A) (f : A → Method S E B)
      → Fails Q m
      → ((a : A) → Fails Q (f a))
      → Fails Q (m >>= f)
  Fails-bind {Q} m f km kf = record {
    at = λ c {e} p. bind-eq-err m f c p (Q e) (λ q. km.at c q) (λ a _ q. (kf a).at _ q);
  }

pub Fails-reads :
    {S E F A : Type 0} {Q : F → Type 0} (f : S → Outcome E A) (g : E → F)
    → ((e : E) → Q (g e))
    → Fails Q (reads (λ c. map_err (f c) g))
Fails-reads {S} {E} {F} {A} {Q} f g k = record { at = λ c p. go c (f c) p }
  where
    go :
        (c : S) (r : Outcome E A) {e : F} {last : S}
        → Path (Outcome F A × S) (map_err r g, c) (err e, last)
        → Q e
    go c (ok a) p = cc p
    go c (err x) p = subst Q (cc p) (k x)
    go c panic p = cc p

pub Fails-writes :
    {S E : Type 0} {Q : E → Type 0} (f : S → S) → Fails {E = E} Q (writes (λ c. ok (f c)))
Fails-writes f = record { at = λ c p. cc p }

-- A call on a field that returns has returned on the field, and its state is written back.
pub on_field-eq-ok :
    {S T E F A : Type 0} (view : S → T) (update : T → S → S) (f : E → F) (m : Method T E A) (s : S)
    {a : A} {last : S}
    → on_field view update f m s ≡ (ok a, last)
    → (m (view s) ≡ (ok a, (m (view s)).1)) × (update (m (view s)).1 s ≡ last)
on_field-eq-ok view update f m s e =
    (λ i. (map_err-eq-ok (m (view s)).0 f (ap (λ r. r.0) e) i, (m (view s)).1), ap (λ r. r.1) e)
