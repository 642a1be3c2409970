-- ===== src/Storage/ObjectFiles/Io.antt =====
-- How the methods of the object file store run: a chain of system calls that ends early on an error.
use openevent.Common.{◌≡◌, ◌⊎◌, inl, inr, refl, arith}
use openevent.Status.{Result, ok, fail, Error}
use openevent.Storage.ObjectFiles.Posix.{Called}

-- A method returns a value or a status that is not OK. A loop whose fuel is used up is `unfinished`.
pub data Outcome (A : Type 0) : Type 0 where
  returned : A → Outcome A
  raised : Error → Outcome A
  unfinished : Outcome A

-- To split on an outcome and keep the equation.
pub Outcome-cases :
    {A : Type 0} (o : Outcome A)
    → ((a : A) × (o ≡ returned a)) ⊎ (((e : Error) × (o ≡ raised e)) ⊎ (o ≡ unfinished))
Outcome-cases (returned a) = inl (a, refl)
Outcome-cases (raised e) = inr (inl (e, refl))
Outcome-cases unfinished = inr (inr refl)

abbrev pub outcome_of : {A : Type 0} → Result A → Outcome A
outcome_of (ok a) = returned a
outcome_of (fail e) = raised e

abbrev pub Io : Type 0 → Type 0 → Type 0
Io S A = S → Outcome A × S

module _ {S A : Type 0} where
  abbrev pub pure : A → Io S A
  pure a s = (returned a, s)

  abbrev pub raise : Error → Io S A
  raise e s = (raised e, s)

  abbrev pub lift : Result A → Io S A
  lift r s = (outcome_of r, s)

  -- What follows a system call, by its result.
  abbrev pub called : {B : Type 0} → (S → Called B × S) → (Called B → Io S A) → Io S A
  called call rest s = let (r, s') = call s in rest r s'

  abbrev close_on_error : (S → Called (Unit {0}) × S) → Outcome A × S → Outcome A × S
  close_on_error close (returned a, s) = (returned a, s)
  close_on_error close (raised e, s) = (raised e, (close s).1)
  close_on_error close (unfinished, s) = (unfinished, s)

  -- On an error the file is closed, whatever `close` says.
  abbrev pub closing : (S → Called (Unit {0}) × S) → Io S A → Io S A
  closing close m s = close_on_error close (m s)

  closing_cases :
      (close : S → Called (Unit {0}) × S) (x : Outcome A × S) {a : A} {s' : S}
      → close_on_error close x ≡ (returned a, s')
      → x ≡ (returned a, s')
  closing_cases close (returned a, s) h = h
  closing_cases close (raised e, s) h = absurd (ground arith)
  closing_cases close (unfinished, s) h = absurd (ground arith)

  pub closing-returned :
      (close : S → Called (Unit {0}) × S) (m : Io S A) (s : S) {a : A} {s' : S}
      → closing close m s ≡ (returned a, s')
      → m s ≡ (returned a, s')
  closing-returned close m s h = closing_cases close (m s) h

infixl 5 ◌>>=◌ ◌>>◌
abbrev pub ◌>>=◌ : {S A B : Type 0} → Io S A → (A → Io S B) → Io S B
◌>>=◌ m f s =
    let (o, s') = m s in
    elim o [ returned a ↦ f a s' | raised e ↦ (raised e, s') | unfinished ↦ (unfinished, s') ]

abbrev pub ◌>>◌ : {S B : Type 0} → Io S (Unit {0}) → Io S B → Io S B
m >> k = m >>= λ _. k

module _ {S A B : Type 0} where
  abbrev go_on : (A → Io S B) → Outcome A × S → Outcome B × S
  go_on f (returned a, s) = f a s
  go_on f (raised e, s) = (raised e, s)
  go_on f (unfinished, s) = (unfinished, s)

  bind_cases :
      (x : Outcome A × S) (f : A → Io S B) {b : B} {s'' : S}
      → go_on f x ≡ (returned b, s'')
      → (a : A) × (s' : S) × (x ≡ (returned a, s')) × (f a s' ≡ (returned b, s''))
  bind_cases (returned a, s) f h = (a, s, refl, h)
  bind_cases (raised e, s) f h = absurd (ground arith)
  bind_cases (unfinished, s) f h = absurd (ground arith)

  -- A chain that returns has returned at each step.
  pub >>=-returned :
      (m : Io S A) (f : A → Io S B) (s : S) {b : B} {s'' : S}
      → (m >>= f) s ≡ (returned b, s'')
      → (a : A) × (s' : S) × (m s ≡ (returned a, s')) × (f a s' ≡ (returned b, s''))
  >>=-returned m f s h = bind_cases (m s) f (ground arith)

-- A method that has an outcome on every system.
pub record Finishes {S A : Type 0} (m : Io S A) : Type 0 where
  pub has_outcome : (s : S) → (m s).0 ≡ unfinished → ⊥

module _ {S A B : Type 0} where
  bind_has_outcome :
      (x : Outcome A × S) (f : A → Io S B)
      → (x.0 ≡ unfinished → ⊥)
      → ((a : A) → Finishes (f a))
      → (go_on f x).0 ≡ unfinished
      → ⊥
  bind_has_outcome (returned a, s) f hm hf h = (hf a).has_outcome s h
  bind_has_outcome (raised e, s) f hm hf h = ground arith
  bind_has_outcome (unfinished, s) f hm hf h = hm refl

  pub Finishes-bind :
      (m : Io S A) (f : A → Io S B) → Finishes m → ((a : A) → Finishes (f a)) → Finishes (m >>= f)
  Finishes-bind m f hm hf = record {
    has_outcome = λ s h. bind_has_outcome (m s) f (hm.has_outcome s) hf (ground arith);
  }

lift_has_outcome : {A : Type 0} (r : Result A) → outcome_of r ≡ unfinished → ⊥
lift_has_outcome (ok a) h = ground arith
lift_has_outcome (fail e) h = ground arith

module _ {S A : Type 0} where
  pub Finishes-pure : (a : A) → Finishes {S = S} (pure a)
  Finishes-pure a = record { has_outcome = λ s h. ground arith }

  pub Finishes-raise : (e : Error) → Finishes {S = S} {A = A} (raise e)
  Finishes-raise e = record { has_outcome = λ s h. ground arith }

  pub Finishes-lift : (r : Result A) → Finishes {S = S} (lift r)
  Finishes-lift r = record { has_outcome = λ s h. lift_has_outcome r h }

  close_has_outcome :
      (close : S → Called (Unit {0}) × S) (x : Outcome A × S)
      → (x.0 ≡ unfinished → ⊥)
      → (close_on_error close x).0 ≡ unfinished
      → ⊥
  close_has_outcome close (returned a, s) hm h = ground arith
  close_has_outcome close (raised e, s) hm h = ground arith
  close_has_outcome close (unfinished, s) hm h = hm refl

  pub Finishes-closing :
      (close : S → Called (Unit {0}) × S) (m : Io S A) → Finishes m → Finishes (closing close m)
  Finishes-closing close m hm = record {
    has_outcome = λ s h. close_has_outcome close (m s) (hm.has_outcome s) h;
  }
