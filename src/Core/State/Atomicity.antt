-- ===== src/Core/State/Atomicity.antt =====
-- Methods that only read, and methods that change the state as a whole or not at all, by one rule
-- for each way to build a method.
use openevent.Common.{◌≡◌, refl, sym, subst, Bool, true, false, arith, if◌then◌else◌}
use openevent.Status.{Result, ok, fail, Error, is_storage_fatal}
use openevent.Platform.{Platform}
use openevent.Storage.Rocks.Updates.{Batch}
use openevent.Core.State.{
  Core, M, pure, raise, lift, refuse_if, ◌>>=◌, ensure_available, snapshot_now, raise_storage,
  commit_batch,
}
use openevent.Core.State.Inversion.{commit_batch-fail}

module _ {p : Platform} {A : Type 0} where
  -- After a result that is no fatal storage error the state is as it was.
  abbrev pub Same : Result A → Core p → Core p → Type 0
  Same (ok a) c c' = c' ≡ c
  Same (fail e) c c' = is_storage_fatal e ≡ false → c' ≡ c

  -- After an error that is no fatal storage error the state is as it was.
  abbrev pub SameIfRefused : Result A → Core p → Core p → Type 0
  SameIfRefused (ok a) c c' = Unit {0}
  SameIfRefused (fail e) c c' = is_storage_fatal e ≡ false → c' ≡ c

  pub record IsReading (m : M p A) : Type 0 where
    pub at : (c : Core p) → Same (m c).0 c (m c).1

  pub record IsAtomic (m : M p A) : Type 0 where
    pub at : (c : Core p) → SameIfRefused (m c).0 c (m c).1

  weaken : (r : Result A) (c c' : Core p) → Same r c c' → SameIfRefused r c c'
  weaken (ok a) c c' h = tt
  weaken (fail e) c c' h = h

  pub IsReading-IsAtomic : (m : M p A) → IsReading m → IsAtomic m
  IsReading-IsAtomic m h = record { at = λ c. weaken (m c).0 c (m c).1 (h.at c) }

  pub IsReading-pure : (a : A) → IsReading (pure a)
  IsReading-pure a = record { at = λ c. refl }

  pub IsReading-read : (f : Core p → A) → IsReading (λ c. (ok (f c), c))
  IsReading-read f = record { at = λ c. refl }

  pub IsReading-raise : (e : Error) → IsReading (raise {A = A} e)
  IsReading-raise e = record { at = λ c _. refl }

  lift_cases : (r : Result A) (c : Core p) → Same r c c
  lift_cases (ok a) c = refl
  lift_cases (fail e) c = λ _. refl

  pub IsReading-lift : (r : Result A) → IsReading (lift r)
  IsReading-lift r = record { at = lift_cases r }

  pub IsReading-result : (f : Core p → Result A) → IsReading (λ c. (f c, c))
  IsReading-result f = record { at = λ c. lift_cases (f c) c }

  pub IsReading-raise_storage : (e : Error) → IsReading (raise_storage {A = A} e)
  unfolding raise_storage
  IsReading-raise_storage e = record { at = λ c h. ground arith }

  pub IsReading-if :
      (b : Bool) (m n : M p A) → IsReading m → IsReading n → IsReading (if b then m else n)
  IsReading-if true m n hm hn = hm
  IsReading-if false m n hm hn = hn

  pub IsAtomic-if :
      (b : Bool) (m n : M p A) → IsAtomic m → IsAtomic n → IsAtomic (if b then m else n)
  IsAtomic-if true m n hm hn = hm
  IsAtomic-if false m n hm hn = hn

module _ {p : Platform} where
  pub IsReading-refuse_if : (b : Bool) (e : Error) → IsReading {p = p} (refuse_if b e)
  IsReading-refuse_if true e = IsReading-raise e
  IsReading-refuse_if false e = IsReading-pure tt

  pub IsReading-snapshot_now : IsReading {p = p} snapshot_now
  unfolding snapshot_now
  IsReading-snapshot_now = record { at = λ c. lift_cases _ c }

  pub IsReading-ensure_available : IsReading {p = p} ensure_available
  unfolding ensure_available
  IsReading-ensure_available = record { at = λ c. ground arith }

  committed_cases :
      (batch : Batch) (c : Core p) (r : Result (Unit {0})) (c' : Core p)
      → commit_batch batch c ≡ (r, c')
      → SameIfRefused r c c'
  committed_cases batch c (ok a) c' h = tt
  committed_cases batch c (fail e) c' h =
      λ not_fatal. let (fatal, _, _, _) = commit_batch-fail p batch c c' e h in ground arith

  pub IsAtomic-commit_batch : (batch : Batch) → IsAtomic {p = p} (commit_batch batch)
  IsAtomic-commit_batch batch = record {
    at = λ c. committed_cases batch c (commit_batch batch c).0 (commit_batch batch c).1 refl;
  }

module _ {p : Platform} {A B : Type 0} where
  -- The rest of a method, from the result of its first step.
  abbrev go_on : (A → M p B) → Result A → Core p → Result B × Core p
  go_on f r c = elim r as (λ _. Result B × Core p) [ ok a ↦ f a c | fail e ↦ (fail e, c) ]

  reading_cases :
      (r : Result A) (f : A → M p B) (c c' : Core p)
      → ((a : A) → IsReading (f a))
      → Same r c c'
      → Same (go_on f r c').0 c (go_on f r c').1
  reading_cases (ok a) f c c' hf same =
      subst (λ x. Same (f a x).0 c (f a x).1) (sym same) ((hf a).at c)
  reading_cases (fail e) f c c' hf same = same

  pub IsReading-bind :
      (m : M p A) (f : A → M p B) → IsReading m → ((a : A) → IsReading (f a)) → IsReading (m >>= f)
  IsReading-bind m f hm hf = record { at = λ c. reading_cases (m c).0 f c (m c).1 hf (hm.at c) }

  atomic_cases :
      (r : Result A) (f : A → M p B) (c c' : Core p)
      → ((a : A) → IsAtomic (f a))
      → Same r c c'
      → SameIfRefused (go_on f r c').0 c (go_on f r c').1
  atomic_cases (ok a) f c c' hf same =
      subst (λ x. SameIfRefused (f a x).0 c (f a x).1) (sym same) ((hf a).at c)
  atomic_cases (fail e) f c c' hf same = same

  -- First what only reads, then what changes the state.
  pub IsAtomic-bind :
      (m : M p A) (f : A → M p B) → IsReading m → ((a : A) → IsAtomic (f a)) → IsAtomic (m >>= f)
  IsAtomic-bind m f hm hf = record { at = λ c. atomic_cases (m c).0 f c (m c).1 hf (hm.at c) }

  finish_cases :
      (r : Result A) (g : A → B) (c c' : Core p)
      → SameIfRefused r c c'
      → SameIfRefused (go_on (λ a. pure (g a)) r c').0 c (go_on (λ a. pure (g a)) r c').1
  finish_cases (ok a) g c c' same = tt
  finish_cases (fail e) g c c' same = same

  -- What changes the state may be followed by a step that cannot fail.
  pub IsAtomic-finish : (m : M p A) (g : A → B) → IsAtomic m → IsAtomic (m >>= λ a. pure (g a))
  IsAtomic-finish m g hm = record { at = λ c. finish_cases (m c).0 g c (m c).1 (hm.at c) }
