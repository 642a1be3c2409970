-- ===== src/Core/Snapshots/History.antt =====
-- Histories of the database: pasts of a history, the commits counted in it, and what was
-- acknowledged.
use openevent.Common.{
  ℕ, suc, ◌+◌, ◌≤◌, ◌≡◌, ◌⊎◌, inl, inr, refl, sym, ap, subst, ◌∙◌, Option, none, some, List, [],
  ◌∷◌, ◌++◌, arith,
}
use mathlib.Core.List.{append_assoc}
use openevent.Platform.{Platform}
use openevent.Core.Snapshots.{Event, wrote, counted}

module _ {p : Platform} where
  abbrev pub counted_in : List (Event p) → ℕ
  counted_in [] = 0
  counted_in (counted ∷ h) = suc (counted_in h)
  counted_in (wrote d ∷ h) = counted_in h

  -- The database as it is after the history.
  abbrev pub latest : List (Event p) → Option p.rocks.Db
  latest [] = none
  latest (counted ∷ h) = latest h
  latest (wrote d ∷ h) = some d

  -- The history up to the last commit that was counted.
  abbrev pub acknowledged : List (Event p) → List (Event p)
  acknowledged [] = []
  acknowledged (counted ∷ h) = counted ∷ h
  acknowledged (wrote d ∷ h) = acknowledged h

  -- One history is a past of another.
  pub record IsPast (older h : List (Event p)) : Type 0 where
    pub newer : List (Event p)
    pub split : h ≡ newer ++ older

  pub IsPast-refl : (h : List (Event p)) → IsPast h h
  IsPast-refl h = record { newer = []; split = refl }

  pub IsPast-later : (e : Event p) (g h : List (Event p)) → IsPast g h → IsPast g (e ∷ h)
  IsPast-later e g h a = record { newer = e ∷ a.newer; split = ap (λ k. e ∷ k) a.split }

  pub IsPast-trans : (f g h : List (Event p)) → IsPast f g → IsPast g h → IsPast f h
  IsPast-trans f g h a b = record {
    newer = b.newer ++ a.newer;
    split = b.split ∙ ap (λ k. b.newer ++ k) a.split ∙ sym (append_assoc b.newer a.newer f);
  }

  counted-append : (g h : List (Event p)) → counted_in (g ++ h) ≡ counted_in g + counted_in h
  counted-append [] h = omega arith
  counted-append (counted ∷ g) h = omega (arith, counted-append g h)
  counted-append (wrote d ∷ g) h = counted-append g h

  -- Two pasts of one history: one is a past of the other.
  compare_pasts : (a b c d : List (Event p)) → a ++ b ≡ c ++ d → IsPast d b ⊎ IsPast b d
  compare_pasts [] b c d e = inl (record { newer = c; split = e })
  compare_pasts (x ∷ a) b [] d e = inr (record { newer = x ∷ a; split = sym e })
  compare_pasts (x ∷ a) b (y ∷ c) d e = compare_pasts a b c d (ground arith)

  own-IsPast : (h : List (Event p)) → IsPast (acknowledged h) h
  own-IsPast [] = IsPast-refl []
  own-IsPast (counted ∷ h) = IsPast-refl (counted ∷ h)
  own-IsPast (wrote d ∷ h) = IsPast-later (wrote d) _ h (own-IsPast h)

  -- Where no commit is counted after a past, all that was acknowledged lies in it.
  uncounted :
      (newer b : List (Event p))
      → counted_in (newer ++ b) ≤ counted_in b
      → IsPast (acknowledged (newer ++ b)) b
  uncounted [] b h = own-IsPast b
  uncounted (counted ∷ g) b h = absurd (omega (arith, counted-append g b))
  uncounted (wrote d ∷ g) b h = uncounted g b h

  -- A past with as many commits as an earlier moment holds what was acknowledged then.
  pub acknowledged-IsPast :
      (b d h : List (Event p))
      → IsPast b h
      → IsPast d h
      → counted_in d ≤ counted_in b
      → IsPast (acknowledged d) b
  acknowledged-IsPast b d h x y le =
      elim (compare_pasts x.newer b y.newer d (sym x.split ∙ y.split)) [
        | inl past ↦ IsPast-trans (acknowledged d) d b (own-IsPast d) past
        | inr past ↦
            subst (λ k. IsPast (acknowledged k) b) (sym past.split)
              (uncounted past.newer b (subst (λ k. counted_in k ≤ counted_in b) past.split le))
      ]
