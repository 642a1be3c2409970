-- ===== src/Storage/ObjectFiles/Store/Refined.antt =====
-- The object file store as a map from the ids of objects to their content, and as the interface that
-- the rest of the storage takes.
use openevent.Common.{
  ℕ, ◌≡◌, ◌≢◌, inl, inr, refl, sym, ap, ◌∙◌, false, Bool-cases, ==_iff, ==_refl, Option, none, some,
  List, [], ◌∷◌, ◌++◌, Bytes, codes, All, elem, take, drop, length, ◌==◌, bytes_eq, bytes_eq_refl,
  bytes_eq_sound, IsU64, if◌then◌else◌, arith,
}
use mathlib.Core.Path.{Σ_path}
use openevent.Common.Decimal.{to_string, to_string-injective, to_string-ne-dot}
use openevent.Status.{Result, ok, fail}
use openevent.Storage.Faults.{StorageFaultInjector}
use openevent.Storage.ObjectFiles.{ObjectFiles}
use openevent.Storage.ObjectFiles.Posix.{Posix, PosixLaws, SignalsCease, Disk}
use openevent.Storage.ObjectFiles.Io.{Outcome, returned, raised, unfinished}
use openevent.Storage.ObjectFiles.Store.{temporary_name, final_name, write, cleanup, read_range}
use openevent.Storage.ObjectFiles.Store.Stored.{IsStored, write-IsStored}
use openevent.Storage.ObjectFiles.Store.Removed.{is_name_of, cleanup-IsCleaned}
use openevent.Storage.ObjectFiles.Store.Ranges.{read_range-IsRange}
use openevent.Storage.ObjectFiles.Store.Finished.{
  write-Finishes, cleanup-Finishes, read_range-Finishes,
}

final_name-distinct :
    (a b : ℕ) → IsU64 a → IsU64 b → bytes_eq (final_name a) (final_name b) ≡ (a == b)
unfolding final_name
final_name-distinct a b ha hb =
    let injective = to_string-injective a b ha hb in
    elim (Bool-cases (a == b)) [
      | inl e ↦ rw ((==_iff a b).0 e) (bytes_eq_refl (to_string b) ∙ ground arith)
      | inr e ↦ elim (Bool-cases (bytes_eq (to_string a) (to_string b))) [
        | inr e' ↦ ground arith
        | inl e' ↦ absurd (let same = injective (bytes_eq_sound _ _ e') in ground arith)
      ]
    ]

temporary-final : (a b : ℕ) → bytes_eq (temporary_name a) (final_name b) ≡ false
unfolding temporary_name final_name
temporary-final a b = elim (Bool-cases (bytes_eq (codes ".tmp." ++ to_string a) (to_string b))) [
  | inr e ↦ e
  | inl e ↦ absurd (to_string-ne-dot b (codes "tmp." ++ to_string a) (sym (bytes_eq_sound _ _ e)))
]

is_name_of-final :
    (id : ℕ) (ids : List ℕ)
    → IsU64 id
    → All IsU64 ids
    → is_name_of (final_name id) ids ≡ elem id ids
is_name_of-final id [] h hs = refl
is_name_of-final id (x ∷ ids) h hs =
    ground
      (arith, temporary-final x id, final_name-distinct x id hs.0 h, is_name_of-final id ids h hs.1)

-- The content of each object, by id.
abbrev pub Objects : Type 0
Objects = ℕ → Option Bytes

abbrev content_of : (ℕ → Bytes) → Option ℕ → Option Bytes
content_of content none = none
content_of content (some file) = some (content file)

abbrev pub objects_on : Disk → Objects
objects_on d id = content_of d.content (d.entries (final_name id))

module _ (P : Posix) (law : PosixLaws P) (injector : StorageFaultInjector) where
  -- An entry that was there before the write keeps its file and the content of it.
  kept :
      {id : ℕ} {content : Bytes} (s s' : P.System) (name : Bytes) (o : Option ℕ)
      → (w : IsStored P id content s s') → (P.disk s).entries name ≡ o
      → content_of (P.disk s').content o ≡ content_of (P.disk s).content o
  kept s s' name none w e = refl
  kept s s' name (some file) w e =
      let new : file ≢ w.file = λ same. w.is_new name (e ∙ ap some same) in
      ap some (w.contents file ∙ ground (arith, new))

  -- On the map from ids of 64 bits to contents, a `Write` that returns adds the content under an id
  -- that had none and changes nothing else.
  pub write-Refines :
      (id other : ℕ) (content : Bytes) (s s' : P.System)
      → IsU64 id
      → IsU64 other
      → write P injector id content s ≡ (returned tt, s')
      → (objects_on (P.disk s) id ≡ none)
        × (objects_on (P.disk s') other
            ≡ (if id == other then some content else objects_on (P.disk s) other))
  write-Refines id other content s s' h k done =
      let w = write-IsStored P law injector id content s s' done in
      let same = final_name-distinct id other h k in
      let entry = w.entries (final_name other) in
      (
        ap (content_of (P.disk s).content) w.was_free,
        elim (Bool-cases (id == other)) [
          | inl e ↦
              let e' : (P.disk s').entries (final_name other) ≡ some w.file = ground arith in
              rw e (
                ap (content_of (P.disk s').content) e' ∙ ap some (w.contents w.file ∙ ground arith))
          | inr e ↦
              let e' : (P.disk s').entries (final_name other)
                  ≡ (P.disk s).entries (final_name other) =
                ground arith in
              rw e (
                ap (content_of (P.disk s').content) e'
                ∙ kept s s' (final_name other) ((P.disk s).entries (final_name other)) w refl)
        ],
      )

  -- On the map from ids of 64 bits to contents, a `Cleanup` that returns removes the ids of its
  -- list, all of 64 bits, and changes nothing else.
  pub cleanup-Refines :
      (ids : List ℕ) (other : ℕ) (s s' : P.System)
      → All IsU64 ids
      → IsU64 other
      → cleanup P ids s ≡ (returned tt, s')
      → objects_on (P.disk s') other
        ≡ (if elem other ids then none else objects_on (P.disk s) other)
  cleanup-Refines ids other s s' hs k done =
      let c = cleanup-IsCleaned P law ids s s' done in
      let named = is_name_of-final other ids k hs in
      let entry = c.entries (final_name other) in
      elim (Bool-cases (elem other ids)) [
        | inl e ↦
            let e' : (P.disk s').entries (final_name other) ≡ none = ground arith in
            rw e (ap (content_of (P.disk s').content) e')
        | inr e ↦
            let e' : (P.disk s').entries (final_name other)
                ≡ (P.disk s).entries (final_name other) =
              ground arith in
            rw e (
              ap (content_of (P.disk s').content) e'
              ∙ ap (λ k. content_of k ((P.disk s).entries (final_name other))) c.contents)
      ]

  pub read_range-Refines :
      (id expected_size offset nbytes : ℕ) (bytes : Bytes) (s s' : P.System)
      → read_range P id expected_size offset nbytes s ≡ (returned bytes, s')
      → (content : Bytes) × (objects_on (P.disk s) id ≡ some content)
        × (length content ≡ expected_size)
        × (bytes ≡ take nbytes (drop offset content))
        × (objects_on (P.disk s') ≡ objects_on (P.disk s))
  read_range-Refines id expected_size offset nbytes bytes s s' done =
      let r = read_range-IsRange P law id expected_size offset nbytes bytes s s' done in
      (
        (P.disk s).content r.file,
        ap (content_of (P.disk s).content) r.stored,
        r.size,
        r.bytes_read,
        ap objects_on r.disk_kept,
      )

  -- A method that has an outcome returns a status.
  abbrev settled :
      {A : Type 0} (x : Outcome A × P.System) → (x.0 ≡ unfinished → ⊥) → Result A × P.System
  settled (returned a, s) h = (ok a, s)
  settled (raised e, s) h = (fail e, s)
  settled (unfinished, s) h = absurd (h refl)

  settled-ok :
      {A : Type 0} (x : Outcome A × P.System) (h : x.0 ≡ unfinished → ⊥) {a : A}
      → (settled x h).0 ≡ ok a
      → x.0 ≡ returned a
  settled-ok (returned a, s) h e = ground arith
  settled-ok (raised _, s) h e = absurd (ground arith)
  settled-ok (unfinished, s) h e = absurd (h refl)

  settled-state :
      {A : Type 0} (x : Outcome A × P.System) (h : x.0 ≡ unfinished → ⊥) → (settled x h).1 ≡ x.1
  settled-state (returned a, s) h = refl
  settled-state (raised _, s) h = refl
  settled-state (unfinished, s) h = absurd (h refl)

  module _ (cease : SignalsCease P) where
    -- The store as the interface that its clients take.
    abbrev pub object_file_store : ObjectFiles
    object_file_store = record {
      Files = P.System;
      write = λ s id content.
          settled (write P injector id content s)
            ((write-Finishes P law cease injector id content).has_outcome s);
      cleanup =
          λ s ids. settled (cleanup P ids s) ((cleanup-Finishes P law cease ids).has_outcome s);
      read_range = λ s id expected_size offset nbytes.
          (settled (read_range P id expected_size offset nbytes s)
            ((read_range-Finishes P law cease id expected_size offset nbytes).has_outcome s)).0;
    }

    -- Through the interface that `WriteObject` and `ReadObject` use, where signals cease to
    -- interrupt the system calls, bytes that a `ReadRange` returns after a `Write` of an id of 64
    -- bits has returned are the part of the content written that was asked for.
    pub write-read_range :
        (id : ℕ) (content bytes : Bytes) (offset nbytes : ℕ) (s s' : P.System)
        → IsU64 id
        → object_file_store.write s id content ≡ (ok tt, s')
        → object_file_store.read_range s' id (length content) offset nbytes ≡ ok bytes
        → bytes ≡ take nbytes (drop offset content)
    write-read_range id content bytes offset nbytes s s' h written read =
        let x = write P injector id content s in
        let y = read_range P id (length content) offset nbytes s' in
        let finished = (write-Finishes P law cease injector id content).has_outcome s in
        let done : x ≡ (returned tt, s') =
          Σ_path (settled-ok x finished (ap (λ z. z.0) written))
            (sym (settled-state x finished) ∙ ap (λ z. z.1) written) in
        let got : y ≡ (returned bytes, y.1) =
          Σ_path
            (settled-ok y
              ((read_range-Finishes P law cease id (length content) offset nbytes).has_outcome s')
              read)
            refl in
        let (_, stored) = write-Refines id id content s s' h h done in
        let (c, found, _, are, _) =
          read_range-Refines id (length content) offset nbytes bytes s' y.1 got in
        let same : content ≡ c = ground (arith, ==_refl id) in
        are ∙ ap (λ z. take nbytes (drop offset z)) (sym same)
