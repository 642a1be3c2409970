-- ===== src/Storage/ObjectFiles/Store/Written.antt =====
-- What a `Write` that returns leaves on the disk.
use openevent.Common.{
  ℕ, zero, suc, ◌+◌, ◌≡◌, refl, sym, ap, ◌∙◌, subst, false, [], ◌∷◌, ◌++◌, Bytes, take, drop,
  length, ◌==◌, arith,
}
use mathlib.Core.List.{append-nil, append_assoc}
use openevent.Common.Slices.{take-drop, take-take}
use openevent.Status.{eintr}
use openevent.Storage.ObjectFiles.Posix.{Posix, PosixLaws, Called, done, failed}
use openevent.Storage.ObjectFiles.Io.{Io, returned}
use openevent.Storage.ObjectFiles.Store.{after_write, write_loop, write_all}

module _ (P : Posix) where
  -- From `s` to `s'` the bytes were added at the end of a file, and nothing else has changed.
  pub record Appends (file : ℕ) (bytes : Bytes) (s s' : P.System) : Type 0 where
    pub entries_kept : (P.disk s').entries ≡ (P.disk s).entries
    pub extended : (P.disk s').content file ≡ (P.disk s).content file ++ bytes
    pub others_kept :
        (other : ℕ) → (file == other) ≡ false → (P.disk s').content other ≡ (P.disk s).content other

  module _ (law : PosixLaws P) where
    Appends-refl : (file : ℕ) (s : P.System) → Appends file [] s s
    Appends-refl file s = record {
      entries_kept = refl;
      extended = sym (append-nil _);
      others_kept = λ other ne. refl;
    }

    Appends-trans :
        (file : ℕ) (xs ys zs : Bytes) (s t u : P.System)
        → xs ++ ys ≡ zs
        → Appends file xs s t
        → Appends file ys t u
        → Appends file zs s u
    Appends-trans file xs ys zs s t u e a b = record {
      entries_kept = b.entries_kept ∙ a.entries_kept;
      extended =
          b.extended
          ∙ ap (λ c. c ++ ys) a.extended
          ∙ append_assoc _ xs ys
          ∙ ap (λ zs'. (P.disk s).content file ++ zs') e;
      others_kept = λ other ne. b.others_kept other ne ∙ a.others_kept other ne;
    }

    write-Appends :
        (s s' : P.System) (fd : P.Fd) (bytes : Bytes) (n : ℕ)
        → P.write s fd bytes ≡ (done n, s')
        → Appends (P.file_of fd) (take n bytes) s s'
    write-Appends s s' fd bytes n h =
        let (_, e) = law.write_done s s' fd bytes n h in
        record {
          entries_kept = ap (λ d. d.entries) e;
          extended = ap (λ d. d.content (P.file_of fd)) e ∙ ground arith;
          others_kept = λ other ne. ap (λ d. d.content other) e ∙ ground arith;
        }

    eintr-Appends :
        (s s' : P.System) (fd : P.Fd) (bytes : Bytes)
        → P.write s fd bytes ≡ (failed eintr, s')
        → Appends (P.file_of fd) [] s s'
    eintr-Appends s s' fd bytes h =
        let e = law.write_eintr s s' fd bytes h in
        record {
          entries_kept = ap (λ d. d.entries) e;
          extended = ap (λ d. d.content (P.file_of fd)) e ∙ sym (append-nil _);
          others_kept = λ other ne. ap (λ d. d.content other) e;
        }

    -- One round, from what the rest of the loop does.
    round-Appends :
        (again : Bytes → Io P.System (Unit {0})) (k : ℕ) (fd : P.Fd) (rest : Bytes) (r : Called ℕ)
        (s t s' : P.System)
        → P.write s fd (take k rest) ≡ (r, t)
        → after_write P again rest r t ≡ (returned tt, s')
        → ((more : Bytes) → again more t ≡ (returned tt, s') → Appends (P.file_of fd) more t s')
        → Appends (P.file_of fd) rest s s'
    round-Appends again k fd rest (failed eintr) s t s' w h ih =
        Appends-trans _ [] rest rest s t s' refl (eintr-Appends s t fd _ w) (ih rest h)
    round-Appends again k fd rest (failed _) s t s' w h ih = absurd (ground arith)
    round-Appends again k fd rest (done zero) s t s' w h ih = absurd (ground arith)
    round-Appends again k fd rest (done (suc n)) s t s' w h ih =
        let (fits, _) = law.write_done s t fd (take k rest) (suc n) w in
        let same : take (suc n) (take k rest) ≡ take (suc n) rest = take-take (suc n) k rest fits in
        Appends-trans _ (take (suc n) rest) (drop (suc n) rest) rest s t s' (take-drop (suc n) rest)
          (subst (λ bytes. Appends (P.file_of fd) bytes s t) same
            (write-Appends s t fd (take k rest) (suc n) w))
          (ih (drop (suc n) rest) h)

    write_loop-Appends :
        (fuel : ℕ) (fd : P.Fd) (rest : Bytes) (s s' : P.System)
        → write_loop P fuel fd rest s ≡ (returned tt, s')
        → Appends (P.file_of fd) rest s s'
    unfolding write_loop
    write_loop-Appends zero fd rest s s' h = absurd (ground arith)
    write_loop-Appends (suc fuel) fd [] s s' h =
        subst (λ t. Appends (P.file_of fd) [] s t) (ground arith) (Appends-refl (P.file_of fd) s)
    write_loop-Appends (suc fuel) fd (b ∷ bs) s s' h =
        round-Appends (λ more. write_loop P fuel fd more) _ fd (b ∷ bs) _ s _ s' refl h
          (λ more k. write_loop-Appends fuel fd more _ s' k)

    pub write_all-Appends :
        (fd : P.Fd) (content : Bytes) (s s' : P.System)
        → write_all P fd content s ≡ (returned tt, s')
        → Appends (P.file_of fd) content s s'
    unfolding write_all
    write_all-Appends fd content s s' h =
        write_loop-Appends (suc (length content + P.interruptions s)) fd content s s' h
