-- ===== src/Storage/ObjectFiles/Store/Finished.antt =====
-- The fuel of the loops of the object file store (src/storage/object_file_store.cpp): how much is
-- enough.
use openevent.Common.{
  ℕ, zero, suc, ◌+◌, ◌-◌, ◌<◌, ◌≤◌, ◌≡◌, refl, List, [], ◌∷◌, ◌++◌, String, Bytes, drop, length,
  length-append, ltb, Bool-cases, inl, inr, arith,
}
use openevent.Status.{Errno, eintr, Error}
use openevent.Storage.Faults.{StorageFaultInjector}
use openevent.Storage.ObjectFiles.Posix.{Posix, PosixLaws, SignalsCease, Called, done, failed}
use openevent.Storage.ObjectFiles.Io.{
  Io, unfinished, called, Finishes, Finishes-bind, Finishes-pure, Finishes-raise, Finishes-lift,
  Finishes-closing, ◌>>◌, pure,
}
use openevent.Storage.ObjectFiles.Store.{
  or_raise, after_write, write_loop, write_all, close_file, after_unlink, unlink_known_path,
  fill_steps, fill_file, publish_file, write, unlink_all, sync_after_cleanup, cleanup, after_open,
  open_loop, open_final, after_read, read_loop, read_all, check_file, check_request, read_steps,
  read_range, temporary_name, final_name,
}

length-drop-le : (n : ℕ) (xs : Bytes) → 0 < length xs → length (drop (suc n) xs) < length xs
length-drop-le zero [] h = absurd (omega arith)
length-drop-le zero (x ∷ xs) h = omega arith
length-drop-le (suc n) [] h = absurd (omega arith)
length-drop-le (suc n) (x ∷ []) h = omega arith
length-drop-le (suc n) (x ∷ y ∷ xs) h = omega (arith, length-drop-le n (y ∷ xs))

module _ (P : Posix) where
  Finishes-called :
      {A B : Type 0} (call : P.System → Called B × P.System) (rest : Called B → Io P.System A)
      → ((r : Called B) → Finishes (rest r))
      → Finishes (called call rest)
  Finishes-called call rest h = record { has_outcome = λ s. (h (call s).0).has_outcome (call s).1 }

  Finishes-or_raise :
      {A : Type 0} (what : Errno → Error) (r : Called A) → Finishes (or_raise P what r)
  Finishes-or_raise what (done a) = Finishes-pure a
  Finishes-or_raise what (failed e) = Finishes-raise _

  Finishes-call :
      {A : Type 0} (call : P.System → Called A × P.System) (what : Errno → Error)
      → Finishes (called call (or_raise P what))
  Finishes-call call what = Finishes-called call (or_raise P what) (Finishes-or_raise what)

  module _ (law : PosixLaws P) (cease : SignalsCease P) where
    round-Finishes :
        (again : Bytes → Io P.System (Unit {0})) (fuel : ℕ) (fd : P.Fd) (offered rest : Bytes)
        (r : Called ℕ) (s t : P.System)
        → ((more : Bytes)
            → length more + P.interruptions t < fuel
            → (again more t).0 ≡ unfinished
            → ⊥)
        → 0 < length rest
        → length rest + P.interruptions s < suc fuel
        → P.write s fd offered ≡ (r, t)
        → (after_write P again rest r t).0 ≡ unfinished
        → ⊥
    round-Finishes again fuel fd offered rest (failed eintr) s t ih pos enough w h =
        let fewer = cease.write_fewer s t fd offered w in ih rest (omega arith) h
    round-Finishes again fuel fd offered rest (failed _) s t ih pos enough w h = ground arith
    round-Finishes again fuel fd offered rest (done zero) s t ih pos enough w h = ground arith
    round-Finishes again fuel fd offered rest (done (suc n)) s t ih pos enough w h =
        let fewer = cease.write_no_more s t fd offered (suc n) w in
        ih (drop (suc n) rest) (omega (arith, length-drop-le n rest pos)) h

    write_loop-Finishes :
        (fuel : ℕ) (fd : P.Fd) (rest : Bytes) (s : P.System)
        → length rest + P.interruptions s < fuel
        → (write_loop P fuel fd rest s).0 ≡ unfinished
        → ⊥
    unfolding write_loop
    write_loop-Finishes zero fd rest s enough = absurd (omega arith)
    write_loop-Finishes (suc fuel) fd [] s enough = λ h. ground arith
    write_loop-Finishes (suc fuel) fd (b ∷ bs) s enough =
        round-Finishes (λ more. write_loop P fuel fd more) fuel fd _ (b ∷ bs) _ s _
          (λ more. write_loop-Finishes fuel fd more _) (omega arith) enough refl

    write_all-Finishes : (fd : P.Fd) (content : Bytes) → Finishes (write_all P fd content)
    unfolding write_all
    write_all-Finishes fd content = record {
      has_outcome = λ s.
          write_loop-Finishes (suc (length content + P.interruptions s)) fd content s (omega arith);
    }

    ruleset outcomes = (Finishes-bind, Finishes-call, Finishes-lift, Finishes-pure)

    fill_steps-Finishes :
        (injector : StorageFaultInjector) (fd : P.Fd) (content : Bytes)
        → Finishes (fill_steps P injector fd content)
    unfolding fill_steps
    fill_steps-Finishes injector fd content = search (outcomes, write_all-Finishes) depth 16

    fill_file-Finishes :
        (injector : StorageFaultInjector) (fd : P.Fd) (content : Bytes)
        → Finishes (fill_file P injector fd content)
    unfolding fill_file
    fill_file-Finishes injector fd content =
        Finishes-closing (λ s. P.close s fd) (fill_steps P injector fd content)
          (fill_steps-Finishes injector fd content)

    publish_file-Finishes :
        (injector : StorageFaultInjector) (temporary final : Bytes)
        → Finishes (publish_file P injector temporary final)
    unfolding publish_file
    publish_file-Finishes injector temporary final = search outcomes depth 12

    pub write-Finishes :
        (injector : StorageFaultInjector) (object_id : ℕ) (content : Bytes)
        → Finishes (write P injector object_id content)
    unfolding write close_file
    write-Finishes injector object_id content =
        search (outcomes, fill_file-Finishes, publish_file-Finishes) depth 10

    after_unlink-Finishes :
        (name : Bytes) (r : Called (Unit {0})) → Finishes (after_unlink P name r)
    after_unlink-Finishes name (done _) = Finishes-pure tt
    after_unlink-Finishes name (failed e) = Finishes-lift _

    unlink_known_path-Finishes : (name : Bytes) → Finishes (unlink_known_path P name)
    unfolding unlink_known_path
    unlink_known_path-Finishes name =
        Finishes-called (λ s. P.unlink s name) (after_unlink P name) (after_unlink-Finishes name)

    unlink_all-Finishes : (object_ids : List ℕ) → Finishes (unlink_all P object_ids)
    unfolding unlink_all
    unlink_all-Finishes [] = Finishes-pure tt
    unlink_all-Finishes (id ∷ rest) =
        Finishes-bind (unlink_known_path P (temporary_name id))
          (λ _. unlink_known_path P (final_name id) >> unlink_all P rest)
          (unlink_known_path-Finishes _)
          (λ _.
            Finishes-bind (unlink_known_path P (final_name id)) (λ _. unlink_all P rest)
              (unlink_known_path-Finishes _) (λ _. unlink_all-Finishes rest))

    sync_after_cleanup-Finishes : (object_ids : List ℕ) → Finishes (sync_after_cleanup P object_ids)
    sync_after_cleanup-Finishes [] = Finishes-pure tt
    sync_after_cleanup-Finishes (_ ∷ _) = Finishes-call P.fsync_directory _

    pub cleanup-Finishes : (object_ids : List ℕ) → Finishes (cleanup P object_ids)
    unfolding cleanup
    cleanup-Finishes object_ids =
        search (outcomes, unlink_all-Finishes, sync_after_cleanup-Finishes)

    opened-Finishes :
        (again : Io P.System P.Fd) (fuel : ℕ) (name : Bytes) (r : Called P.Fd) (s t : P.System)
        → (P.interruptions t < fuel → (again t).0 ≡ unfinished → ⊥)
        → P.interruptions s < suc fuel
        → P.open_for_read s name ≡ (r, t)
        → (after_open P again name r t).0 ≡ unfinished
        → ⊥
    opened-Finishes again fuel name (done fd) s t ih enough o h = ground arith
    opened-Finishes again fuel name (failed eintr) s t ih enough o h =
        let fewer = cease.open_for_read_fewer s t name o in ih (omega arith) h
    opened-Finishes again fuel name (failed _) s t ih enough o h = ground arith

    open_loop-Finishes :
        (fuel : ℕ) (name : Bytes) (s : P.System)
        → P.interruptions s < fuel
        → (open_loop P fuel name s).0 ≡ unfinished
        → ⊥
    unfolding open_loop
    open_loop-Finishes zero name s enough = absurd (omega arith)
    open_loop-Finishes (suc fuel) name s enough =
        opened-Finishes (λ t. open_loop P fuel name t) fuel name _ s _
          (open_loop-Finishes fuel name _) enough refl

    open_final-Finishes : (name : Bytes) → Finishes (open_final P name)
    unfolding open_final
    open_final-Finishes name = record {
      has_outcome = λ s. open_loop-Finishes (suc (P.interruptions s)) name s (omega arith);
    }

    -- `asked` bytes are missing of `count`.
    piece-Finishes :
        (again : Bytes → Io P.System Bytes) (fuel : ℕ) (fd : P.Fd) (name : Bytes)
        (count asked from : ℕ) (got : Bytes) (r : Called Bytes) (s t : P.System)
        → ((more : Bytes)
            → length more ≤ count
            → count + P.interruptions t < length more + fuel
            → (again more t).0 ≡ unfinished
            → ⊥)
        → length got + asked ≡ count
        → count + P.interruptions s < length got + suc fuel
        → P.pread s fd asked from ≡ (r, t)
        → (after_read P again name got r t).0 ≡ unfinished
        → ⊥
    piece-Finishes again fuel fd name count asked from got (done []) s t ih missing enough p h =
        ground arith
    piece-Finishes again fuel fd name count asked from got (done (b ∷ bs)) s t ih missing enough p
          h =
        let (short, _, _) = law.pread_done s t fd asked from (b ∷ bs) p in
        let fewer = cease.pread_no_more s t fd asked from (b ∷ bs) p in
        let e : length (got ++ (b ∷ bs)) ≡ length got + suc (length bs) =
          length-append got (b ∷ bs) in
        ih (got ++ (b ∷ bs)) (omega (arith, e)) (omega (arith, e)) h
    piece-Finishes again fuel fd name count asked from got (failed eintr) s t ih missing enough p
          h =
        let fewer = cease.pread_fewer s t fd asked from p in ih got (omega arith) (omega arith) h
    piece-Finishes again fuel fd name count asked from got (failed _) s t ih missing enough p h =
        ground arith

    read_loop-Finishes :
        (fuel : ℕ) (fd : P.Fd) (name : Bytes) (offset count : ℕ) (got : Bytes) (s : P.System)
        → length got ≤ count
        → count + P.interruptions s < length got + fuel
        → (read_loop P fuel fd name offset count got s).0 ≡ unfinished
        → ⊥
    unfolding read_loop
    read_loop-Finishes zero fd name offset count got s within enough = absurd (omega arith)
    read_loop-Finishes (suc fuel) fd name offset count got s within enough =
        elim (Bool-cases (ltb (length got) count)) [
          | inr full ↦ rw full (λ h. ground arith)
          | inl short ↦ rw short (
              piece-Finishes (λ more. read_loop P fuel fd name offset count more) fuel fd name count
                (count - length got) _ got _ s _
                (λ more. read_loop-Finishes fuel fd name offset count more _) (omega arith) enough
                refl)
        ]

    read_all-Finishes :
        (fd : P.Fd) (name : Bytes) (offset count : ℕ) → Finishes (read_all P fd name offset count)
    unfolding read_all
    read_all-Finishes fd name offset count = record {
      has_outcome = λ s.
          read_loop-Finishes (suc (count + P.interruptions s)) fd name offset count [] s
            (omega arith) (omega arith);
    }

    check_file-Finishes :
        (fd : P.Fd) (name : Bytes) (expected_size : ℕ)
        → Finishes (check_file P fd name expected_size)
    unfolding check_file
    check_file-Finishes fd name expected_size = search outcomes

    read_steps-Finishes :
        (fd : P.Fd) (name : Bytes) (expected_size offset count : ℕ)
        → Finishes (read_steps P fd name expected_size offset count)
    unfolding read_steps
    read_steps-Finishes fd name expected_size offset count =
        search (outcomes, check_file-Finishes, read_all-Finishes)

    close_read-Finishes :
        (fd : P.Fd) (operation : String) (content : Bytes)
        → Finishes (close_file P fd operation >> pure content)
    unfolding close_file
    close_read-Finishes fd operation content = search outcomes

    pub read_range-Finishes :
        (object_id expected_size offset nbytes : ℕ)
        → Finishes (read_range P object_id expected_size offset nbytes)
    unfolding read_range
    read_range-Finishes object_id expected_size offset nbytes =
        Finishes-bind _ _ (Finishes-lift (check_request object_id expected_size offset nbytes)) λ _.
          Finishes-bind _ _ (open_final-Finishes (final_name object_id)) λ fd.
            Finishes-bind _ _
              (Finishes-closing (λ s. P.close s fd)
                (read_steps P fd (final_name object_id) expected_size offset _)
                (read_steps-Finishes fd _ _ _ _))
              (close_read-Finishes fd _)

    -- Where the system calls have their documented effects and signals cease to interrupt them, in
    -- that each interruption of an `openat`, `write` or `pread` lowers a bound that no successful
    -- `write` or `pread` raises, `Write`, `Cleanup` and `ReadRange` have an outcome: the fuel of
    -- their loops, which is the number of bytes left and that bound and one more, is enough.
    pub methods-Finish :
        (injector : StorageFaultInjector) (object_id expected_size offset nbytes : ℕ)
        (content : Bytes) (object_ids : List ℕ)
        → Finishes (write P injector object_id content)
          × Finishes (cleanup P object_ids)
          × Finishes (read_range P object_id expected_size offset nbytes)
    methods-Finish injector object_id expected_size offset nbytes content object_ids = (
      write-Finishes injector object_id content,
      cleanup-Finishes object_ids,
      read_range-Finishes object_id expected_size offset nbytes,
    )
