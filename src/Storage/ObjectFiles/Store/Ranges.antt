-- ===== src/Storage/ObjectFiles/Store/Ranges.antt =====
-- A `ReadRange` that returns has read the bytes of a stored object, and has changed nothing.
use openevent.Common.{
  ℕ, zero, suc, ◌+◌, ◌-◌, ◌≤◌, min, ◌≡◌, ◌≢◌, refl, sym, ap, ◌∙◌, some, Bool-cases, inl, inr, [],
  ◌∷◌, ◌++◌, Bytes, take, drop, length, length-append, ltb, arith,
}
use mathlib.Core.List.{append_assoc, append-nil}
use openevent.Common.Slices.{take_more, drop_more, length-drop, take_within}
use openevent.Status.{eintr, ok}
use openevent.Storage.Records.{max_object_bytes}
use openevent.Storage.ObjectFiles.Posix.{Posix, PosixLaws, Called, Called-cases, done, failed}
use openevent.Storage.ObjectFiles.Io.{Io, returned, Outcome-cases}
use openevent.Storage.ObjectFiles.Store.{
  final_name, check_request, check_file, after_open, open_loop, open_final, after_read, read_loop,
  read_all, read_steps, close_file, read_range,
}

module _ (P : Posix) where
  -- The request is in bounds, a file of the expected size is stored under the final name, and the
  -- bytes are those from the offset on, as many as asked for or as there are.
  pub record IsRange (object_id expected_size offset nbytes : ℕ) (bytes : Bytes) (s s' : P.System)
      : Type 0 where
    pub id_nonzero : object_id ≢ 0
    pub size_nonzero : expected_size ≢ 0
    pub size_in_bounds : expected_size ≤ max_object_bytes
    pub nbytes_nonzero : nbytes ≢ 0
    pub offset_in_bounds : offset ≤ expected_size
    pub file : ℕ
    pub stored : (P.disk s).entries (final_name object_id) ≡ some file
    pub size : length ((P.disk s).content file) ≡ expected_size
    pub bytes_read : bytes ≡ take nbytes (drop offset ((P.disk s).content file))
    pub disk_kept : P.disk s' ≡ P.disk s

  module _ (law : PosixLaws P) where
    opened :
        (again : Io P.System P.Fd) (name : Bytes) (r : Called P.Fd) (fd : P.Fd) (s t s' : P.System)
        → P.open_for_read s name ≡ (r, t)
        → after_open P again name r t ≡ (returned fd, s')
        → (again t ≡ (returned fd, s')
            → ((P.disk t).entries name ≡ some (P.file_of fd)) × (P.disk s' ≡ P.disk t))
        → ((P.disk s).entries name ≡ some (P.file_of fd)) × (P.disk s' ≡ P.disk s)
    opened again name (done fd') fd s t s' o h ih =
        let (entry, same) = law.open_for_read_done s t name fd' o in (ground (arith), ground arith)
    opened again name (failed eintr) fd s t s' o h ih =
        let same = law.open_for_read_eintr s t name o in
        let (entry, kept) = ih h in (sym (ap (λ d. d.entries name) same) ∙ entry, kept ∙ same)
    opened again name (failed _) fd s t s' o h ih = absurd (ground arith)

    open_loop-opened :
        (fuel : ℕ) (name : Bytes) (fd : P.Fd) (s s' : P.System)
        → open_loop P fuel name s ≡ (returned fd, s')
        → ((P.disk s).entries name ≡ some (P.file_of fd)) × (P.disk s' ≡ P.disk s)
    unfolding open_loop
    open_loop-opened zero name fd s s' h = absurd (ground arith)
    open_loop-opened (suc fuel) name fd s s' h =
        opened (λ t. open_loop P fuel name t) name _ fd s _ s' refl h
          (open_loop-opened fuel name fd _ s')

    -- The bytes that a piece adds, from what the rest of the loop adds.
    piece :
        (again : Bytes → Io P.System Bytes) (fd : P.Fd) (name : Bytes) (from asked : ℕ)
        (got : Bytes) (r : Called Bytes) (bytes : Bytes) (s t s' : P.System)
        → P.pread s fd asked from ≡ (r, t)
        → after_read P again name got r t ≡ (returned bytes, s')
        → ((more : Bytes) (m : ℕ)
            → length more ≡ length got + m
            → m ≤ asked
            → again more t ≡ (returned bytes, s')
            → (bytes
                ≡ more ++ take (asked - m) (drop (from + m) ((P.disk t).content (P.file_of fd))))
              × (P.disk s' ≡ P.disk t))
        → (bytes ≡ got ++ take asked (drop from ((P.disk s).content (P.file_of fd))))
          × (P.disk s' ≡ P.disk s)
    piece again fd name from asked got (done []) bytes s t s' p h ih = absurd (ground arith)
    piece again fd name from asked got (done (b ∷ bs)) bytes s t s' p h ih =
        let (short, read, same) = law.pread_done s t fd asked from (b ∷ bs) p in
        let (rest, kept) =
          ih (got ++ (b ∷ bs)) (length (b ∷ bs)) (length-append got (b ∷ bs)) short h in
        let there = drop from ((P.disk s).content (P.file_of fd)) in
        let m = length (b ∷ bs) in
        (
          rest
              ∙ append_assoc got (b ∷ bs) _
              ∙ ap
                  (λ d.
                    got
                    ++ ((b ∷ bs) ++ take (asked - m) (drop (from + m) (d.content (P.file_of fd)))))
                  same
              ∙ ap (λ ys. got ++ ((b ∷ bs) ++ take (asked - m) ys)) (drop_more from m _)
              ∙ ap (λ ys. got ++ (ys ++ take (asked - m) (drop m there))) read
              ∙ ap (λ ys. got ++ ys) (take_more m asked there short),
          kept ∙ same,
        )
    piece again fd name from asked got (failed eintr) bytes s t s' p h ih =
        let same = law.pread_eintr s t fd asked from p in
        let (rest, kept) = ih got 0 (omega arith) (omega arith) h in
        let e : asked - 0 ≡ asked = omega arith in
        let e' : from + 0 ≡ from = omega arith in
        (
          rest
              ∙ ap (λ k. got ++ take k (drop (from + 0) ((P.disk t).content (P.file_of fd)))) e
              ∙ ap (λ k. got ++ take asked (drop k ((P.disk t).content (P.file_of fd)))) e'
              ∙ ap (λ d. got ++ take asked (drop from (d.content (P.file_of fd)))) same,
          kept ∙ same,
        )
    piece again fd name from asked got (failed _) bytes s t s' p h ih = absurd (ground arith)

    read_loop-read :
        (fuel : ℕ) (fd : P.Fd) (name : Bytes) (offset count : ℕ) (got bytes : Bytes)
        (s s' : P.System)
        → length got ≤ count
        → read_loop P fuel fd name offset count got s ≡ (returned bytes, s')
        → (bytes
            ≡ got
              ++ take
                  (count - length got)
                  (drop (offset + length got) ((P.disk s).content (P.file_of fd))))
          × (P.disk s' ≡ P.disk s)
    unfolding read_loop
    read_loop-read zero fd name offset count got bytes s s' within h = absurd (ground arith)
    read_loop-read (suc fuel) fd name offset count got bytes s s' within h =
        elim (Bool-cases (ltb (length got) count)) [
          | inr full ↦
              let h' = rw full at h in
              let e : count - length got ≡ 0 = ground arith in
              let same : bytes ≡ got = ground arith in
              (same ∙ rw e (sym (append-nil got)), ground arith)
          | inl short ↦
              let h' = rw short at h in
              piece (λ more. read_loop P fuel fd name offset count more) fd name
                (offset + length got) (count - length got) got _ bytes s _ s' refl h'
                (λ more m e fits k.
                  let (rest, kept) =
                    read_loop-read fuel fd name offset count more bytes _ s' (omega arith) k in
                  let e₁ : count - length more ≡ count - length got - m = omega arith in
                  let e₂ : offset + length more ≡ offset + length got + m = omega arith in
                  (rw (← e₁, ← e₂) rest, kept))
        ]

    check_file-passed :
        (fd : P.Fd) (name : Bytes) (expected_size : ℕ) (s s' : P.System)
        → check_file P fd name expected_size s ≡ (returned tt, s')
        → (length ((P.disk s).content (P.file_of fd)) ≡ expected_size) × (P.disk s' ≡ P.disk s)
    unfolding check_file
    check_file-passed fd name expected_size s s' h = elim (Called-cases (P.fstat s fd).0) [
      | inl (stat, e) ↦
          let (size, same) = law.fstat_done s (P.fstat s fd).1 fd stat (ground arith) in
          (ground (arith, size), ground arith)
      | inr (_, e) ↦ absurd (ground arith)
    ]

    read_steps-read :
        (fd : P.Fd) (name : Bytes) (expected_size offset count : ℕ) (bytes : Bytes)
        (s s' : P.System)
        → read_steps P fd name expected_size offset count s ≡ (returned bytes, s')
        → (length ((P.disk s).content (P.file_of fd)) ≡ expected_size)
          × (bytes ≡ take count (drop offset ((P.disk s).content (P.file_of fd))))
          × (P.disk s' ≡ P.disk s)
    unfolding read_steps read_all
    read_steps-read fd name expected_size offset count bytes s s' h =
        let t = (check_file P fd name expected_size s).1 in
        let (size, same) = check_file-passed fd name expected_size s t (ground arith) in
        let (read, kept) =
          read_loop-read (suc (count + P.interruptions t)) fd name offset count [] bytes t s'
            (omega arith) (ground arith) in
        let e : count - 0 ≡ count = omega arith in
        let e' : offset + 0 ≡ offset = omega arith in
        (
          size,
          read
              ∙ ap (λ k. take k (drop (offset + 0) ((P.disk t).content (P.file_of fd)))) e
              ∙ ap (λ k. take count (drop k ((P.disk t).content (P.file_of fd)))) e'
              ∙ ap (λ d. take count (drop offset (d.content (P.file_of fd)))) same,
          kept ∙ same,
        )

    read_range-returned :
        (object_id expected_size offset nbytes : ℕ) (bytes : Bytes) (s s' : P.System)
        → read_range P object_id expected_size offset nbytes s ≡ (returned bytes, s')
        → (check_request object_id expected_size offset nbytes ≡ ok tt)
          × (fd : P.Fd) × (a b : P.System) × (open_final P (final_name object_id) s
              ≡ (returned fd, a))
          × (read_steps P fd
                (final_name object_id)
                expected_size
                offset
                (min nbytes (expected_size - offset))
                a
              ≡ (returned bytes, b))
          × (P.close b fd ≡ (done tt, s'))
    unfolding read_range close_file
    read_range-returned object_id expected_size offset nbytes bytes s s' h =
        let opened = open_final P (final_name object_id) s in
        elim (Outcome-cases opened.0) [
          | inl (fd, e) ↦ (
            ground (arith, e),
            fd,
            opened.1,
            (read_steps P fd (final_name object_id) expected_size offset
                (min nbytes (expected_size - offset)) opened.1).1,
            ground (arith, e),
            ground (arith, e),
            ground (arith, e),
          )
          | inr (inl (_, e)) ↦ absurd (ground arith)
          | inr (inr e) ↦ absurd (ground arith)
        ]

    check_request-ok :
        (object_id expected_size offset nbytes : ℕ)
        → check_request object_id expected_size offset nbytes ≡ ok tt
        → (object_id ≢ 0)
          × (expected_size ≢ 0)
          × (expected_size ≤ max_object_bytes)
          × (nbytes ≢ 0)
          × (offset ≤ expected_size)
    unfolding check_request
    check_request-ok object_id expected_size offset nbytes h =
        (ground arith, ground arith, ground arith, ground arith, ground arith)

    open_final-opened :
        (name : Bytes) (fd : P.Fd) (s s' : P.System)
        → open_final P name s ≡ (returned fd, s')
        → ((P.disk s).entries name ≡ some (P.file_of fd)) × (P.disk s' ≡ P.disk s)
    unfolding open_final
    open_final-opened name fd s s' h = open_loop-opened (suc (P.interruptions s)) name fd s s' h

    -- A `ReadRange` that returns had an id, a size and a number of bytes that are not zero, a size
    -- of at most 4 MiB and an offset within it; a file of exactly that size is stored under the
    -- final name of the object, the bytes returned are those from the offset on, as many as asked
    -- for or as there are, and the disk is as it was.
    pub read_range-IsRange :
        (object_id expected_size offset nbytes : ℕ) (bytes : Bytes) (s s' : P.System)
        → read_range P object_id expected_size offset nbytes s ≡ (returned bytes, s')
        → IsRange object_id expected_size offset nbytes bytes s s'
    read_range-IsRange object_id expected_size offset nbytes bytes s s' h =
        let (passed, fd, a, b, opened, read, closed) =
          read_range-returned object_id expected_size offset nbytes bytes s s' h in
        let (id, size, bound, some_bytes, from) =
          check_request-ok object_id expected_size offset nbytes passed in
        let (entry, da) = open_final-opened (final_name object_id) fd s a opened in
        let (length_is, bytes_are, db) =
          read_steps-read fd (final_name object_id) expected_size offset _ bytes a b read in
        let (dc, _) = law.close_done b s' fd closed in
        let content = (P.disk s).content (P.file_of fd) in
        let there : length content ≡ expected_size =
          ap (λ d. length (d.content (P.file_of fd))) (sym da) ∙ length_is in
        let left : expected_size - offset ≡ length (drop offset content) =
          omega (arith, there, length-drop offset content) in
        record {
          id_nonzero = id;
          size_nonzero = size;
          size_in_bounds = bound;
          nbytes_nonzero = some_bytes;
          offset_in_bounds = from;
          file = P.file_of fd;
          stored = entry;
          size = there;
          bytes_read =
              bytes_are
              ∙ ap
                  (λ d.
                    take (min nbytes (expected_size - offset))
                      (drop offset (d.content (P.file_of fd))))
                  da
              ∙ ap (λ k. take (min nbytes k) (drop offset content)) left
              ∙ take_within nbytes (drop offset content);
          disk_kept = dc ∙ db ∙ da;
        }
