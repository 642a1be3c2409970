-- ===== src/Core/Fetch/Order.antt =====
-- The order of the messages of pages.
use openevent.Common.{ℕ, suc, ◌≤◌, List, [], ◌∷◌, ◌++◌, arith}
use openevent.Proto.{EventMessage}

-- The numbers of the messages ascend, from `lo` on and below `n`.
abbrev pub Ascends : ℕ → ℕ → List EventMessage → Type 0
Ascends lo n [] = lo ≤ n
Ascends lo n (m ∷ ms) = (lo ≤ m.seq) × Ascends (suc m.seq) n ms

pub Ascends-bounds : (lo n : ℕ) (ms : List EventMessage) → Ascends lo n ms → lo ≤ n
Ascends-bounds lo n [] a = a
Ascends-bounds lo n (m ∷ ms) (x, a) = omega (arith, Ascends-bounds (suc m.seq) n ms a)

pub Ascends-later :
    (lo n k : ℕ) (ms : List EventMessage) → n ≤ k → Ascends lo n ms → Ascends lo k ms
Ascends-later lo n k [] h a = omega arith
Ascends-later lo n k (m ∷ ms) h (x, a) = (x, Ascends-later (suc m.seq) n k ms h a)

pub Ascends-append :
    (lo n k : ℕ) (ms ns : List EventMessage)
    → Ascends lo n ms
    → Ascends n k ns
    → Ascends lo k (ms ++ ns)
Ascends-append lo n k [] [] a b = omega arith
Ascends-append lo n k [] (m ∷ ns) a (x, b) = (omega arith, b)
Ascends-append lo n k (m ∷ ms) ns (x, a) b = (x, Ascends-append (suc m.seq) n k ms ns a b)

pub Ascends-prefix :
    (lo n : ℕ) (ms ns : List EventMessage) → Ascends lo n (ms ++ ns) → Ascends lo n ms
Ascends-prefix lo n [] ns a = Ascends-bounds lo n ns a
Ascends-prefix lo n (m ∷ ms) ns (x, a) = (x, Ascends-prefix (suc m.seq) n ms ns a)
