-- ===== src/Async/Close.antt =====
-- The list of prepared statements when one of them is closed.
use gluamysql.Base.{ℕ, ◌≡◌, ◌≢◌, refl, ap, none, some, List, [], ◌∷◌, ◌++◌, arith, append-nil}
use gluamysql.Async.{kept, drop_as_long, erase_first, erase_removed}

-- `x` is none of the elements.
abbrev pub Absent : ℕ → List ℕ → Type 0
Absent x [] = Unit {0}
Absent x (y ∷ ys) = (y ≢ x) × Absent x ys

kept-append : (x : ℕ) (xs ys : List ℕ) → kept x (xs ++ ys) ≡ kept x xs ++ kept x ys
unfolding kept
kept-append x [] ys = refl
kept-append x (y ∷ xs) ys = ground (arith, kept-append x xs ys)

kept-Absent : (x : ℕ) (ys : List ℕ) → Absent x ys → kept x ys ≡ ys
unfolding kept
kept-Absent x [] h = refl
kept-Absent x (y ∷ ys) h = ground (arith, kept-Absent x ys h.1)

drop_self : (ys : List ℕ) → drop_as_long ys ys ≡ []
unfolding drop_as_long
drop_self [] = refl
drop_self (y ∷ ys) = drop_self ys

-- Dropping as many elements as a list without `x` has, from that list with one `x` in it, leaves the last.
drop-one_more :
    (ys : List ℕ) (x : ℕ) (zs : List ℕ)
    → (w : ℕ) × (drop_as_long (ys ++ zs) (ys ++ x ∷ zs) ≡ w ∷ [])
unfolding drop_as_long
drop-one_more [] x [] = (x, refl)
drop-one_more [] x (z ∷ zs) = drop-one_more [] z zs
drop-one_more (y ∷ ys) x zs = drop-one_more ys x zs

kept-once : (x : ℕ) (xs zs : List ℕ) → Absent x xs → Absent x zs → kept x (xs ++ x ∷ zs) ≡ xs ++ zs
unfolding kept
kept-once x xs zs p q =
    ground (arith, kept-append x xs (x ∷ zs), kept-Absent x xs p, kept-Absent x zs q)

-- A statement that is listed once is taken out of the list, and the others stay in their order.
pub erase_removed-once :
    (x : ℕ) (xs zs : List ℕ)
    → Absent x xs
    → Absent x zs
    → erase_removed x (xs ++ x ∷ zs) ≡ some (xs ++ zs)
unfolding erase_removed erase_first
erase_removed-once x xs zs p q =
    let (w, e) = drop-one_more xs x zs in
    rw (kept-once x xs zs p q, e) (ap some (append-nil (xs ++ zs)))

-- For a statement that is not listed the end of the list is erased, which is undefined.
pub erase_removed-Absent : (x : ℕ) (xs : List ℕ) → Absent x xs → erase_removed x xs ≡ none
unfolding erase_removed erase_first
erase_removed-Absent x xs p = rw (kept-Absent x xs p, drop_self xs)
