-- ===== src/Nodes/Index/Vectors.antt =====
-- What the vector operations of the election slots do to the elements by position.
use hypertensor_blockchain.Common.{
  ℕ, zero, suc, ◌-◌, ◌<◌, ◌≡◌, refl, true, false, none, some, List, [], ◌∷◌, ◌++◌, arith, ◌==◌, leb,
  if◌then◌else◌, ◌||◌,
}
use hypertensor_blockchain.Common.Lists.{length}
use hypertensor_blockchain.Nodes.Slots.{
  contains, get_elem?, position, last_or, set_elem, drop_last, swap_remove,
}

pub get_elem?-position :
    (x : ℕ) (xs : List ℕ) (i : ℕ) → position x xs ≡ some i → get_elem? xs i ≡ some x
unfolding position
get_elem?-position x [] i h = ground arith
get_elem?-position x (y ∷ ys) zero h = ground arith
get_elem?-position x (y ∷ ys) (suc i) h = ground (arith, get_elem?-position x ys i)

pub contains-position : (x : ℕ) (xs : List ℕ) → position x xs ≡ none → contains x xs ≡ false
unfolding position contains
contains-position x [] h = refl
contains-position x (y ∷ ys) h = ground (arith, contains-position x ys)

pub contains-get_elem? :
    (x : ℕ) (xs : List ℕ) (i : ℕ) → get_elem? xs i ≡ some x → contains x xs ≡ true
unfolding contains
contains-get_elem? x [] i h = ground arith
contains-get_elem? x (y ∷ ys) zero h = ground arith
contains-get_elem? x (y ∷ ys) (suc i) h = ground (arith, contains-get_elem? x ys i h)

pub contains-found : (x : ℕ) (xs : List ℕ) (i : ℕ) → position x xs ≡ some i → contains x xs ≡ true
contains-found x xs i h = contains-get_elem? x xs i (get_elem?-position x xs i h)

pub get_elem?-lt : (x : ℕ) (xs : List ℕ) (i : ℕ) → get_elem? xs i ≡ some x → i < length xs
get_elem?-lt x [] i h = ground arith
get_elem?-lt x (y ∷ ys) zero h = omega arith
get_elem?-lt x (y ∷ ys) (suc i) h = omega (arith, get_elem?-lt x ys i h)

pub get_elem?-push :
    (x : ℕ) (xs : List ℕ) (i : ℕ)
    → get_elem? (xs ++ (x ∷ [])) i ≡ (if i == length xs then some x else get_elem? xs i)
get_elem?-push x [] zero = refl
get_elem?-push x [] (suc i) = ground arith
get_elem?-push x (y ∷ ys) zero = ground arith
get_elem?-push x (y ∷ ys) (suc i) = ground (arith, get_elem?-push x ys i)

length-set_elem : (i v : ℕ) (xs : List ℕ) → length (set_elem i v xs) ≡ length xs
unfolding set_elem
length-set_elem i v [] = refl
length-set_elem zero v (x ∷ xs) = refl
length-set_elem (suc i) v (x ∷ xs) = omega (arith, length-set_elem i v xs)

get_elem?-set_elem :
    (pos v : ℕ) (xs : List ℕ) (i : ℕ)
    → pos < length xs
    → get_elem? (set_elem pos v xs) i ≡ (if i == pos then some v else get_elem? xs i)
unfolding set_elem
get_elem?-set_elem pos v [] i h = absurd (omega arith)
get_elem?-set_elem zero v (x ∷ xs) zero h = refl
get_elem?-set_elem zero v (x ∷ xs) (suc i) h = ground arith
get_elem?-set_elem (suc pos) v (x ∷ xs) zero h = ground arith
get_elem?-set_elem (suc pos) v (x ∷ xs) (suc i) h = ground (arith, get_elem?-set_elem pos v xs i)

get_elem?-drop_last :
    (xs : List ℕ) (i : ℕ)
    → get_elem? (drop_last xs) i ≡ (if leb (length xs - 1) i then none else get_elem? xs i)
unfolding drop_last
get_elem?-drop_last [] i = ground arith
get_elem?-drop_last (x ∷ []) i = ground arith
get_elem?-drop_last (x ∷ y ∷ ys) zero = ground arith
get_elem?-drop_last (x ∷ y ∷ ys) (suc i) = ground (arith, get_elem?-drop_last (y ∷ ys) i)

length-drop_last : (xs : List ℕ) → length (drop_last xs) ≡ length xs - 1
unfolding drop_last
length-drop_last [] = refl
length-drop_last (x ∷ []) = refl
length-drop_last (x ∷ y ∷ ys) = omega (arith, length-drop_last (y ∷ ys))

pub get_elem?-last :
    (d : ℕ) (xs : List ℕ) → 0 < length xs → get_elem? xs (length xs - 1) ≡ some (last_or d xs)
unfolding last_or
get_elem?-last d [] h = absurd (omega arith)
get_elem?-last d (x ∷ []) h = refl
get_elem?-last d (x ∷ y ∷ ys) h = ground (arith, get_elem?-last x (y ∷ ys))

pub length-swap_remove : (pos : ℕ) (xs : List ℕ) → length (swap_remove pos xs) ≡ length xs - 1
unfolding swap_remove
length-swap_remove pos xs = omega (
  arith,
  length-drop_last (set_elem pos (last_or 0 xs) xs),
  length-set_elem pos (last_or 0 xs) xs,
)

pub get_elem?-swap_remove :
    (pos : ℕ) (xs : List ℕ) (i : ℕ)
    → pos < length xs
    → get_elem? (swap_remove pos xs) i ≡ (
        if leb (length xs - 1) i
        then none
        else if i == pos
        then some (last_or 0 xs)
        else get_elem? xs i)
unfolding swap_remove
get_elem?-swap_remove pos xs i h = ground (
  arith,
  get_elem?-drop_last (set_elem pos (last_or 0 xs) xs) i,
  get_elem?-set_elem pos (last_or 0 xs) xs i,
  length-set_elem pos (last_or 0 xs) xs,
)

pub contains-push :
    (n x : ℕ) (xs : List ℕ) → contains n (xs ++ (x ∷ [])) ≡ (n == x || contains n xs)
unfolding contains
contains-push n x [] = ground arith
contains-push n x (y ∷ ys) = ground (arith, contains-push n x ys)
