-- ===== src/SortedMap.antt =====
-- The abstract view of a tree: the list of its entries, strictly ascending by key. This is what the
-- trees promise, and models no code.
use contrees_fat_node.Prelude.{
  ℕ, suc, ◌≤◌, ◌<◌, ◌≡◌, refl, Option, none, some, List, [], ◌∷◌, ◌++◌, ltb, ◌==◌, if◌then◌else◌,
  arith,
}

abbrev pub Entry : Type 0
Entry = ℕ × ℕ

-- The keys are strictly ascending, from `lo` and below `hi`.
abbrev pub SortedIn : ℕ → ℕ → List Entry → Type 0
SortedIn lo hi [] = Unit {0}
SortedIn lo hi ((k, v) ∷ es) = (lo ≤ k) × (k < hi) × SortedIn (suc k) hi es

-- The value of a key.
unfoldable pub lookup : ℕ → List Entry → Option ℕ
lookup q [] = none
lookup q ((k, v) ∷ es) = if k == q then some v else lookup q es

-- Insertion in order, which replaces the value of a key that is there.
unfoldable pub put : ℕ → ℕ → List Entry → List Entry
put q w [] = (q, w) ∷ []
put q w ((k, v) ∷ es) =
    if ltb q k then (q, w) ∷ (k, v) ∷ es else if k == q then (q, w) ∷ es else (k, v) ∷ put q w es

pub SortedIn-mono :
    {lo lo' hi hi' : ℕ} (es : List Entry)
    → lo' ≤ lo
    → hi ≤ hi'
    → SortedIn lo hi es
    → SortedIn lo' hi' es
SortedIn-mono [] h j s = tt
SortedIn-mono ((k, v) ∷ es) h j s = (omega arith, omega arith, SortedIn-mono es (omega arith) j s.2)

pub SortedIn-append :
    {lo mid hi : ℕ} (xs ys : List Entry)
    → lo ≤ mid
    → mid ≤ hi
    → SortedIn lo mid xs
    → SortedIn mid hi ys
    → SortedIn lo hi (xs ++ ys)
SortedIn-append [] ys h j s t = SortedIn-mono ys h (omega arith) t
SortedIn-append ((k, v) ∷ xs) ys h j s t =
    (s.0, omega arith, SortedIn-append xs ys (omega arith) j s.2 t)

pub SortedIn-put :
    {lo hi : ℕ} (q w : ℕ) (es : List Entry)
    → lo ≤ q
    → q < hi
    → SortedIn lo hi es
    → SortedIn lo hi (put q w es)
unfolding put
SortedIn-put q w [] h j s = (h, j, tt)
SortedIn-put {lo} {hi} q w ((k, v) ∷ es) h j s = ground (
  arith,
  SortedIn-put {lo = suc k} {hi = hi} q w es,
  SortedIn-mono {lo = suc k} {lo' = suc q} {hi = hi} {hi' = hi} es,
)

-- Reading after a write.
pub lookup-put :
    (q r w : ℕ) (es : List Entry) (lo hi : ℕ)
    → SortedIn lo hi es
    → lookup r (put q w es) ≡ (if q == r then some w else lookup r es)
unfolding lookup put
lookup-put q r w [] lo hi s = refl
lookup-put q r w ((k, v) ∷ es) lo hi s = ground (arith, lookup-put q r w es (suc k) hi)

-- A key outside the bounds has no value.
pub lookup_below :
    (q : ℕ) (es : List Entry) (lo hi : ℕ) → q < lo → SortedIn lo hi es → lookup q es ≡ none
unfolding lookup
lookup_below q [] lo hi h s = refl
lookup_below q ((k, v) ∷ es) lo hi h s = ground (arith, lookup_below q es (suc k) hi)

pub lookup_above :
    (q : ℕ) (es : List Entry) (lo hi : ℕ) → hi ≤ q → SortedIn lo hi es → lookup q es ≡ none
unfolding lookup
lookup_above q [] lo hi h s = refl
lookup_above q ((k, v) ∷ es) lo hi h s = ground (arith, lookup_above q es (suc k) hi)

pub lookup-append_left :
    (q : ℕ) (xs ys : List Entry) (mid hi : ℕ)
    → q < mid
    → SortedIn mid hi ys
    → lookup q (xs ++ ys) ≡ lookup q xs
unfolding lookup
lookup-append_left q [] ys mid hi h s = lookup_below q ys mid hi h s
lookup-append_left q ((k, v) ∷ xs) ys mid hi h s =
    ground (arith, lookup-append_left q xs ys mid hi h s)

pub lookup-append_right :
    (q : ℕ) (xs ys : List Entry) (lo mid : ℕ)
    → mid ≤ q
    → SortedIn lo mid xs
    → lookup q (xs ++ ys) ≡ lookup q ys
unfolding lookup
lookup-append_right q [] ys lo mid h s = refl
lookup-append_right q ((k, v) ∷ xs) ys lo mid h s =
    ground (arith, lookup-append_right q xs ys (suc k) mid h s.2)

-- What an operation does to the entries: it leaves them, or puts a value.
unfoldable pub act : Option ℕ → ℕ → List Entry → List Entry
unfolding put
act none q es = es
act (some w) q es = put q w es

pub put-append_left :
    (q w : ℕ) (xs ys : List Entry) (mid hi : ℕ)
    → q < mid
    → SortedIn mid hi ys
    → put q w (xs ++ ys) ≡ put q w xs ++ ys
unfolding put
put-append_left q w [] [] mid hi h s = refl
put-append_left q w [] ((k, v) ∷ ys) mid hi h s = ground arith
put-append_left q w ((k, v) ∷ xs) ys mid hi h s =
    ground (arith, put-append_left q w xs ys mid hi h s)

pub put-append_right :
    (q w : ℕ) (xs ys : List Entry) (lo mid : ℕ)
    → mid ≤ q
    → SortedIn lo mid xs
    → put q w (xs ++ ys) ≡ xs ++ put q w ys
unfolding put
put-append_right q w [] ys lo mid h s = refl
put-append_right q w ((k, v) ∷ xs) ys lo mid h s =
    ground (arith, put-append_right q w xs ys (suc k) mid h s.2)

pub act-append_left :
    (o : Option ℕ) (q : ℕ) (xs ys : List Entry) (mid hi : ℕ)
    → q < mid
    → SortedIn mid hi ys
    → act o q (xs ++ ys) ≡ act o q xs ++ ys
unfolding act
act-append_left none q xs ys lo hi h s = refl
act-append_left (some w) q xs ys lo hi h s = put-append_left q w xs ys lo hi h s

pub act-append_right :
    (o : Option ℕ) (q : ℕ) (xs ys : List Entry) (lo mid : ℕ)
    → mid ≤ q
    → SortedIn lo mid xs
    → act o q (xs ++ ys) ≡ xs ++ act o q ys
unfolding act
act-append_right none q xs ys lo hi h s = refl
act-append_right (some w) q xs ys lo hi h s = put-append_right q w xs ys lo hi h s
