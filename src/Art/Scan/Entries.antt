-- ===== src/Art/Scan/Entries.antt =====
-- `scan_append` of lib/trees/art against the entries of a tree.
use contrees_fat_node.Prelude.{
  ℕ, zero, suc, ◌+◌, ◌-◌, ◌<◌, ◌≡◌, refl, ap, sym, ◌∙◌, Option, none, some, if◌then◌else◌, List, [],
  ◌∷◌, ◌++◌, ltb, length, take, arith, inl, inr, Bool-cases, append-nil, append_assoc,
  length-append, ltb→lt, ltb→le,
}
use contrees_fat_node.FatValue.{FatValue, read}
use contrees_fat_node.Art.Index.{Kind, node4, node16, node48, node256}
use contrees_fat_node.Art.Node.{findch}
use contrees_fat_node.Art.Node.Used.{InUse}
use contrees_fat_node.Art.Tree.{Tree, null, leaf, inner}
use contrees_fat_node.Art.Tree.Shape.{Present, IsTree}
use contrees_fat_node.Art.Scan.{range, positions, visit, is_skipped, scan_append}
use contrees_fat_node.Art.Scan.Children.{gather, gather-positions, Visits, Each, positions-Visits}

-- What a snapshot sees of a tree, by the bytes of the children.
unfoldable pub entries : Tree → ℕ → List (ℕ × ℕ)
unfolding read findch range
entries null version = []
entries (leaf h val fat) version = (h.pfx, read fat val version) ∷ []
entries (inner h k chs) version = gather (findch [] k (λ i. entries (chs i) version)) (range 0 256)

take_nil : {A : Type 0} (m : ℕ) → ◌≡◌ {A = List A} (take m []) []
take_nil zero = refl
take_nil (suc m) = refl

-- Nothing more is taken.
take_none : {A : Type 0} (m : ℕ) (ret xs : List A) → m ≡ 0 → ret ++ take m xs ≡ ret
take_none m ret xs e = ap (λ (n : ℕ). ret ++ take n xs) e ∙ append-nil ret

take_append :
    {A : Type 0} (m : ℕ) (xs ys : List A)
    → take m (xs ++ ys) ≡ take m xs ++ take (m - length (take m xs)) ys
take_append zero xs ys = refl
take_append (suc m) [] ys =
    let e : suc m - 0 ≡ suc m = omega arith in ap (λ (n : ℕ). take n ys) (sym e)
take_append (suc m) (x ∷ xs) ys =
    let e : suc m - suc (length (take m xs)) ≡ m - length (take m xs) = omega arith in
    ap (◌∷◌ x) (take_append m xs ys ∙ ap (λ (n : ℕ). take m xs ++ take n ys) (sym e))

-- A loop whose body appends, at each position, as far as there is room.
visit-gather :
    (n : ℕ) (body : ℕ → List (ℕ × ℕ) → Option (List (ℕ × ℕ))) (e : ℕ → List (ℕ × ℕ))
    (Q : ℕ → Type 0) (is : List ℕ)
    → Each Q is
    → ((i : ℕ) (ret : List (ℕ × ℕ))
        → Q i
        → length ret < n
        → body i ret ≡ some (ret ++ take (n - length ret) (e i)))
    → (ret : List (ℕ × ℕ)) → visit n body is ret ≡ some (ret ++ take (n - length ret) (gather e is))
unfolding visit
visit-gather n body e Q [] a h ret =
    ap some (sym (ap (λ xs. ret ++ xs) (take_nil (n - length ret)) ∙ append-nil ret))
visit-gather n body e Q (i ∷ is) a h ret = elim (Bool-cases (ltb (length ret) n)) [
  | inl room ↦
      rw (room, h i ret a.0 (ltb→lt (length ret) n room))
        (let m = n - length ret in
          let xs = take m (e i) in
          let d : n - length (ret ++ xs) ≡ m - length xs = omega (arith, length-append ret xs) in
          visit-gather n body e Q is a.1 h (ret ++ xs)
          ∙ ap some (
              ap (λ (k : ℕ). (ret ++ xs) ++ take k (gather e is)) d
              ∙ append_assoc ret xs (take (m - length xs) (gather e is))
              ∙ ap (λ ys. ret ++ ys) (sym (take_append m (e i) (gather e is)))))
  | inr full ↦ rw full (
      ap some (
        sym (
          take_none (n - length ret) ret (e i ++ gather e is)
            (omega (arith, ltb→le (length ret) n full)))))
]

-- A child that a loop visits: not null, or tested.
abbrev Reached : Kind → Tree → Type 0
Reached (node4 keys) t = Present t
Reached (node16 keys) t = Present t
Reached (node48 slts size) t = Present t
Reached node256 t = Unit {0}

Visits-Reached :
    (k : Kind) (chs : ℕ → Tree) (i : ℕ) → InUse Present k chs → Visits k i → Reached k (chs i)
Visits-Reached (node4 keys) chs i u v = u i v
Visits-Reached (node16 keys) chs i u v = u i v
Visits-Reached (node48 slts size) chs i u v = u i v
Visits-Reached node256 chs i u v = tt

skip-entries :
    (k : Kind) (t : Tree) (m version : ℕ) (ret : List (ℕ × ℕ)) (below : Option (List (ℕ × ℕ)))
    → Reached k t
    → (Present t → below ≡ some (ret ++ take m (entries t version)))
    → (if is_skipped k t then some ret else below) ≡ some (ret ++ take m (entries t version))
unfolding entries
skip-entries (node4 keys) t m version ret below r f = f r
skip-entries (node16 keys) t m version ret below r f = f r
skip-entries (node48 slts size) t m version ret below r f = f r
skip-entries node256 null m version ret below r f =
    ap some (sym (ap (λ xs. ret ++ xs) (take_nil m) ∙ append-nil ret))
skip-entries node256 (leaf h val fat) m version ret below r f = f tt
skip-entries node256 (inner h k chs) m version ret below r f = f tt

-- On a well formed radix tree that is not null, with room in the result, scan_append of the whole
-- tree ends without reading a null pointer, and appends the entries that the snapshot sees, by the
-- bytes of the children, as far as there is room.
pub scan_append-entries :
    (P : ℕ → FatValue → Type 0) (pos : ℕ) (t : Tree) (n version : ℕ) (ret : List (ℕ × ℕ))
    → IsTree P pos t
    → Present t
    → length ret < n
    → scan_append t none n version ret ≡ some (ret ++ take (n - length ret) (entries t version))
unfolding scan_append entries
scan_append-entries P pos null n version ret i p l = absurd p
scan_append-entries P pos (leaf h val fat) n version ret i p l =
    let e : n - length ret ≡ suc (n - length ret - 1) = omega arith in
    ap some (
      sym (
        ap (λ (m : ℕ). ret ++ take m ((h.pfx, read fat val version) ∷ [])) e
        ∙ ap (λ xs. ret ++ (h.pfx, read fat val version) ∷ xs) (take_nil (n - length ret - 1))))
scan_append-entries P pos (inner h k chs) n version ret i p l =
    visit-gather n _ (λ j. entries (chs j) version) (Visits k) (positions k none)
      (positions-Visits k i.2)
      (λ j r v b.
        skip-entries k (chs j) (n - length r) version r (scan_append (chs j) none n version r)
          (Visits-Reached k chs j i.4 v)
          (λ q. scan_append-entries P (pos + h.pfx_len + 1) (chs j) n version r (i.3 j) q b))
      ret
    ∙ ap (λ xs. some (ret ++ take (n - length ret) xs))
        (gather-positions k (λ j. entries (chs j) version) i.2)
