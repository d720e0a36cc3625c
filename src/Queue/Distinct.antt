-- ===== src/Queue/Distinct.antt =====
-- Items whose addresses differ: a pointer to one of them leads to it alone.
use disqueue.Base.{
  ℕ, ◌≡◌, refl, Bool, false, none, some, List, [], ◌∷◌, ◌++◌, arith, All, All-append, All-split,
  find, split_first-Splits, find-split_first, missed, hit, ==_refl,
}
use disqueue.Queue.State.{Item}
use disqueue.Queue.Item.{at}
use disqueue.Queue.Borrow.{AddrsBelow}

abbrev Others : ℕ → List Item → Type 0
Others a = All (λ y. at a y ≡ false)

-- No two items have the same address.
abbrev pub IsDistinct : List Item → Type 0
IsDistinct [] = Unit
IsDistinct (x ∷ xs) = Others x.addr xs × IsDistinct xs

find-Others : (a : ℕ) (xs : List Item) → Others a xs → find (at a) xs ≡ none
unfolding find
find-Others a [] h = refl
find-Others a (x ∷ xs) h = rw h.0 (find-Others a xs h.1)

pub at_comm : (x y : Item) → at x.addr y ≡ false → at y.addr x ≡ false
at_comm x y h = ground arith

-- A new address is one that no item has.
pub append-IsDistinct :
    (x : Item) (xs : List Item) → AddrsBelow x.addr xs → IsDistinct xs → IsDistinct (xs ++ x ∷ [])
append-IsDistinct x [] b d = (tt, tt)
append-IsDistinct x (y ∷ xs) b d = (
  All-append (λ z. at y.addr z ≡ false) xs (x ∷ []) d.0 (ground (arith, b.0), tt),
  append-IsDistinct x xs b.1 d.1,
)

-- Without one of the items, no other has its address.
pub split-IsDistinct :
    (pre post : List Item) (x : Item)
    → IsDistinct (pre ++ x ∷ post)
    → IsDistinct (pre ++ post) × Others x.addr (pre ++ post)
split-IsDistinct [] post x d = (d.1, d.0)
split-IsDistinct (y ∷ pre) post x d =
    let (rest, others) = split-IsDistinct pre post x d.1 in
    let (differ, same) = All-split (λ z. at y.addr z ≡ false) pre post x d.0 in
    ((same, rest), (at_comm y x differ, others))

-- A pointer to an item whose address no other has leads to it.
find-only :
    (pre post : List Item) (x : Item)
    → Others x.addr (pre ++ post)
    → find (at x.addr) (pre ++ x ∷ post) ≡ some x
unfolding find
find-only [] post x h = rw (==_refl x.addr, find) refl
find-only (y ∷ pre) post x h = rw h.0 (find-only pre post x h.1)

pub find-split :
    (pre post : List Item) (x : Item)
    → IsDistinct (pre ++ x ∷ post)
    → (find (at x.addr) (pre ++ x ∷ post) ≡ some x) × (find (at x.addr) (pre ++ post) ≡ none)
find-split pre post x d =
    let (_, others) = split-IsDistinct pre post x d in
    (find-only pre post x others, find-Others x.addr (pre ++ post) others)

-- What a search finds stands somewhere in the list.
pub find-stands :
    (p : Item → Bool) (xs : List Item) (x : Item)
    → find p xs ≡ some x
    → (pre : List Item) × (post : List Item) × (xs ≡ pre ++ x ∷ post)
find-stands p xs x f = elim (split_first-Splits p xs) [
  | missed o h ↦ absurd (let e = find-split_first p xs in let d = rw (o) at e in cc)
  | hit y pre post o l h m ↦
      let e = find-split_first p xs in
      let d = rw o at e in let same : y ≡ x = cc in (pre, post, rw same at l)
]
