-- ===== src/Confirms/Order.antt =====
-- The ascending index of delivery tags, tracker.go: orderInsert, advanceLowWater, compactOrder.
use warren.Prelude.{
  ℕ, zero, suc, ◌≤◌, ◌<◌, ◌≡◌, refl, sym, ap, subst, ◌⊎◌, inl, inr, true, List, [], ◌∷◌, ◌++◌,
  arith, ltb, length, take, drop, nat_Eq, length-append, In, Bool-cases, ltb_iff, ltb-false,
}
use warren.Confirms.{Tracker, search_order, last_or, beyond_last, order_insert}

abbrev pub AllGe : ℕ → List ℕ → Type 0
AllGe a [] = Unit {0}
AllGe a (x ∷ xs) = (a ≤ x) × AllGe a xs

abbrev pub IsSorted : List ℕ → Type 0
IsSorted [] = Unit {0}
IsSorted (x ∷ xs) = AllGe x xs × IsSorted xs

-- The window order[head:] of tags that a multiple=true frame still walks.
abbrev pub live : Tracker → List ℕ
live t = drop t.head t.order

pub AllGe-mono : (a b : ℕ) (xs : List ℕ) → a ≤ b → AllGe b xs → AllGe a xs
AllGe-mono a b [] h g = tt
AllGe-mono a b (x ∷ xs) h g = (omega arith, AllGe-mono a b xs h g.1)

pub In-ge : (a x : ℕ) (xs : List ℕ) → AllGe a xs → In x xs → a ≤ x
In-ge a x [] g m = absurd m
In-ge a x (y ∷ ys) g (inl e) = omega (arith, g.0, e)
In-ge a x (y ∷ ys) g (inr m) = In-ge a x ys g.1 m

search_order-le : (xs : List ℕ) (tag : ℕ) → search_order xs tag ≤ length xs
unfolding search_order
search_order-le [] tag = omega arith
search_order-le (x ∷ xs) tag = ground (arith, search_order-le xs tag)

insert_at : ℕ → ℕ → List ℕ → List ℕ
insert_at idx tag xs = take idx xs ++ tag ∷ drop idx xs

AllGe-insert_at :
    (a idx tag : ℕ) (xs : List ℕ) → a ≤ tag → AllGe a xs → AllGe a (insert_at idx tag xs)
unfolding insert_at
AllGe-insert_at a zero tag xs h g = (h, g)
AllGe-insert_at a (suc idx) tag [] h g = (h, tt)
AllGe-insert_at a (suc idx) tag (x ∷ xs) h g = (g.0, AllGe-insert_at a idx tag xs h g.1)

insert_at-IsSorted :
    (tag : ℕ) (xs : List ℕ) → IsSorted xs → IsSorted (insert_at (search_order xs tag) tag xs)
unfolding insert_at search_order
insert_at-IsSorted tag [] s = (tt, tt)
insert_at-IsSorted tag (x ∷ xs) s = elim (Bool-cases (ltb x tag)) [
  | inl below ↦ rw below (
    unfold insert_at in AllGe-insert_at x (search_order xs tag) tag xs (ground arith) s.0,
    insert_at-IsSorted tag xs s.1,
  )
  | inr above ↦
      rw above ((ltb-false x tag above, AllGe-mono tag x xs (ltb-false x tag above) s.0), s)
]

AllGe-append : (a tag : ℕ) (xs : List ℕ) → a ≤ tag → AllGe a xs → AllGe a (xs ++ tag ∷ [])
AllGe-append a tag [] h g = (h, tt)
AllGe-append a tag (x ∷ xs) h g = (g.0, AllGe-append a tag xs h g.1)

append-IsSorted :
    (x tag : ℕ) (xs : List ℕ)
    → last_or x xs < tag
    → IsSorted (x ∷ xs)
    → (x ≤ tag) × IsSorted (x ∷ xs ++ tag ∷ [])
unfolding last_or
append-IsSorted x tag [] h s = (omega arith, ((omega arith, tt), (tt, tt)))
append-IsSorted x tag (y ∷ ys) h s =
    let (y_le, sorted) = append-IsSorted y tag ys h s.1 in
    let x_le : x ≤ tag = omega (arith, s.0.0, y_le) in
    (x_le, ((s.0.0, AllGe-append x tag ys x_le s.0.1), sorted))

append-beyond_last :
    (tag : ℕ) (xs : List ℕ) → beyond_last xs tag ≡ true → IsSorted xs → IsSorted (xs ++ tag ∷ [])
unfolding beyond_last
append-beyond_last tag [] b s = (tt, tt)
append-beyond_last tag (x ∷ xs) b s =
    (append-IsSorted x tag xs ((ltb_iff (last_or x xs) tag).0 b) s).1

pub order_insert-IsSorted :
    (t : Tracker) (tag : ℕ) → IsSorted t.order → IsSorted (order_insert t tag).order
unfolding order_insert
order_insert-IsSorted t tag s = elim (Bool-cases (beyond_last t.order tag)) [
  | inl b ↦ rw b (append-beyond_last tag t.order b s)
  | inr b ↦ rw b (unfold insert_at in insert_at-IsSorted tag t.order s)
]

drop-append :
    (h tag : ℕ) (xs : List ℕ) → h ≤ length xs → drop h (xs ++ tag ∷ []) ≡ drop h xs ++ tag ∷ []
drop-append zero tag xs h = refl
drop-append (suc n) tag [] h = absurd (omega arith)
drop-append (suc n) tag (x ∷ xs) h = drop-append n tag xs (omega arith)

In-append_old : (a tag : ℕ) (xs : List ℕ) → In a xs → In a (xs ++ tag ∷ [])
In-append_old a tag [] m = absurd m
In-append_old a tag (x ∷ xs) (inl e) = inl e
In-append_old a tag (x ∷ xs) (inr m) = inr (In-append_old a tag xs m)

In-append_new : (tag : ℕ) (xs : List ℕ) → In tag (xs ++ tag ∷ [])
In-append_new tag [] = inl refl
In-append_new tag (x ∷ xs) = inr (In-append_new tag xs)

In-drop_le : (a h k : ℕ) (xs : List ℕ) → h ≤ k → In a (drop k xs) → In a (drop h xs)
In-drop_le a zero zero xs le m = m
In-drop_le a zero (suc k) [] le m = m
In-drop_le a zero (suc k) (x ∷ xs) le m = inr (In-drop_le a zero k xs (omega arith) m)
In-drop_le a (suc h) zero xs le m = absurd (omega arith)
In-drop_le a (suc h) (suc k) [] le m = m
In-drop_le a (suc h) (suc k) (x ∷ xs) le m = In-drop_le a h k xs (omega arith) m

-- What an insertion does to the window behind `h`, where the position is not before `h`.
drop-insert_at :
    (a h idx tag : ℕ) (xs : List ℕ)
    → h ≤ idx
    → idx ≤ length xs
    → ((a ≡ tag) ⊎ In a (drop h xs))
    → In a (drop h (insert_at idx tag xs))
unfolding insert_at
drop-insert_at a zero zero tag xs le b (inl e) = inl (sym e)
drop-insert_at a zero zero tag xs le b (inr m) = inr m
drop-insert_at a zero (suc idx) tag [] le b m = absurd (omega arith)
drop-insert_at a zero (suc idx) tag (x ∷ xs) le b (inl e) =
    inr (drop-insert_at a zero idx tag xs (omega arith) (omega arith) (inl e))
drop-insert_at a zero (suc idx) tag (x ∷ xs) le b (inr (inl e)) = inl e
drop-insert_at a zero (suc idx) tag (x ∷ xs) le b (inr (inr m)) =
    inr (drop-insert_at a zero idx tag xs (omega arith) (omega arith) (inr m))
drop-insert_at a (suc h) zero tag xs le b m = absurd (omega arith)
drop-insert_at a (suc h) (suc idx) tag [] le b m = absurd (omega arith)
drop-insert_at a (suc h) (suc idx) tag (x ∷ xs) le b m =
    drop-insert_at a h idx tag xs (omega arith) (omega arith) m

-- A tag that is inserted, and one that was in the window, is in the window afterwards.
In-append_cases : (a tag : ℕ) (xs : List ℕ) → ((a ≡ tag) ⊎ In a xs) → In a (xs ++ tag ∷ [])
In-append_cases a tag xs (inl e) = subst (λ b. In b (xs ++ tag ∷ [])) (sym e) (In-append_new tag xs)
In-append_cases a tag xs (inr m) = In-append_old a tag xs m

In-drop_earlier :
    (a h idx tag : ℕ) (xs : List ℕ)
    → idx ≤ h
    → ((a ≡ tag) ⊎ In a (drop h xs))
    → ((a ≡ tag) ⊎ In a (drop idx xs))
In-drop_earlier a h idx tag xs le (inl e) = inl e
In-drop_earlier a h idx tag xs le (inr m) = inr (In-drop_le a idx h xs le m)

-- A tag that is inserted, and one that was in the window, is in the window afterwards.
pub order_insert-live :
    (t : Tracker) (a tag : ℕ)
    → t.head ≤ length t.order
    → ((a ≡ tag) ⊎ In a (live t))
    → In a (live (order_insert t tag))
unfolding order_insert
order_insert-live t a tag le m = elim (Bool-cases (beyond_last t.order tag)) [
  | inl b ↦ rw (b, drop-append t.head tag t.order le) (In-append_cases a tag (live t) m)
  | inr b ↦
      let idx = search_order t.order tag in
      let fits = search_order-le t.order tag in
      elim (Bool-cases (ltb idx t.head)) [
        | inl low ↦
            rw (b, low)
              (unfold insert_at in
                drop-insert_at a idx idx tag t.order (omega arith) fits (
                  In-drop_earlier a t.head idx tag t.order
                    (omega (arith, (ltb_iff idx t.head).0 low)) m))
        | inr high ↦
            rw (b, high)
              (unfold insert_at in
                drop-insert_at a t.head idx tag t.order (ltb-false idx t.head high) fits m)
      ]
]

length-insert_at :
    (idx tag : ℕ) (xs : List ℕ) → length (take idx xs ++ tag ∷ drop idx xs) ≡ suc (length xs)
length-insert_at zero tag xs = refl
length-insert_at (suc idx) tag [] = refl
length-insert_at (suc idx) tag (x ∷ xs) = ap suc (length-insert_at idx tag xs)

pub order_insert-head :
    (t : Tracker) (tag : ℕ)
    → t.head ≤ length t.order
    → (order_insert t tag).head ≤ length (order_insert t tag).order
unfolding order_insert
order_insert-head t tag le = ground (
  arith,
  length-append t.order (tag ∷ []),
  length-insert_at (search_order t.order tag) tag t.order,
)

-- What the insertion leaves alone.
pub order_insert_frame :
    (t : Tracker) (tag : ℕ)
    → ((order_insert t tag).pending ≡ t.pending)
      × ((order_insert t tag).heap ≡ t.heap)
      × ((order_insert t tag).next ≡ t.next)
      × ((order_insert t tag).is_closed ≡ t.is_closed)
unfolding order_insert
order_insert_frame t tag = ground arith
