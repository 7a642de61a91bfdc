-- ===== src/Runtime/Array/Refines.antt =====
-- The array as the list of its values.
use fermi.Base.{
  ℕ, zero, suc, ◌+◌, ◌-◌, ◌<◌, ◌≤◌, ◌≡◌, refl, arith, false, List, [], ◌∷◌, ◌++◌, Option, none,
  some, if◌then◌else◌, ltb, leb, ◌==◌, length, get_or, ap, sym, ◌∙◌, Bool-cases, inl, inr,
}
use fermi.Base.Int.{ℤ, pos, negsuc}
use fermi.Runtime.Array.{
  FeArray, initial_cap, fe_array_new, grow, write_at, fe_array_push, fe_array_pop, fe_array_get,
  fe_array_set,
}

-- The array holds the values of a list, all of them within its capacity.
pub record Holds (a : FeArray) (xs : List ℤ) : Type 0 where
  pub len_is : a.len ≡ length xs
  pub within : a.len ≤ a.cap
  pub room : 0 < a.cap
  pub values : (i : ℕ) → i < length xs → a.data_at i ≡ some (get_or xs i (pos 0))

get_or-snoc_old :
    (xs : List ℤ) (v : ℤ) (i : ℕ)
    → i < length xs
    → get_or (xs ++ v ∷ []) i (pos 0) ≡ get_or xs i (pos 0)
get_or-snoc_old [] v i h = absurd (omega arith)
get_or-snoc_old (x ∷ xs) v zero h = refl
get_or-snoc_old (x ∷ xs) v (suc i) h = get_or-snoc_old xs v i (omega arith)

get_or-snoc_new : (xs : List ℤ) (v : ℤ) → get_or (xs ++ v ∷ []) (length xs) (pos 0) ≡ v
get_or-snoc_new [] v = refl
get_or-snoc_new (x ∷ xs) v = get_or-snoc_new xs v

length-snoc : (xs : List ℤ) (v : ℤ) → length (xs ++ v ∷ []) ≡ length xs + 1
length-snoc [] v = refl
length-snoc (x ∷ xs) v = omega (arith, length-snoc xs v)

-- Growing keeps the values, and leaves room for one more.
grow-Holds : (a : FeArray) (xs : List ℤ) → Holds a xs → Holds (grow a) xs × (a.len < (grow a).cap)
unfolding grow
grow-Holds a xs h = (
  record {
    len_is = ground (arith, h.len_is);
    within = ground (arith, h.within);
    room = ground (arith, h.room);
    values = λ i l. ground (arith, h.values i l, h.within, h.len_is);
  },
  ground (arith, h.room, h.within),
)

-- The list `xs` with its value at `i` replaced.
pub replace_at : List ℤ → ℕ → ℤ → List ℤ
replace_at [] i v = []
replace_at (x ∷ xs) zero v = v ∷ xs
replace_at (x ∷ xs) (suc i) v = x ∷ replace_at xs i v

length-replace_at : (xs : List ℤ) (i : ℕ) (v : ℤ) → length (replace_at xs i v) ≡ length xs
unfolding replace_at
length-replace_at [] i v = refl
length-replace_at (x ∷ xs) zero v = refl
length-replace_at (x ∷ xs) (suc i) v = omega (arith, length-replace_at xs i v)

get_or-replace_at :
    (xs : List ℤ) (i : ℕ) (v : ℤ) (j : ℕ)
    → j < length xs
    → get_or (replace_at xs i v) j (pos 0) ≡ (if j == i then v else get_or xs j (pos 0))
unfolding replace_at
get_or-replace_at [] i v j h = absurd (omega arith)
get_or-replace_at (x ∷ xs) zero v zero h = refl
get_or-replace_at (x ∷ xs) zero v (suc j) h = ground arith
get_or-replace_at (x ∷ xs) (suc i) v zero h = ground arith
get_or-replace_at (x ∷ xs) (suc i) v (suc j) h = ground (arith, get_or-replace_at xs i v j)

-- An array, not null, that holds a list.
abbrev pub HoldsAt : Option FeArray → List ℤ → Type 0
HoldsAt none xs = ⊥
HoldsAt (some a) xs = Holds a xs

-- A new array holds the empty list, whatever capacity is asked for.
pub fe_array_new-Holds : (cap : ℤ) → Holds (fe_array_new cap) []
unfolding fe_array_new initial_cap
fe_array_new-Holds (pos n) = record {
  len_is = refl;
  within = omega arith;
  room = ground arith;
  values = λ i h. absurd (omega arith);
}
fe_array_new-Holds (negsuc n) = record {
  len_is = refl;
  within = omega arith;
  room = omega arith;
  values = λ i h. absurd (omega arith);
}

-- `fe_array_push` on an array that holds a list appends the value to the list, and stores it within
-- the capacity, which grows where it is used up.
pub fe_array_push-Holds :
    (a : FeArray) (xs : List ℤ) (v : ℤ)
    → Holds a xs
    → HoldsAt (fe_array_push (some a) v) (xs ++ v ∷ [])
unfolding fe_array_push write_at
fe_array_push-Holds a xs v h =
    let (g, room) = grow-Holds a xs h in
    record {
      len_is = omega (arith, g.len_is, length-snoc xs v);
      within = omega (arith, g.len_is, h.len_is, room);
      room = g.room;
      values = λ i l. ground (
        arith,
        g.values i,
        g.len_is,
        length-snoc xs v,
        get_or-snoc_new xs v,
        get_or-snoc_old xs v i,
      );
    }

-- `fe_array_pop` on an array that holds a list with a last value gives this value, and the array
-- then holds the list without it.
pub fe_array_pop-Holds :
    (a : FeArray) (xs : List ℤ) (v : ℤ)
    → Holds a (xs ++ v ∷ [])
    → ((fe_array_pop (some a)).0 ≡ some v) × HoldsAt (fe_array_pop (some a)).1 xs
unfolding fe_array_pop
fe_array_pop-Holds a xs v h =
    let n = length-snoc xs v in
    let some_left : (a.len == 0) ≡ false = ground (arith, h.len_is) in
    let top : a.len - 1 ≡ length xs = omega (arith, h.len_is) in
    rw some_left (
      rw top (h.values (length xs) (omega arith) ∙ ap some (get_or-snoc_new xs v)),
      record {
        len_is = top;
        within = omega (arith, h.within);
        room = h.room;
        values = λ i l. h.values i (omega arith) ∙ ap some (get_or-snoc_old xs v i l);
      },
    )

get_or-beyond : (xs : List ℤ) (n : ℕ) → length xs ≤ n → get_or xs n (pos 0) ≡ pos 0
get_or-beyond [] n h = refl
get_or-beyond (x ∷ xs) zero h = absurd (omega arith)
get_or-beyond (x ∷ xs) (suc n) h = get_or-beyond xs n (omega arith)

replace_at-beyond : (xs : List ℤ) (n : ℕ) (v : ℤ) → length xs ≤ n → replace_at xs n v ≡ xs
unfolding replace_at
replace_at-beyond [] n v h = refl
replace_at-beyond (x ∷ xs) zero v h = absurd (omega arith)
replace_at-beyond (x ∷ xs) (suc n) v h = ap (λ ys. x ∷ ys) (replace_at-beyond xs n v (omega arith))

-- On an array that holds a list, `fe_array_get` gives the value at an index of the list and 0 at any
-- other, the negative ones included; it reads no unset memory.
pub fe_array_get-Holds :
    (a : FeArray) (xs : List ℤ) (n : ℕ)
    → Holds a xs
    → (fe_array_get (some a) (pos n) ≡ some (get_or xs n (pos 0)))
      × (fe_array_get (some a) (negsuc n) ≡ some (pos 0))
unfolding fe_array_get
fe_array_get-Holds a xs n h = elim (Bool-cases (leb a.len n)) [
  | inl e ↦ rw e (ap some (sym (get_or-beyond xs n (ground (arith, h.len_is)))), refl)
  | inr e ↦ rw e (h.values n (ground (arith, h.len_is)), refl)
]

-- On an array that holds a list, `fe_array_set` replaces the value at an index of the list, and does
-- nothing at any other, the negative ones included.
pub fe_array_set-Holds :
    (a : FeArray) (xs : List ℤ) (n : ℕ) (v : ℤ)
    → Holds a xs
    → HoldsAt (fe_array_set (some a) (pos n) v) (replace_at xs n v)
      × (fe_array_set (some a) (negsuc n) v ≡ some a)
unfolding fe_array_set write_at
fe_array_set-Holds a xs n v h = elim (Bool-cases (ltb n a.len)) [
  | inl e ↦
      let n_is = length-replace_at xs n v in
      rw e (
        record {
          len_is = omega (arith, h.len_is);
          within = h.within;
          room = h.room;
          values = λ i l. ground (arith, h.values i, get_or-replace_at xs n v i, n_is);
        },
        refl,
      )
  | inr e ↦ rw (e, replace_at-beyond xs n v (ground (arith, h.len_is))) (h, refl)
]
