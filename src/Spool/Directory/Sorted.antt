-- ===== src/Spool/Directory/Sorted.antt =====
-- Ascending lists of generations, and what insertion and removal do to them.
use go_collector.Base.{
  ℕ, ◌≤◌, ◌<◌, List, [], ◌∷◌, ◌++◌, ◌≡◌, refl, sym, ap, ◌∙◌, some, Bool, arith, All, leb, ◌==◌,
  if◌then◌else◌, lt→leb, Bool-cases, inl, inr,
}
use go_collector.Spool.Directory.{insert_sorted, sort, last}

-- Each is above the one before it, and the first above `lo`.
abbrev pub Above : ℕ → List ℕ → Type 0
Above lo [] = Unit
Above lo (x ∷ xs) = (lo ≤ x) × Above x xs

abbrev pub Ascending : List ℕ → Type 0
Ascending xs = Above 0 xs

pub Above-insert_sorted :
    (lo x : ℕ) (xs : List ℕ) → lo ≤ x → Above lo xs → Above lo (insert_sorted x xs)
Above-insert_sorted lo x [] h a = (h, tt)
Above-insert_sorted lo x (y ∷ ys) h a = elim (Bool-cases (leb x y)) [
  | inl le ↦ rw le (h, (ground arith, a.1))
  | inr gt ↦ rw gt (a.0, Above-insert_sorted y x ys (ground arith) a.1)
]

-- `sort` returns its list in ascending order.
pub Ascending-sort : (xs : List ℕ) → Ascending (sort xs)
Ascending-sort [] = tt
Ascending-sort (x ∷ xs) = Above-insert_sorted 0 x (sort xs) (omega arith) (Ascending-sort xs)

pub insert_sorted-last :
    (x : ℕ) (xs : List ℕ) → All (λ y. y < x) xs → insert_sorted x xs ≡ xs ++ x ∷ []
insert_sorted-last x [] h = refl
insert_sorted-last x (y ∷ ys) h = rw (lt→leb x y h.0) (ap (◌∷◌ y) (insert_sorted-last x ys h.1))

pub last-append : (xs : List ℕ) (x : ℕ) → last (xs ++ x ∷ []) ≡ some x
last-append [] x = refl
last-append (y ∷ []) x = refl
last-append (y ∷ z ∷ zs) x = last-append (z ∷ zs) x

abbrev pub without : ℕ → List ℕ → List ℕ
without g [] = []
without g (x ∷ xs) = if x == g then without g xs else x ∷ without g xs

insert_sorted-Above : (x lo : ℕ) (xs : List ℕ) → x ≤ lo → Above lo xs → insert_sorted x xs ≡ x ∷ xs
insert_sorted-Above x lo [] h a = refl
insert_sorted-Above x lo (y ∷ ys) h a = ground arith

Above-weaken : (a b : ℕ) (xs : List ℕ) → a ≤ b → Above b xs → Above a xs
Above-weaken a b [] h k = tt
Above-weaken a b (x ∷ xs) h k = (omega arith, k.1)

Above-without : (lo g : ℕ) (xs : List ℕ) → Above lo xs → Above lo (without g xs)
Above-without lo g [] a = tt
Above-without lo g (x ∷ xs) a = elim (Bool-cases (x == g)) [
  | inl same ↦ rw same (Above-without lo g xs (Above-weaken lo x xs a.0 a.1))
  | inr other ↦ rw other (a.0, Above-without x g xs a.1)
]

without-insert_self : (g : ℕ) (xs : List ℕ) → without g (insert_sorted g xs) ≡ without g xs
without-insert_self g [] = ground arith
without-insert_self g (x ∷ xs) = ground (arith, without-insert_self g xs)

without-insert_ne :
    (g x lo : ℕ) (xs : List ℕ)
    → (x == g) ≡ Bool.false
    → Above lo xs
    → without g (insert_sorted x xs) ≡ insert_sorted x (without g xs)
without-insert_ne g x lo [] ne a = rw ne
without-insert_ne g x lo (y ∷ ys) ne a = elim (Bool-cases (leb x y)) [
  | inl le ↦
      ground
        (arith, insert_sorted-Above x y (without g ys) (ground arith) (Above-without y g ys a.1))
  | inr gt ↦ ground (arith, without-insert_ne g x y ys ne a.1)
]

-- Taking a generation out before sorting is taking it out afterwards.
pub sort-without : (g : ℕ) (xs : List ℕ) → sort (without g xs) ≡ without g (sort xs)
sort-without g [] = refl
sort-without g (x ∷ xs) = elim (Bool-cases (x == g)) [
  | inl same ↦ ground (arith, sort-without g xs, without-insert_self g (sort xs))
  | inr other ↦ rw other (
      ap (insert_sorted x) (sort-without g xs)
      ∙ sym (without-insert_ne g x 0 (sort xs) other (Ascending-sort xs)))
]

pub without-All : (g : ℕ) (xs : List ℕ) → All (λ x. g < x) xs → without g xs ≡ xs
without-All g [] h = refl
without-All g (x ∷ xs) h = ground (arith, without-All g xs h.1)
