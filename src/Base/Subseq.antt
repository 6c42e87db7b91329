-- ===== src/Base/Subseq.antt =====
-- One list is another with items left out, and in the same order.
use Prim.Native.Nat.{ℕ, zero, suc}
use mathlib.Core.List.{List, [], ◌∷◌, ◌++◌, append-nil}
use go_collector.Base.Lists.{take}

pub data Subseq {ℓ} {A : Type ℓ} : List A → List A → Type ℓ where
  nil : Subseq [] []
  keep : {x : A} {xs ys : List A} → Subseq xs ys → Subseq (x ∷ xs) (x ∷ ys)
  skip : {y : A} {xs ys : List A} → Subseq xs ys → Subseq xs (y ∷ ys)

module _ {ℓ} {A : Type ℓ} where
  pub Subseq-refl : (xs : List A) → Subseq xs xs
  Subseq-refl [] = nil
  Subseq-refl (x ∷ xs) = keep (Subseq-refl xs)

  pub Subseq-nil : (xs : List A) → Subseq [] xs
  Subseq-nil [] = nil
  Subseq-nil (x ∷ xs) = skip (Subseq-nil xs)

  pub Subseq-append :
      {xs ys us vs : List A} → Subseq xs ys → Subseq us vs → Subseq (xs ++ us) (ys ++ vs)
  Subseq-append nil q = q
  Subseq-append (keep p) q = keep (Subseq-append p q)
  Subseq-append (skip p) q = skip (Subseq-append p q)

  pub Subseq-take : (n : ℕ) (xs : List A) → Subseq (take n xs) xs
  Subseq-take zero xs = Subseq-nil xs
  Subseq-take (suc n) [] = nil
  Subseq-take (suc n) (x ∷ xs) = keep (Subseq-take n xs)

  pub Subseq-more : {xs ys : List A} (zs : List A) → Subseq xs ys → Subseq xs (ys ++ zs)
  Subseq-more zs h = rw append-nil at (Subseq-append h (Subseq-nil zs))

  trans_after : {ys zs : List A} → Subseq ys zs → {xs : List A} → Subseq xs ys → Subseq xs zs
  trans_after nil p = p
  trans_after (keep q) (keep p) = keep (trans_after q p)
  trans_after (keep q) (skip p) = skip (trans_after q p)
  trans_after (skip q) p = skip (trans_after q p)

  pub Subseq-trans : {xs ys zs : List A} → Subseq xs ys → Subseq ys zs → Subseq xs zs
  Subseq-trans p q = trans_after q p
