-- ===== src/Base/Ranked.antt =====
-- `sorted(..., key=..., reverse=True)`, `heapq.nlargest` and `max(..., key=...)` of Python's library,
-- over a key in the numbers. The sort is stable, also under `reverse=True`, and `max` returns the
-- first of the largest elements.
use Prim.Native.Nat.{ℕ, zero, suc, ◌≤◌, ◌<◌}
use mathlib.Core.List.Perm
use mathlib.Core.List.{List, [], ◌∷◌, ◌++◌, Perm, append-nil, append_assoc}
use mathlib.Core.Logic.{inl, inr}
use mathlib.Core.Path.{◌≡◌, refl, ap, ◌∙◌, subst}
use native.Mathlib.Omega.{arith}
use entity_resolution_engine.Base.Tests.{
  leb, ltb, if◌then◌else◌, Bool-cases, leb→le, not-leb→lt, ltb→lt,
}
use entity_resolution_engine.Base.Lists.{length, take, drop, All, All-append, All-weaken}

module _ {ℓ} {A : Type ℓ} (key : A → ℕ) where
  insert_desc : A → List A → List A
  insert_desc x [] = x ∷ []
  insert_desc x (y ∷ ys) = if leb (key y) (key x) then x ∷ y ∷ ys else y ∷ insert_desc x ys

  -- sorted(xs, key=key, reverse=True)
  unfoldable pub sort_desc : List A → List A
  unfolding insert_desc
  sort_desc [] = []
  sort_desc (x ∷ xs) = insert_desc x (sort_desc xs)

  -- heapq.nlargest(n, xs, key=key), by its documented meaning: sorted(xs, key, reverse=True)[:n]
  unfoldable pub nlargest : ℕ → List A → List A
  unfolding sort_desc
  nlargest n xs = take n (sort_desc xs)

  -- max(x :: xs, key=key)
  unfoldable pub max_by : A → List A → A
  max_by x [] = x
  max_by x (y ∷ ys) = max_by (if ltb (key x) (key y) then y else x) ys

  -- Every element is at least as large as all that follow it.
  abbrev pub IsDescending : List A → Type ℓ
  IsDescending [] = Unit
  IsDescending (x ∷ xs) = All (λ y. key y ≤ key x) xs × IsDescending xs

  insert_desc-perm : (x : A) (ys : List A) → Perm (insert_desc x ys) (x ∷ ys)
  unfolding insert_desc
  insert_desc-perm x [] = Perm.refl (x ∷ [])
  insert_desc-perm x (y ∷ ys) = elim (Bool-cases (leb (key y) (key x))) [
    | inl e ↦ rw e (Perm.refl (x ∷ y ∷ ys))
    | inr e ↦ rw e (Perm.trans (Perm.cons y (insert_desc-perm x ys)) (Perm.swap x y ys))
  ]

  pub sort_desc-perm : (xs : List A) → Perm (sort_desc xs) xs
  unfolding sort_desc
  sort_desc-perm [] = Perm.refl []
  sort_desc-perm (x ∷ xs) =
      Perm.trans (insert_desc-perm x (sort_desc xs)) (Perm.cons x (sort_desc-perm xs))

  All-insert_desc {κ} :
      (P : A → Type κ) (x : A) (ys : List A) → P x → All P ys → All P (insert_desc x ys)
  unfolding insert_desc
  All-insert_desc P x [] px h = (px, tt)
  All-insert_desc P x (y ∷ ys) px h = elim (Bool-cases (leb (key y) (key x))) [
    | inl e ↦ rw e (px, h)
    | inr e ↦ rw e (h.0, All-insert_desc P x ys px h.1)
  ]

  pub All-sort_desc {κ} : (P : A → Type κ) (xs : List A) → All P xs → All P (sort_desc xs)
  unfolding sort_desc
  All-sort_desc P [] h = tt
  All-sort_desc P (x ∷ xs) h = All-insert_desc P x (sort_desc xs) h.0 (All-sort_desc P xs h.1)

  length-insert_desc : (x : A) (ys : List A) → length (insert_desc x ys) ≡ suc (length ys)
  unfolding insert_desc
  length-insert_desc x [] = refl
  length-insert_desc x (y ∷ ys) = ground (arith, length-insert_desc x ys)

  pub length-sort_desc : (xs : List A) → length (sort_desc xs) ≡ length xs
  unfolding sort_desc
  length-sort_desc [] = refl
  length-sort_desc (x ∷ xs) = length-insert_desc x (sort_desc xs) ∙ ap suc (length-sort_desc xs)

  below_trans : (a b : ℕ) (xs : List A) → a ≤ b → All (λ y. key y ≤ a) xs → All (λ y. key y ≤ b) xs
  below_trans a b xs h = All-weaken (λ y. key y ≤ a) (λ y. key y ≤ b) (λ y p. omega arith) xs

  insert_desc-IsDescending :
      (x : A) (ys : List A) → IsDescending ys → IsDescending (insert_desc x ys)
  unfolding insert_desc
  insert_desc-IsDescending x [] h = (tt, tt)
  insert_desc-IsDescending x (y ∷ ys) h = elim (Bool-cases (leb (key y) (key x))) [
    | inl e ↦
        let le = leb→le (key y) (key x) e in rw e ((le, below_trans (key y) (key x) ys le h.0), h)
    | inr e ↦
        let lt = not-leb→lt (key y) (key x) e in
        rw e (
          All-insert_desc (λ z. key z ≤ key y) x ys (omega arith) h.0,
          insert_desc-IsDescending x ys h.1,
        )
  ]

  pub sort_desc-IsDescending : (xs : List A) → IsDescending (sort_desc xs)
  unfolding sort_desc
  sort_desc-IsDescending [] = tt
  sort_desc-IsDescending (x ∷ xs) =
      insert_desc-IsDescending x (sort_desc xs) (sort_desc-IsDescending xs)

  pub IsDescending-take : (n : ℕ) (xs : List A) → IsDescending xs → IsDescending (take n xs)
  IsDescending-take zero xs h = tt
  IsDescending-take (suc n) [] h = tt
  IsDescending-take (suc n) (x ∷ xs) h = (below_take n xs h.0, IsDescending-take n xs h.1)
    where
      below_take :
          (m : ℕ) (ys : List A) → All (λ y. key y ≤ key x) ys → All (λ y. key y ≤ key x) (take m ys)
      below_take zero ys p = tt
      below_take (suc m) [] p = tt
      below_take (suc m) (y ∷ ys) p = (p.0, below_take m ys p.1)

  -- In a descending list, no element behind the first `n` is larger than one of these.
  pub drop-le-take :
      (n : ℕ) (xs : List A)
      → IsDescending xs
      → All (λ x. All (λ y. key y ≤ key x) (drop n xs)) (take n xs)
  drop-le-take zero xs h = tt
  drop-le-take (suc n) [] h = tt
  drop-le-take (suc n) (x ∷ xs) h = (below_drop n xs h.0, drop-le-take n xs h.1)
    where
      below_drop :
          (m : ℕ) (ys : List A) → All (λ y. key y ≤ key x) ys → All (λ y. key y ≤ key x) (drop m ys)
      below_drop zero ys p = p
      below_drop (suc m) [] p = tt
      below_drop (suc m) (y ∷ ys) p = below_drop m ys p.1

  -- `m` stands in the list, everything before it is smaller and nothing behind it is larger.
  pub record IsFirstMax (m : A) (xs : List A) : Type ℓ where
    pub before : List A
    pub after : List A
    pub splits : xs ≡ before ++ m ∷ after
    pub smaller : All (λ y. key y < key m) before
    pub no_larger : All (λ y. key y ≤ key m) after

  -- The loop of `max`, with the elements that it has passed.
  max_by_from :
      (before passed : List A) (x : A) (ys : List A)
      → All (λ y. key y < key x) before
      → All (λ y. key y ≤ key x) passed
      → IsFirstMax (max_by x ys) (before ++ x ∷ (passed ++ ys))
  unfolding max_by
  max_by_from before passed x [] hb hp = record {
    before = before;
    after = passed ++ [];
    splits = refl;
    smaller = hb;
    no_larger = rw append-nil hp;
  }
  max_by_from before passed x (y ∷ ys) hb hp = elim (Bool-cases (ltb (key x) (key y))) [
    | inl e ↦
        let lt = ltb→lt (key x) (key y) e in
        let below : All (λ z. key z < key y) (before ++ x ∷ passed) =
          All-append (λ z. key z < key y) before (x ∷ passed)
            (All-weaken (λ z. key z < key x) (λ z. key z < key y) (λ z p. omega arith) before hb)
            (
              lt,
              All-weaken (λ z. key z ≤ key x) (λ z. key z < key y) (λ z p. omega arith) passed hp,
            ) in
        rw e (
          subst (IsFirstMax (max_by y ys)) (append_assoc before (x ∷ passed) (y ∷ ys))
            (max_by_from (before ++ x ∷ passed) [] y ys below tt))
    | inr e ↦
        let le : key y ≤ key x = ground arith in
        rw e (
          subst (λ l. IsFirstMax (max_by x ys) (before ++ x ∷ l)) (append_assoc passed (y ∷ []) ys)
            (max_by_from before (passed ++ y ∷ []) x ys hb
              (All-append (λ z. key z ≤ key x) passed (y ∷ []) hp (le, tt))))
  ]

  pub max_by-IsFirstMax : (x : A) (ys : List A) → IsFirstMax (max_by x ys) (x ∷ ys)
  max_by-IsFirstMax x ys = max_by_from [] [] x ys tt tt
