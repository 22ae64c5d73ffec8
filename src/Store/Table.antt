-- ===== src/Store/Table.antt =====
-- What the forms of SQL statements that the program uses do to the rows of one table.
use omniscient.Prelude.{
  refl, ◌≤◌, ◌≢◌, ◌&&◌, length, ◌≡◌, Bool, true, false, Option, none, some, List, [], ◌∷◌,
  if◌then◌else◌, arith, filter, any, All, not,
}

module _ {ℓ} {A : Type ℓ} where
  -- INSERT … ON CONFLICT … DO UPDATE: `f` is applied to the row in conflict.
  unfoldable pub upsert : (A → Bool) → A → (A → A) → List A → List A
  upsert conflict new f [] = new ∷ []
  upsert conflict new f (x ∷ xs) = if conflict x then f x ∷ xs else x ∷ upsert conflict new f xs

  -- INSERT … ON CONFLICT DO NOTHING
  abbrev pub insert_new : (A → Bool) → A → List A → List A
  insert_new conflict new xs = upsert conflict new (λ x. x) xs

  -- UPDATE … WHERE
  unfoldable pub update_where : (A → Bool) → (A → A) → List A → List A
  update_where p f [] = []
  update_where p f (x ∷ xs) = (if p x then f x else x) ∷ update_where p f xs

  -- DELETE … WHERE
  abbrev pub delete_where : (A → Bool) → List A → List A
  delete_where p xs = filter (λ x. not (p x)) xs

  -- SELECT … WHERE, of a key
  unfoldable pub find : (A → Bool) → List A → Option A
  find p [] = none
  find p (x ∷ xs) = if p x then some x else find p xs

  pub find-upsert :
      (p : A → Bool) (new : A) (f : A → A) (xs : List A)
      → p new ≡ true
      → ((x : A) → p x ≡ true → p (f x) ≡ true)
      → find p (upsert p new f xs) ≡ some (elim (find p xs) [ none ↦ new | some x ↦ f x ])
  unfolding find upsert
  find-upsert p new f [] h k = ground arith
  find-upsert p new f (x ∷ xs) h k = ground (arith, find-upsert p new f xs h k, k x)

  pub find-upsert_other :
      (p q : A → Bool) (new : A) (f : A → A) (xs : List A)
      → q new ≡ false
      → ((x : A) → p x ≡ true → (q x ≡ false) × (q (f x) ≡ false))
      → find q (upsert p new f xs) ≡ find q xs
  unfolding find upsert
  find-upsert_other p q new f [] h k = ground arith
  find-upsert_other p q new f (x ∷ xs) h k = ground (arith, find-upsert_other p q new f xs h k, k x)

  pub any-upsert :
      (p : A → Bool) (new : A) (f : A → A) (xs : List A)
      → p new ≡ true
      → ((x : A) → p x ≡ true → p (f x) ≡ true)
      → any p (upsert p new f xs) ≡ true
  unfolding upsert
  any-upsert p new f [] h k = ground arith
  any-upsert p new f (x ∷ xs) h k = ground (arith, any-upsert p new f xs h k, k x)

  pub update_where-none :
      (p : A → Bool) (f : A → A) (xs : List A) → length (filter p xs) ≡ 0 → update_where p f xs ≡ xs
  unfolding update_where
  update_where-none p f [] h = refl
  update_where-none p f (x ∷ xs) h = ground (arith, update_where-none p f xs)

  filter_and-none :
      (p c : A → Bool) (xs : List A)
      → length (filter p xs) ≡ 0
      → length (filter (λ x. p x && c x) xs) ≡ 0
  filter_and-none p c [] h = refl
  filter_and-none p c (x ∷ xs) h = ground (arith, filter_and-none p c xs)

  -- What `f` does to the one row of `p` is undone by `g`.
  pub update_where_undo :
      (p c : A → Bool) (f g : A → A) (xs : List A)
      → ((x : A) → p x ≡ true → (p (f x) ≡ true) × (g (f x) ≡ x))
      → length (filter p xs) ≤ 1
      → length (filter (λ x. p x && c x) xs) ≢ 0
      → update_where p g (update_where (λ x. p x && c x) f xs) ≡ xs
  unfolding update_where
  update_where_undo p c f g [] h u n = refl
  update_where_undo p c f g (x ∷ xs) h u n = ground (
    arith,
    h x,
    filter_and-none p c xs,
    update_where-none (λ y. p y && c y) f xs,
    update_where-none p g xs,
    update_where_undo p c f g xs h,
  )

  pub All-update_where {κ} :
      (P : A → Type κ) (p : A → Bool) (f : A → A) (xs : List A)
      → ((x : A) → p x ≡ true → P x → P (f x))
      → All P xs
      → All P (update_where p f xs)
  unfolding update_where
  All-update_where P p f [] k h = tt
  All-update_where P p f (x ∷ xs) k h = (by_test (p x) refl, All-update_where P p f xs k h.1)
    where
      by_test : (b : Bool) → p x ≡ b → P (if b then f x else x)
      by_test true e = k x e h.0
      by_test false e = h.0

  pub All-upsert {κ} :
      (P : A → Type κ) (p : A → Bool) (new : A) (f : A → A) (xs : List A)
      → P new
      → ((x : A) → P x → P (f x))
      → All P xs
      → All P (upsert p new f xs)
  unfolding upsert
  All-upsert P p new f [] n k h = (n, tt)
  All-upsert P p new f (x ∷ xs) n k h = by_test (p x) (All-upsert P p new f xs n k h.1)
    where
      by_test :
          (b : Bool)
          → All P (upsert p new f xs)
          → All P (if b then f x ∷ xs else x ∷ upsert p new f xs)
      by_test true r = (k x h.0, h.1)
      by_test false r = (h.0, r)
