-- ===== src/Contracts/Dag/Order/Rounds.antt =====
-- What one round of the ordering loop does to the keys and the open dependencies.
use reviewlens_ai.Prelude.{
  ◌≤◌, ◌<◌, String, true, not, ◌&&◌, ◌||◌, ◌≡◌, refl, ap, List, [], ◌∷◌, ◌++◌, ◌==◌, string_eq,
  contains, length, arith, Among, Bool-cases, inl, inr,
}
use text.Mathlib.TextEquality.{eq_iff}
use reviewlens_ai.Contracts.Dag.Order.{
  Sorted, sorted, Pending, items, keys, discard, release, release_all, ready,
}

abbrev pub sorted_items {ℓ} : {A : Type ℓ} → List A → Sorted A → List A
sorted_items d (sorted xs) = xs
sorted_items d _ = d

pub sorted_inj {ℓ} : {A : Type ℓ} {xs ys : List A} → sorted xs ≡ sorted ys → xs ≡ ys
sorted_inj {xs = xs} h = ap (sorted_items xs) h

pub contains-append :
    (xs ys : List String) (j : String) → contains (xs ++ ys) j ≡ (contains xs j || contains ys j)
contains-append [] ys j = refl
contains-append (x ∷ xs) ys j = ground (arith, contains-append xs ys j)

pub contains-discard :
    (k j : String) (ds : List String) → contains (discard k ds) j ≡ (not (j == k) && contains ds j)
unfolding discard
contains-discard k j [] = ground arith
contains-discard k j (d ∷ ds) =
    ground (arith, contains-discard k j ds, eq_iff d k, eq_iff j k, eq_iff j d)

module _ {ℓ} {A : Type ℓ} (key : A → String) where
  pub keys-append : (xs ys : List A) → keys key (xs ++ ys) ≡ keys key xs ++ keys key ys
  keys-append [] ys = refl
  keys-append (x ∷ xs) ys = rw (keys-append xs ys)

  pub contains-release :
      (k j : String) (p : Pending A)
      → contains (keys key (items (release key k p))) j
        ≡ (not (j == k) && contains (keys key (items p)) j)
  unfolding release
  contains-release k j [] = ground arith
  contains-release k j ((x, ds) ∷ p) =
      ground (arith, contains-release k j p, eq_iff (key x) k, eq_iff j k, eq_iff j (key x))

  pub contains-release_all :
      (xs : List A) (j : String) (p : Pending A)
      → contains (keys key (items (release_all key xs p))) j
        ≡ (not (contains (keys key xs) j) && contains (keys key (items p)) j)
  unfolding release_all
  contains-release_all [] j p = ground arith
  contains-release_all (x ∷ xs) j p =
      ground
        (arith, contains-release_all xs j (release key (key x) p), contains-release (key x) j p)

  pub contains-ready :
      (p : Pending A) (j : String)
      → contains (keys key (ready p)) j ≡ true
      → contains (keys key (items p)) j ≡ true
  unfolding ready
  contains-ready [] j h = cc
  contains-ready ((x, []) ∷ p) j h = ground (arith, contains-ready p j)
  contains-ready ((x, d ∷ ds) ∷ p) j h = ground (arith, contains-ready p j)

  pub length-release : (k : String) (p : Pending A) → length (release key k p) ≤ length p
  unfolding release
  length-release k [] = omega arith
  length-release k ((x, ds) ∷ p) = ground (arith, length-release k p)

  pub length-release_lt :
      (k : String) (p : Pending A)
      → contains (keys key (items p)) k ≡ true
      → length (release key k p) < length p
  unfolding release
  length-release_lt k [] h = cc
  length-release_lt k ((x, ds) ∷ p) h =
      ground (arith, length-release_lt k p, length-release k p, eq_iff (key x) k, eq_iff k (key x))

  pub length-release_all : (xs : List A) (p : Pending A) → length (release_all key xs p) ≤ length p
  unfolding release_all
  length-release_all [] p = omega arith
  length-release_all (x ∷ xs) p =
      omega (arith, length-release_all xs (release key (key x) p), length-release (key x) p)

module _ {A : Type 0} (key : A → String) where
  release-Among :
      (x : A) (k : String) (p : Pending A) → Among x (items (release key k p)) → Among x (items p)
  unfolding release
  release-Among x k [] = λ h. h
  release-Among x k ((y, ds) ∷ p) = elim (Bool-cases (key y == k)) [
    | inl e ↦ rw e (λ h. inr (release-Among x k p h))
    | inr e ↦ rw e (λ h. elim h [ inl i ↦ inl i | inr i ↦ inr (release-Among x k p i) ])
  ]

  pub release_all-Among :
      (x : A) (xs : List A) (p : Pending A)
      → Among x (items (release_all key xs p))
      → Among x (items p)
  unfolding release_all
  release_all-Among x [] p h = h
  release_all-Among x (y ∷ ys) p h =
      release-Among x (key y) p (release_all-Among x ys (release key (key y) p) h)
