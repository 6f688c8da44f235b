-- ===== src/Contracts/Dag/Order.antt =====
-- backend/app/runtime/contracts.py: the loop of `topological_order` and `_template_order`. `pending`
-- pairs each item with the dependencies that are still open, in the order of the items, as the
-- dict does; `by_key[key]` is the item, since the keys are unique (`validate_graph`).
pub mod Rounds
pub mod Sound
pub mod Complete
pub mod Progress
pub mod Members
use reviewlens_ai.Prelude.{
  ℕ, zero, suc, String, Bool, true, false, not, List, [], ◌∷◌, ◌++◌, map, ◌==◌, string_eq, filter,
  length, if◌then◌else◌,
}

-- `cycle` is the ValueError "workflow DAG contains a cycle".
pub data Sorted {ℓ} (A : Type ℓ) : Type ℓ where
  sorted : List A → Sorted A
  cycle : Sorted A
  out_of_fuel : Sorted A

-- `dependencies.discard(key)`.
unfoldable pub discard : String → List String → List String
discard k [] = []
discard k (d ∷ ds) = let rest = discard k ds in if d == k then rest else d ∷ rest

-- Each item with its open dependencies.
abbrev pub Pending {ℓ} : Type ℓ → Type ℓ
Pending A = List (A × List String)

module _ {ℓ} {A : Type ℓ} where
  abbrev pub items : Pending A → List A
  items [] = []
  items ((x, ds) ∷ p) = x ∷ items p

  unfoldable pub ready : Pending A → List A
  ready [] = []
  ready ((x, []) ∷ p) = x ∷ ready p
  ready ((x, d ∷ ds) ∷ p) = ready p

  unfoldable pub start : (A → List String) → List A → Pending A
  start deps [] = []
  start deps (x ∷ xs) = (x, deps x) ∷ start deps xs

module _ {ℓ} {A : Type ℓ} (key : A → String) where
  abbrev pub keys : List A → List String
  keys [] = []
  keys (x ∷ xs) = key x ∷ keys xs

  -- `pending.pop(key)`, and `discard(key)` on what is left.
  unfoldable pub release : String → Pending A → Pending A
  release k [] = []
  release k ((x, ds) ∷ p) =
      let rest = release k p in if key x == k then rest else (x, discard k ds) ∷ rest

  unfoldable pub release_all : List A → Pending A → Pending A
  unfolding release
  release_all [] p = p
  release_all (x ∷ xs) p = release_all xs (release (key x) p)

  -- The body of `while pending`, with the rest of the loop as a function.
  unfoldable pub order_round :
      (Pending A → List A → Sorted A) → List A → Pending A → List A → Sorted A
  unfolding release_all
  order_round loop [] p done = cycle
  order_round loop (x ∷ xs) p done = loop (release_all (x ∷ xs) p) (done ++ x ∷ xs)

  unfoldable pub order_loop : ℕ → Pending A → List A → Sorted A
  unfolding order_round ready discard
  order_loop zero p done = out_of_fuel
  order_loop (suc f) [] done = sorted done
  order_loop (suc f) (e ∷ p) done = order_round (order_loop f) (ready (e ∷ p)) (e ∷ p) done

  -- One round for each item, and one to see that none is left.
  unfoldable pub order : (A → List String) → List A → Sorted A
  unfolding order_loop start
  order deps xs = order_loop (suc (length xs)) (start deps xs) []
