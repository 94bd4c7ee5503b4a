-- ===== src/Base/Table.antt =====
-- A sqlite table with a text primary key, as the list of its rows in the order of insertion, and
-- the statements that the store sends: SELECT by key, INSERT OR IGNORE, INSERT with ON CONFLICT,
-- UPDATE by key. Rows of any type with a key.
use Prim.Native.String.{String}
use mathlib.Core.Path.{◌≡◌, refl}
use mathlib.Core.Logic.{◌≢◌}
use mathlib.Core.Bool.{Bool, false, ◌||◌}
use mathlib.Core.Option.{Option, none, some}
use mathlib.Core.Option
use mathlib.Core.List.{List, [], ◌∷◌, ◌++◌, map}
use native.Mathlib.Omega.{arith}
use text.Mathlib.Text.{◌==◌}
use text.Mathlib.TextEquality.{eq_iff}
use opc_stack.Base.Tests.{if◌then◌else◌, is_some}
use opc_stack.Base.Lists.{All}

abbrev pub contains : String → List String → Bool
contains k [] = false
contains k (x ∷ xs) = x == k || contains k xs

-- No two texts of the list are equal.
abbrev pub Distinct : List String → Type 0
Distinct [] = Unit
Distinct (x ∷ xs) = All (λ y. x ≢ y) xs × Distinct xs

pub Distinct-snoc :
    (k : String) (xs : List String) → contains k xs ≡ false → Distinct xs → Distinct (xs ++ k ∷ [])
Distinct-snoc k [] h d = (tt, tt)
Distinct-snoc k (x ∷ xs) h d = (apart xs d.0, Distinct-snoc k xs (ground arith) d.1)
  where
    apart : (ys : List String) → All (λ y. x ≢ y) ys → All (λ y. x ≢ y) (ys ++ k ∷ [])
    apart [] a = ((λ e. ground (arith, eq_iff x k)), tt)
    apart (y ∷ ys) a = (a.0, apart ys a.1)

module _ {ℓ} {R : Type ℓ} (key : R → String) where
  -- SELECT … WHERE key = ?
  unfoldable pub find : String → List R → Option R
  find k [] = none
  find k (r ∷ rows) = if key r == k then some r else find k rows

  -- UPDATE … WHERE key = ?
  unfoldable pub update : String → (R → R) → List R → List R
  update k f [] = []
  update k f (r ∷ rows) = (if key r == k then f r else r) ∷ update k f rows

  -- INSERT … ON CONFLICT(key) DO UPDATE; `merge` takes the old row and the excluded one.
  unfoldable pub upsert : (R → R → R) → R → List R → List R
  upsert merge r [] = r ∷ []
  upsert merge r (old ∷ rows) =
      if key old == key r then merge old r ∷ rows else old ∷ upsert merge r rows

  -- INSERT, with its failure on a key that is taken.
  unfoldable pub insert : R → List R → Option (List R)
  unfolding find
  insert r rows = if is_some (find (key r) rows) then none else some (rows ++ r ∷ [])

  abbrev pub merged : (R → R → R) → R → Option R → R
  merged merge r none = r
  merged merge r (some old) = merge old r

  pub find-update :
      (j k : String) (f : R → R) (rows : List R)
      → ((r : R) → key (f r) ≡ key r)
      → find j (update k f rows) ≡ (if k == j then Option.map f (find j rows) else find j rows)
  unfolding find update
  find-update j k f [] keeps = ground arith
  find-update j k f (r ∷ rows) keeps = ground (
    arith,
    keeps r,
    eq_iff k j,
    eq_iff (key r) k,
    eq_iff (key r) j,
    eq_iff (key (f r)) j,
    find-update j k f rows keeps,
  )

  pub find-upsert :
      (j : String) (merge : R → R → R) (r : R) (rows : List R)
      → ((old : R) → key (merge old r) ≡ key old)
      → find j (upsert merge r rows)
        ≡ (if key r == j then some (merged merge r (find j rows)) else find j rows)
  unfolding find upsert
  find-upsert j merge r [] keeps = ground arith
  find-upsert j merge r (old ∷ rows) keeps = ground (
    arith,
    keeps old,
    eq_iff (key r) j,
    eq_iff (key old) (key r),
    eq_iff (key old) j,
    eq_iff (key (merge old r)) j,
    find-upsert j merge r rows keeps,
  )

  pub find-append :
      (j : String) (rows more : List R)
      → find j (rows ++ more) ≡ (if is_some (find j rows) then find j rows else find j more)
  unfolding find
  find-append j [] more = refl
  find-append j (r ∷ rows) more = ground (arith, find-append j rows more)

  pub map-update :
      (k : String) (f : R → R) (rows : List R)
      → ((r : R) → key (f r) ≡ key r)
      → map key (update k f rows) ≡ map key rows
  unfolding update
  map-update k f [] keeps = refl
  map-update k f (r ∷ rows) keeps = ground (arith, keeps r, map-update k f rows keeps)

  pub update-update :
      (k : String) (f g : R → R) (rows : List R)
      → ((r : R) → key (f r) ≡ key r)
      → update k g (update k f rows) ≡ update k (λ r. g (f r)) rows
  unfolding update
  update-update k f g [] keeps = refl
  update-update k f g (r ∷ rows) keeps =
      ground
        (arith, keeps r, eq_iff (key r) k, eq_iff (key (f r)) k, update-update k f g rows keeps)

  pub update-id : (k : String) (rows : List R) → update k (λ r. r) rows ≡ rows
  unfolding update
  update-id k [] = refl
  update-id k (r ∷ rows) = ground (arith, update-id k rows)

  pub find-key : (k : String) (rows : List R) (r : R) → find k rows ≡ some r → key r ≡ k
  unfolding find
  find-key k [] r h = cc
  find-key k (x ∷ rows) r h = ground (arith, eq_iff (key x) k, find-key k rows r)

  pub is_some-find :
      (k : String) (rows : List R) → is_some (find k rows) ≡ contains k (map key rows)
  unfolding find
  is_some-find k [] = refl
  is_some-find k (r ∷ rows) = ground (arith, is_some-find k rows)

  find-All-After :
      (r : R) (rows more : List R)
      → All (λ k. key r ≢ k) (map key more)
      → All (λ s. find (key s) rows ≡ some s) more
      → All (λ s. find (key s) (r ∷ rows) ≡ some s) more
  unfolding find
  find-All-After r rows [] h k = tt
  find-All-After r rows (s ∷ more) h k =
      (ground (arith, eq_iff (key r) (key s), h.0, k.0), find-All-After r rows more h.1 k.1)

  -- With distinct keys each row is what its key finds.
  pub find-All :
      (rows : List R) → Distinct (map key rows) → All (λ s. find (key s) rows ≡ some s) rows
  unfolding find
  find-All [] d = tt
  find-All (r ∷ rows) d =
      (ground (arith, eq_iff (key r) (key r)), find-All-After r rows rows d.0 (find-All rows d.1))
