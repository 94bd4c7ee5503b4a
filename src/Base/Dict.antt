-- ===== src/Base/Dict.antt =====
-- A Python dictionary, as the list of its items in the order of insertion.
use Prim.Native.String.{String}
use mathlib.Core.List.{List, [], ◌∷◌}
use mathlib.Core.Option.{Option, none, some}
use opc_stack.Base.Tests.{if◌then◌else◌}
use text.Mathlib.Text.{◌==◌}

-- `d[key] = value`
unfoldable pub put {ℓ} : {A : Type ℓ} → String → A → List (String × A) → List (String × A)
put key value [] = (key, value) ∷ []
put key value ((k, v) ∷ more) = if k == key then (k, value) ∷ more else (k, v) ∷ put key value more

-- `d.get(key)`
unfoldable pub get {ℓ} : {A : Type ℓ} → String → List (String × A) → Option A
get key [] = none
get key ((k, v) ∷ more) = if k == key then some v else get key more
