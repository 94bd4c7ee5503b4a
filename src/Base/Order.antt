-- ===== src/Base/Order.antt =====
-- The order of texts by code points, which Python's `<` on `str` and sqlite's `BINARY` collation use.
use Prim.Native.Char.{code}
use Prim.Native.String.{String}
use mathlib.Core.Path.{◌≡◌, refl}
use mathlib.Core.Bool.{Bool, true, false}
use native.Mathlib.Omega.{arith}
use text.Mathlib.Text.{◌==◌}
use text.Mathlib.TextEquality.{Char-path, eq_iff}
use opc_stack.Base.Tests.{ltb, eqb, eqb→eq, if◌then◌else◌, Bool-cases}
use mathlib.Core.Logic.{inl, inr}
use mathlib.Core.Path.{ap₂}

pub text_ltb : String → String → Bool
text_ltb String.[] String.[] = false
text_ltb String.[] (String.◌∷◌ d t) = true
text_ltb (String.◌∷◌ c s) String.[] = false
text_ltb (String.◌∷◌ c s) (String.◌∷◌ d t) =
    if eqb (code c) (code d) then text_ltb s t else ltb (code c) (code d)

pub text_ltb_irrefl : (s : String) → text_ltb s s ≡ false
unfolding text_ltb
text_ltb_irrefl String.[] = refl
text_ltb_irrefl (String.◌∷◌ c s) = ground (arith, text_ltb_irrefl s)

pub text_ltb_trans :
    (s t u : String) → text_ltb s t ≡ true → text_ltb t u ≡ true → text_ltb s u ≡ true
unfolding text_ltb
text_ltb_trans String.[] String.[] u h k = ground arith
text_ltb_trans String.[] (String.◌∷◌ d t) String.[] h k = ground arith
text_ltb_trans String.[] (String.◌∷◌ d t) (String.◌∷◌ e u) h k = refl
text_ltb_trans (String.◌∷◌ c s) String.[] u h k = ground arith
text_ltb_trans (String.◌∷◌ c s) (String.◌∷◌ d t) String.[] h k = ground arith
text_ltb_trans (String.◌∷◌ c s) (String.◌∷◌ d t) (String.◌∷◌ e u) h k =
    ground (arith, text_ltb_trans s t u)

pub text_ltb_asym : (s t : String) → text_ltb s t ≡ true → text_ltb t s ≡ false
text_ltb_asym s t h = elim (Bool-cases (text_ltb t s)) [
  | inl k ↦ ground (arith, text_ltb_trans s t s h k, text_ltb_irrefl s)
  | inr k ↦ k
]

-- Two texts neither of which comes first are one.
pub text_ltb_total : (s t : String) → text_ltb s t ≡ false → text_ltb t s ≡ false → s ≡ t
unfolding text_ltb
text_ltb_total String.[] String.[] h k = refl
text_ltb_total String.[] (String.◌∷◌ d t) h k = ground arith
text_ltb_total (String.◌∷◌ c s) String.[] h k = ground arith
text_ltb_total (String.◌∷◌ c s) (String.◌∷◌ d t) h k = elim (Bool-cases (eqb (code c) (code d))) [
  | inl e ↦
      ap₂ String.◌∷◌ (Char-path c d (eqb→eq (code c) (code d) e))
        (text_ltb_total s t (ground arith) (ground arith))
  | inr e ↦ ground arith
]

pub text_ltb→ne : (s t : String) → text_ltb s t ≡ true → (s == t) ≡ false
text_ltb→ne s t h = elim (Bool-cases (s == t)) [
  | inr e ↦ e
  | inl e ↦ ground (arith, eq_iff s t, text_ltb_irrefl t)
]

pub text_ltb_empty : (s : String) → text_ltb s "" ≡ false
unfolding text_ltb
text_ltb_empty String.[] = refl
text_ltb_empty (String.◌∷◌ c s) = refl
