-- ===== src/Base/Proc.antt =====
-- Procedures on a state that may raise: an exception stops a procedure and leaves what was done.
-- What a procedure keeps of the state, and what holds of its answer, is carried through its steps.
use mathlib.Core.List.{List, [], ◌∷◌}
use mathlib.Core.Option.{Option, none, some}
use mathlib.Core.Path.{◌≡◌, refl}
use opc_stack.Base.Lists.{All}
use Prim.Native.String.{String}

pub data Outcome {ℓ} (A : Type ℓ) : Type ℓ where
  ok : A → Outcome A
  raised : String → Outcome A

abbrev pub Proc {ℓ κ} : Type ℓ → Type κ → Type (ℓ ⊔ κ)
Proc S A = S → S × Outcome A

-- `none` is an exception.
abbrev pub or_raise {κ} : {A : Type κ} → Option A → Outcome A
or_raise none = raised "error"
or_raise (some a) = ok a

module _ {ℓ} {S : Type ℓ} where
  abbrev pub after {κ μ} :
      {A : Type κ} {B : Type μ} → S × Outcome A → (A → Proc S B) → S × Outcome B
  after (s, ok a) f = f a s
  after (s, raised e) f = (s, raised e)

  infixl 5 ◌>>=◌ ◌>>◌
  abbrev pub ◌>>=◌ {κ μ} : {A : Type κ} {B : Type μ} → Proc S A → (A → Proc S B) → Proc S B
  m >>= f = λ s. after (m s) f

  abbrev pub ◌>>◌ {κ} : {B : Type κ} → Proc S (Unit {0}) → Proc S B → Proc S B
  m >> k = m >>= λ _. k

  abbrev pub give {κ} : {A : Type κ} → A → Proc S A
  give a s = (s, ok a)

  abbrev pub fail {κ} : {A : Type κ} → String → Proc S A
  fail e s = (s, raised e)

  abbrev pub look {κ} : {A : Type κ} → (S → A) → Proc S A
  look f s = (s, ok (f s))

  abbrev pub change : (S → S) → Proc S (Unit {0})
  change f s = (f s, ok tt)

  -- `try: … except Exception:`, with `none` for the exception.
  abbrev pub caught {κ} : {A : Type κ} → S × Outcome A → S × Outcome (Option A)
  caught (s, ok a) = (s, ok (some a))
  caught (s, raised e) = (s, ok none)

  abbrev pub attempt {κ} : {A : Type κ} → Proc S A → Proc S (Option A)
  attempt m s = caught (m s)

  -- A `for` loop with one variable.
  unfoldable pub fold_each {κ μ} :
      {A : Type κ} {B : Type μ} → (B → A → Proc S B) → List A → B → Proc S B
  fold_each f [] acc = give acc
  fold_each f (x ∷ xs) acc = f acc x >>= λ next. fold_each f xs next

module _ {ℓ} {S : Type ℓ} (P : S → Type 0) where
  abbrev pub Leaves {κ} : {A : Type κ} → (A → Type 0) → S × Outcome A → Type 0
  Leaves Q (s, ok a) = P s × Q a
  Leaves Q (s, raised e) = P s

  -- From a state with `P` it leaves a state with `P`, and answers with `Q` if it answers.
  abbrev pub Runs {κ} : {A : Type κ} → (A → Type 0) → Proc S A → Type ℓ
  Runs Q m = (s : S) → P s → Leaves Q (m s)

  after-Leaves {κ μ} :
      {A : Type κ} {B : Type μ} (Q : A → Type 0) (R : B → Type 0) (r : S × Outcome A)
      (f : A → Proc S B)
      → Leaves Q r
      → ((a : A) → Q a → Runs R (f a))
      → Leaves R (after r f)
  after-Leaves Q R (s, ok a) f h k = k a h.1 s h.0
  after-Leaves Q R (s, raised e) f h k = h

  pub bind-Runs {κ μ} :
      {A : Type κ} {B : Type μ} (Q : A → Type 0) (R : B → Type 0) (m : Proc S A) (f : A → Proc S B)
      → Runs Q m
      → ((a : A) → Q a → Runs R (f a))
      → Runs R (m >>= f)
  bind-Runs Q R m f h k s p = after-Leaves Q R (m s) f (h s p) k

  caught-Leaves {κ} :
      {A : Type κ} (Q : A → Type 0) (R : Option A → Type 0) (r : S × Outcome A)
      → R none
      → ((a : A) → Q a → R (some a))
      → Leaves Q r
      → Leaves R (caught r)
  caught-Leaves Q R (s, ok a) n k h = (h.0, k a h.1)
  caught-Leaves Q R (s, raised e) n k h = (h, n)

  pub attempt-Runs {κ} :
      {A : Type κ} (Q : A → Type 0) (R : Option A → Type 0) (m : Proc S A)
      → R none
      → ((a : A) → Q a → R (some a))
      → Runs Q m
      → Runs R (attempt m)
  attempt-Runs Q R m n k h s p = caught-Leaves Q R (m s) n k (h s p)

  -- The invariant of a loop is on its variable.
  pub fold_each-Runs {κ μ} :
      {A : Type κ} {B : Type μ} (I : B → Type 0) (Q : A → Type 0) (f : B → A → Proc S B)
      → ((acc : B) (x : A) → I acc → Q x → Runs I (f acc x))
      → (xs : List A) (acc : B) → All Q xs
      → I acc
      → Runs I (fold_each f xs acc)
  unfolding fold_each
  fold_each-Runs I Q f k [] acc q i = λ s p. (p, i)
  fold_each-Runs I Q f k (x ∷ xs) acc q i =
      bind-Runs I I (f acc x) (λ next. fold_each f xs next) (k acc x i q.0)
        (λ next j. fold_each-Runs I Q f k xs next q.1 j)

  pub or_raise-Leaves {κ} :
      {A : Type κ} (Q : A → Type 0) (s : S) (r : Option A)
      → ((a : A) → r ≡ some a → Q a)
      → P s
      → Leaves Q (s, or_raise r)
  or_raise-Leaves Q s none h p = p
  or_raise-Leaves Q s (some a) h p = (p, h a refl)

  -- What a run keeps, whether it answers or raises.
  pub Leaves-state {κ} : {A : Type κ} (Q : A → Type 0) (r : S × Outcome A) → Leaves Q r → P r.0
  Leaves-state Q (s, ok a) h = h.0
  Leaves-state Q (s, raised e) h = h
