-- ===== src/Base/Keeps.antt =====
-- What a procedure keeps of its state, whether it answers or raises.
use mathlib.Core.Bool.{Bool, true, false}
use mathlib.Core.List.{List, [], ◌∷◌}
use mathlib.Core.Option.{Option}
use opc_stack.Base.Tests.{if◌then◌else◌}
use Prim.Native.String.{String}
use opc_stack.Base.Proc.{
  Proc, or_raise, Runs, bind-Runs, or_raise-Leaves, attempt-Runs, Leaves-state, give, fail, look,
  change, attempt, fold_each, ◌>>=◌, ◌>>◌,
}

module _ {ℓ} {S : Type ℓ} (P : S → Type 0) where
  -- From a state with `P` it leaves a state with `P`.
  pub record Keeps {κ} {A : Type κ} (m : Proc S A) : Type ℓ where
    pub run : Runs P (λ _. Unit {0}) m

  -- The state that a run leaves, whatever its answer.
  pub Keeps-state {κ} : {A : Type κ} {m : Proc S A} → Keeps m → (s : S) → P s → P (m s).0
  Keeps-state {m = m} h s p = Leaves-state P (λ _. Unit) (m s) (h.run s p)

  pub give-Keeps {κ} : {A : Type κ} (a : A) → Keeps (give a)
  give-Keeps a = record { run = λ s p. (p, tt) }

  pub fail-Keeps {κ} : {A : Type κ} (e : String) → Keeps (fail {A = A} e)
  fail-Keeps e = record { run = λ s p. p }

  pub look-Keeps {κ} : {A : Type κ} (f : S → A) → Keeps (look f)
  look-Keeps f = record { run = λ s p. (p, tt) }

  pub change-Keeps : (f : S → S) → ((s : S) → P s → P (f s)) → Keeps (change f)
  change-Keeps f h = record { run = λ s p. (h s p, tt) }

  pub or_raise-Keeps {κ} : {A : Type κ} (o : Option A) → Keeps (λ s. (s, or_raise o))
  or_raise-Keeps o = record { run = λ s p. or_raise-Leaves P (λ _. Unit) s o (λ a e. tt) p }

  pub then-Keeps {κ μ} :
      {A : Type κ} {B : Type μ} {m : Proc S A} {f : A → Proc S B}
      → Keeps m
      → ((a : A) → Keeps (f a))
      → Keeps (m >>= f)
  then-Keeps {m = m} {f = f} h k = record {
    run = bind-Runs P (λ _. Unit) (λ _. Unit) m f h.run (λ a u. (k a).run);
  }

  pub and-Keeps {κ} :
      {B : Type κ} {m : Proc S (Unit {0})} {k : Proc S B} → Keeps m → Keeps k → Keeps (m >> k)
  and-Keeps h j = then-Keeps h (λ _. j)

  pub if-Keeps {κ} :
      {A : Type κ} (b : Bool) {m k : Proc S A} → Keeps m → Keeps k → Keeps (if b then m else k)
  if-Keeps true h j = h
  if-Keeps false h j = j

  pub attempt-Keeps {κ} : {A : Type κ} {m : Proc S A} → Keeps m → Keeps (attempt m)
  attempt-Keeps {m = m} h = record {
    run = attempt-Runs P (λ _. Unit) (λ _. Unit) m tt (λ a u. tt) h.run;
  }

  pub fold_each-Keeps {κ μ} :
      {A : Type κ} {B : Type μ} {f : B → A → Proc S B} (xs : List A) (acc : B)
      → ((acc : B) (x : A) → Keeps (f acc x))
      → Keeps (fold_each f xs acc)
  unfolding fold_each
  fold_each-Keeps [] acc k = give-Keeps acc
  fold_each-Keeps {f = f} (x ∷ xs) acc k =
      then-Keeps (k acc x) (λ next. fold_each-Keeps {f = f} xs next k)
