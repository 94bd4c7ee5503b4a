-- ===== src/Base/Ends.antt =====
-- What holds when a procedure ends: a precondition on the state, a condition on the answer and the
-- state left, and a condition `E` on the state left by an exception.
use mathlib.Core.Path.{◌≡◌, subst}
use mathlib.Core.Bool.{Bool, true, false}
use mathlib.Core.List.{List, [], ◌∷◌}
use opc_stack.Base.Tests.{if◌then◌else◌}
use opc_stack.Base.Lists.{All}
use opc_stack.Base.Proc.{Proc, Outcome, ok, raised, Leaves, after, give, fold_each, ◌>>=◌}
use opc_stack.Base.Keeps.{Keeps}

module _ {ℓ} {S : Type ℓ} (E : S → Type 0) where
  abbrev pub EndsIn {κ} : {A : Type κ} → (A → S → Type 0) → S × Outcome A → Type 0
  EndsIn R (s, ok a) = R a s
  EndsIn R (s, raised e) = E s

  pub record Ends {κ} {A : Type κ} (P : S → Type 0) (R : A → S → Type 0) (m : Proc S A)
      : Type ℓ where
    pub run : (s : S) → P s → EndsIn R (m s)

  pub EndsIn-ok {κ} :
      {A : Type κ} (R : A → S → Type 0) (r : S × Outcome A) (s : S) (a : A)
      → r ≡ (s, ok a)
      → EndsIn R r
      → R a s
  EndsIn-ok R r s a e h = subst (EndsIn R) e h

  after-EndsIn {κ μ} :
      {A : Type κ} {B : Type μ} (Q : A → S → Type 0) (R : B → S → Type 0) (r : S × Outcome A)
      (f : A → Proc S B)
      → EndsIn Q r
      → ((a : A) → Ends (Q a) R (f a))
      → EndsIn R (after r f)
  after-EndsIn Q R (s, ok a) f h k = (k a).run s h
  after-EndsIn Q R (s, raised e) f h k = h

  pub then-Ends {κ μ} :
      {A : Type κ} {B : Type μ} (P : S → Type 0) (Q : A → S → Type 0) (R : B → S → Type 0)
      {m : Proc S A} {f : A → Proc S B}
      → Ends P Q m
      → ((a : A) → Ends (Q a) R (f a))
      → Ends P R (m >>= f)
  then-Ends P Q R {m = m} {f = f} h k = record {
    run = λ s p. after-EndsIn Q R (m s) f (h.run s p) k;
  }

  pub give-Ends {κ} :
      {A : Type κ} (P : S → Type 0) (R : A → S → Type 0) (a : A)
      → ((s : S) → P s → R a s)
      → Ends P R (give a)
  give-Ends P R a h = record { run = h }

  pub if-Ends {κ} :
      {A : Type κ} (P : S → Type 0) (R : A → S → Type 0) (b : Bool) {m k : Proc S A}
      → Ends P R m
      → Ends P R k
      → Ends P R (if b then m else k)
  if-Ends P R true h j = h
  if-Ends P R false h j = j

  -- A conclusion may be weakened.
  weaken {κ} :
      {A : Type κ} (Q R : A → S → Type 0) (r : S × Outcome A)
      → ((a : A) (s : S) → Q a s → R a s)
      → EndsIn Q r
      → EndsIn R r
  weaken Q R (s, ok a) h e = h a s e
  weaken Q R (s, raised e) h k = k

  pub Ends-map {κ} :
      {A : Type κ} (P : S → Type 0) (Q R : A → S → Type 0) {m : Proc S A}
      → ((a : A) (s : S) → Q a s → R a s)
      → Ends P Q m
      → Ends P R m
  Ends-map P Q R {m = m} h e = record { run = λ s p. weaken Q R (m s) h (e.run s p) }

  always {κ} : {A : Type κ} (r : S × Outcome A) → ((s : S) → E s) → EndsIn (λ a s. Unit {0}) r
  always (s, ok a) h = tt
  always (s, raised e) h = h s

  fact {κ} :
      {A : Type κ} (X : Type 0) (r : S × Outcome A) → ((s : S) → E s) → X → EndsIn (λ a s. X) r
  fact X (s, ok a) h x = x
  fact X (s, raised e) h x = h s

  -- What does not speak of the state stays true.
  pub fact-Ends {κ} :
      {A : Type κ} (X : Type 0) (m : Proc S A) → ((s : S) → E s) → Ends (λ s. X) (λ a s. X) m
  fact-Ends X m h = record { run = λ s x. fact X (m s) h x }

  -- Nothing is asked of the answer.
  pub any-Ends {κ} :
      {A : Type κ} (P : S → Type 0) (m : Proc S A) → ((s : S) → E s) → Ends P (λ a s. Unit {0}) m
  any-Ends P m h = record { run = λ s p. always (m s) h }

  kept {κ} :
      {A : Type κ} (P : S → Type 0) (r : S × Outcome A)
      → ((s : S) → P s → E s)
      → Leaves P (λ _. Unit {0}) r
      → EndsIn (λ a s. P s) r
  kept P (s, ok a) w h = h.0
  kept P (s, raised e) w h = w s h

  pub Keeps-Ends {κ} :
      {A : Type κ} (P : S → Type 0) {m : Proc S A}
      → ((s : S) → P s → E s)
      → Keeps P m
      → Ends P (λ a s. P s) m
  Keeps-Ends P {m = m} w h = record { run = λ s p. kept P (m s) w (h.run s p) }

  joined {κ} :
      {A : Type κ} (Q R : A → S → Type 0) (r : S × Outcome A)
      → EndsIn Q r
      → EndsIn R r
      → EndsIn (λ a s. Q a s × R a s) r
  joined Q R (s, ok a) h k = (h, k)
  joined Q R (s, raised e) h k = h

  pub both-Ends {κ} :
      {A : Type κ} (P P' : S → Type 0) (Q R : A → S → Type 0) {m : Proc S A}
      → Ends P Q m
      → Ends P' R m
      → Ends (λ s. P s × P' s) (λ a s. Q a s × R a s) m
  both-Ends P P' Q R {m = m} h k = record {
    run = λ s p. joined Q R (m s) (h.run s p.0) (k.run s p.1);
  }

  -- The invariant of a loop, on its variable and the state.
  pub fold_each-Ends {κ μ} :
      {A : Type κ} {B : Type μ} (I : B → S → Type 0) {f : B → A → Proc S B} (xs : List A) (acc : B)
      → ((acc : B) (x : A) → Ends (I acc) I (f acc x))
      → Ends (I acc) I (fold_each f xs acc)
  unfolding fold_each
  fold_each-Ends I [] acc k = give-Ends (I acc) I acc (λ s p. p)
  fold_each-Ends I {f = f} (x ∷ xs) acc k =
      then-Ends (I acc) I I (k acc x) (λ next. fold_each-Ends I {f = f} xs next k)

  -- A loop whose body establishes `R x` for its element and keeps it for every other one.
  pub fold_each-All {κ μ} :
      {A : Type κ} {B : Type μ} (R : A → S → Type 0) {f : B → A → Proc S B} (xs : List A) (acc : B)
      → ((acc : B) (x : A) → Ends (λ s. Unit) (λ b s. R x s) (f acc x))
      → ((acc : B) (x y : A) → Ends (R y) (λ b s. R y s) (f acc x))
      → Ends (λ s. Unit) (λ b s. All (λ x. R x s) xs) (fold_each f xs acc)
  unfolding fold_each
  fold_each-All R [] acc h k = give-Ends _ (λ b s. All (λ x. R x s) []) acc (λ s p. tt)
  fold_each-All R {f = f} (x ∷ xs) acc h k =
      then-Ends (λ s. Unit) (λ b s. R x s) (λ b s. All (λ x. R x s) (x ∷ xs)) (h acc x)
        (λ next. record {
          run = λ s r.
              (both-Ends (R x) (λ s. Unit) (λ b s. R x s) (λ b s. All (λ x. R x s) xs)
                  (fold_each-Ends (λ b s. R x s) {f = f} xs next (λ acc y. k acc y x))
                  (fold_each-All R {f = f} xs next h k)).run
                s (r, tt);
        })
