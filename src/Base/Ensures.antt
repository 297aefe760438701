-- ===== src/Base/Ensures.antt =====
-- What holds after a statement or a transaction that does not fail: one rule for each way in which
-- transactions are put together.
use mathlib.Core.Path.{◌≡◌, refl}
use mathlib.Core.Bool.{Bool, true, false}
use mathlib.Core.Option.{Option, none, some}
use ec_test.Base.Tests.{if◌then◌else◌}
use ec_test.Base.Tx.{Tx, Result, ok, err, guard, commit_or_roll_back}

abbrev pub Post : {S E A : Type 0} → (A → S → Type 0) → Result E (A × S) → Type 0
Post P (ok (a, s)) = P a s
Post P (err e) = Unit {0}

pub record Ensures {S E A : Type 0} (P : A → S → Type 0) (r : Result E (A × S)) : Type 0 where
  pub holds : Post P r

pub Ensures-bind :
    {S E A B : Type 0} {P : A → S → Type 0} {Q : B → S → Type 0} {r : Result E (A × S)}
    (k : A → S → Result E (B × S))
    → Ensures P r
    → ((a : A) (s' : S) → P a s' → Ensures Q (k a s'))
    → Ensures Q (elim r [ ok (a, s') ↦ k a s' | err e ↦ err e ])
Ensures-bind {r = ok (a, s')} k h g = g a s' h.holds
Ensures-bind {r = err e} k h g = record { holds = tt }

pub Ensures-map :
    {S E A : Type 0} {P Q : A → S → Type 0} {r : Result E (A × S)}
    → Ensures P r
    → ((a : A) (s : S) → P a s → Q a s)
    → Ensures Q r
Ensures-map {r = ok (a, s)} h g = record { holds = g a s h.holds }
Ensures-map {r = err e} h g = record { holds = tt }

pub Ensures-pure :
    {S E A : Type 0} {P : A → S → Type 0} (a : A) (s : S) → P a s → Ensures {E = E} P (ok (a, s))
Ensures-pure a s p = record { holds = p }

pub Ensures-err : {S E A : Type 0} {P : A → S → Type 0} (e : E) → Ensures P (err e)
Ensures-err e = record { holds = tt }

-- Nothing is claimed.
pub any-Ensures : {S E A : Type 0} (r : Result E (A × S)) → Ensures (λ _ _. Unit {0}) r
any-Ensures (ok (a, s)) = record { holds = tt }
any-Ensures (err e) = record { holds = tt }

-- The branches of a transaction.
pub Ensures-option :
    {S E A B : Type 0} {Q : B → S → Type 0} (f : Tx S E B) (g : A → Tx S E B) (s : S) (o : Option A)
    → (o ≡ none → Ensures Q (f s))
    → ((a : A) → o ≡ some a → Ensures Q (g a s))
    → Ensures Q ((elim o as (λ _. Tx S E B) [ none ↦ f | some a ↦ g a ]) s)
Ensures-option f g s none h k = h refl
Ensures-option f g s (some a) h k = k a refl

pub Ensures-if :
    {S E B : Type 0} {Q : B → S → Type 0} (f g : Tx S E B) (s : S) (c : Bool)
    → (c ≡ true → Ensures Q (f s))
    → (c ≡ false → Ensures Q (g s))
    → Ensures Q ((if c then f else g) s)
Ensures-if f g s true h k = h refl
Ensures-if f g s false h k = k refl

-- The same in the body of a statement.
pub Ensures-branch :
    {S E B : Type 0} {Q : B → S → Type 0} (c : Bool) (x y : Result E (B × S))
    → (c ≡ true → Ensures Q x)
    → (c ≡ false → Ensures Q y)
    → Ensures Q (if c then x else y)
Ensures-branch true x y h k = h refl
Ensures-branch false x y h k = k refl

pub Ensures-case :
    {S E A B : Type 0} {Q : B → S → Type 0} (o : Option A) (x : Result E (B × S))
    (k : A → Result E (B × S))
    → (o ≡ none → Ensures Q x)
    → ((a : A) → o ≡ some a → Ensures Q (k a))
    → Ensures Q (elim o as (λ _. Result E (B × S)) [ none ↦ x | some a ↦ k a ])
Ensures-case none x k h g = h refl
Ensures-case (some a) x k h g = g a refl

pub Ensures-guard :
    {S E : Type 0} {P : S → Type 0} (c : Bool) (e : E) (s : S)
    → P s
    → Ensures (λ _ s'. (c ≡ true) × P s') (guard c e s)
Ensures-guard true e s h = Ensures-pure tt s (refl, h)
Ensures-guard false e s h = record { holds = tt }

-- What comes after a guard, or after a statement that fails unless a test holds.
pub Ensures-after_guard :
    {S E B : Type 0} {Q : B → S → Type 0} (c : Bool) (e : E) (s : S)
    (k : Unit {0} → S → Result E (B × S))
    → (c ≡ true → Ensures Q (k tt s))
    → Ensures Q (elim (guard c e s) [ ok (a, s') ↦ k a s' | err e' ↦ err e' ])
Ensures-after_guard true e s k h = h refl
Ensures-after_guard false e s k h = Ensures-err e

pub Ensures-after_branch :
    {S E A B : Type 0} {Q : B → S → Type 0} (c : Bool) (r r' : Result E (A × S))
    (k : A → S → Result E (B × S))
    → (c ≡ true → Ensures Q (elim r [ ok (a, s') ↦ k a s' | err e ↦ err e ]))
    → (c ≡ false → Ensures Q (elim r' [ ok (a, s') ↦ k a s' | err e ↦ err e ]))
    → Ensures Q (elim (if c then r else r') [ ok (a, s') ↦ k a s' | err e ↦ err e ])
Ensures-after_branch true r r' k h g = h refl
Ensures-after_branch false r r' k h g = g refl

pub Ensures-after_if :
    {S E A B : Type 0} {Q : B → S → Type 0} (c : Bool) (f g : Tx S E A) (s : S)
    (k : A → S → Result E (B × S))
    → (c ≡ true → Ensures Q (elim (f s) [ ok (a, s') ↦ k a s' | err e ↦ err e ]))
    → (c ≡ false → Ensures Q (elim (g s) [ ok (a, s') ↦ k a s' | err e ↦ err e ]))
    → Ensures Q (elim ((if c then f else g) s) [ ok (a, s') ↦ k a s' | err e ↦ err e ])
Ensures-after_if true f g s k h j = h refl
Ensures-after_if false f g s k h j = j refl

-- A transaction that keeps a property of the tables keeps it when it is rolled back too.
pub run_tx-keeps :
    {S E A : Type 0} (P : S → Type 0) (s : S) (r : Result E (A × S))
    → P s
    → Ensures (λ _ s'. P s') r
    → P (commit_or_roll_back s r).1
run_tx-keeps P s (ok (a, s')) h k = k.holds
run_tx-keeps P s (err e) h k = h
