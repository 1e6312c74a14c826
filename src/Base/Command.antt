-- ===== src/Base/Command.antt =====
-- Commands: stateful code that may dereference NULL or leave an array (`fault`), or loop on past
-- the rounds that its model is given (`hang`).
use mathlib.Core.Path.{◌≡◌, refl, subst}

pub data Run (S A : Type 0) : Type 0 where
  ok : A → S → Run S A
  fault : Run S A
  hang : Run S A

abbrev pub Cmd : Type 0 → Type 0 → Type 0
Cmd S A = S → Run S A

abbrev pub pure : {S A : Type 0} → A → Cmd S A
pure a s = ok a s

module _ {S A B : Type 0} where
  abbrev pub and_then : Run S A → (A → Cmd S B) → Run S B
  and_then (ok a s) k = k a s
  and_then fault k = fault
  and_then hang k = hang

  infixl 5 ◌>>=◌
  abbrev pub ◌>>=◌ : Cmd S A → (A → Cmd S B) → Cmd S B
  m >>= k = λ s. and_then (m s) k

infixl 5 ◌>>◌
abbrev pub ◌>>◌ : {S B : Type 0} → Cmd S (Unit {0}) → Cmd S B → Cmd S B
m >> n = m >>= λ _. n

pub and_then_assoc :
    {S A B C : Type 0} (r : Run S A) (f : A → Cmd S B) (g : B → Cmd S C)
    → and_then (and_then r f) g ≡ and_then r (λ a s. and_then (f a s) g)
and_then_assoc (ok a s) f g = refl
and_then_assoc fault f g = refl
and_then_assoc hang f g = refl

pub and_then-ok : {S A : Type 0} (r : Run S A) → and_then r ok ≡ r
and_then-ok (ok a s) = refl
and_then-ok fault = refl
and_then-ok hang = refl

-- Total correctness of a run: it neither faults nor hangs, and its result meets `P`.
pub data Returns {S A : Type 0} (P : A → S → Type 0) : Run S A → Type 0 where
  returns : {a : A} {s : S} → P a s → Returns P (ok a s)

module _ {S A : Type 0} {P : A → S → Type 0} where
  pub bind :
      {B : Type 0} {Q : B → S → Type 0} {r : Run S A} {k : A → Cmd S B}
      → Returns P r
      → ((a : A) (s : S) → P a s → Returns Q (k a s))
      → Returns Q (and_then r k)
  bind (returns p) next = next _ _ p

  pub mono :
      {Q : A → S → Type 0} {r : Run S A}
      → Returns P r
      → ((a : A) (s : S) → P a s → Q a s)
      → Returns Q r
  mono (returns p) weaken = returns (weaken _ _ p)

module _ {S A : Type 0} {P : A → S → Type 0} where
  result : {a : A} {s : S} → Returns P (ok a s) → P a s
  result (returns p) = p

  -- What holds of the result of a run that is known.
  pub result_of : {r : Run S A} {a : A} {s : S} → Returns P r → r ≡ ok a s → P a s
  result_of q e = result (subst (Returns P) e q)

-- A command on one part of the state.
module _ {S T A : Type 0} (put : T → S → S) where
  abbrev pub put_back : S → Run T A → Run S A
  put_back s (ok a t) = ok a (put t s)
  put_back s fault = fault
  put_back s hang = hang

  abbrev pub on_part : (S → T) → Cmd T A → Cmd S A
  on_part part c s = put_back s (c (part s))

-- What such a command leaves, and what follows it.
pub part-bind :
    {S T A B : Type 0} (put : T → S → S) {P : A → T → Type 0} {Q : B → S → Type 0} (s : S)
    {r : Run T A} (k : A → Cmd S B)
    → Returns P r
    → ((a : A) (t : T) → P a t → Returns Q (k a (put t s)))
    → Returns Q (and_then (put_back put s r) k)
part-bind put s k (returns p) next = next _ _ p

pub part-last :
    {S T A : Type 0} (put : T → S → S) {P : A → T → Type 0} {Q : A → S → Type 0} (s : S)
    {r : Run T A}
    → Returns P r
    → ((a : A) (t : T) → P a t → Q a (put t s))
    → Returns Q (put_back put s r)
part-last put s (returns p) weaken = returns (weaken _ _ p)
