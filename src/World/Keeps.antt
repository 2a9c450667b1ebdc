-- ===== src/World/Keeps.antt =====
-- Handlers that keep a property of the state on every path, an exception included, and handlers whose
-- results have a property.
use flz_chat.Common.{Option, none, some, List, [], ◌∷◌, Bool, true, false, if◌then◌else◌}
use flz_chat.World.{World, M, continue, for_each}

abbrev pub Keeps : {V A : Type 0} → (World V → Type 0) → M V A → Type 0
Keeps I m = (w : World _) → I w → I (m w).1

-- A property of a result, if there is one.
abbrev pub Every : {A : Type 0} → (A → Type 0) → Option A → Type 0
Every Q none = Unit
Every Q (some a) = Q a

-- The last call decides what a handler answers.
pub Every-continue :
    {V A B : Type 0} (Q : B → Type 0) (r : Option A) (w : World V) (f : A → M V B)
    → ((a : A) (w : World V) → Every Q (f a w).0)
    → Every Q (continue r w f).0
unfolding continue
Every-continue Q none w f k = tt
Every-continue Q (some a) w f k = k a w

module _ {V : Type 0} (I : World V → Type 0) where
  -- What follows a call, from the state that the call leaves.
  pub keeps_continue :
      {A B : Type 0} (r : Option A) (w : World V) (f : A → M V B)
      → I w
      → ((a : A) → Keeps I (f a))
      → I (continue r w f).1
  unfolding continue
  keeps_continue none w f i k = i
  keeps_continue (some a) w f i k = k a w i

  pub keeps_if :
      {A : Type 0} (b : Bool) (m n : M V A) → Keeps I m → Keeps I n → Keeps I (if b then m else n)
  keeps_if true m n i j = i
  keeps_if false m n i j = j

  pub keeps_for_each :
      {A : Type 0} (xs : List A) (body : A → M V (Unit {0}))
      → ((x : A) → Keeps I (body x))
      → Keeps I (for_each xs body)
  unfolding for_each
  keeps_for_each [] body k w i = i
  keeps_for_each (x ∷ xs) body k w i =
      keeps_continue (body x w).0 (body x w).1 (λ _. for_each xs body) (k x w i)
        (λ _. keeps_for_each xs body k)
