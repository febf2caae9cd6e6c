-- ===== src/Base/Action.antt =====
-- A call that changes a state and may fail: what it changed stays changed. `Ends` says what a call
-- leaves when it returns, and what it leaves when it fails.
use mathlib.Core.Logic.{◌⊎◌, inl, inr}
use wend_rag.Base.Outcome.{Outcome, done, failed, stuck}

abbrev pub ⊤ : Type 0
⊤ = Unit

abbrev pub Action : Type 0 → Type 0 → Type 0 → Type 0
Action S E A = S → Outcome E A × S

module _ {S E : Type 0} where
  abbrev pub pure : {A : Type 0} → A → Action S E A
  pure a s = (done a, s)

  -- A part of the code that leaves the state alone.
  abbrev pub lift : {A : Type 0} → Outcome E A → Action S E A
  lift r s = (r, s)

module _ {S E : Type 0} {A B : Type 0} where
  abbrev pub resume : (A → Action S E B) → Outcome E A × S → Outcome E B × S
  resume f (done a, s) = f a s
  resume f (failed e, s) = (failed e, s)
  resume f (stuck, s) = (stuck, s)

  infixl 5 ◌>>=◌
  abbrev pub ◌>>=◌ : Action S E A → (A → Action S E B) → Action S E B
  (m >>= f) s = resume f (m s)

module _ {E D : Type 0} {A : Type 0} where
  -- `map_err(f)`, as `?` does it
  abbrev pub map_err : (E → D) → Outcome E A → Outcome D A
  map_err f (done a) = done a
  map_err f (failed e) = failed (f e)
  map_err f stuck = stuck

module _ {S E D : Type 0} {A : Type 0} where
  abbrev pub on_error : (E → D) → Action S E A → Action S D A
  on_error f m s = let r = m s in (map_err f r.0, r.1)

  -- `if let Err(e) = … { warn!(…) }`
  abbrev pub forgive : Outcome E A × S → Outcome D ⊤ × S
  forgive (done a, s) = (done tt, s)
  forgive (failed e, s) = (done tt, s)
  forgive (stuck, s) = (stuck, s)

  abbrev pub best_effort : Action S E A → Action S D ⊤
  best_effort m s = forgive (m s)

module _ {S E A : Type 0} where
  -- `stuck` is neither.
  abbrev pub Ends : (A → S → Type 0) → (E → S → Type 0) → Outcome E A × S → Type 0
  Ends D F (done a, s) = D a s
  Ends D F (failed e, s) = F e s
  Ends D F (stuck, s) = ⊥

  pub Ends-map :
      {D D' : A → S → Type 0} {F F' : E → S → Type 0}
      → ((a : A) (s : S) → D a s → D' a s)
      → ((e : E) (s : S) → F e s → F' e s)
      → (r : Outcome E A × S) → Ends D F r
      → Ends D' F' r
  Ends-map f g (done a, s) h = f a s h
  Ends-map f g (failed e, s) h = g e s h
  Ends-map f g (stuck, s) h = absurd h

module _ {S E D : Type 0} {A : Type 0} where
  -- `match … { Ok(a) => …, Err(e) => … }`
  abbrev pub caught : Outcome E A × S → Outcome D (A ⊎ E) × S
  caught (done a, s) = (done (inl a), s)
  caught (failed e, s) = (done (inr e), s)
  caught (stuck, s) = (stuck, s)

  abbrev pub catch : Action S E A → Action S D (A ⊎ E)
  catch m s = caught (m s)

  pub Ends-catch :
      {P : A → S → Type 0} {F : E → S → Type 0} (Q : A ⊎ E → S → Type 0) (G : D → S → Type 0)
      → ((a : A) (s : S) → P a s → Q (inl a) s)
      → ((e : E) (s : S) → F e s → Q (inr e) s)
      → (r : Outcome E A × S) → Ends P F r
      → Ends Q G (caught r)
  Ends-catch Q G f g (done a, s) h = f a s h
  Ends-catch Q G f g (failed e, s) h = g e s h
  Ends-catch Q G f g (stuck, s) h = absurd h

module _ {S E A B : Type 0} where
  pub Ends-resume :
      {D : A → S → Type 0} (D' : B → S → Type 0) {F : E → S → Type 0} (F' : E → S → Type 0)
      (f : A → Action S E B)
      → ((a : A) (s : S) → D a s → Ends D' F' (f a s))
      → ((e : E) (s : S) → F e s → F' e s)
      → (r : Outcome E A × S) → Ends D F r
      → Ends D' F' (resume f r)
  Ends-resume D' F' f k g (done a, s) h = k a s h
  Ends-resume D' F' f k g (failed e, s) h = g e s h
  Ends-resume D' F' f k g (stuck, s) h = absurd h

module _ {S E D A : Type 0} where
  pub Ends-on_error :
      (P : A → S → Type 0) {F : E → S → Type 0} (F' : D → S → Type 0) (f : E → D)
      → ((e : E) (s : S) → F e s → F' (f e) s)
      → (r : Outcome E A × S) → Ends P F r
      → Ends P F' (map_err f r.0, r.1)
  Ends-on_error P F' f g (done a, s) h = h
  Ends-on_error P F' f g (failed e, s) h = g e s h
  Ends-on_error P F' f g (stuck, s) h = absurd h

  pub Ends-best_effort :
      {P : A → S → Type 0} {F : E → S → Type 0} (Q : S → Type 0) (F' : D → S → Type 0)
      → ((a : A) (s : S) → P a s → Q s)
      → ((e : E) (s : S) → F e s → Q s)
      → (r : Outcome E A × S) → Ends P F r
      → Ends {E = D} (λ _ s. Q s) F' (forgive r)
  Ends-best_effort Q F' k g (done a, s) h = k a s h
  Ends-best_effort Q F' k g (failed e, s) h = g e s h
  Ends-best_effort Q F' k g (stuck, s) h = absurd h

module _ {S E D A B : Type 0} where
  -- A call whose error is wrapped, and what goes on from it.
  pub Ends-call :
      {P : A → S → Type 0} {F : E → S → Type 0} (Q : B → S → Type 0) (G : D → S → Type 0)
      (wrap : E → D) (f : A → Action S D B)
      → ((a : A) (s : S) → P a s → Ends Q G (f a s))
      → ((e : E) (s : S) → F e s → G (wrap e) s)
      → (r : Outcome E A × S) → Ends P F r
      → Ends Q G (resume f (map_err wrap r.0, r.1))
  Ends-call Q G wrap f k g (done a, s) h = k a s h
  Ends-call Q G wrap f k g (failed e, s) h = g e s h
  Ends-call Q G wrap f k g (stuck, s) h = absurd h
