-- ===== src/Api/Actions.antt =====
-- A method of a class that can throw: the state comes back also after a throw, since what was written
-- stays written.
use pocket_db.Prelude.{Bool, if◌then◌else◌, Error, Result, ok, err}

abbrev pub Action : Type 0 → Type 0 → Type 0
Action S A = S → Result A × S

module _ {S : Type 0} where
  abbrev pub pure : {A : Type 0} → A → Action S A
  pure a s = (ok a, s)

  abbrev pub raise : {A : Type 0} → Error → Action S A
  raise e s = (err e, s)

  -- A call that leaves the state alone.
  abbrev pub lift : {A : Type 0} → Result A → Action S A
  lift r s = (r, s)

  abbrev pub gets : {A : Type 0} → (S → A) → Action S A
  gets f s = (ok (f s), s)

  abbrev pub modify : (S → S) → Action S (Unit {0})
  modify f s = (ok tt, f s)

  -- `if (bad) throw e`
  abbrev pub raise_if : Bool → Error → Action S (Unit {0})
  raise_if bad e s = (if bad then err e else ok tt, s)

  -- What follows, by the outcome of the first call.
  abbrev pub follow : {A B : Type 0} → (A → Action S B) → Result A × S → Result B × S
  follow next (ok a, s) = next a s
  follow next (err e, s) = (err e, s)

  infixl 5 ◌>>=◌ ◌>>◌
  abbrev pub ◌>>=◌ : {A B : Type 0} → Action S A → (A → Action S B) → Action S B
  ◌>>=◌ first next s = follow next (first s)

  abbrev pub ◌>>◌ : {B : Type 0} → Action S (Unit {0}) → Action S B → Action S B
  first >> rest = first >>= λ _. rest
