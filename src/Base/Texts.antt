-- ===== src/Base/Texts.antt =====
-- Membership of a text in a list of texts, as a test and as a statement.
use mathlib.Core.Bool.{Bool, true, false}
use mathlib.Core.List.{List, [], ◌∷◌}
use mathlib.Core.Logic.{◌⊎◌, inl, inr, ite}
use mathlib.Core.Path.{◌≡◌}
use native.Mathlib.Omega.{arith}
use Prim.Native.String.{String}
use entity_resolution_engine.Base.Tests.{String-discrete}

-- The text is one of those listed.
abbrev pub OneOf : String → List String → Type 0
OneOf s [] = ⊥
OneOf s (t ∷ ts) = (t ≡ s) ⊎ OneOf s ts

-- s in ts
unfoldable pub contains : String → List String → Bool
contains s [] = false
contains s (t ∷ ts) = ite (String-discrete t s) true (contains s ts)

pub OneOf-of_contains : (s : String) (ts : List String) → contains s ts ≡ true → OneOf s ts
unfolding contains
OneOf-of_contains s [] h = cc
OneOf-of_contains s (t ∷ ts) h = elim (String-discrete t s) [
  | yes p ↦ inl p
  | no q ↦ inr (OneOf-of_contains s ts (ground arith))
]

pub contains_of_OneOf : (s : String) (ts : List String) → OneOf s ts → contains s ts ≡ true
unfolding contains
contains_of_OneOf s [] h = absurd h
contains_of_OneOf s (t ∷ ts) (inl p) = ground arith
contains_of_OneOf s (t ∷ ts) (inr h) = ground (arith, contains_of_OneOf s ts h)
