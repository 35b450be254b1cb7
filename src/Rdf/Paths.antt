-- ===== src/Rdf/Paths.antt =====
-- What it is for a path of properties to lead from one node to another, and that the mapper follows it.
use mathlib.Core.Option.{some-injective}
use entity_resolution_engine.Base.{
  Option, none, some, List, [], ◌∷◌, ◌≡◌, refl, ◌∙◌, ap, subst, arith,
}
use entity_resolution_engine.Rdf.{Rdf, follow}

-- The properties lead from the first node to the second.
pub data Leads (R : Rdf) (g : R.Graph) : R.Node → List R.Node → R.Node → Type 0 where
  here : {n : R.Node} → Leads R g n [] n
  step :
      {n m k : R.Node} {p : R.Node} {ps : List R.Node}
      → R.value g n p ≡ some m
      → Leads R g m ps k
      → Leads R g n (p ∷ ps) k

module _ (R : Rdf) (g : R.Graph) where
  pub follow-of_Leads :
      {n k : R.Node} {ps : List R.Node} → Leads R g n ps k → follow R g (some n) ps ≡ some k
  unfolding follow
  follow-of_Leads here = refl
  follow-of_Leads (step {ps} e l) = ap (λ x. follow R g x ps) e ∙ follow-of_Leads l

  from_none : {k : R.Node} (ps : List R.Node) → follow R g none ps ≡ some k → ⊥
  unfolding follow
  from_none ps h = ground arith

  one_step :
      (n p : R.Node) (ps : List R.Node) (x : Option R.Node) {k : R.Node}
      → R.value g n p ≡ x
      → follow R g x ps ≡ some k
      → ((m : R.Node) → follow R g (some m) ps ≡ some k → Leads R g m ps k)
      → Leads R g n (p ∷ ps) k
  one_step n p ps none e h rest = absurd (from_none ps h)
  one_step n p ps (some m) e h rest = step e (rest m h)

  pub Leads-of_follow :
      (n : R.Node) {k : R.Node} (ps : List R.Node)
      → follow R g (some n) ps ≡ some k
      → Leads R g n ps k
  unfolding follow
  Leads-of_follow n {k} [] h = subst (Leads R g n []) (some-injective _ _ h) here
  Leads-of_follow n (p ∷ ps) h =
      one_step n p ps (R.value g n p) refl h (λ m l. Leads-of_follow m ps l)
