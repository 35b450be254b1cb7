-- ===== src/Base/Dict/Distinct.antt =====
-- Dicts that no key comes twice in, as no key does in Python.
use mathlib.Core.List.{[], ◌∷◌, ◌++◌}
use mathlib.Core.Logic.{◌≢◌, ite, if_pos, if_neg}
use mathlib.Core.Option.{none, some}
use mathlib.Core.Path.{◌≡◌, refl, ◌∙◌}
use native.Mathlib.Omega.{arith}
use Prim.Native.String.{String}
use entity_resolution_engine.Base.Tests.{String-discrete}
use entity_resolution_engine.Base.Lists.{All, All-both, All-weaken}
use entity_resolution_engine.Base.Dict.{Dict, get, put, get-put_ne}

-- No key of the dict comes twice, as in Python.
abbrev pub DistinctKeys : {V : Type 0} → Dict String V → Type 0
DistinctKeys [] = Unit {0}
DistinctKeys (e ∷ d) = All (λ f. e.0 ≢ f.0) d × DistinctKeys d

pub get_nil : {V : Type 0} (k : String) → get {V = V} String-discrete k [] ≡ none
unfolding get
get_nil k = refl

pub put-new :
    {V : Type 0} (k : String) (v : V) (d : Dict String V)
    → get String-discrete k d ≡ none
    → put String-discrete k v d ≡ d ++ (k, v) ∷ []
unfolding get put
put-new k v [] h = refl
put-new k v ((j, w) ∷ d) h = ground (arith, put-new k v d)

-- The entries of a dict are what it answers.
pub DistinctKeys-entries :
    {V : Type 0} (d : Dict String V)
    → DistinctKeys d
    → All (λ x. get String-discrete x.0 d ≡ some x.1) d
unfolding get
DistinctKeys-entries [] h = tt
DistinctKeys-entries ((k, v) ∷ d) (apart, h) = (
  if_pos (String-discrete k k) refl (some v) (get String-discrete k d),
  All-weaken (λ x. (k ≢ x.0) × (get String-discrete x.0 d ≡ some x.1))
      (λ x. ite (String-discrete k x.0) (some v) (get String-discrete x.0 d) ≡ some x.1)
      (λ x p. if_neg (String-discrete k x.0) p.0 (some v) (get String-discrete x.0 d) ∙ p.1) d
      (All-both (λ x. k ≢ x.0) (λ x. get String-discrete x.0 d ≡ some x.1) d apart
        (DistinctKeys-entries d h)),
)

-- A new key is in no other place.
pub put-All :
    {V : Type 0} (k : String) (v : V) (d : Dict String V) {W : Type 0} (e : Dict String W)
    → All (λ x. k ≢ x.0) e
    → All (λ x. get String-discrete x.0 d ≡ none) e
    → All (λ x. get String-discrete x.0 (put String-discrete k v d) ≡ none) e
put-All k v d e apart new =
    All-weaken (λ x. (k ≢ x.0) × (get String-discrete x.0 d ≡ none))
      (λ x. get String-discrete x.0 (put String-discrete k v d) ≡ none)
      (λ x both. get-put_ne String-discrete k x.0 v d both.0 ∙ both.1) e
      (All-both (λ x. k ≢ x.0) (λ x. get String-discrete x.0 d ≡ none) e apart new)
