-- ===== src/Service/Collecting.antt =====
-- What the guards of a bite decide for each request (`_guard` and the loop of `process_batch`).
use entity_resolution_engine.Base.{
  ℕ, zero, suc, String, Option, none, some, List, [], ◌∷◌, ◌++◌, length, ◌≡◌, refl, ap, Bool, true,
  false, if◌then◌else◌,
}
use entity_resolution_engine.Base.Dict.{Dict, get, put}
use entity_resolution_engine.Model.Errors.{Exception, Result, ok, raise, ◌>>=◌}
use entity_resolution_engine.Model.Mentions.{
  MentionId, MentionId-discrete, Mention, same_attributes,
}
use entity_resolution_engine.Model.Clusters.{ResolutionResult}
use entity_resolution_engine.Service.Requests.{
  resolution, EreResponse, EntityResolutionService, put_at, resolution_response, error_for,
}

-- the conflict with an earlier mention of the bite
unfoldable pub refuse_earlier : Mention → Option Mention → Result (Unit {0})
refuse_earlier m none = ok tt
refuse_earlier m (some earlier) =
    if same_attributes earlier.attributes m.attributes
    then ok tt
    else raise (Exception.conflict_error m.id.value earlier.attributes m.attributes)

-- What `_guard` returns: a response, or whether the mention repeats one of the bite, and the mention.
pub data Guarded (I : Type 0) : Type 0 where
  ends : EreResponse I → Guarded I
  goes_on : Bool → Mention → Guarded I

-- The variables of `process_batch`.
pub record Collected (I : Type 0) : Type 0 where
  pub pending : List (ℕ × Mention)
  pub repeats : List (ℕ × Mention)
  pub first_seen : Dict MentionId Mention
  pub responses : List (Option (EreResponse I))

-- [None] * n
nothing : {A : Type 0} → ℕ → List (Option A)
nothing zero = []
nothing (suc n) = none ∷ nothing n

-- The variables before the loop, for `n` requests.
unfoldable pub no_responses : {I : Type 0} → ℕ → Collected I
unfolding nothing
no_responses n = record { pending = []; repeats = []; first_seen = []; responses = nothing n }

pub length-no_responses : (I : Type 0) (n : ℕ) → length (no_responses {I = I} n).responses ≡ n
unfolding no_responses nothing
length-no_responses I zero = refl
length-no_responses I (suc n) = ap suc (length-no_responses I n)

abbrev pub Responses : Type 0 → Type 0
Responses I = List (Option (EreResponse I))

module _ {M I : Type 0} (S : EntityResolutionService M I) where
  -- the end of `_guard`, by what its `try` has come to
  unfoldable pub conclude_guard :
      String
      → M
      → Dict MentionId Mention
      → Result (Mention × Option ResolutionResult)
      → Result (Guarded I × Dict MentionId Mention)
  unfolding error_for resolution_response get put
  conclude_guard id em seen (raise e) = ok (ends (error_for S id e), seen)
  conclude_guard id em seen (ok (m, some r)) =
      resolution_response S (resolution id em) r >>= λ response. ok (ends response, seen)
  conclude_guard id em seen (ok (m, none)) = elim (get MentionId-discrete m.id seen) [
    | some earlier ↦ ok (goes_on true m, seen)
    | none ↦ ok (goes_on false m, put MentionId-discrete m.id m seen)
  ]

-- (repeats if outcome[0] else pending).append(...), or responses[position] = outcome
unfoldable pub collect_one :
    {I : Type 0} → ℕ → Guarded I × Dict MentionId Mention → Collected I → Result (Collected I)
unfolding put_at
collect_one position (ends response, seen) c =
    put_at c.responses position (some response) >>= λ responses.
    ok (record c { first_seen = seen; responses = responses })
collect_one position (goes_on true m, seen) c =
    ok (record c { first_seen = seen; repeats = c.repeats ++ (position, m) ∷ [] })
collect_one position (goes_on false m, seen) c =
    ok (record c { first_seen = seen; pending = c.pending ++ (position, m) ∷ [] })
