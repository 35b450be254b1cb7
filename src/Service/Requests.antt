-- ===== src/Service/Requests.antt =====
-- Requests and responses of the service, and lists by position. The classes of requests and responses
-- come from the package `erspec`; the time stamps of responses are left out.
use Prim.Native.String
use entity_resolution_engine.Base.{ℕ, zero, suc, String, Option, none, some, List, [], ◌∷◌, map}
use entity_resolution_engine.Model.Errors.{Exception, Result, ok, raise, ◌>>=◌, type_name}
use entity_resolution_engine.Model.Links.{Score}
use entity_resolution_engine.Model.Mentions.{Mention}
use entity_resolution_engine.Model.Clusters.{CandidateCluster, ResolutionResult, candidates}
use entity_resolution_engine.Tracing.{MentionTrace}
use entity_resolution_engine.World.{Platform}
use entity_resolution_engine.Config.{ResolverConfig}
use entity_resolution_engine.Repositories.Transactions.{UnitOfWork}

-- An `EntityMentionResolutionRequest`, or a request of another class, with the name of the class and
-- its `ere_request_id`, if it has one.
pub data EreRequest (EntityMention : Type 0) : Type 0 where
  resolution : String → EntityMention → EreRequest EntityMention
  unsupported : String → Option String → EreRequest EntityMention

pub record ClusterReference : Type 0 where
  pub cluster_id : String
  pub confidence_score : Score
  pub similarity_score : Score

-- An `EntityMentionResolutionResponse`, or an `EREErrorResponse` with its type, title and detail.
pub data EreResponse (Identifier : Type 0) : Type 0 where
  resolved : String → Identifier → List ClusterReference → EreResponse Identifier
  failed : String → String → String → String → EreResponse Identifier

-- ere_request_id
abbrev pub ere_request_id : {I : Type 0} → EreResponse I → String
ere_request_id (resolved id mention cs) = id
ere_request_id (failed id error title detail) = id

-- `EntityResolutionService`: what its resolver and its mapper are made of, and what it takes from
-- `erspec` and from Python.
pub record EntityResolutionService (EntityMention Identifier : Type 0) : Type 0 where
  pub platform : Platform
  pub config : ResolverConfig
  pub unit_of_work : UnitOfWork
  pub map_entity_mention_to_domain : EntityMention → Result Mention
  -- EntityMention.identifiedBy
  pub identified_by : EntityMention → Identifier
  -- str(exc)
  pub str : Exception → String

-- getattr(request, REQUEST_ID_FIELD, UNKNOWN_REQUEST_ID)
abbrev pub id_or_unknown : Option String → String
id_or_unknown none = "unknown"
id_or_unknown (some id) = id

abbrev pub request_id : {M : Type 0} → EreRequest M → String
request_id (resolution id em) = id
request_id (unsupported ty id) = id_or_unknown id

-- the response of `_guard` to a request of another class
unfoldable pub unsupported_error : {I : Type 0} → String → Option String → EreResponse I
unsupported_error ty id =
    failed (id_or_unknown id) "UnsupportedRequestType" "Unsupported request type"
      (String.◌++◌ "EntityResolutionService does not handle " ty)

index_error : Exception
index_error = Exception.other "IndexError" "list index out of range"

-- xs[i]
unfoldable pub item {ℓ} : {A : Type ℓ} → List A → ℕ → Result A
unfolding index_error
item [] i = raise index_error
item (x ∷ xs) zero = ok x
item (x ∷ xs) (suc i) = item xs i

-- xs[i] = y
unfoldable pub put_at {ℓ} : {A : Type ℓ} → List A → ℕ → A → Result (List A)
unfolding index_error
put_at [] i y = raise index_error
put_at (x ∷ xs) zero y = ok (y ∷ xs)
put_at (x ∷ xs) (suc i) y = put_at xs i y >>= λ ys. ok (x ∷ ys)

unfoldable pub cluster_reference : CandidateCluster → ClusterReference
cluster_reference c = record {
  cluster_id = c.cluster_id.value;
  confidence_score = c.score;
  similarity_score = c.score;
}

module _ {M I : Type 0} (S : EntityResolutionService M I) where
  -- _resolution_response
  unfoldable pub resolution_response : EreRequest M → ResolutionResult → Result (EreResponse I)
  unfolding cluster_reference
  resolution_response (resolution id em) r =
      ok (resolved id (S.identified_by em) (map cluster_reference (candidates r)))
  resolution_response (unsupported ty id) r =
      raise (Exception.other "AttributeError" "entity_mention")

  -- _controlled_error
  unfoldable pub controlled_error : String → Exception → EreResponse I
  unfolding type_name
  controlled_error id e = failed id (type_name e) "Resolution error" (S.str e)

  -- _unexpected_error
  unfoldable pub unexpected_error : String → EreResponse I
  unexpected_error id = failed id "InternalError" "Unexpected error" "An unexpected error occurred"

  -- the handlers `except (ValueError, ConflictError)` and `except Exception`
  unfoldable pub error_for : String → Exception → EreResponse I
  unfolding controlled_error unexpected_error
  error_for id (Exception.value_error name text) =
      controlled_error id (Exception.value_error name text)
  error_for id (Exception.conflict_error m a b) =
      controlled_error id (Exception.conflict_error m a b)
  error_for id (Exception.key_error k) = unexpected_error id
  error_for id (Exception.lookup_error t) = unexpected_error id
  error_for id (Exception.other name text) = unexpected_error id

  -- the response of `_resolve_alone`
  unfoldable pub response_or_error : String → Result (EreResponse I) → EreResponse I
  unfolding error_for
  response_or_error id (ok response) = response
  response_or_error id (raise e) = error_for id e

  -- for (position, _), resolution in zip(pending, results): responses[position] = ...
  unfoldable pub fill :
      List (EreRequest M)
      → List ((ℕ × Mention) × ResolutionResult)
      → List (Option (EreResponse I))
      → Result (List (Option (EreResponse I)))
  unfolding item put_at resolution_response
  fill requests [] responses = ok responses
  fill requests (((position, m), result) ∷ rest) responses = do
    request ← item requests position
    response ← resolution_response request result
    responses' ← put_at responses position (some response)
    fill requests rest responses'

-- [traces[position] for position, _ in pending]
unfoldable pub traces_at : List MentionTrace → List (ℕ × Mention) → Result (List MentionTrace)
unfolding item
traces_at traces [] = ok []
traces_at traces ((position, m) ∷ rest) = do
  trace ← item traces position
  chosen ← traces_at traces rest
  ok (trace ∷ chosen)
