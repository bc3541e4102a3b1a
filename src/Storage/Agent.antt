-- ===== src/Storage/Agent.antt =====
-- services/api/src/storage-agent/storage-agent.client.ts: the calls of the agent and their errors. The
-- status of a target, which nothing here reads, is left out.
use terab.Base.{Bool, false, ◌||◌, Option, none, some, ◌==◌, Text, codes, text_eq, if◌then◌else◌}
use terab.ErrorCode.{
  ErrorCode, api, storage_agent_unavailable, storage_agent_target_conflict,
  storage_agent_target_not_found, storage_agent_internal,
}
use terab.Action.{ok, pure, throw, or_throw, external, ◌>>=◌}
use terab.Storage.Schema.{
  AgentRequest, post_target, delete_target_at, AgentResponse, StorageOutside, StorageAction,
}

abbrev pub has_code : Text → Option Text → Bool
has_code expected none = false
has_code expected (some code) = text_eq code expected

-- `throwForResponse`
unfoldable pub response_error : AgentResponse → ErrorCode
response_error r =
    if r.status_code == 404 || has_code (codes "TARGET_NOT_FOUND") r.code
    then storage_agent_target_not_found
    else (if r.status_code == 409 || has_code (codes "TARGET_CONFLICT") r.code
        then storage_agent_target_conflict
        else storage_agent_internal)

module _ {X : Type 0} (out : StorageOutside X) where
  abbrev pub send : AgentRequest → StorageAction X AgentResponse
  send request = do
    answer ← external (λ x. (ok (out.request request x).0, (out.request request x).1))
    or_throw answer storage_agent_unavailable

  -- The answer's body is not used.
  unfoldable pub create_target :
      (iqn name os_username os_password : Text) → StorageAction X (Unit {0})
  create_target iqn name os_username os_password = do
    r ← send (post_target iqn name os_username os_password)
    if r.status_code == 201 then pure tt else throw (api (response_error r))

  unfoldable pub delete_target : (iqn : Text) → StorageAction X (Unit {0})
  delete_target iqn = do
    r ← send (delete_target_at iqn)
    if r.status_code == 204 then pure tt else throw (api (response_error r))
