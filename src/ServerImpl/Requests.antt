-- ===== src/ServerImpl/Requests.antt =====
-- ServerImpl.cpp: what a web page sends over its socket, and the files that it asks for by HTTP.
use sacs.Prelude.{
  Bool, List, Option, Result, Text, [], codes, if◌then◌else◌, none, ok, out_of_range, some, text_eq,
  throw, ℕ, ◌==◌, ◌>>=◌, ◌∷◌,
}
use sacs.Json.{JsonLib}
use sacs.ModuleManager.Loop.{process_request}
use sacs.State.{Task, World, emit, ws_sent}

-- WebAppData: the map from file names to contents. Its entries are generated from webapp/.
abbrev pub Resources : Type 0
Resources = List (Text × Text)

-- WebAppData::GetResource
unfoldable pub get_resource : Text → Resources → Text
unfolding text_eq
get_resource name [] = []
get_resource name ((key, body) ∷ rest) = if text_eq key name then body else get_resource name rest

pub record Response : Type 0 where
  pub status : ℕ
  pub body : Text
  pub content_type : Option Text

-- MimeTypeFinder is the HTTP library's.
module _ (find_mime : Text → Text) where
  -- The name of the file that a request target asks for.
  unfoldable pub resource_name : Text → Result Text
  resource_name [] = throw out_of_range
  resource_name (c ∷ rest) =
      let name = if c == b'/' then rest else c ∷ rest in
      ok (elim name [ [] ↦ codes "index.html" | d ∷ more ↦ d ∷ more ])

  -- The end of ServerImpl::PerpareHTTPGetResponse
  unfoldable pub respond_with : Text → Text → Response
  respond_with name [] = record { status = 404; body = []; content_type = none }
  respond_with name (c ∷ body) = record {
    status = 200;
    body = c ∷ body;
    content_type = some (find_mime name);
  }

  -- ServerImpl::PerpareHTTPGetResponse
  unfoldable pub prepare_http_get_response : Resources → Text → Result Response
  unfolding resource_name respond_with get_resource
  prepare_http_get_response resources target = do
    name ← resource_name target
    ok (respond_with name (get_resource name resources))

  -- ServerImpl::Handle
  unfoldable pub handle : Resources → Bool → Text → Result Response
  unfolding prepare_http_get_response
  handle resources is_get target =
      if is_get
      then prepare_http_get_response resources target
      else ok (record { status = 405; body = []; content_type = none })

module _ {J : JsonLib} where
  -- ServerImpl::OnWsClientMessage, while the manager is there. A text that the network library kept
  -- on disk is dropped.
  unfoldable pub on_ws_client_message : List (Task J) → ℕ → Bool → Text → World J → Result (World J)
  unfolding process_request emit
  on_ws_client_message meanwhile client on_disk str w = if on_disk then ok w else (do
    (response, w') ← process_request meanwhile str w
    ok (emit (ws_sent client response ∷ []) w'))
