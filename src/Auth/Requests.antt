-- ===== src/Auth/Requests.antt =====
-- internal/utils/req.go: the requests to Auth0 behind the user info middleware. The network, the JSON
-- decoder and the cache are parameters.
use runner_io.Common.{List, [], ◌∷◌, ◌++◌, Option, none, some, String, str_append}
use runner_io.Common.Exit.{Exit, panicked, returned, ◌>>=◌, or_exit}
use runner_io.Dto.Auth.{
  UserData, MgmtPostRequest, MgmtPostResponse, UserPermission, new_mgmt_post_request,
}

-- What the functions set of an `http.Request`.
pub record Request : Type 0 where
  pub method : String
  pub url : String
  pub headers : List (String × String)
  pub body : Option String

-- The libraries: `url.JoinPath`, `http.NewRequest` with a method, a URL and a body, `client.Do`,
-- `io.ReadAll`, and encoding/json. `none` is an error. `R` is a response, `S` the world outside.
pub record Net (R : Type 0) (S : Type 0) : Type 0 where
  pub join_path : String → List String → Option String
  pub new_request : String → String → Option String → Option Request
  pub send : Request → S → Option R × S
  pub read_all : R → Option String
  pub user_data_of : String → Option UserData
  pub response_of : String → Option MgmtPostResponse
  pub permissions_of : String → Option (List UserPermission)
  pub json_of_request : MgmtPostRequest → Option String

-- `req.Header.Add`
abbrev pub with_header : String → String → Request → Request
with_header key value r = record r { headers = r.headers ++ (key, value) ∷ [] }

-- The end of each function: the body is read and decoded. A body that does not decode is the error
-- that the function returns; every other error ends the process.
module _ {R S A : Type 0} (net : Net R S) (decode : String → Option A) where
  unfoldable pub read_response : Option R × S → Exit (Option A × S)
  read_response (answer, s) = or_exit answer >>= λ response.
      or_exit (net.read_all response) >>= λ body. returned (decode body, s)

module _ {R S : Type 0} (net : Net R S) where
  -- The headers of the two functions that read.
  abbrev pub with_token : String → Request → Request
  with_token token r =
      with_header "authorization" (str_append "Bearer " token)
        (with_header "Accept" "application/json" r)

  unfoldable pub get_user_info : String → String → S → Exit (Option UserData × S)
  unfolding read_response
  get_user_info issuer_url token s =
      or_exit (net.join_path issuer_url ("/userinfo" ∷ [])) >>= λ user_info_url.
      or_exit (net.new_request "GET" user_info_url none) >>= λ req.
      read_response net net.user_data_of (net.send (with_token token req) s)

  -- The error of `http.NewRequest` is overwritten, and the nil request that comes with it is used.
  abbrev pub or_panic : Option Request → Exit Request
  or_panic none = panicked
  or_panic (some req) = returned req

  unfoldable pub get_mgmt_post_response :
      String → String → String → String → S → Exit (Option MgmtPostResponse × S)
  unfolding read_response new_mgmt_post_request
  get_mgmt_post_response mgmt_client_id mgmt_client_secret mgmt_audience_api mgmt_token_url s =
      or_exit (
        net.json_of_request
          (new_mgmt_post_request mgmt_client_id mgmt_client_secret mgmt_audience_api))
      >>= λ body. or_panic (net.new_request "POST" mgmt_token_url (some body)) >>= λ req.
          read_response net net.response_of
            (net.send (with_header "Content-Type" "application/json" req) s)

  unfoldable pub get_user_permissions :
      String → String → S → Exit (Option (List UserPermission) × S)
  unfolding read_response
  get_user_permissions mgmt_permission_url access_token s =
      or_exit (net.new_request "GET" mgmt_permission_url none) >>= λ req.
      read_response net net.permissions_of (net.send (with_token access_token req) s)
