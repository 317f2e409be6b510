-- ===== src/Auth/UserInfo/Refusal.antt =====
-- What a request does whose token Auth0 refuses.
use runner_io.Common.{◌≡◌, refl, ap, ◌∙◌, Option, none, some, String}
use runner_io.Common.Exit.{
  returned->>=, exited-none, exited-or_exit-nested, Exit, exited, ◌>>=◌, exited->>=, exited-or_exit,
}
use runner_io.Dto.Auth.{UserData}
use runner_io.Auth.Requests.{Net, Request, read_response, get_user_info, with_token}
use runner_io.Auth.UserInfo.{Headers, Settings, Services, fetch_user, user_info_middleware}

module _ {R S : Type 0} (net : Net R S) where
  -- Every answer that arrives for the token has a body that is not the JSON of a user, as the text
  -- "Unauthorized" is not.
  unfoldable pub Refuses : String → S → Type 0
  Refuses token s =
      (req : Request) (response : R) (body : String)
      → (net.send (with_token net token req) s).0 ≡ some response
      → net.read_all response ≡ some body
      → net.user_data_of body ≡ none

  get_user_info-refused :
      {A : Type 0} (issuer_url token : String) (s : S) (g : Option UserData × S → Exit A)
      → Refuses token s
      → ((s' : S) → g (none, s') ≡ exited)
      → (get_user_info net issuer_url token s >>= g) ≡ exited
  unfolding get_user_info read_response Refuses
  get_user_info-refused issuer_url token s g refused h = exited-or_exit-nested _ _ g λ url joined.
      exited-or_exit-nested _ _ g λ req made. exited-or_exit-nested _ _ g λ response arrived.
        exited-or_exit-nested _ _ g λ body read.
          returned->>= _ g
          ∙ ap (λ o. g (o, (net.send (with_token net token req) s).1))
              (refused req response body arrived read)
          ∙ h _

  module _ (services : Services S) (settings : Settings) where
    fetch_user-refused :
        (headers : Headers) (s : S)
        → ((token : String) → services.extract_token headers ≡ some token → Refuses token s)
        → fetch_user net services settings headers s ≡ exited
    unfolding fetch_user get_user_info read_response
    fetch_user-refused headers s refused = exited-or_exit _ _ λ token extracted.
        exited-or_exit _ _ λ issuer_url parsed.
          get_user_info-refused issuer_url token s _ (refused token extracted)
            (λ s'. exited-none _ _ refl)

    -- A request ends the server's process, where no answer for its token has a body that is the
    -- JSON of a user: the middleware never passes it on, aborts it or panics.
    pub user_info_middleware-refused :
        (headers : Headers) (s : S)
        → ((token : String) → services.extract_token headers ≡ some token → Refuses token s)
        → user_info_middleware net services settings headers s ≡ exited
    unfolding user_info_middleware
    user_info_middleware-refused headers s refused = exited-or_exit _ _ λ api joined_api.
        exited-or_exit _ _ λ token_url joined_token_url.
          exited-or_exit _ _
            λ users_url joined_users_url. exited->>= _ _ (fetch_user-refused headers s refused)
