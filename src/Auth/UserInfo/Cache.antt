-- ===== src/Auth/UserInfo/Cache.antt =====
-- The access token of the management API, which the user info middleware keeps in Redis.
use runner_io.Common.{◌≡◌, refl, sym, ap, ◌∙◌, Option, none, some, String}
use runner_io.Common.Exit.{
  returned, Ensures, Ensures->>=, Ensures-or_exit, exits, returns, of_Ensures,
}
use runner_io.Dto.Auth.{MgmtPostResponse}
use runner_io.Auth.Requests.{Net, Request, read_response, get_user_info, get_user_permissions}
use runner_io.Auth.UserInfo.{
  Headers, Settings, Services, keep_token, use_token, access_token, fetch_user, fetch_permissions,
  user_info_middleware,
}
use runner_io.Auth.UserInfo.Identity.{or_else, Passed, user_info_middleware-Passed}

-- While an entry lives, Redis gives back what was put into it, and the requests over HTTP leave it
-- alone.
pub record IsCache {R S : Type 0} (net : Net R S) (services : Services S) : Type 0 where
  pub reads :
      (token : String) (s : S) → services.cached_token (services.cache_token token s) ≡ some token
  pub kept :
      (req : Request) (s : S) → services.cached_token (net.send req s).1 ≡ services.cached_token s

-- The cache after a call is the one before it.
abbrev Keeps {ℓ} : {A : Type ℓ} {S : Type 0} → Services S → S → A × S → Type 0
Keeps services s r = services.cached_token r.1 ≡ services.cached_token s

-- The cache after a call holds the token, and the token that it held before is the same.
abbrev Holds : {S : Type 0} → Services S → S → String × S → Type 0
Holds services s r =
    (services.cached_token r.1 ≡ some r.0) × (or_else (services.cached_token s) r.0 ≡ r.0)

module _ {R S : Type 0} (net : Net R S) (services : Services S) (law : IsCache net services) where
  read_response-Ensures :
      {A : Type 0} (decode : String → Option A) (req : Request) (s : S)
      → Ensures (Keeps services s) (read_response net decode (net.send req s))
  unfolding read_response
  read_response-Ensures decode req s =
      Ensures-or_exit _ _
        λ response read. Ensures-or_exit _ _ λ body all. returns _ (law.kept req s)

  get_user_info-Ensures :
      (issuer_url token : String) (s : S)
      → Ensures (Keeps services s) (get_user_info net issuer_url token s)
  unfolding get_user_info
  get_user_info-Ensures issuer_url token s =
      Ensures-or_exit _ _
        λ url joined. Ensures-or_exit _ _ λ req made. read_response-Ensures net.user_data_of _ s

  get_user_permissions-Ensures :
      (url token : String) (s : S)
      → Ensures (Keeps services s) (get_user_permissions net url token s)
  unfolding get_user_permissions
  get_user_permissions-Ensures url token s =
      Ensures-or_exit _ _ λ req made. read_response-Ensures net.permissions_of _ s

  module _ (settings : Settings) where
    keep_token-Ensures :
        (s : S)
        → services.cached_token s ≡ none
        → (answer : Option MgmtPostResponse × S)
        → Ensures (Holds services s) (keep_token net services settings answer)
    keep_token-Ensures s empty (none, s') = exits
    keep_token-Ensures s empty (some response, s') =
        returns _
          (law.reads response.access_token s', ap (λ o. or_else o response.access_token) empty)

    use_token-Ensures :
        (api url : String) (s : S) (cached : Option String)
        → services.cached_token s ≡ cached
        → Ensures (Holds services s) (use_token net services settings api url cached s)
    use_token-Ensures api url s (some token) e = returns _ (e, ap (λ o. or_else o token) e)
    use_token-Ensures api url s none e = Ensures->>= _ _ λ answer got. keep_token-Ensures s e answer

    access_token-Ensures :
        (api url : String) (s : S)
        → Ensures (Holds services s) (access_token net services settings api url s)
    unfolding access_token
    access_token-Ensures api url s = use_token-Ensures api url s _ refl

    fetch_user-Ensures :
        (headers : Headers) (s : S)
        → Ensures (Keeps services s) (fetch_user net services settings headers s)
    unfolding fetch_user
    fetch_user-Ensures headers s = Ensures-or_exit _ _ λ token extracted.
        Ensures-or_exit _ _ λ issuer_url parsed. Ensures->>= _ _ λ answer got.
          Ensures-or_exit _ _
            λ user decoded. returns _ (of_Ensures got (get_user_info-Ensures issuer_url token s))

    fetch_permissions-Ensures :
        (url token : String) (s : S)
        → Ensures (Keeps services s) (fetch_permissions net services settings url token s)
    unfolding fetch_permissions
    fetch_permissions-Ensures url token s = Ensures->>= _ _ λ answer got.
        Ensures-or_exit _ _ λ permissions decoded.
          returns _ (of_Ensures got (get_user_permissions-Ensures url token s))

    -- Where Redis gives back what was put into it and the requests over HTTP leave it alone: when
    -- a request has passed the middleware, the cache holds the token that the permissions were
    -- asked with, and where it held a token before, that is the one: it is not replaced.
    pub user_info_middleware-cached_token :
        (headers : Headers) (s : S) (headers' : Headers) (s' : S)
        → user_info_middleware net services settings headers s ≡ returned (headers', s')
        → (passed : Passed net services settings headers s headers' s') × (services.cached_token s'
            ≡ some passed.token)
          × (or_else (services.cached_token s) passed.token ≡ passed.token)
    user_info_middleware-cached_token headers s headers' s' done =
        let passed = user_info_middleware-Passed net services settings done in
        let fetched = of_Ensures passed.user_fetched (fetch_user-Ensures headers s) in
        let held =
          of_Ensures passed.token_used
            (access_token-Ensures passed.mgmt_audience_api passed.mgmt_token_url passed.asked) in
        let allowed =
          of_Ensures passed.permissions_fetched
            (fetch_permissions-Ensures passed.permission_url passed.token passed.tokened) in
        (passed, allowed ∙ held.0, ap (λ o. or_else o passed.token) (sym fetched) ∙ held.1)
