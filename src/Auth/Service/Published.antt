-- ===== src/Auth/Service/Published.antt =====
-- When the login service hands out a session.
use waw_discord_bot.Prelude.{
  ℕ, ◌≡◌, ◌⊎◌, refl, ap, sym, subst, Bool, true, false, Option, none, some, List, [], ◌∷◌, ◌++◌,
  Option-cases, inl, inr,
}
use waw_discord_bot.Prelude.Effects.{continue-eq-some, pure-eq-some}
use waw_discord_bot.Auth.Session.{AuthorizationTier}
use waw_discord_bot.Auth.Cookies.{Chars, oauth_state_cookie_name, read_exact_cookie}
use waw_discord_bot.Auth.Cookies.Laws.{same_iff}
use waw_discord_bot.Auth.Ports.{
  AuthConfiguration, EnabledAuthConfiguration, AuthServiceResponse, Node, Ports,
}
use waw_discord_bot.Auth.Csrf.{create_boundary}
use waw_discord_bot.Auth.Callback
use waw_discord_bot.Auth.Callback.{
  OauthCallbackOutcome, succeeded, denied, CallbackDenial, CallbackCommand, complete_oauth_callback,
}
use waw_discord_bot.Auth.Callback.Laws.{IsCompleted, complete_oauth_callback-IsCompleted}
use waw_discord_bot.Auth.CallbackRequest.{
  FrameworkNeutralRequest, parse_callback_command, callback_response, handle_command,
  handle_oauth_callback_request,
}
use waw_discord_bot.Auth.Service.{
  ready, read_callback_state, is_same_state, publish, expired_oauth_state_cookie, callback_compared,
  callback_ready, callback,
}

module _ (node : Node) (csrf_key : Chars) {S : Type 0} (ports : Ports S) (provided : Bool)
    (request : FrameworkNeutralRequest) (raw : Chars) (now : ℕ) where
  same_state-both :
      (a b : Option Chars)
      → is_same_state node csrf_key ports provided a b ≡ true
      → (state : Chars) × (a ≡ some state) × (b ≡ some state)
  unfolding is_same_state
  same_state-both none b h = absurd (cc)
  same_state-both (some x) none h = absurd (cc)
  same_state-both (some x) (some y) h = (x, refl, ap (λ z. some z) (sym ((same_iff x y).0 h)))

  -- The state of the callback is the browser's, the request is a callback, and the login is
  -- completed: the response then sets the cookies of the session.
  pub record IsLogin (configuration : AuthConfiguration) (s : S) (response : AuthServiceResponse)
      (u : S) : Type 0 where
    pub settings : EnabledAuthConfiguration
    pub is_ready : ready node csrf_key ports provided configuration ≡ some settings
    pub state : Chars
    pub in_address : read_callback_state node csrf_key ports provided request.url ≡ some state
    pub in_cookie : read_exact_cookie request.headers.cookie oauth_state_cookie_name ≡ some state
    pub command : CallbackCommand
    pub is_parsed : parse_callback_command node csrf_key settings request ≡ some (some command)
    pub tier : AuthorizationTier
    pub cookies : List Chars
    pub is_completed : IsCompleted node csrf_key settings ports command raw now s tier cookies u
    pub sets : response.set_cookie ≡ some (cookies ++ (expired_oauth_state_cookie ∷ []))

  -- Nothing is set but the end of the state's cookie.
  abbrev pub SetsNothing : AuthServiceResponse → Type 0
  SetsNothing response =
      (response.set_cookie ≡ none) ⊎ (response.set_cookie ≡ some (expired_oauth_state_cookie ∷ []))

  publish-denied :
      (c : EnabledAuthConfiguration) (reason : CallbackDenial) (cookies : List Chars)
      → SetsNothing (
          publish node csrf_key ports provided
            (callback_response node csrf_key c (some (denied reason, cookies))))
  publish-denied c Callback.state_invalid [] = inr refl
  publish-denied c Callback.identity_invalid [] = inr refl
  publish-denied c Callback.unauthorized [] = inr refl
  publish-denied c Callback.provider_unavailable [] = inr refl
  publish-denied c Callback.session_fixation [] = inr refl
  publish-denied c Callback.state_invalid (x ∷ xs) = inr refl
  publish-denied c Callback.identity_invalid (x ∷ xs) = inr refl
  publish-denied c Callback.unauthorized (x ∷ xs) = inr refl
  publish-denied c Callback.provider_unavailable (x ∷ xs) = inr refl
  publish-denied c Callback.session_fixation (x ∷ xs) = inr refl

  module _ (configuration : AuthConfiguration) (c : EnabledAuthConfiguration) (s : S)
      (is_ready : ready node csrf_key ports provided configuration ≡ some c)
      (same : is_same_state node csrf_key ports provided
          (read_callback_state node csrf_key ports provided request.url)
          (read_exact_cookie request.headers.cookie oauth_state_cookie_name)
        ≡ true) where
    outcome-IsLogin :
        (command : CallbackCommand)
        → parse_callback_command node csrf_key c request ≡ some (some command)
        → (o : Option (OauthCallbackOutcome × List Chars)) (u : S)
        → complete_oauth_callback node csrf_key c ports command raw now s ≡ (o, u)
        → let response =
            publish node csrf_key ports provided (callback_response node csrf_key c o) in
          SetsNothing response ⊎ IsLogin configuration s response u
    outcome-IsLogin command parsed none u h = inl (inr refl)
    outcome-IsLogin command parsed (some (denied reason, cookies)) u h =
        inl (publish-denied c reason cookies)
    outcome-IsLogin command parsed (some (succeeded t, [])) u h = inl (inl refl)
    outcome-IsLogin command parsed (some (succeeded t, cookie ∷ cookies)) u h =
        let both = same_state-both _ _ same in
        inr (record {
          settings = c;
          is_ready = is_ready;
          state = both.0;
          in_address = both.1;
          in_cookie = both.2;
          command = command;
          is_parsed = parsed;
          tier = t;
          cookies = cookie ∷ cookies;
          is_completed =
              complete_oauth_callback-IsCompleted node csrf_key c ports command raw now s h;
          sets = refl;
        })

    handled-IsLogin :
        (parsed : Option (Option CallbackCommand)) {response : AuthServiceResponse} {u : S}
        → parse_callback_command node csrf_key c request ≡ parsed
        → callback_compared node csrf_key ports provided c request raw now true s
          ≡ (some response, u)
        → SetsNothing response ⊎ IsLogin configuration s response u
    unfolding callback_compared handle_oauth_callback_request handle_command
    handled-IsLogin none e h =
        let thrown = rw (e, callback_compared, handle_oauth_callback_request) at h in absurd (cc)
    handled-IsLogin (some none) e h =
        let (answered, kept) =
          pure-eq-some _ s
            (rw (e, callback_compared, handle_oauth_callback_request, handle_command) at h) in
        inl (subst SetsNothing answered (inr refl))
    handled-IsLogin (some (some command)) {response} {u} e h =
        let (o, w) = complete_oauth_callback node csrf_key c ports command raw now s in
        let (answered, kept) =
          pure-eq-some (publish node csrf_key ports provided (callback_response node csrf_key c o))
            w (rw (e, callback_compared, handle_oauth_callback_request, handle_command) at h) in
        subst (λ r. SetsNothing r ⊎ IsLogin configuration s r u) answered
          (outcome-IsLogin command e o u (ap (λ v. (o, v)) kept))

  compared-IsLogin :
      (configuration : AuthConfiguration) (c : EnabledAuthConfiguration) (s : S)
      {response : AuthServiceResponse} {u : S}
      → ready node csrf_key ports provided configuration ≡ some c
      → (b : Bool)
      → is_same_state node csrf_key ports provided
          (read_callback_state node csrf_key ports provided request.url)
          (read_exact_cookie request.headers.cookie oauth_state_cookie_name)
        ≡ b
      → callback_compared node csrf_key ports provided c request raw now b s ≡ (some response, u)
      → SetsNothing response ⊎ IsLogin configuration s response u
  unfolding callback_compared
  compared-IsLogin configuration c s is_ready true same h =
      handled-IsLogin configuration c s is_ready same _ refl h
  compared-IsLogin configuration c s is_ready false other h =
      inl (subst SetsNothing (pure-eq-some _ s h).0 (inr refl))

  -- Whatever the stores and Discord answer: if the callback of a login answers and its response sets
  -- more than the end of the state's cookie, then the state of the address is that of the browser's
  -- cookie, the request is a callback, its login is completed, and what is set are the cookies of
  -- its session and the end of the state's cookie.
  pub callback-IsLogin :
      (configuration : AuthConfiguration) (s : S) {response : AuthServiceResponse} {u : S}
      → callback node csrf_key ports provided configuration request raw now s ≡ (some response, u)
      → SetsNothing response ⊎ IsLogin configuration s response u
  unfolding callback callback_ready
  callback-IsLogin configuration s {response} {u} h =
      elim (Option-cases (ready node csrf_key ports provided configuration)) [
        | inl off ↦
            let (answered, kept) = pure-eq-some _ s (rw (off, callback) at h) in
            inl (subst SetsNothing answered (inl refl))
        | inr (c, is_ready) ↦
            let (boundary, v, made, h₁) =
              continue-eq-some _ (create_boundary node csrf_key, s)
                (rw (is_ready, callback, callback_ready) at h) in
            let kept : v ≡ s = ap (λ (x : Option (Unit {0}) × S). x.1) (sym made) in
            compared-IsLogin configuration c s is_ready _ refl (
              subst
                (λ w.
                  callback_compared node csrf_key ports provided c request raw now
                    (is_same_state node csrf_key ports provided
                      (read_callback_state node csrf_key ports provided request.url)
                      (read_exact_cookie request.headers.cookie oauth_state_cookie_name))
                    w
                  ≡ (some response, u))
                kept h₁)
      ]
