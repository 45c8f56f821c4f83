-- ===== src/Oauth/Steps.antt =====
-- The handlers and statements that write the OAuth tables as steps, the states that they reach, and
-- what holds in all of them. A step is indexed by the code that it may store.
use activitypub_core.Common.{ℕ, String, Option, List}
use activitypub_core.Url.Query.{Values}
use activitypub_core.Store.{Actor}
use activitypub_core.Oauth.State.{OauthDb, Crypto}
use activitypub_core.Oauth.Store.{upsert_local_account_password}
use activitypub_core.Oauth.Params.{TokenRequest, Readers}
use activitypub_core.Oauth.Authorize.{post_oauth_authorize}
use activitypub_core.Oauth.Token.{post_oauth_token}
use activitypub_core.Oauth.Register.{AppsRequest, post_apps}
use activitypub_core.Oauth.Consistent.{IsConsistent}
use activitypub_core.Oauth.Preservation.{
  post_apps-IsConsistent, post_oauth_authorize-IsConsistent, post_oauth_token-IsConsistent,
  upsert_local_account_password-IsConsistent,
}

module _ (p : Crypto) where
  -- One request or statement; actors are added by other parts of the program.
  pub data Step : String → OauthDb → OauthDb → Type 0 where
    register :
        (code id secret : String) (r : AppsRequest) (s : OauthDb)
        → Step code s (post_apps p id secret r s).1
    authorize :
        (base code : String) (now : ℕ) (method : String) (form : Option Values) (s : OauthDb)
        → Step code s (post_oauth_authorize p base code now method form s).1
    exchange :
        (code : String) (readers : Readers) (now : ℕ) (token : String) (r : TokenRequest)
        (s : OauthDb)
        → Step code s (post_oauth_token p readers now token r s).1
    set_password :
        (code salt : String) (actor : ℕ) (password : String) (s : OauthDb)
        → Step code s (upsert_local_account_password p salt actor password s).1
    set_actors :
        (code : String) (actors : List Actor) (s : OauthDb)
        → Step code s (record s { actors = actors })

  pub data Reach (s : OauthDb) : OauthDb → Type 0 where
    here : Reach s s
    next : {code : String} {t u : OauthDb} → Reach s t → Step code t u → Reach s u

  Step-IsConsistent :
      {code : String} {s t : OauthDb} → Step code s t → IsConsistent s → IsConsistent t
  Step-IsConsistent (register code id secret r s) h = post_apps-IsConsistent p s h id secret r
  Step-IsConsistent (authorize base code now method form s) h =
      post_oauth_authorize-IsConsistent p s h base code now method form
  Step-IsConsistent (exchange code readers now token r s) h =
      post_oauth_token-IsConsistent p s h readers now token r
  Step-IsConsistent (set_password code salt actor password s) h =
      upsert_local_account_password-IsConsistent p s h salt actor password
  Step-IsConsistent (set_actors code actors s) h = record {
    clients = h.clients;
    ids = h.ids;
    distinct_ids = h.distinct_ids;
    codes = h.codes;
    tokens = h.tokens;
    issued = h.issued;
    granted = h.granted;
  }

  -- From consistent tables every sequence of requests reaches consistent tables.
  pub Reach-IsConsistent : (s t : OauthDb) → IsConsistent s → Reach s t → IsConsistent t
  Reach-IsConsistent s t h here = h
  Reach-IsConsistent s t h (next r step) = Step-IsConsistent step (Reach-IsConsistent s _ h r)
