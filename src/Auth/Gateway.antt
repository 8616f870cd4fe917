-- ===== src/Auth/Gateway.antt =====
-- The two ways in which a request gets its user: Traefik asks `Verify` and passes the headers on, or
-- the middleware of the auth service reads the token itself.
use ticketbus.Base.{Uuid, sym, ap, ◌≡◌, refl, String, Option, none, some, if◌then◌else◌}
use ticketbus.Text.{is_empty, cut_prefix}
use ticketbus.Db.{World}
use ticketbus.Http.{
  id_or, word_or, Response, sent, failed, Context, Headers, Endpoint, anonymous, with_user_context,
  unauthorized,
}
use ticketbus.Auth.Domain.{Tables, Claims}
use ticketbus.Auth.Service.{Env, verify_access_token}
use ticketbus.Auth.Handlers.{
  verify, verified, verify_after, headers_of, context_of, bearer_auth, serve_claims, serve_token,
}

id_or-none : (u : Option Uuid) → id_or u none ≡ u
id_or-none none = refl
id_or-none (some u) = refl

word_or-empty : (s : String) → word_or s "" ≡ s
word_or-empty String.[] = refl
word_or-empty (String.◌∷◌ c s) = refl

passed_on :
    (env : Env) (c : Claims) → with_user_context (headers_of env c) anonymous ≡ context_of env c
unfolding with_user_context
passed_on env c = λ i. record {
  user_id = id_or-none c.user_id i;
  user_role = word_or-empty c.role i;
  user_email = word_or-empty c.email i;
}

module _ {B : Type 0} (next : Context → Endpoint Tables B) (w : World Tables)
    (got : Response B × World Tables) where
  -- The middleware did what the gateway's answer leads to: it ran the handler with the user that the
  -- headers name, or refused with 401.
  abbrev pub Agrees : Response Headers → Type 0
  Agrees (sent _ hs) = got ≡ next (with_user_context hs anonymous) w
  Agrees (failed code _) = (code ≡ 401) × (m : String) × (got ≡ (unauthorized m, w))

serve_claims-Agrees :
    (env : Env) {B : Type 0} (next : Context → Endpoint Tables B) (w : World Tables)
    (o : Option Claims)
    → Agrees next w (serve_claims env next o w) (verified env o)
serve_claims-Agrees env next w none = (refl, "invalid token", refl)
serve_claims-Agrees env next w (some c) = sym (ap (λ x. next x w) (passed_on env c))

serve_token-Agrees :
    (env : Env) {B : Type 0} (next : Context → Endpoint Tables B) (w : World Tables)
    (o : Option String)
    → Agrees next w (serve_token env next o w) (verify_after env o)
serve_token-Agrees env next w none = (refl, "missing or invalid authorization header", refl)
serve_token-Agrees env next w (some token) =
    serve_claims-Agrees env next w (verify_access_token env token)

header-Agrees :
    (env : Env) {B : Type 0} (next : Context → Endpoint Tables B) (w : World Tables) (a : String)
    → Agrees next w (serve_token env next (cut_prefix "Bearer " a) w) (
        if is_empty a
        then failed 401 "missing Authorization header"
        else verify_after env (cut_prefix "Bearer " a))
unfolding cut_prefix
header-Agrees env next w String.[] = (refl, "missing or invalid authorization header", refl)
header-Agrees env next w (String.◌∷◌ c s) =
    serve_token-Agrees env next w (cut_prefix "Bearer " (String.◌∷◌ c s))

-- For every `Authorization` header, the handler behind the middleware meets the context that it would
-- meet behind Traefik, which asks `Verify` and sends its headers on; and where `Verify` refuses, it
-- answers 401, the middleware does too, and the handler does not run.
pub verify-bearer_auth :
    (env : Env) {B : Type 0} (next : Context → Endpoint Tables B) (h : Headers) (w : World Tables)
    → Agrees next w (bearer_auth env next h anonymous w) (verify env h)
unfolding verify bearer_auth
verify-bearer_auth env next h w = header-Agrees env next w h.authorization
