-- ===== src/Server/Api/Scoped.antt =====
-- What a token may do: without one that may write, nothing of the database and the firewall changes.
use router_billing.Prelude.{
  ◌≡◌, sym, ap, ◌∙◌, Bool, false, not, ◌&&◌, Option, none, some, List, arith, inl, inr, Bool-cases,
}
use router_billing.Firewall.{Nft}
use router_billing.Server.Web.{
  Request, Host, Exchange, is_get, is_post, goes, Outcome-cases, bind-goes, bind-replied,
}
use router_billing.Server.Api.{
  ApiToken, presented_token, match_api_token_full, api_token_allow, match_bearer,
}
use router_billing.Server.Api.Routes.{ApiCall, gated, serve_api}

-- The token of the request, where it is one of the configured ones.
abbrev pub token_in : List ApiToken → Request → Option ApiToken
token_in ts r = elim (presented_token r) [
  | none ↦ none
  | some presented ↦ match_api_token_full presented ts
]

abbrev pub may_write : Option ApiToken → Bool
may_write none = false
may_write (some t) = not t.read_only

pub match_bearer-router :
    {S : Type 0} (h : Host) (ts : List ApiToken) (r : Request) (x : Exchange S)
    → (match_bearer h ts r x).1.app.router ≡ x.app.router
unfolding match_bearer api_token_allow
match_bearer-router h ts r x = ground arith

match_bearer-token :
    {S : Type 0} (h : Host) (ts : List ApiToken) (r : Request) (x : Exchange S) (t : ApiToken)
    → (match_bearer h ts r x).0 ≡ goes t
    → token_in ts r ≡ some t
unfolding match_bearer
match_bearer-token h ts r x t e = ground arith

module _ (n : Nft) (h : Host) (r : Request) (ts : List ApiToken) where
  gated-refused :
      (what : ApiCall) (t : ApiToken) (x : Exchange n.State)
      → (is_post r.method && not t.read_only) ≡ false
      → (gated n h r what t x).1.app.router ≡ x.app.router
  gated-refused what t x closed = elim (Bool-cases (is_post r.method)) [
    | inr other ↦ ground arith
    | inl post ↦
        let not_get : is_get r.method ≡ false = ground arith in
        let reads : not t.read_only ≡ false = ground arith in rw (not_get, reads)
  ]

  -- A request that is no POST, or has no known token, or a token for reading only, changes nothing of the database
  -- and the firewall.
  pub serve_api-refused :
      (what : ApiCall) (x : Exchange n.State)
      → (is_post r.method && may_write (token_in ts r)) ≡ false
      → (serve_api n h r ts what x).1.app.router ≡ x.app.router
  unfolding serve_api
  serve_api-refused what x closed =
      let rest = λ (t : ApiToken). gated n h r what t in
      let same = match_bearer-router h ts r x in
      elim (Outcome-cases (match_bearer h ts r x).0) [
        | inr (reply, e) ↦ rw (bind-replied (match_bearer h ts r) rest x reply e, same)
        | inl (t, e) ↦
            let run = bind-goes (match_bearer h ts r) rest x t e in
            let token = match_bearer-token h ts r x t e in
            rw (
              run,
              gated-refused what t _
                  (ap (λ o. is_post r.method && may_write o) (sym token) ∙ closed),
              same,
            )
      ]
