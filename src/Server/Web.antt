-- ===== src/Server/Web.antt =====
-- internal/server: what a handler reads of a request, what it answers, and how it stops early.
-- `net/http` and `html/template` are not part of the repository: a request comes parsed, an answer is not printed.
use router_billing.Prelude.{
  ℕ, ◌+◌, ◌≡◌, refl, ap, ◌⊎◌, inl, inr, Bool, true, false, Option, none, some, List, [], ◌∷◌, ◌++◌,
  Text, length, leb, text_eq, is_empty, ◌==◌, if◌then◌else◌,
}
use router_billing.Prelude.Int.{ℤ, pos}
use router_billing.Prelude.Texts.{codes, trim_space}
use router_billing.Models.{Time}
use router_billing.Db.{Query, Result, ok, err}
use router_billing.Service.{Action}
use router_billing.Totp.{Crypto}
use router_billing.Server.{App, AuditEntry, audit}

pub data Method : Type 0 where
  get_method post_method other_method : Method

-- A JSON body that `encoding/json` could decode: the values of its fields, zero where one is missing.
pub record Body : Type 0 where
  pub text : Text → Text
  pub number : Text → ℤ
  pub flag : Text → Bool

pub record Request : Type 0 where
  pub method : Method
  -- `r.Cookie(name)`
  pub cookie : Text → Option Text
  -- `r.URL.Query().Get(name)`
  pub query : Text → Text
  -- `r.ParseForm()`, then `r.PostForm.Get(name)`
  pub form : Option (Text → Text)
  -- `json.NewDecoder(r.Body).Decode(&req)`
  pub body : Option Body
  -- `r.FormValue("_csrf")`
  pub csrf : Text
  -- `r.Header.Get(name)`
  pub header : Text → Text
  -- `r.URL.RequestURI()`
  pub uri : Text
  -- the host of `r.RemoteAddr`
  pub remote : Text

-- The random tokens that a request may draw.
pub data Purpose : Type 0 where
  for_session for_pending for_trust for_csrf : Purpose

-- What a handler finds outside of the program.
pub record Host : Type 0 where
  pub now : Time
  -- the outcome of each call of the database, counted within the request
  pub works : ℕ → Bool
  -- `bcrypt.CompareHashAndPassword(hash, password) == nil`
  pub matches : Text → Text → Bool
  -- `bcrypt.GenerateFromPassword`
  pub hash : Text → Option Text
  pub crypto : Crypto
  -- `totp.GenerateSecret`, and the random bytes of new backup codes; `none` where `rand.Read` fails
  pub secret : Option Text
  pub backup_bytes : Option (List Text)
  -- `randomToken(32)`
  pub fresh : Purpose → Text
  -- `url.QueryEscape`
  pub escape : Text → Text
  -- `cfg.Security`
  pub strict : Bool
  pub session_ttl : ℤ

-- Some call of the database in the request failed.
abbrev pub HasFailed : Host → Type 0
HasFailed h = (i : ℕ) × (h.works i ≡ false)

pub data Reply : Type 0 where
  redirect : Text → Reply
  -- a template, with the error that it shows
  page : Text → Text → Reply
  -- `http.Error`
  refused : ℕ → Text → Reply
  -- `writeJSON`: the status, and its "error" or nothing
  json : ℕ → Text → Reply
  -- a panic, after which `net/http` closes the connection
  panicked : Reply

-- `http.SetCookie`; a negative age makes the browser forget it.
pub record Cookie : Type 0 where
  pub name : Text
  pub value : Text
  pub max_age : ℤ

-- The state of a handler while it runs.
pub record Exchange (S : Type 0) : Type 0 where
  pub app : App S
  pub cookies : List Cookie
  -- how many calls of the database this request has made
  pub calls : ℕ

-- A handler goes on with a value, or has replied.
pub data Outcome (A : Type 0) : Type 0 where
  goes : A → Outcome A
  replied : Reply → Outcome A

pub Outcome-cases :
    {A : Type 0} (o : Outcome A) → ((a : A) × (o ≡ goes a)) ⊎ ((r : Reply) × (o ≡ replied r))
Outcome-cases (goes a) = inl (a, refl)
Outcome-cases (replied r) = inr (r, refl)

abbrev pub Step : Type 0 → Type 0 → Type 0
Step S A = Exchange S → Outcome A × Exchange S

abbrev pub is_get : Method → Bool
is_get Method.get_method = true
is_get _ = false

abbrev pub is_post : Method → Bool
is_post Method.post_method = true
is_post _ = false

-- `c.Value`, where a missing cookie counts like an empty one.
abbrev pub value_of : Option Text → Text
value_of none = []
value_of (some v) = v

module _ {S : Type 0} where
  infixl 5 ◌>>=◌ ◌>>◌
  abbrev pub ◌>>=◌ : {A B : Type 0} → Step S A → (A → Step S B) → Step S B
  ◌>>=◌ m f x = let (o, x') = m x in elim o [ goes a ↦ f a x' | replied r ↦ (replied r, x') ]

  abbrev pub ◌>>◌ : {A B : Type 0} → Step S A → Step S B → Step S B
  m >> k = m >>= λ _. k

  abbrev pub go : {A : Type 0} → A → Step S A
  go a x = (goes a, x)

  abbrev pub leave : {A : Type 0} → Reply → Step S A
  leave r x = (replied r, x)

  -- `if !ok { ...; return }`
  abbrev pub need : Bool → Reply → Step S (Unit {0})
  need true r = go tt
  need false r = leave r

  abbrev pub need_some : {A : Type 0} → Option A → Reply → Step S A
  need_some none r = leave r
  need_some (some a) r = go a

  abbrev pub need_ok : {A : Type 0} → Result A → Reply → Step S A
  need_ok (ok a) r = go a
  need_ok (err e) r = leave r

  -- The handler's answer.
  abbrev pub reply : Reply → Step S (Unit {0})
  reply r = leave r

  abbrev pub set_cookie : Cookie → Step S (Unit {0})
  set_cookie c x = (goes tt, record x { cookies = x.cookies ++ c ∷ [] })

  abbrev pub change : (App S → App S) → Step S (Unit {0})
  change f x = (goes tt, record x { app = f x.app })

  -- A call of the database; the handler looks at its error.
  abbrev pub ask : {A : Type 0} → Host → (Bool → Query A) → Step S (Result A)
  ask h q x =
      let (o, d) = q (h.works x.calls) x.app.router.db in
      (
        goes o,
        record x {
          app = record (x.app) { router = record (x.app.router) { db = d } };
          calls = x.calls + 1;
        },
      )

  -- A call with two or three statements that may fail on their own.
  abbrev pub ask_two : {A : Type 0} → Host → (Bool → Bool → Query A) → Step S (Result A)
  ask_two h q x =
      let (o, d) = q (h.works x.calls) (h.works (x.calls + 1)) x.app.router.db in
      (
        goes o,
        record x {
          app = record (x.app) { router = record (x.app.router) { db = d } };
          calls = x.calls + 2;
        },
      )

  abbrev pub ask_three : {A : Type 0} → Host → (Bool → Bool → Bool → Query A) → Step S (Result A)
  ask_three h q x =
      let (o, d) =
        q (h.works x.calls) (h.works (x.calls + 1)) (h.works (x.calls + 2)) x.app.router.db in
      (
        goes o,
        record x {
          app = record (x.app) { router = record (x.app.router) { db = d } };
          calls = x.calls + 3;
        },
      )

  -- A call of `MACService`, which asks the database up to two things.
  abbrev pub serve : {A : Type 0} → Host → (Bool → Bool → Action S A) → Step S (Result A)
  serve h m x =
      let (o, router) = m (h.works x.calls) (h.works (x.calls + 1)) x.app.router in
      (goes o, record x { app = record (x.app) { router = router }; calls = x.calls + 2 })

  -- `a.DB.Audit`, whose failure is dropped.
  abbrev pub note : Host → AuditEntry → Step S (Unit {0})
  note h e x = (goes tt, record x { app = audit (h.works x.calls) e x.app; calls = x.calls + 1 })

-- `clientIP`: the first entry of X-Forwarded-For, which the client may set, and else the peer.
abbrev until_comma : Text → Text
until_comma [] = []
until_comma (c ∷ s) = if c == b',' then [] else c ∷ until_comma s

unfoldable pub client_ip : Request → Text
client_ip r =
    if is_empty (r.header (codes "X-Forwarded-For"))
    then r.remote
    else trim_space (until_comma (r.header (codes "X-Forwarded-For")))

abbrev pub csrf_cookie_name : Text
csrf_cookie_name = codes "rb_csrf"

abbrev long_enough : Option Text → Bool
long_enough none = false
long_enough (some v) = leb 32 (length v)

-- `verifyCSRF`
unfoldable pub verify_csrf : Request → Bool
verify_csrf r =
    if is_post r.method
    then (if long_enough (r.cookie csrf_cookie_name)
        then text_eq (if is_empty r.csrf then r.header (codes "X-CSRF-Token") else r.csrf)
            (value_of (r.cookie csrf_cookie_name))
        else false)
    else true

-- `csrfMiddleware`: the token of the page, and the cookies that are set for it.
unfoldable pub csrf_token : Host → Request → Text × List Cookie
csrf_token h r =
    if long_enough (r.cookie csrf_cookie_name)
    then (value_of (r.cookie csrf_cookie_name), [])
    else (
      h.fresh for_csrf,
      record { name = csrf_cookie_name; value = h.fresh for_csrf; max_age = pos 2_592_000 } ∷ [],
    )

-- A step that goes on, and one that has replied.
pub bind-goes :
    {S A B : Type 0} (m : Step S A) (f : A → Step S B) (x : Exchange S) (a : A)
    → (m x).0 ≡ goes a
    → (m >>= f) x ≡ f a (m x).1
bind-goes {S} {A} {B} m f x a e =
    ap
      (λ (o : Outcome A). elim o as (λ _. Outcome B × Exchange S) [
        | goes a ↦ f a (m x).1
        | replied r ↦ (replied r, (m x).1)
      ])
      e

pub bind-replied :
    {S A B : Type 0} (m : Step S A) (f : A → Step S B) (x : Exchange S) (r : Reply)
    → (m x).0 ≡ replied r
    → (m >>= f) x ≡ (replied r, (m x).1)
bind-replied {S} {A} {B} m f x r e =
    ap
      (λ (o : Outcome A). elim o as (λ _. Outcome B × Exchange S) [
        | goes a ↦ f a (m x).1
        | replied r ↦ (replied r, (m x).1)
      ])
      e
