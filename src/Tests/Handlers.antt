-- ===== src/Tests/Handlers.antt =====
-- The theorems on handlers, at a router with one member.
use router_billing.Prelude.{
  ◌≡◌, ◌⊎◌, refl, true, false, ◌&&◌, Option, none, some, ℕ, List, [], ◌∷◌, Text, if◌then◌else◌,
  length, arith,
}
use router_billing.Prelude.Lists.{all, keep, text_eq, any}
use router_billing.Prelude.Digits.{itoa, itoa_from}
use router_billing.Prelude.Int.{pos, ◌+ℤ◌}
use router_billing.Prelude.Table.{find, get, update_where}
use router_billing.Prelude.Texts.{
  codes, trim_space, trim_left, trim_right, is_space, to_upper, has_prefix,
}
use router_billing.Models.{OrderStatus, day_ns}
use router_billing.Models.Accounts.{User}
use router_billing.Models.Passwords.{is_digit}
use router_billing.Models.TypedText.{normalize_mac, mac_re, sep_pairs, join_pairs}
use router_billing.Models.TypedText.Canonical.{normalize_mac-normalize_mac}
use router_billing.Codes.{
  new_code, validate, canon, pretty, letter_of, char_at, alphabet, is_letter_of_code,
}
use router_billing.Codes.Shape.{new_code-validate, canon-pretty}
use router_billing.Totp.{
  Crypto, IsCrypto, hotp, code_at, verify, unix, decode_secret, truncate, byte_at, padded, step_of,
  uint64, big_endian,
}
use router_billing.Totp.Window.{hotp_lem, code_at-verify}
use router_billing.Db.Macs.{upsert_mac, get_mac, set_mac_label}
use router_billing.Db.Users.{new_user}
use router_billing.Db.Users.Apart.{IsUntouched}
use router_billing.Firewall.{add, valid_from, valid_mac}
use router_billing.Service.Synced.{IsSynced}
use router_billing.Server.Web.{
  Request, Body, Host, Exchange, post_method, Purpose, for_session, for_pending, for_trust,
  for_csrf, replied, redirect, verify_csrf,
}
use router_billing.Server.Accounts.Gate.{is_some, signed_in}
use router_billing.Server.Login.{handle_user_login}
use router_billing.Server.Login.Admitted.{IsAdmitted, handle_user_login_lem}
use router_billing.Server.SecondFactor.{handle_user_login_2fa, tries_of, next_attempt}
use router_billing.Server.SecondFactor.Swap.{IsWaiting, IsSwapped, handle_user_login_2fa_lem}
use router_billing.Server.Forgot.{Provider, handle_user_forgot_password_verify}
use router_billing.Server.Forgot.Burned.{AreKept, IsReset, handle_user_forgot_password_verify_lem}
use router_billing.Server.Settings.{serve_setting, signs_out_others}
use router_billing.Server.Settings.Isolated.{
  is_other, serve_setting-IsUntouched, serve_setting-refused,
}
use router_billing.Server.Api.{
  ApiToken, done, presented_token, match_api_token_full, match_from, match_bearer,
}
use router_billing.Server.Api.Devices.{relabels, device_call, api_mac_label, known_mac, store_label}
use router_billing.Server.Api.Routes.{serve_api, on_device, api_call}
use router_billing.Server.Api.Scoped.{serve_api-refused, token_in, may_write}
use router_billing.Server.Api.Synced.{serve_api-IsSynced}
use router_billing.Db.Vouchers.{new_voucher, redeem_voucher}
use router_billing.Db.Sessions.{get_session}
use router_billing.Db.Users.{get_user}
use router_billing.Server.RateLimiter.{
  allow, hits_of, set_hits, sweep, new_limits, new_rate_limiter,
}
use router_billing.Server.Accounts.{current_user_id}
use router_billing.Service.{extend}
use router_billing.Server.Web.{client_ip}
use router_billing.Server.Redeem.{Visitor, typed_mac, handle_redeem}
use router_billing.Server.Redeem.Spent.{IsSpent, IsTurnedAway, IsRedeemer, handle_redeem_lem}
use router_billing.Tests.Payments.{router-IsSynced}
use router_billing.Tests.Data.{token, early, app, memory, memory-IsNft}

abbrev twenty_bytes : Text
twenty_bytes =
    1 ∷ 2 ∷ 3 ∷ 4 ∷ 5 ∷ 6 ∷ 7 ∷ 8 ∷ 9 ∷ 10 ∷ 11 ∷ 12 ∷ 13 ∷ 14 ∷ 15 ∷ 16 ∷ 17 ∷ 18 ∷ 19 ∷ 20 ∷ []

abbrev crypto : Crypto
crypto = record { decode = λ s. some s; mac = λ key message. twenty_bytes }

crypto-IsCrypto : IsCrypto crypto
crypto-IsCrypto = record { twenty = λ key message. refl }

abbrev fresh : Purpose → Text
fresh for_session = codes "new-session"
fresh for_pending = codes "new-pending"
fresh for_trust = codes "new-trust"
fresh for_csrf = codes "new-csrf"

abbrev host : Host
host = record {
  now = early;
  works = λ _. true;
  matches = text_eq;
  hash = λ p. some p;
  crypto = crypto;
  secret = some (codes "SECRET");
  backup_bytes = some (twenty_bytes ∷ []);
  fresh = fresh;
  escape = λ s. s;
  strict = false;
  session_ttl = pos day_ns;
}

abbrev csrf : Text
csrf = codes "0123456789abcdef0123456789abcdef"

-- The fields of every form that the tests send.
abbrev form : Text → Text
form name =
    if text_eq name (codes "phone")
    then codes "13800000000"
    else if text_eq name (codes "password")
    then codes "secret1"
    else codes "123456"

abbrev cookies : Text → Option Text
cookies name =
    if text_eq name (codes "rb_user")
    then some token
    else if text_eq name (codes "rb_csrf")
    then some csrf
    else none

abbrev body : Body
body = record {
  text = λ name. if text_eq name (codes "mac") then codes "aa-bb-cc-dd-ee-01" else codes "tv";
  number = λ _. pos 30;
  flag = λ _. true;
}

abbrev request : Request
request = record {
  method = post_method;
  cookie = cookies;
  query = λ _. [];
  form = some form;
  body = some body;
  csrf = csrf;
  header = λ _. codes "Bearer T1";
  uri = codes "/";
  remote = codes "10.0.0.5";
}

-- A member of the phone number in the form, besides the owner of the phone.
abbrev member : User
member = new_user 8 (codes "13800000000") (codes "secret1") early

abbrev exchange : Exchange (List Text)
exchange =
    let a = app OrderStatus.paid in
    record {
      app = record a {
        router = record (a.router) {
          db = record (a.router.db) { users = member ∷ a.router.db.users };
        };
      };
      cookies = [];
      calls = 0;
    }

handle_user_login_lem_example :
    let d = exchange.app.router.db in
    let after = (handle_user_login host request exchange).1.app.router.db.sessions in
    (after ≡ d.sessions)
    ⊎ ((f : Text → Text) × (request.form ≡ some f) × IsAdmitted host request f d after)
handle_user_login_lem_example = handle_user_login_lem host request exchange

handle_user_login_2fa_lem_example :
    let d = exchange.app.router.db in
    let after = (handle_user_login_2fa host request exchange).1.app.router.db.sessions in
    (after ≡ d.sessions)
    ⊎ ((t : Text) × (u : User) × (f : Text → Text) × IsWaiting host request d t u
        × (request.form ≡ some f)
        × (verify_csrf request ≡ true)
        × IsSwapped host request t u f d (tries_of t (next_attempt t exchange.app.tries)) after)
handle_user_login_2fa_lem_example = handle_user_login_2fa_lem host request exchange

abbrev provider : Provider
provider = record {
  available = true;
  name = codes "console";
  sends = λ phone message. true;
  draws = 123_456;
}

handle_user_forgot_password_verify_lem_example :
    let d = exchange.app.router.db in
    let d' = (handle_user_forgot_password_verify provider host request exchange).1.app.router.db in
    AreKept d d'
    ⊎ ((f : Text → Text) × (request.form ≡ some f)
        × (verify_csrf request ≡ true)
        × IsReset host
            (trim_space (f (codes "phone")))
            (trim_space (f (codes "code")))
            (f (codes "new_password"))
            d
            d')
handle_user_forgot_password_verify_lem_example =
    handle_user_forgot_password_verify_lem provider host request exchange

member_is_other : is_other 8 (signed_in host request exchange.app.router.db) ≡ true
unfolding signed_in find text_eq ◌+ℤ◌
member_is_other = refl

serve_setting-IsUntouched_example :
    IsUntouched 8 exchange.app.router.db
      (serve_setting host request signs_out_others exchange).1.app.router.db
serve_setting-IsUntouched_example =
    serve_setting-IsUntouched host request 8 signs_out_others exchange member_is_other

abbrev reader : List ApiToken
reader =
    record { token = codes "T1"; label = codes "watch"; read_only = true; rate_limit_per_min = 0 }
    ∷ []

abbrev writer : List ApiToken
writer =
    record { token = codes "T1"; label = codes "ops"; read_only = false; rate_limit_per_min = 0 }
    ∷ []

read_only : (true && may_write (token_in reader request)) ≡ false
unfolding presented_token match_api_token_full match_from has_prefix text_eq trim_left trim_right
    is_space
read_only = refl

serve_api-refused_example :
    (serve_api memory host request reader (on_device relabels) exchange).1.app.router
    ≡ exchange.app.router
serve_api-refused_example =
    serve_api-refused memory host request reader (on_device relabels) exchange read_only

same_device : normalize_mac (codes "aa-bb-cc-dd-ee-01") ≡ some (codes "AA:BB:CC:DD:EE:01")
unfolding normalize_mac mac_re sep_pairs join_pairs keep to_upper trim_left trim_right is_space
same_device = refl

normalize_mac-normalize_mac_example :
    (valid_mac (codes "AA:BB:CC:DD:EE:01") ≡ true)
    × (normalize_mac (codes "AA:BB:CC:DD:EE:01") ≡ some (codes "AA:BB:CC:DD:EE:01"))
normalize_mac-normalize_mac_example =
    normalize_mac-normalize_mac (codes "aa-bb-cc-dd-ee-01") (codes "AA:BB:CC:DD:EE:01") same_device

abbrev bytes : Text
bytes = 1 ∷ 2 ∷ 3 ∷ 4 ∷ 5 ∷ 6 ∷ 7 ∷ 8 ∷ 9 ∷ 10 ∷ 11 ∷ 255 ∷ []

drawn : new_code (some bytes) ≡ some (codes "3456789ABCD9")
unfolding new_code letter_of char_at alphabet
drawn = refl

new_code-validate_example :
    (validate (codes "3456789ABCD9") ≡ true) × (canon (codes "3456789ABCD9") ≡ codes "3456789ABCD9")
new_code-validate_example = new_code-validate bytes (codes "3456789ABCD9") refl drawn

typed : validate (codes "3456-789a-bcd9") ≡ true
unfolding validate canon keep all any is_letter_of_code alphabet to_upper trim_left trim_right
    is_space
typed = refl

canon-pretty_example :
    (canon (pretty (codes "3456-789a-bcd9")) ≡ canon (codes "3456-789a-bcd9"))
    × (validate (pretty (codes "3456-789a-bcd9")) ≡ true)
canon-pretty_example = canon-pretty (codes "3456-789a-bcd9") typed

hotp_lem_example :
    (code : Text) × (hotp crypto (codes "key") (pos 7) ≡ some code)
    × (length code ≡ 6)
    × (all is_digit code ≡ true)
hotp_lem_example = hotp_lem crypto (codes "key") (pos 7) crypto-IsCrypto

-- The MAC of these tests ends with 20, so that the code is made of the four bytes from index 4 on.
shown : code_at crypto (codes "key") (unix (pos 60_000_000_000)) ≡ some (codes "281096")
unfolding code_at decode_secret hotp truncate byte_at padded itoa itoa_from keep to_upper unix
    step_of uint64 big_endian
shown = refl

code_at-verify_example : verify crypto (codes "key") (codes "281096") (pos 80_000_000_000) ≡ true
code_at-verify_example =
    code_at-verify crypto (codes "key") (codes "281096") 60_000_000_000 80_000_000_000
      crypto-IsCrypto shown (omega arith) (omega arith)

no_token :
    (is_some (signed_in host (record request { csrf = [] }) exchange.app.router.db)
      && verify_csrf (record request { csrf = [] }))
    ≡ false
unfolding signed_in find text_eq verify_csrf ◌+ℤ◌
no_token = refl

serve_setting-refused_example :
    (serve_setting host (record request { csrf = [] }) signs_out_others exchange).1.app
    ≡ exchange.app
serve_setting-refused_example =
    serve_setting-refused host (record request { csrf = [] }) signs_out_others exchange no_token

abbrev shop : Exchange (List Text)
shop = record { app = app OrderStatus.pending; cookies = []; calls = 0 }

answered : (serve_api memory host request writer (on_device relabels) shop).0 ≡ replied done
unfolding serve_api match_bearer api_call device_call api_mac_label known_mac store_label
    presented_token match_api_token_full match_from has_prefix text_eq trim_left trim_right is_space
    normalize_mac mac_re sep_pairs join_pairs keep to_upper get_mac set_mac_label get find
    update_where
answered = refl

serve_api-IsSynced_example :
    IsSynced memory (serve_api memory host request writer (on_device relabels) shop).1.app.router
serve_api-IsSynced_example =
    serve_api-IsSynced memory memory-IsNft host request writer relabels shop router-IsSynced
      answered

abbrev printed_code : Text
printed_code = codes "2222-2222-2222"

abbrev redeem_form_of : Text → Text
redeem_form_of name =
    if text_eq name (codes "code")
    then printed_code
    else if text_eq name (codes "mac")
    then codes "aa-bb-cc-dd-ee-01"
    else []

abbrev redeem_request : Request
redeem_request = record request { form = some redeem_form_of }

abbrev visitor : Visitor
visitor = record { detected = []; date = λ _. codes "2026-01-31" }

-- The exchange, with a voucher that nobody has used.
abbrev sold : Exchange (List Text)
sold = record exchange {
  app = record (exchange.app) {
    router = record (exchange.app.router) {
      db = record (exchange.app.router.db) {
        vouchers = new_voucher 2 (codes "222222222222") 30 [] [] none early ∷ [];
      };
    };
  };
}

handle_redeem_lem_example :
    let after = (handle_redeem memory host visitor redeem_request sold).1.app.router in
    ((after ≡ sold.app.router) × IsTurnedAway host visitor redeem_request sold)
    ⊎ ((f : Text → Text) × (mac : Text) × (user : Option ℕ) × (redeem_request.form ≡ some f)
        × (validate (canon (f (codes "code"))) ≡ true)
        × (normalize_mac (typed_mac visitor f) ≡ some mac)
        × IsRedeemer memory host visitor redeem_request user sold.app.router.db
        × IsSpent host (canon (f (codes "code"))) mac user sold.app.router.db after.db)
handle_redeem_lem_example = handle_redeem_lem memory host visitor redeem_request sold

-- That request is granted.
redeemed_ok :
    (handle_redeem memory host visitor redeem_request sold).0
    ≡ replied (redirect (codes "/redeem?ok=1&days=30&expires_at=2026-01-31"))
unfolding handle_redeem allow hits_of set_hits sweep client_ip trim_left trim_right is_space canon
    validate to_upper is_letter_of_code alphabet normalize_mac mac_re sep_pairs join_pairs
    current_user_id get_session get_user find get text_eq redeem_voucher extend upsert_mac get_mac
    update_where add valid_mac valid_from all any keep itoa itoa_from new_limits new_rate_limiter
    ◌+ℤ◌
redeemed_ok = refl
