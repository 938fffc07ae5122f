-- ===== src/AdminAuth/Handler.antt =====
-- internal/adminauth/handler.go: the admin namespace over the session store and the two limiters.
-- A request holds what the code reads of it; the body is what the JSON decoder makes of it. The
-- password's hash is a test of the site, and the handlers behind the middleware are the reply `served`.
use Prim.Native.String.{len}
use vn_bot.Base.{
  ℕ, String, Bool, true, false, not, ◌&&◌, Option, none, some, List, [], ◌∷◌, ltb, ◌==◌,
  if◌then◌else◌, str_eq,
}
use vn_bot.Base.Maps.{text_key, delete}
use vn_bot.AdminAuth.Limiter.{Limiter, allow}
use vn_bot.AdminAuth.Sessions.{
  Session, Sessions, session_id, get, issue, Issue, refused, drawing, issued, Issued,
}

pub data Method : Type 0 where
  get_method head_method options_method post_method other_method : Method

pub data Body : Type 0 where
  not_json : Body
  unreadable : Body
  credentials : String → String → Body

-- The clock is read up to three times; `slot_free` is what the attempt to send on `passwordSlot` meets.
pub record Request : Type 0 where
  pub path : String
  pub method : Method
  pub cross_site : Bool
  pub origins : List String
  pub cookies : List String
  pub csrf_headers : List String
  pub peer : String
  pub body : Body
  pub slot_free : Bool
  pub now : ℕ
  pub looked_at : ℕ
  pub issued_at : ℕ

pub data Reply : Type 0 where
  error : ℕ → String → Reply
  written : Option String → Session → Reply  -- the cookie that is set, and the session
  logged_out : Reply
  served : Reply
  hanging : Reply  -- the loop of `issue` draws on

pub record Site : Type 0 where
  pub enabled : Bool
  pub origin : String
  pub username : String
  pub password_ok : String → Bool
  pub token : ℕ → String

pub record Admin : Type 0 where
  pub sessions : Sessions
  pub drawn : ℕ
  pub logins : Limiter
  pub bootstraps : Limiter

abbrev pub is_unsafe : Method → Bool
is_unsafe get_method = false
is_unsafe head_method = false
is_unsafe options_method = false
is_unsafe post_method = true
is_unsafe other_method = true

abbrev pub single_origin : String → Bool → List String → Bool
single_origin origin required [] = not required
single_origin origin required (o ∷ []) = str_eq o origin
single_origin origin required (_ ∷ _ ∷ _) = false

-- `validOrigin`.
abbrev pub valid_origin : Site → Request → Bool → Bool
valid_origin site r required =
    if r.cross_site then false else single_origin site.origin required r.origins

-- `csrfToken`.
unfoldable pub csrf_token : List String → String
csrf_token (v ∷ []) = if len v == 43 then v else ""
csrf_token [] = ""
csrf_token (_ ∷ _ ∷ _) = ""

abbrev pub with_sessions : Admin → Sessions → Admin
with_sessions a es = record a { sessions = es }

abbrev pub id_of : Request → String
id_of r = session_id r.cookies

-- `Middleware`, behind its second look at the session.
abbrev pub pass_on : (Admin → Reply × Admin) → Admin → Option Session × Sessions → Reply × Admin
pass_on next a (none, es) = (error 403 "forbidden", with_sessions a es)
pass_on next a (some _, es) = next (with_sessions a es)

abbrev pub look_again :
    (Admin → Reply × Admin) → Request → Admin → Option Session × Sessions → Reply × Admin
look_again next r a (none, es) = (error 401 "unauthorized", with_sessions a es)
look_again next r a (some s, es) =
    if s.authenticated
    then pass_on next a
        (get (id_of r) r.now (csrf_token r.csrf_headers) (is_unsafe r.method) true es)
    else (error 401 "unauthorized", with_sessions a es)

-- `Middleware`.
unfoldable pub middleware : Site → (Admin → Reply × Admin) → Request → Admin → Reply × Admin
middleware site next r a =
    if not site.enabled
    then (error 404 "not_found", a)
    else if not (valid_origin site r (is_unsafe r.method))
    then (error 403 "forbidden", a)
    else look_again next r a (get (id_of r) r.now "" false false a.sessions)

-- What `bootstrap` and `login` write after `issue`, with the error of a refusal.
abbrev pub answered : ℕ → String → Issue → Reply
answered status code refused = error status code
answered status code drawing = hanging
answered status code (issued id s) = written (some id) s

abbrev pub after_issue : ℕ → String → Admin → Issued → Reply × Admin
after_issue status code a i =
    (answered status code i.answer, record a { sessions = i.entries; drawn = i.drawn })

-- `bootstrap`, behind the look at the session that the request has.
abbrev pub begin_session : Site → Request → Admin → Option Session × Sessions → Reply × Admin
begin_session site r a (some s, es) = (written none s, with_sessions a es)
begin_session site r a (none, es) =
    after_issue 503 "service_unavailable" (with_sessions a es)
      (issue site.token "" "" false r.now es a.drawn)

-- `bootstrap`.
unfoldable pub bootstrap : Site → Request → Admin → Reply × Admin
bootstrap site r a =
    if not (valid_origin site r false)
    then (error 403 "forbidden", a)
    else let (admitted, l) = allow a.bootstraps r.peer r.now 20 200 in
      let b : Admin = record a { bootstraps = l } in
      if admitted
      then begin_session site r b (get (id_of r) r.now "" false false a.sessions)
      else (error 429 "rate_limited", b)

-- The lengths that `login` takes, in bytes.
abbrev pub fits : ℕ → String → Bool
fits most s = not (len s == 0) && not (ltb most (len s))

-- `login`, from the decoded credentials on.
abbrev pub log_in : Site → Request → Admin → Body → Reply × Admin
log_in site r a not_json = (error 415 "unsupported_media_type", a)
log_in site r a unreadable = (error 400 "invalid_request", a)
log_in site r a (credentials user password) =
    if not (fits 64 user && fits 72 password)
    then (error 401 "unauthorized", a)
    else if not r.slot_free
    then (error 429 "rate_limited", a)
    else if not (site.password_ok password && str_eq user site.username)
    then (error 401 "unauthorized", a)
    else after_issue 403 "forbidden" a
        (issue site.token (id_of r) (csrf_token r.csrf_headers) true r.issued_at a.sessions a.drawn)

abbrev pub begin_login : Site → Request → Admin → Option Session × Sessions → Reply × Admin
begin_login site r a (none, es) = (error 403 "forbidden", with_sessions a es)
begin_login site r a (some _, es) = log_in site r (with_sessions a es) r.body

-- `login`.
unfoldable pub login : Site → Request → Admin → Reply × Admin
login site r a =
    if not (valid_origin site r true)
    then (error 403 "forbidden", a)
    else let (admitted, l) = allow a.logins r.peer r.now 5 20 in
      let b : Admin = record a { logins = l } in
      if admitted
      then begin_login site r b
          (get (id_of r) r.looked_at (csrf_token r.csrf_headers) true false a.sessions)
      else (error 429 "rate_limited", b)

-- `logout`, behind the middleware.
abbrev pub logout : Request → Admin → Reply × Admin
logout r a = elim r.method [
  | post_method ↦ (logged_out, with_sessions a (delete (id_of r) a.sessions))
  | _ ↦ (error 405 "method_not_allowed", a)
]

abbrev pub show_session : Admin → Option Session × Sessions → Reply × Admin
show_session a (none, es) = (error 401 "unauthorized", with_sessions a es)
show_session a (some s, es) =
    if s.authenticated
    then (written none s, with_sessions a es)
    else (error 401 "unauthorized", with_sessions a es)

-- `current`, behind the middleware; it reads the clock again.
abbrev pub current : Request → Admin → Reply × Admin
current r a = elim r.method [
  | get_method ↦ show_session a (get (id_of r) r.looked_at "" false false a.sessions)
  | _ ↦ (error 405 "method_not_allowed", a)
]

abbrev pub login_route : Site → Request → Admin → Reply × Admin
login_route site r a = elim r.method [
  | get_method ↦ bootstrap site r a
  | post_method ↦ login site r a
  | _ ↦ (error 405 "method_not_allowed", a)
]

-- `Routes`.
unfoldable pub routes : Site → Request → Admin → Reply × Admin
routes site r a =
    if not site.enabled
    then (error 404 "not_found", a)
    else if str_eq r.path "/admin/login"
    then login_route site r a
    else if str_eq r.path "/admin/logout"
    then middleware site (logout r) r a
    else if str_eq r.path "/admin/session"
    then middleware site (current r) r a
    else middleware site (λ b. (served, b)) r a
