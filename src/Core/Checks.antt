-- ===== src/Core/Checks.antt =====
-- backend/apps/core/checks.py: the checks that stop a production server with unsafe settings. An
-- error is the number of its check; the messages are left out.
pub mod Safety
pub mod Silence
pub mod Laws
use quorfix.Prelude.{
  ℕ, Bool, true, false, not, ◌&&◌, ◌||◌, Option, none, some, List, [], ◌∷◌, ◌++◌, reverse, Text,
  text_eq, text_in, codes, has_text, strip, length, ltb, any, contains, starts_with, is_none,
  if◌then◌else◌, ◌==◌,
}
use quorfix.Core.Environ.{ℤ, pos, negsuc}
use quorfix.Core.TarSafety.{isabs}
use quorfix.Core.Urls.{Url, urlparse}

-- A setting that should be an integer.
pub data Ttl : Type 0 where
  integer : ℤ → Ttl
  no_integer : Ttl

-- `django.conf.settings`, the defaults of `getattr` filled in. `secret_key` is `none` where reading
-- it raises `ImproperlyConfigured`.
pub record Settings : Type 0 where
  pub environment : Text
  pub secret_key : Option Text
  pub debug : Bool
  pub allowed_hosts : List Text
  pub csrf_trusted_origins : List Text
  pub cors_allow_all_origins : Bool
  pub cors_allow_credentials : Bool
  pub cors_allowed_origins : List Text
  pub email_backend : Text
  pub email_host : Text
  pub quorfix_demo_mode : Bool
  pub quorfix_demo_mail_sink : Text
  pub session_cookie_secure : Bool
  pub csrf_cookie_secure : Bool
  pub session_cookie_httponly : Bool
  pub session_cookie_samesite : Option Text
  pub csrf_cookie_samesite : Option Text
  pub secure_ssl_redirect : Bool
  pub secure_proxy_ssl_header : Option (Text × Text)
  pub database_engine : Text
  pub database_name : Text
  pub database_host : Text
  pub cache_location : Text
  pub celery_broker_url : Text
  pub celery_result_backend : Text
  pub attachments_local_root : Text
  pub analytics_cache_ttl_seconds : Ttl

-- `quorfix.E001` is 1.
abbrev pub Errors : Type 0
Errors = List ℕ

unfoldable pub is_production : Settings → Bool
is_production s = text_eq s.environment (codes "production")

-- `if not _is_production(): return []`
abbrev pub in_production : Settings → Errors → Errors
in_production s errors = if is_production s then errors else []

-- A check that calls `urlparse`, whose `ValueError` ends all of them: `none`.
abbrev pub Report : Type 0
Report = Option Errors

abbrev pub appended : Report → Report → Report
appended (some xs) (some ys) = some (xs ++ ys)
appended (some xs) none = none
appended none ys = none

abbrev pub in_production_report : Settings → Report → Report
in_production_report s errors = if is_production s then errors else some []

abbrev pub error_if : Bool → ℕ → Errors
error_if test n = if test then n ∷ [] else []

abbrev pub placeholder_secret_keys : List Text
placeholder_secret_keys = codes "change-me-to-a-random-secret" ∷ codes "test-secret-key" ∷ []

abbrev pub min_secret_key_length : ℕ
min_secret_key_length = 20

abbrev pub key_errors : Text → Errors
key_errors value =
    if not (has_text (strip value))
    then 1 ∷ []
    else if text_in value placeholder_secret_keys
    then 1 ∷ []
    else error_if (ltb (length (strip value)) min_secret_key_length) 1

abbrev pub or_empty : Option Text → Text
or_empty none = []
or_empty (some t) = t

unfoldable pub check_secret_key : Settings → Errors
check_secret_key s = in_production s (key_errors (or_empty s.secret_key))

unfoldable pub check_debug : Settings → Errors
check_debug s = in_production s (error_if s.debug 2)

abbrev pub is_list_empty : List Text → Bool
is_list_empty [] = true
is_list_empty (t ∷ ts) = false

abbrev pub star : Text
star = codes "*"

unfoldable pub check_allowed_hosts : Settings → Errors
check_allowed_hosts s = in_production s (
    error_if (is_list_empty s.allowed_hosts) 3
    ++ (error_if (text_in star s.allowed_hosts) 3
        ++ error_if (any (λ host. not (has_text (strip host))) s.allowed_hosts) 3))

abbrev pub web_errors : Option Url → Report
web_errors none = none
web_errors (some url) = some (
    error_if
      (not (text_in url.scheme (codes "http" ∷ codes "https" ∷ [])) || not (has_text url.netloc)) 4)

-- The body of the loop of `check_csrf_trusted_origins`.
abbrev pub origin_errors : (Text → Bool) → Text → Report
origin_errors accepts origin =
    if text_eq (strip origin) star then some (4 ∷ []) else web_errors (urlparse accepts origin)

abbrev pub origins_errors : (Text → Bool) → List Text → Report
origins_errors accepts [] = some []
origins_errors accepts (origin ∷ origins) =
    appended (origin_errors accepts origin) (origins_errors accepts origins)

unfoldable pub check_csrf_trusted_origins : (Text → Bool) → Settings → Report
check_csrf_trusted_origins accepts s = in_production_report s (
    appended (some (error_if (is_list_empty s.csrf_trusted_origins) 4))
      (origins_errors accepts s.csrf_trusted_origins))

unfoldable pub check_cors : Settings → Errors
check_cors s = in_production s (
    (if s.cors_allow_all_origins && s.cors_allow_credentials
      then 5 ∷ []
      else error_if s.cors_allow_all_origins 5)
    ++ error_if (text_in star s.cors_allowed_origins) 5)

abbrev pub unsafe_production_email_backends : List Text
unsafe_production_email_backends =
    codes "django.core.mail.backends.console.EmailBackend"
    ∷ codes "django.core.mail.backends.locmem.EmailBackend"
    ∷ []

abbrev pub smtp_shaped_email_backends : List Text
smtp_shaped_email_backends =
    codes "django.core.mail.backends.smtp.EmailBackend"
    ∷ codes "apps.core.mail.DemoMailSinkBackend"
    ∷ []

unfoldable pub check_email : Settings → Errors
check_email s = in_production s (
    if text_in s.email_backend unsafe_production_email_backends
    then 6 ∷ []
    else if text_in s.email_backend smtp_shaped_email_backends
    then error_if (not (has_text s.email_host)) 6
    else [])

unfoldable pub check_demo_mail_sink : Settings → Errors
check_demo_mail_sink s =
    if not (is_production s) || not s.quorfix_demo_mode
    then []
    else error_if
        (not (has_text s.quorfix_demo_mail_sink)
          || not (contains s.quorfix_demo_mail_sink 64)
          || starts_with s.quorfix_demo_mail_sink (codes "@")
          || starts_with (reverse s.quorfix_demo_mail_sink) (codes "@"))
        13

abbrev pub is_valid_samesite : Option Text → Bool
is_valid_samesite none = false
is_valid_samesite (some t) = text_in t (codes "Lax" ∷ codes "Strict" ∷ [])

unfoldable pub check_cookies : Settings → Errors
check_cookies s = in_production s (
    error_if (not s.session_cookie_secure) 7
    ++ (error_if (not s.csrf_cookie_secure) 7
        ++ (error_if (not s.session_cookie_httponly) 7
            ++ (error_if (not (is_valid_samesite s.session_cookie_samesite)) 7
                ++ error_if (not (is_valid_samesite s.csrf_cookie_samesite)) 7))))

unfoldable pub check_https_proxy_header : Settings → Errors
check_https_proxy_header s =
    in_production s (error_if (s.secure_ssl_redirect && is_none s.secure_proxy_ssl_header) 8)

unfoldable pub check_database : Settings → Errors
check_database s = in_production s (
    error_if (not (text_eq s.database_engine (codes "django.db.backends.postgresql"))) 9
    ++ (error_if (not (has_text s.database_name)) 9 ++ error_if (not (has_text s.database_host)) 9))

-- `_has_redis_scheme`
abbrev pub has_redis_scheme : Url → Bool
has_redis_scheme url = text_in url.scheme (codes "redis" ∷ codes "rediss" ∷ [])

abbrev pub scheme_errors : Option Url → Report
scheme_errors none = none
scheme_errors (some url) = some (error_if (not (has_redis_scheme url)) 10)

-- One of the three addresses: what is reported where it is missing, and where it is there.
unfoldable pub redis_errors : (Text → Bool) → Errors → Text → Report
unfolding urlparse
redis_errors accepts missing url =
    if has_text url then scheme_errors (urlparse accepts url) else some missing

unfoldable pub check_redis : (Text → Bool) → Settings → Report
unfolding redis_errors
check_redis accepts s = in_production_report s (
    appended (redis_errors accepts (10 ∷ []) s.cache_location) (
      appended (redis_errors accepts (10 ∷ []) s.celery_broker_url)
        (redis_errors accepts [] s.celery_result_backend)))

abbrev pub temp_root_prefixes : List Text
temp_root_prefixes = codes "/tmp" ∷ codes "/var/tmp" ∷ []

unfoldable pub check_attachments_root : Settings → Errors
check_attachments_root s = in_production s (
    let root = s.attachments_local_root in
    if not (has_text (strip root))
    then 11 ∷ []
    else if not (isabs root)
    then 11 ∷ []
    else error_if
        (any (λ prefix. text_eq root prefix || starts_with root (prefix ++ (47 ∷ [])))
          temp_root_prefixes)
        11)

abbrev pub max_analytics_cache_ttl_seconds : ℕ
max_analytics_cache_ttl_seconds = 86400

abbrev pub ttl_errors : Ttl → Errors
ttl_errors no_integer = 12 ∷ []
ttl_errors (integer (negsuc n)) = 12 ∷ []
ttl_errors (integer (pos n)) =
    if n == 0 then 12 ∷ [] else error_if (ltb max_analytics_cache_ttl_seconds n) 12

unfoldable pub check_analytics_cache_ttl : Settings → Errors
check_analytics_cache_ttl s = in_production s (ttl_errors s.analytics_cache_ttl_seconds)

-- All that `manage.py check` reports, in the order of `_ALL_CHECKS`.
unfoldable pub all_errors : (Text → Bool) → Settings → Report
unfolding check_secret_key check_debug check_allowed_hosts check_csrf_trusted_origins check_cors
    check_email check_cookies check_https_proxy_header check_database check_redis
    check_attachments_root check_analytics_cache_ttl check_demo_mail_sink
all_errors accepts s = appended (some (check_secret_key s)) (
    appended (some (check_debug s)) (
      appended (some (check_allowed_hosts s)) (
        appended (check_csrf_trusted_origins accepts s) (
          appended (some (check_cors s)) (
            appended (some (check_email s)) (
              appended (some (check_cookies s)) (
                appended (some (check_https_proxy_header s)) (
                  appended (some (check_database s)) (
                    appended (check_redis accepts s) (
                      appended (some (check_attachments_root s)) (
                        appended (some (check_analytics_cache_ttl s))
                          (some (check_demo_mail_sink s)))))))))))))
