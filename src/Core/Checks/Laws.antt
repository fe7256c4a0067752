-- ===== src/Core/Checks/Laws.antt =====
-- When the checks stay silent.
use quorfix.Prelude.{
  ◌≡◌, refl, ap, ◌∙◌, Bool, true, false, not, ◌&&◌, ◌||◌, Option, none, some, List, [], ◌∷◌, ◌++◌,
  reverse, Text, text_eq, text_in, codes, has_text, strip, length, ltb, any, all, contains,
  starts_with, is_none, is_some, arith, if◌then◌else◌,
}
use quorfix.Core.Environ.{pos, negsuc}
use quorfix.Core.TarSafety.{isabs}
use quorfix.Core.Urls.{Url, urlparse}
use quorfix.Core.Checks.{
  Settings, is_production, error_if, key_errors, or_empty, star, is_list_empty, Errors, appended,
  web_errors, scheme_errors, redis_errors, origin_errors, origins_errors, Ttl, integer, no_integer,
  ttl_errors, placeholder_secret_keys, min_secret_key_length, unsafe_production_email_backends,
  smtp_shaped_email_backends, is_valid_samesite, has_redis_scheme, temp_root_prefixes,
  check_demo_mail_sink, all_errors, check_attachments_root, check_analytics_cache_ttl,
}
use quorfix.Core.Checks.Silence.{
  is_silent, silent-append, silent-error_if, silent-in_production, quiet-in_production, is_quiet,
  quiet-appended, quiet-then, quiet-both, silent_tests, key_tests, host_tests, web_tests,
  cors-silent, email-silent, silent_three, silent_five, sink-silent,
}
use quorfix.Core.Checks.Safety.{
  is_secret, is_host, is_web, is_origin, is_redis_url, is_redis, is_plausible_email, is_durable,
  is_sane_ttl, is_safe_for_production,
}

key-silent : (value : Text) → is_silent (key_errors value) ≡ is_secret value
key-silent value =
    silent_tests (not (has_text (strip value))) (text_in value placeholder_secret_keys)
      (ltb (length (strip value)) min_secret_key_length) 1
    ∙ key_tests (strip value) (text_in value placeholder_secret_keys)

hosts-all :
    (hosts : List Text)
    → (not (text_in star hosts) && not (any (λ host. not (has_text (strip host))) hosts))
      ≡ all is_host hosts
hosts-all [] = refl
hosts-all (host ∷ hosts) =
    host_tests (text_eq star host) (has_text (strip host)) (text_in star hosts)
      (any (λ h. not (has_text (strip h))) hosts) (all is_host hosts) (hosts-all hosts)

web-quiet : (url : Option Url) → is_quiet (web_errors url) ≡ is_web url
web-quiet none = refl
web-quiet (some url) =
    web_tests (text_in url.scheme (codes "http" ∷ codes "https" ∷ [])) (has_text url.netloc) 4

origin-quiet :
    (accepts : Text → Bool) (origin : Text)
    → is_quiet (origin_errors accepts origin) ≡ is_origin accepts origin
origin-quiet accepts origin = by_test (text_eq (strip origin) star)
  where
    by_test :
        (wild : Bool)
        → is_quiet (if wild then some (4 ∷ []) else web_errors (urlparse accepts origin))
          ≡ (not wild && is_web (urlparse accepts origin))
    by_test true = refl
    by_test false = web-quiet (urlparse accepts origin)

origins-all :
    (accepts : Text → Bool) (origins : List Text)
    → is_quiet (origins_errors accepts origins) ≡ all (is_origin accepts) origins
origins-all accepts [] = refl
origins-all accepts (origin ∷ origins) =
    quiet-appended (origin_errors accepts origin) (origins_errors accepts origins)
      (origin-quiet accepts origin) (origins-all accepts origins)

scheme-quiet : (url : Option Url) → is_quiet (scheme_errors url) ≡ is_redis_url url
scheme-quiet none = refl
scheme-quiet (some url) = by_test (has_redis_scheme url)
  where
    by_test : (b : Bool) → is_silent (error_if (not b) 10) ≡ b
    by_test true = refl
    by_test false = refl

redis_url-quiet :
    (accepts : Text → Bool) (missing : Errors) (url : Text)
    → is_quiet (redis_errors accepts missing url)
      ≡ (if has_text url then is_redis_url (urlparse accepts url) else is_silent missing)
unfolding redis_errors
redis_url-quiet accepts missing url = by_test (has_text url)
  where
    by_test :
        (b : Bool)
        → is_quiet (if b then scheme_errors (urlparse accepts url) else some missing)
          ≡ (if b then is_redis_url (urlparse accepts url) else is_silent missing)
    by_test true = scheme-quiet (urlparse accepts url)
    by_test false = refl

required : (text b : Bool) → (if text then b else false) ≡ (text && b)
required true b = refl
required false b = refl

optional : (text b : Bool) → (if text then b else true) ≡ (not text || (text && b))
optional true b = refl
optional false b = refl

all-any : (p : Text → Bool) (ts : List Text) → not (any p ts) ≡ all (λ t. not (p t)) ts
all-any p [] = refl
all-any p (t ∷ ts) = ground (arith, all-any p ts)

ttl-silent : (ttl : Ttl) → is_silent (ttl_errors ttl) ≡ is_sane_ttl ttl
ttl-silent no_integer = refl
ttl-silent (integer (negsuc n)) = refl
ttl-silent (integer (pos n)) = ground arith

sink-text : (sink : Text) → (has_text sink && is_plausible_email sink) ≡ is_plausible_email sink
sink-text [] = refl
sink-text (c ∷ sink) = refl

durable_tests :
    (text absolute : Bool) {a b : Bool}
    → a ≡ b
    → (not (not text) && (not (not absolute) && a)) ≡ (text && absolute && b)
durable_tests true true h = h
durable_tests true false h = refl
durable_tests false absolute h = refl

hosts-silent :
    (hosts : List Text)
    → is_silent (
        error_if (is_list_empty hosts) 3
        ++ (error_if (text_in star hosts) 3
            ++ error_if (any (λ host. not (has_text (strip host))) hosts) 3))
      ≡ (not (is_list_empty hosts) && all is_host hosts)
hosts-silent hosts = silent-append _ _ (silent-error_if (is_list_empty hosts) 3) (
    silent-append _ _ (silent-error_if (text_in star hosts) 3)
      (silent-error_if (any (λ host. not (has_text (strip host))) hosts) 3)
    ∙ hosts-all hosts)

proxy-silent :
    (redirect : Bool) (header : Option (Text × Text))
    → is_silent (error_if (redirect && is_none header) 8) ≡ (not redirect || is_some header)
proxy-silent true none = refl
proxy-silent true (some h) = refl
proxy-silent false header = refl

redis-quiet :
    (accepts : Text → Bool) (cache broker result : Text)
    → is_quiet (
        appended
          (redis_errors accepts (10 ∷ []) cache)
          (appended (redis_errors accepts (10 ∷ []) broker) (redis_errors accepts [] result)))
      ≡ (is_redis accepts cache
          && (is_redis accepts broker && (not (has_text result) || is_redis accepts result)))
redis-quiet accepts cache broker result =
    quiet-appended _ _ (redis_url-quiet accepts (10 ∷ []) cache ∙ required (has_text cache) _) (
      quiet-appended _ _ (redis_url-quiet accepts (10 ∷ []) broker ∙ required (has_text broker) _)
        (redis_url-quiet accepts [] result ∙ optional (has_text result) _))

root-silent :
    (root : Text)
    → is_silent (
        if not (has_text (strip root))
        then 11 ∷ []
        else if not (isabs root)
        then 11 ∷ []
        else error_if
            (any
              (λ prefix. text_eq root prefix || starts_with root (prefix ++ (47 ∷ [])))
              temp_root_prefixes)
            11)
      ≡ is_durable root
root-silent root =
    silent_tests (not (has_text (strip root))) (not (isabs root)) (any is_under temp_root_prefixes)
      11
    ∙ durable_tests (has_text (strip root)) (isabs root) (all-any is_under temp_root_prefixes)
  where
    is_under : Text → Bool
    is_under prefix = text_eq root prefix || starts_with root (prefix ++ (47 ∷ []))

mail_sink-silent :
    (s : Settings)
    → is_silent (check_demo_mail_sink s) ≡ (
        not (is_production s)
        || (not s.quorfix_demo_mode || is_plausible_email s.quorfix_demo_mail_sink))
unfolding check_demo_mail_sink
mail_sink-silent s =
    sink-silent (is_production s) s.quorfix_demo_mode (has_text sink) (contains sink 64)
      (starts_with sink (codes "@")) (starts_with (reverse sink) (codes "@"))
    ∙ ap (λ b. not (is_production s) || (not s.quorfix_demo_mode || b)) (sink-text sink)
  where
    sink : Text
    sink = s.quorfix_demo_mail_sink

guarded_by :
    (p : Bool) (a b c d e f g h i j k l m : Bool)
    → ((not p || a)
        && ((not p || b)
            && ((not p || c)
                && ((not p || d)
                    && ((not p || e)
                        && ((not p || f)
                            && ((not p || g)
                                && ((not p || h)
                                    && ((not p || i)
                                        && ((not p || j)
                                            && ((not p || k)
                                                && ((not p || l) && (not p || m)))))))))))))
      ≡ (not p
          || (a && (b && (c && (d && (e && (f && (g && (h && (i && (j && (k && (l && m)))))))))))))
guarded_by true a b c d e f g h i j k l m = refl
guarded_by false a b c d e f g h i j k l m = refl

-- Whatever hosts `urlparse` refuses on top of brackets that do not match, the system checks report
-- nothing and raise nothing exactly where the server is not a production server or its settings
-- are safe in all of the thirteen respects, with origins and Redis addresses that can be parsed.
pub all_errors-is_quiet :
    (accepts : Text → Bool) (s : Settings)
    → is_quiet (all_errors accepts s) ≡ (not (is_production s) || is_safe_for_production accepts s)
unfolding all_errors check_attachments_root check_analytics_cache_ttl
all_errors-is_quiet accepts s =
    quiet-then _ _ (silent-in_production s _ (key-silent (or_empty s.secret_key))) (
      quiet-then _ _ (silent-in_production s _ (silent-error_if s.debug 2)) (
        quiet-then _ _ (silent-in_production s _ (hosts-silent s.allowed_hosts)) (
          quiet-appended _ _
            (quiet-in_production s _ (
              quiet-then _ _ (silent-error_if (is_list_empty s.csrf_trusted_origins) 4)
                (origins-all accepts s.csrf_trusted_origins)))
            (quiet-then _ _
              (silent-in_production s _ (
                cors-silent s.cors_allow_all_origins s.cors_allow_credentials
                  (text_in star s.cors_allowed_origins)))
              (quiet-then _ _
                (silent-in_production s _ (
                  email-silent (text_in s.email_backend unsafe_production_email_backends)
                    (text_in s.email_backend smtp_shaped_email_backends) (has_text s.email_host)))
                (quiet-then _ _
                  (silent-in_production s _ (
                    silent_five s.session_cookie_secure s.csrf_cookie_secure
                      s.session_cookie_httponly (is_valid_samesite s.session_cookie_samesite)
                      (is_valid_samesite s.csrf_cookie_samesite) 7))
                  (quiet-then _ _
                    (silent-in_production s _
                      (proxy-silent s.secure_ssl_redirect s.secure_proxy_ssl_header))
                    (quiet-then _ _
                      (silent-in_production s _ (
                        silent_three
                          (text_eq s.database_engine (codes "django.db.backends.postgresql"))
                          (has_text s.database_name) (has_text s.database_host) 9))
                      (quiet-appended _ _
                        (quiet-in_production s _ (
                          redis-quiet accepts s.cache_location s.celery_broker_url
                            s.celery_result_backend))
                        (quiet-then (check_attachments_root s)
                          (appended (some (check_analytics_cache_ttl s))
                            (some (check_demo_mail_sink s)))
                          (silent-in_production s _ (root-silent s.attachments_local_root))
                          (quiet-both (check_analytics_cache_ttl s) (check_demo_mail_sink s)
                            (silent-in_production s _ (ttl-silent s.analytics_cache_ttl_seconds))
                            (mail_sink-silent s))))))))))))
    ∙ guarded_by (is_production s) _ _ _ _ _ _ _ _ _ _ _ _ _
