-- ===== src/Core/Checks/Safety.antt =====
-- The settings that a production server may start with, in words of their own.
use quorfix.Prelude.{
  Bool, false, not, ◌&&◌, ◌||◌, [], ◌∷◌, ◌++◌, reverse, Text, text_eq, text_in, codes, has_text,
  strip, length, leb, all, contains, starts_with, is_some, Option, none, some,
}
use quorfix.Core.Environ.{pos, negsuc}
use quorfix.Core.TarSafety.{isabs}
use quorfix.Core.Urls.{Url, urlparse}
use quorfix.Core.Checks.{
  Settings, or_empty, star, is_list_empty, Ttl, integer, no_integer, placeholder_secret_keys,
  min_secret_key_length, unsafe_production_email_backends, smtp_shaped_email_backends,
  is_valid_samesite, has_redis_scheme, temp_root_prefixes, max_analytics_cache_ttl_seconds,
}

-- A secret key of at least 20 characters that is none of those in the repository.
abbrev pub is_secret : Text → Bool
is_secret key =
    leb min_secret_key_length (length (strip key)) && not (text_in key placeholder_secret_keys)

-- A host that is neither blank nor the wildcard.
abbrev pub is_host : Text → Bool
is_host host = has_text (strip host) && not (text_eq star host)

-- A URL with a web scheme and a host.
abbrev pub is_web : Option Url → Bool
is_web none = false
is_web (some url) = text_in url.scheme (codes "http" ∷ codes "https" ∷ []) && has_text url.netloc

-- An origin that is not the wildcard and can be parsed, as such a URL.
abbrev pub is_origin : (Text → Bool) → Text → Bool
is_origin accepts origin = not (text_eq (strip origin) star) && is_web (urlparse accepts origin)

abbrev pub delivers : Settings → Bool
delivers s =
    not (text_in s.email_backend unsafe_production_email_backends)
    && (not (text_in s.email_backend smtp_shaped_email_backends) || has_text s.email_host)

-- An address with something on both sides of an `@`.
abbrev pub is_plausible_email : Text → Bool
is_plausible_email sink =
    contains sink 64
    && not (starts_with sink (codes "@"))
    && not (starts_with (reverse sink) (codes "@"))

abbrev pub has_safe_cookies : Settings → Bool
has_safe_cookies s =
    s.session_cookie_secure
    && s.csrf_cookie_secure
    && s.session_cookie_httponly
    && is_valid_samesite s.session_cookie_samesite
    && is_valid_samesite s.csrf_cookie_samesite

abbrev pub has_database : Settings → Bool
has_database s =
    text_eq s.database_engine (codes "django.db.backends.postgresql")
    && has_text s.database_name
    && has_text s.database_host

abbrev pub is_redis_url : Option Url → Bool
is_redis_url none = false
is_redis_url (some url) = has_redis_scheme url

abbrev pub is_redis : (Text → Bool) → Text → Bool
is_redis accepts url = has_text url && is_redis_url (urlparse accepts url)

abbrev pub has_redis : (Text → Bool) → Settings → Bool
has_redis accepts s =
    is_redis accepts s.cache_location
    && (is_redis accepts s.celery_broker_url
        && (not (has_text s.celery_result_backend) || is_redis accepts s.celery_result_backend))

abbrev pub is_durable : Text → Bool
is_durable root =
    has_text (strip root)
    && isabs root
    && all (λ prefix. not (text_eq root prefix || starts_with root (prefix ++ (47 ∷ []))))
        temp_root_prefixes

abbrev pub is_sane_ttl : Ttl → Bool
is_sane_ttl no_integer = false
is_sane_ttl (integer (negsuc n)) = false
is_sane_ttl (integer (pos n)) = leb 1 n && leb n max_analytics_cache_ttl_seconds

-- The settings that a production server may start with.
abbrev pub is_safe_for_production : (Text → Bool) → Settings → Bool
is_safe_for_production accepts s =
    is_secret (or_empty s.secret_key)
    && (not s.debug
        && (not (is_list_empty s.allowed_hosts)
            && all is_host s.allowed_hosts
            && (not (is_list_empty s.csrf_trusted_origins)
                && all (is_origin accepts) s.csrf_trusted_origins
                && (not s.cors_allow_all_origins
                    && not (text_in star s.cors_allowed_origins)
                    && (delivers s
                        && (has_safe_cookies s
                            && ((not s.secure_ssl_redirect || is_some s.secure_proxy_ssl_header)
                                && (has_database s
                                    && (has_redis accepts s
                                        && (is_durable s.attachments_local_root
                                            && (is_sane_ttl s.analytics_cache_ttl_seconds
                                                && (not s.quorfix_demo_mode
                                                    || is_plausible_email
                                                        s.quorfix_demo_mail_sink))))))))))))
