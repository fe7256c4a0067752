-- ===== src/Tests/Environment.antt =====
-- The theorems on the environment and on archives, at concrete inputs, and runs of the parsers.
use quorfix.Prelude.{
  ℕ, ◌≡◌, refl, Bool, true, false, Option, none, some, not, ◌&&◌, ◌||◌, List, [], ◌∷◌, Text, codes,
  join, split_on, all, text_eq, strip,
}
use quorfix.Exec.{ok, pure}
use quorfix.Core.Environ.{
  Environ, pos, negsuc, is_blank, get_bool, get_int, get_list, get_choice, valid_log_levels,
}
use quorfix.Core.Environ.Laws.{
  decimal_of, get_int-decimal_of, get_list-join, Chosen, get_choice-Chosen,
}
use quorfix.Core.Checks.{Settings, integer, is_production, all_errors}
use quorfix.Core.Checks.Safety.{is_safe_for_production}
use quorfix.Core.Checks.Silence.{is_quiet}
use quorfix.Core.Checks.Laws.{all_errors-is_quiet}
use quorfix.Core.TarSafety.{
  TarInfo, Archives, isabs, is_within_root, validate_archive, safe_extract_all,
}
use quorfix.Core.TarSafety.Walk.{never_leaves, is_within_root_walks}
use quorfix.Core.TarSafety.Extraction.{
  is_safe, Decides, validate_archive-Decides, Guarded, safe_extract_all-Guarded,
}

abbrev set_to : Text → Environ
set_to raw _ = some raw

abbrev no_digit : ℕ → Option ℕ
no_digit c = none

get_bool_test : get_bool (λ s. s) (set_to (codes " on ")) [] false ≡ ok true
unfolding get_bool quorfix.Prelude.is_space is_blank
get_bool_test = refl

get_int_test : get_int no_digit (set_to (codes " -1_000 ")) [] (pos 7) ≡ ok (negsuc 999)
unfolding get_int quorfix.Prelude.is_space is_blank
get_int_test = refl

get_int-decimal_of_example :
    get_int no_digit (set_to (decimal_of (negsuc 41))) (codes "TTL") (pos 7) ≡ ok (negsuc 41)
unfolding quorfix.Prelude.decimal
get_int-decimal_of_example =
    get_int-decimal_of no_digit (set_to (decimal_of (negsuc 41))) (codes "TTL") (pos 7) (negsuc 41)
      refl refl

abbrev hosts : List Text
hosts = codes "a.org" ∷ codes "b.org" ∷ []

get_list-join_example : get_list (set_to (join 44 hosts)) (codes "HOSTS") [] ≡ hosts
unfolding quorfix.Prelude.strip quorfix.Prelude.is_space
get_list-join_example =
    get_list-join (set_to (join 44 hosts)) (codes "HOSTS") [] hosts refl
      ((refl, refl), ((refl, refl), tt))

get_choice-Chosen_example :
    Chosen
      (λ s. s)
      valid_log_levels
      (codes " INFO ")
      (get_choice
        (λ s. s)
        (set_to (codes " INFO "))
        (codes "LEVEL")
        (codes "DEBUG")
        valid_log_levels)
unfolding is_blank quorfix.Prelude.is_space
get_choice-Chosen_example =
    get_choice-Chosen (λ s. s) (set_to (codes " INFO ")) (codes "LEVEL") (codes "DEBUG")
      valid_log_levels (codes " INFO ") refl refl

within_test : is_within_root (codes "a/../b/./c") ≡ true
unfolding is_within_root
within_test = refl

escape_test : is_within_root (codes "a/../../b") ≡ false
unfolding is_within_root
escape_test = refl

is_within_root_walks_example :
    is_within_root (codes "a/../../b")
    ≡ (not (isabs (codes "a/../../b")) && never_leaves 0 (split_on 47 (codes "a/../../b")))
is_within_root_walks_example = is_within_root_walks (codes "a/../../b")

abbrev member : Text → TarInfo
member name = record { name = some name; member_type = 48 }

abbrev members : List TarInfo
members = member (codes "a/b.txt") ∷ member (codes "a/../../c") ∷ []

validate_archive-Decides_example :
    Decides {S = ℕ} (all is_safe members) members 5 (validate_archive members 5)
validate_archive-Decides_example = validate_archive-Decides members 5

-- A store that counts what it has extracted.
abbrev archives : Archives ℕ
archives = record {
  makedirs = λ destination. pure tt;
  getmembers = λ path s. some members;
  extractall = λ destination ms s. (ok tt, 1);
}

safe_extract_all-Guarded_example :
    Guarded archives
      (codes "backup.tar")
      (codes "/data")
      0
      (safe_extract_all archives (codes "backup.tar") (codes "/data") 0)
safe_extract_all-Guarded_example =
    safe_extract_all-Guarded archives (codes "backup.tar") (codes "/data") 0

abbrev production : Settings
production = record {
  environment = codes "production";
  secret_key = some (codes "a-long-secret-key-of-this-server");
  debug = false;
  allowed_hosts = codes "bugs.org" ∷ [];
  csrf_trusted_origins = codes "https://bugs.org" ∷ [];
  cors_allow_all_origins = false;
  cors_allow_credentials = true;
  cors_allowed_origins = [];
  email_backend = codes "django.core.mail.backends.smtp.EmailBackend";
  email_host = codes "mail.bugs.org";
  quorfix_demo_mode = false;
  quorfix_demo_mail_sink = [];
  session_cookie_secure = true;
  csrf_cookie_secure = true;
  session_cookie_httponly = true;
  session_cookie_samesite = some (codes "Lax");
  csrf_cookie_samesite = some (codes "Lax");
  secure_ssl_redirect = false;
  secure_proxy_ssl_header = none;
  database_engine = codes "django.db.backends.postgresql";
  database_name = codes "quorfix";
  database_host = codes "db";
  cache_location = codes "redis://redis:6379/1";
  celery_broker_url = codes "redis://redis:6379/0";
  celery_result_backend = [];
  attachments_local_root = codes "/srv/media";
  analytics_cache_ttl_seconds = integer (pos 60);
}

silent_test : all_errors (λ host. true) production ≡ some []
unfolding all_errors quorfix.Core.Checks.is_production quorfix.Prelude.is_space
    quorfix.Core.Urls.urlparse quorfix.Core.Checks.redis_errors strip
silent_test = refl

-- An origin that cannot be parsed stops the checks.
raised_test :
    all_errors (λ host. true) (record production { csrf_trusted_origins = codes "https://[x" ∷ [] })
    ≡ none
unfolding all_errors quorfix.Core.Checks.is_production quorfix.Prelude.is_space
    quorfix.Core.Urls.urlparse quorfix.Core.Checks.redis_errors strip
raised_test = refl

all_errors-is_quiet_example :
    is_quiet (all_errors (λ host. true) (record production { debug = true })) ≡ (
      not (is_production (record production { debug = true }))
      || is_safe_for_production (λ host. true) (record production { debug = true }))
all_errors-is_quiet_example =
    all_errors-is_quiet (λ host. true) (record production { debug = true })
