-- ===== src/Registry/Tests.antt =====
-- Concrete runs of the registry client.
use zx909_gw.Prelude.{◌≡◌, refl, ◌⊎◌, true, false, [], ◌∷◌, none, some, ◌==◌, if◌then◌else◌}
use zx909_gw.Prelude.Int.{pos}
use zx909_gw.Samples.{sample_imei}
use zx909_gw.Server.Uplink.{is_empty}
use zx909_gw.Registry.{
  ttl_of, Client, Service, cache_get, fetch, is_registered, login_request, tracker_request,
}
use zx909_gw.Registry.Answers.{IsConfirmed}
use zx909_gw.Registry.Recent.{asked, IsRecent, is_registered-IsRecent}

-- The first token is refused, the second attempt succeeds.
abbrev pub sample_service : Service
sample_service = record {
  now = 100;
  later = 200;
  login = λ attempt. some (200, 9 ∷ []);
  tracker = λ attempt token imei. if attempt == 0 then some (401, []) else some (200, 1 ∷ []);
  token_of = λ body. some body;
  registered_of = λ body. some true;
}

-- A service that cannot be reached.
abbrev silent_service : Service
silent_service = record sample_service {
  now = 1000000;
  login = λ attempt. none;
  tracker = λ attempt token imei. none;
}

abbrev pub stale_client : Client
stale_client = record {
  positive_ttl = pos 0;
  negative_ttl = pos 0;
  token = 7 ∷ [];
  cache = [];
  requests = [];
}

abbrev asked_client : Client
asked_client = record stale_client {
  token = 9 ∷ [];
  requests =
      tracker_request (7 ∷ []) sample_imei
      ∷ login_request
      ∷ tracker_request (9 ∷ []) sample_imei
      ∷ [];
}

fetch_run : fetch sample_service sample_imei stale_client ≡ (some true, asked_client)
unfolding fetch
fetch_run = refl

miss_run : cache_get 100 sample_imei stale_client ≡ none
unfolding cache_get
miss_run = refl

yes_run : (is_registered sample_service sample_imei stale_client).0 ≡ true
unfolding is_registered
yes_run = refl

-- A second question, which the cache answers.
cached_run :
    (is_registered silent_service sample_imei
      (asked ((sample_service, sample_imei) ∷ []) stale_client)).0
    ≡ true
unfolding is_registered
cached_run = refl

is_registered-IsRecent_example :
    (is_empty sample_imei ≡ false)
    × (IsConfirmed silent_service sample_imei
        ⊎ IsRecent
            (ttl_of true stale_client)
            1000000
            sample_imei
            ((sample_service, sample_imei) ∷ []))
is_registered-IsRecent_example =
    is_registered-IsRecent ((sample_service, sample_imei) ∷ []) stale_client silent_service
      sample_imei refl cached_run
