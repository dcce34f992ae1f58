-- ===== src/Config/Defaults.antt =====
-- What the defaults of the configuration achieve.
use mathlib.Core.Path.{subst}
use zx909_gw.Prelude.{ℕ, ◌≡◌, ◌≢◌, ◌↔◌, refl, ap, [], ◌∷◌, arith}
use zx909_gw.Prelude.Int.{ℤ, pos, negsuc}
use zx909_gw.Bytes.{Bytes}
use zx909_gw.Config.{
  Config, or_string, or_int, or_byte, server_defaults, things_board_defaults, geolocation_defaults,
  paapeli_defaults, with_defaults, default_listen, default_profile, default_client_id,
  default_level,
}

-- None of the settings that have a default has Go's zero value.
pub record IsComplete (c : Config) : Type 0 where
  pub listen : c.server.listen ≢ []
  pub read_timeout : c.server.read_timeout ≢ pos 0
  pub write_timeout : c.server.write_timeout ≢ pos 0
  pub port : c.things_board.port ≢ pos 0
  pub device_profile : c.things_board.device_profile ≢ []
  pub qos : c.things_board.qos ≢ 0
  pub keep_alive : c.things_board.keep_alive ≢ pos 0
  pub client_id : c.things_board.client_id ≢ []
  pub geolocation_timeout : c.geolocation.timeout ≢ pos 0
  pub paapeli_timeout : c.paapeli.timeout ≢ pos 0
  pub positive_ttl : c.paapeli.positive_ttl ≢ pos 0
  pub negative_ttl : c.paapeli.negative_ttl ≢ pos 0
  pub level : c.level ≢ []

or_string_set : (default s : Bytes) → default ≢ [] → or_string default s ≢ []
unfolding or_string
or_string_set default [] h = h
or_string_set default (x ∷ s) h = λ e. cc

or_int_set : (default : ℕ) (n : ℤ) → default ≢ 0 → or_int default n ≢ pos 0
unfolding or_int
or_int_set default (pos n) h = ground arith
or_int_set default (negsuc n) h = λ e. cc

or_byte_set : (default n : ℕ) → default ≢ 0 → or_byte default n ≢ 0
unfolding or_byte
or_byte_set default n h = ground arith

or_string_kept : (default s : Bytes) → s ≢ [] → or_string default s ≡ s
unfolding or_string
or_string_kept default [] h = absurd (h refl)
or_string_kept default (x ∷ s) h = refl

or_int_kept : (default : ℕ) (n : ℤ) → n ≢ pos 0 → or_int default n ≡ n
unfolding or_int
or_int_kept default (pos n) h = let nonzero : n ≢ 0 = λ e. h (ap pos e) in ground arith
or_int_kept default (negsuc n) h = refl

or_byte_kept : (default n : ℕ) → n ≢ 0 → or_byte default n ≡ n
unfolding or_byte
or_byte_kept default n h = ground arith

with_defaults-IsComplete : (c : Config) → IsComplete (with_defaults c)
unfolding with_defaults server_defaults things_board_defaults geolocation_defaults paapeli_defaults
with_defaults-IsComplete c = record {
  listen = or_string_set default_listen c.server.listen (λ e. cc);
  read_timeout = or_int_set 300000000000 c.server.read_timeout (λ e. omega arith);
  write_timeout = or_int_set 10000000000 c.server.write_timeout (λ e. omega arith);
  port = or_int_set 1883 c.things_board.port (λ e. omega arith);
  device_profile = or_string_set default_profile c.things_board.device_profile (λ e. cc);
  qos = or_byte_set 1 c.things_board.qos (λ e. omega arith);
  keep_alive = or_int_set 30000000000 c.things_board.keep_alive (λ e. omega arith);
  client_id = or_string_set default_client_id c.things_board.client_id (λ e. cc);
  geolocation_timeout = or_int_set 3000000000 c.geolocation.timeout (λ e. omega arith);
  paapeli_timeout = or_int_set 3000000000 c.paapeli.timeout (λ e. omega arith);
  positive_ttl = or_int_set 1800000000000 c.paapeli.positive_ttl (λ e. omega arith);
  negative_ttl = or_int_set 60000000000 c.paapeli.negative_ttl (λ e. omega arith);
  level = or_string_set default_level c.level (λ e. cc);
}

with_defaults_kept : (c : Config) → IsComplete c → with_defaults c ≡ c
unfolding with_defaults server_defaults things_board_defaults geolocation_defaults paapeli_defaults
with_defaults_kept c v i = record {
  server = record c.server {
    listen = or_string_kept default_listen c.server.listen v.listen i;
    read_timeout = or_int_kept 300000000000 c.server.read_timeout v.read_timeout i;
    write_timeout = or_int_kept 10000000000 c.server.write_timeout v.write_timeout i;
  };
  things_board = record c.things_board {
    port = or_int_kept 1883 c.things_board.port v.port i;
    device_profile =
        or_string_kept default_profile c.things_board.device_profile v.device_profile i;
    qos = or_byte_kept 1 c.things_board.qos v.qos i;
    keep_alive = or_int_kept 30000000000 c.things_board.keep_alive v.keep_alive i;
    client_id = or_string_kept default_client_id c.things_board.client_id v.client_id i;
  };
  geolocation = record c.geolocation {
    timeout = or_int_kept 3000000000 c.geolocation.timeout v.geolocation_timeout i;
  };
  paapeli = record c.paapeli {
    timeout = or_int_kept 3000000000 c.paapeli.timeout v.paapeli_timeout i;
    positive_ttl = or_int_kept 1800000000000 c.paapeli.positive_ttl v.positive_ttl i;
    negative_ttl = or_int_kept 60000000000 c.paapeli.negative_ttl v.negative_ttl i;
  };
  level = or_string_kept default_level c.level v.level i;
}

-- Filling in the defaults sets each of the thirteen settings that have one, and a configuration is
-- left as it is exactly if all of them are set.
pub with_defaults-fixed :
    (c : Config) → IsComplete (with_defaults c) × (IsComplete c ↔ (with_defaults c ≡ c))
with_defaults-fixed c = (
  with_defaults-IsComplete c,
  (with_defaults_kept c, λ e. subst IsComplete e (with_defaults-IsComplete c)),
)
