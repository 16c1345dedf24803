-- ===== src/Config.antt =====
-- pkg/config/config.go: the flags.
use azure_admission_controll.Prelude.{String, Option, none, some, Map, get}
use azure_admission_controll.Error.{external}
use azure_admission_controll.Result.{Result, ok, require, ◌>>=◌}

abbrev pub default_address : String
default_address = ":8080"

pub record Config : Type 0 where
  pub base_domain : String
  pub cert_file : String
  pub key_file : String
  pub address : String
  pub availability_zones : String
  pub location : String

-- kingpin ends the process where a `Required` flag is not on the command line; here that is an error.
abbrev required : String → Map String → Result String
required flag flags = require (get flag flags) (external flag)

abbrev with_default : String → Option String → String
with_default default none = default
with_default default (some value) = value

-- `flags` are the flags that kingpin read.
unfoldable pub parse : Map String → Result Config
unfolding get
parse flags = do
  cert_file ← required "tls-cert-file" flags
  key_file ← required "tls-key-file" flags
  base_domain ← required "base-domain" flags
  location ← required "location" flags
  ok (record {
    base_domain = base_domain;
    cert_file = cert_file;
    key_file = key_file;
    address = with_default default_address (get "address" flags);
    availability_zones = "";
    location = location;
  })
