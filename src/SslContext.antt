-- ===== src/SslContext.antt =====
-- sslcontext.cc and siot/ssl.h: the paths of a server's certificates and keys.
pub mod Chain
use text.Mathlib.Text.{◌==◌ as str_eq}
use libsiot.Base.{Bool, true, false, ◌||◌, String, List, [], ◌∷◌, ◌++◌, if◌then◌else◌}

pub record ServerSslContext : Type 0 where
  pub chain_certs : List String
  pub client_ca_file : String
  pub cert_file : String
  pub key_file : String

-- The constructor.
unfoldable pub server_ssl_context : String → String → ServerSslContext
server_ssl_context cert_file key_file = record {
  chain_certs = [];
  client_ca_file = "";
  cert_file = cert_file;
  key_file = key_file;
}

-- The loop of `AddChainCertPath`: whether the path is there.
unfoldable pub has_path : String → List String → Bool
has_path cert_file [] = false
has_path cert_file (path ∷ paths) = str_eq path cert_file || has_path cert_file paths

-- `ServerSSLContext::AddChainCertPath`
unfoldable pub add_chain_cert_path : String → ServerSslContext → ServerSslContext
add_chain_cert_path cert_file c =
    if has_path cert_file c.chain_certs
    then c
    else record c { chain_certs = c.chain_certs ++ cert_file ∷ [] }

-- `ServerSSLContext::SetClientCAFilePath`
unfoldable pub set_client_ca_file_path : String → ServerSslContext → ServerSslContext
set_client_ca_file_path ca_file c = record c { client_ca_file = ca_file }

-- `GetCertFilePath`, `GetPrivateKeyFilePath`, `GetChainCertPaths` and `GetClientCAFilePath`.
abbrev pub get_cert_file_path : ServerSslContext → String
get_cert_file_path c = c.cert_file

abbrev pub get_private_key_file_path : ServerSslContext → String
get_private_key_file_path c = c.key_file

abbrev pub get_chain_cert_paths : ServerSslContext → List String
get_chain_cert_paths c = c.chain_certs

abbrev pub get_client_ca_file_path : ServerSslContext → String
get_client_ca_file_path c = c.client_ca_file
