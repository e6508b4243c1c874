-- ===== src/Startup/Transport.antt =====
-- The transport of gRPC, as the main functions of intent-service and wallet (servers) and of gateway and
-- execution-engine (clients) choose it. The files and crypto/tls are parameters. An error ends
-- the process.
use aien.Prelude.{Bool, Option, none, some, String, ◌==◌, ◌&&◌, not, if◌then◌else◌}
use aien.Prelude.Sql.{Result, ok, err}
use aien.Crypto.{Bytes}
use aien.Startup.Config.{Environment, get_env}

-- What a TLS configuration asks of the other side.
pub data Peer : Type 0 where
  -- RootCAs and ServerName of a client
  server_named : String → Peer
  -- ClientCAs and RequireAndVerifyClientCert of a server
  client_verified : Peer

pub data Transport : Type 0 where
  insecure : Transport
  mutual_tls : (certificate : Bytes) (ca_pool : Bytes) → Peer → Transport

pub data TransportError : Type 0 where
  key_pair_unloaded ca_unread ca_refused : TransportError

pub record Machine : Type 0 where
  -- tls.LoadX509KeyPair
  pub load_key_pair : (cert_path key_path : String) → Option Bytes
  -- os.ReadFile
  pub read_file : String → Option Bytes
  -- AppendCertsFromPEM
  pub append_certs : Bytes → Bool

abbrev pub with_ca :
    Machine → (certificate : Bytes) → Peer → Option Bytes → Result TransportError Transport
with_ca machine certificate peer none = err ca_unread
with_ca machine certificate peer (some ca) =
    if not (machine.append_certs ca) then err ca_refused else ok (mutual_tls certificate ca peer)

abbrev pub with_key_pair :
    Machine → (ca_path : String) → Peer → Option Bytes → Result TransportError Transport
with_key_pair machine ca_path peer none = err key_pair_unloaded
with_key_pair machine ca_path peer (some certificate) =
    with_ca machine certificate peer (machine.read_file ca_path)

abbrev pub all_given : (ca_path cert_path key_path : String) → Bool
all_given ca_path cert_path key_path =
    not (ca_path == "") && not (cert_path == "") && not (key_path == "")

unfoldable pub choose_transport :
    Machine → (ca_path cert_path key_path : String) → Peer → Result TransportError Transport
choose_transport machine ca_path cert_path key_path peer =
    if all_given ca_path cert_path key_path
    then with_key_pair machine ca_path peer (machine.load_key_pair cert_path key_path)
    else ok insecure

-- intent-service/main.go and wallet/main.go
abbrev pub server_transport : Environment → Machine → Result TransportError Transport
server_transport env machine =
    choose_transport machine (get_env env "TLS_CA_CERT" "") (get_env env "TLS_SERVER_CERT" "")
      (get_env env "TLS_SERVER_KEY" "") client_verified

-- gateway/main.go, for "intent-service", and execution-engine/main.go, for "wallet"
abbrev pub client_transport :
    (server_name : String) → Environment → Machine → Result TransportError Transport
client_transport server_name env machine =
    choose_transport machine (get_env env "TLS_CA_CERT" "") (get_env env "TLS_CLIENT_CERT" "")
      (get_env env "TLS_CLIENT_KEY" "") (server_named server_name)
