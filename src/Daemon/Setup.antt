-- ===== src/Daemon/Setup.antt =====
-- cmd/clusterrebootd/main.go: what the commands construct before a pass, and what they close. The
-- client of etcd, the files and the sockets are parameters.
use clusterrebootd.Prelude.{
  Bool, Option, none, some, List, [], ◌∷◌, if◌then◌else◌, ℤ, Result, ok, err,
}
use clusterrebootd.Text.{Text}
use clusterrebootd.Config.Types.{EtcdTlsConfig, Config}
use clusterrebootd.Config.Validate.{Problem, decode}
use clusterrebootd.Orchestrator.Failure.{Failure}
use clusterrebootd.Daemon.Run.{ExitCode}

-- What a command opens.
pub data Resource : Type 0 where
  lock_client cooldown_client health_client metrics_server : Resource

-- What is opened, and what is to be closed by a deferred call, each the last one first.
pub record Resources : Type 0 where
  pub opened : List Resource
  pub deferred : List Resource

abbrev pub no_resources : Resources
no_resources = record { opened = []; deferred = [] }

-- What lies outside: the file of the configuration as the decoder reads it, the files of TLS, the
-- dialling of a client, the listening socket with its address, and the id of the process.
pub record World : Type 0 where
  pub read_config : Text → Option Config
  pub load_key_pair : Text → Text → Option Failure
  pub read_file : Text → Result Failure Text
  -- `AppendCertsFromPEM`
  pub append_certs : Text → Bool
  pub dial : Resource → Option Failure
  pub listen : Text → Result Failure Text
  pub own_pid : ℤ
  -- `path.Join`
  pub join_path : Text → Text → Text

-- A step of the set-up: the command exits with a code, or goes on.
abbrev pub Setup : Type 0 → Type 0
Setup A = Resources → Result ExitCode A × Resources

abbrev pub pure : {A : Type 0} → A → Setup A
pure a s = (ok a, s)

abbrev pub continue :
    {A B : Type 0} → (A → Setup B) → Result ExitCode A × Resources → Result ExitCode B × Resources
continue f (ok a, s) = f a s
continue f (err code, s) = (err code, s)

infixl 5 ◌>>=◌ ◌>>◌
abbrev pub ◌>>=◌ : {A B : Type 0} → Setup A → (A → Setup B) → Setup B
◌>>=◌ m f s = continue f (m s)

abbrev pub ◌>>◌ : {A B : Type 0} → Setup A → Setup B → Setup B
m >> k = m >>= λ _. k

-- `if err != nil { return code }`
abbrev pub or_exit : {E A : Type 0} → ExitCode → Result E A → Setup A
or_exit code (ok a) s = (ok a, s)
or_exit code (err e) s = (err code, s)

abbrev pub opens : Resource → Setup (Unit {0})
opens x s = (ok tt, record s { opened = x ∷ s.opened })

-- `defer x.Close()`
abbrev pub closes : Resource → Setup (Unit {0})
closes x s = (ok tt, record s { deferred = x ∷ s.deferred })

-- `config.Load`: the file, then the defaults and the validation.
pub data LoadError : Type 0 where
  unreadable_config : LoadError
  invalid_config : List Problem → LoadError

abbrev pub decoded : Result (List Problem) Config → Result LoadError Config
decoded (ok c) = ok c
decoded (err problems) = err (invalid_config problems)

abbrev pub load_of : Option Config → Result LoadError Config
load_of none = err unreadable_config
load_of (some c) = decoded (decode c)

unfoldable pub load : World → Text → Result LoadError Config
load w path = load_of (w.read_config path)

-- `tls.Config`, by the files that it is made from.
pub record TlsSettings : Type 0 where
  pub cert_file : Text
  pub key_file : Text
  pub ca : Text
  pub insecure : Bool

pub data TlsError : Type 0 where
  bad_key_pair unreadable_ca : Failure → TlsError
  bad_ca : Text → TlsError

module _ (w : World) where
  abbrev tls_of_ca : EtcdTlsConfig → Result Failure Text → Result TlsError (Option TlsSettings)
  tls_of_ca t (err e) = err (unreadable_ca e)
  tls_of_ca t (ok ca) =
      if w.append_certs ca
      then ok (
          some (record {
            cert_file = t.cert_file;
            key_file = t.key_file;
            ca = ca;
            insecure = t.insecure;
          }))
      else err (bad_ca t.ca_file)

  abbrev tls_of_pair : EtcdTlsConfig → Option Failure → Result TlsError (Option TlsSettings)
  tls_of_pair t (some e) = err (bad_key_pair e)
  tls_of_pair t none = tls_of_ca t (w.read_file t.ca_file)

  -- `buildEtcdTLSConfig`
  unfoldable pub build_etcd_tls_config : Option EtcdTlsConfig → Result TlsError (Option TlsSettings)
  build_etcd_tls_config none = ok none
  build_etcd_tls_config (some t) =
      if t.enabled then tls_of_pair t (w.load_key_pair t.cert_file t.key_file) else ok none
