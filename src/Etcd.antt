-- ===== src/Etcd.antt =====
-- The client of etcd, etcdclient/etcd_client.go. The files, the reading of certificates and what
-- etcd answers are parameters.
pub mod History
pub mod Directories
pub mod Values
use newtbig.Prelude.{
  ℕ, ◌+◌, Bool, true, false, not, ◌&&◌, List, [], Option, none, some, ◌==◌, bytes_eq, if◌then◌else◌,
  Bytes, codes,
}

pub record Config : Type 0 where
  pub endpoints : List Bytes
  pub tls : Option ℕ  -- the certificate

pub record EtcdClient : Type 0 where
  pub config : Config
  pub client : Option ℕ

pub data EtcdError : Type 0 where
  cert_file_err key_file_err key_pair_err not_connected test_failed : EtcdError

-- What is around the client: os.ReadFile, tls.X509KeyPair, clientv3.New, and whether etcd takes a
-- Put of a client.
pub record Surroundings : Type 0 where
  pub read_file : Bytes → Option Bytes
  pub key_pair : Bytes → Bytes → Option ℕ
  pub new_client : Config → Option ℕ
  pub put : ℕ → Bytes → Bytes → Bool

abbrev pub test_key : Bytes
test_key = codes "newtbig_etcd_test1_key"

abbrev pub test_value : Bytes
test_value = codes "newtbig_etcd_test_value"

module _ (around : Surroundings) where
  -- The configuration with the certificate, where both files are named.
  secured : Config → Bytes → Bytes → Config × Option EtcdError
  secured config cert_file key_file =
      if not (cert_file == []) && not (key_file == [])
      then elim (around.read_file cert_file) [
        | none ↦ (config, some cert_file_err)
        | some cert_pem ↦ elim (around.read_file key_file) [
          | none ↦ (config, some key_file_err)
          | some key_pem ↦ elim (around.key_pair cert_pem key_pem) [
            | none ↦ (config, some key_pair_err)
            | some cert ↦ (record config { tls = some cert }, none)
          ]
        ]
      ]
      else (config, none)

  -- The client is kept also where the test fails.
  connect : Config → EtcdClient × Option EtcdError
  connect config = elim (around.new_client config) [
    | none ↦ (record { config = config; client = none }, some not_connected)
    | some client ↦ (
      record { config = config; client = some client },
      if around.put client test_key test_value then none else some test_failed,
    )
  ]

  unfoldable pub init : List Bytes → Bytes → Bytes → EtcdClient × Option EtcdError
  unfolding secured connect
  init host cert_file key_file =
      let (config, failed) = secured (record { endpoints = host; tls = none }) cert_file key_file in
      elim failed [
        | some e ↦ (record { config = config; client = none }, some e)
        | none ↦ connect config
      ]

-- Watch: the revision from which it watches, after that of its Get, or the error of the Get.
unfoldable pub watch : Option ℕ → Option ℕ
watch none = none
watch (some revision) = some (revision + 1)
