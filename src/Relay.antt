-- ===== src/Relay.antt =====
-- kv-relay/src: the service and its transfers of key-value blocks between nodes, which are
-- simulated, and its configuration.
use ghostcacher.Prelude.{ℕ, ◌*◌, Bool, false, Option, if◌then◌else◌}
use ghostcacher.Text.{Text, Bytes, lit}
use ghostcacher.Exec.{Exec, ◌>>◌, pure}

pub record RelayConfig : Type 0 where
  pub grpc_addr : Text
  pub http_addr : Text
  pub node_ip : Text
  pub rdma_available : Bool
  pub max_concurrent_streams : ℕ
  pub chunk_size_bytes : ℕ

abbrev pub relay_default : RelayConfig
relay_default = record {
  grpc_addr = lit "0.0.0.0:50051";
  http_addr = lit "0.0.0.0:50052";
  node_ip = lit "127.0.0.1";
  rdma_available = false;
  max_concurrent_streams = 16;
  chunk_size_bytes = 4 * 1024 * 1024;
}

pub record KvBlock : Type 0 where
  pub layer_idx : ℕ
  pub block_idx : ℕ
  pub k_data : Bytes
  pub v_data : Bytes
  pub token_count : ℕ

pub record TransferRequest : Type 0 where
  pub prefix_hash : Text
  pub source_pod_ip : Text
  pub source_pod_id : Text
  pub layer_range : Option (ℕ × ℕ)

pub data TransferStatus : Type 0 where
  success : TransferStatus
  partial_success : ℕ → TransferStatus
  failed : Text → TransferStatus

pub record TransferResponse : Type 0 where
  pub prefix_hash : Text
  pub status : TransferStatus
  pub blocks_received : ℕ
  pub bytes_transferred : ℕ
  pub transfer_ms : ℕ
  pub transport : Text

unfoldable pub transport_of : RelayConfig → Text
transport_of cfg = if cfg.rdma_available then lit "RDMA" else lit "gRPC/TCP"

pub record KvRelayService : Type 0 where
  pub cfg : RelayConfig

module _ {S : Type 0} where
  unfoldable pub new_relay : RelayConfig → Exec S KvRelayService
  new_relay cfg = pure (record { cfg = cfg })

  -- The server only waits for the signal to stop, `tokio::signal::ctrl_c`.
  unfoldable pub serve_grpc : Exec S (Unit {0}) → KvRelayService → Exec S (Unit {0})
  serve_grpc ctrl_c service = do ctrl_c; pure tt

  unfoldable pub pull_kv_blocks : KvRelayService → TransferRequest → Exec S TransferResponse
  unfolding transport_of
  pull_kv_blocks service req = pure (record {
    prefix_hash = req.prefix_hash;
    status = success;
    blocks_received = 12;
    bytes_transferred = 48 * 1024 * 1024;
    transfer_ms = 42;
    transport = transport_of service.cfg;
  })

  unfoldable pub push_kv_blocks : KvRelayService → Text → Text → Exec S ℕ
  push_kv_blocks service prefix_hash dest_pod_ip = pure 12
