-- ===== src/Transfer/Factory.antt =====
-- The choice of a transfer and of a transport by name (src/FileTransferFactory.cpp,
-- src/TransportFactory.cpp).
use alkaidlab_fw.Base.{Option, none, some, ◌||◌, if◌then◌else◌, Bytes, codes, bytes_eq, lower, []}

pub data TransferKind : Type 0 where
  legacy_transfer : TransferKind
  accel_transfer : Bytes → TransferKind
  stream_transfer : TransferKind

unfoldable pub create_transfer : Bytes → Bytes → Option TransferKind
create_transfer mode accel_prefix =
    let name = lower mode in
    if bytes_eq name (codes "legacy")
    then some legacy_transfer
    else if bytes_eq name (codes "accel")
    then some (accel_transfer accel_prefix)
    else if bytes_eq name (codes "stream") || (bytes_eq name (codes "auto") || bytes_eq name [])
    then some stream_transfer
    else none

-- `ws`, `wss` and `websocket` all get a WebSocket transport with an `SslConfig`.
pub data TransportKind : Type 0 where
  http_transport : TransportKind
  https_transport : TransportKind
  tcp_transport : TransportKind
  web_socket_transport : TransportKind

unfoldable pub create_transport : Bytes → Option TransportKind
create_transport type =
    let name = lower type in
    if bytes_eq name (codes "http")
    then some http_transport
    else if bytes_eq name (codes "https")
    then some https_transport
    else if bytes_eq name (codes "tcp")
    then some tcp_transport
    else if bytes_eq name (codes "websocket") || bytes_eq name (codes "ws")
    then some web_socket_transport
    else if bytes_eq name (codes "wss")
    then some web_socket_transport
    else none
