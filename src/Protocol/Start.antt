-- ===== src/Protocol/Start.antt =====
-- src/protocol.c: ch_pr_start, and ch_pr_init of src/protocol.h.
--
-- What libuv answers is a parameter. A handle that uv_tcp_init was called on belongs to the loop
-- until it is closed.
pub mod Serves
use c4irp.Prelude.{ℕ, not, List, [], ◌∷◌, if◌then◌else◌}
use c4irp.Prelude.Int.{ℤ, is_neg}
use c4irp.Types.{
  ErrorCode, success, value_error, uv_error, eaddrinuse, UvCodes, uv_error_map, is_success,
}

-- The two servers.
pub data Server : Type 0 where
  server_v4 server_v6 : Server

-- What the calls for a server return: uv_inet_ntop, uv_ip4_addr or uv_ip6_addr, uv_tcp_bind,
-- uv_tcp_nodelay and uv_listen.
pub record ServerAnswers : Type 0 where
  pub text : ℤ
  pub addr : ℤ
  pub bind : ℤ
  pub nodelay : ℤ
  pub listen : ℤ

-- ch_protocol_t: the handles that belong to the loop, those that accept connections, and
-- the trees, as the addresses of what is in them.
pub record Protocol : Type 0 where
  pub open_servers : List Server
  pub listening : List Server
  pub connections : List ℕ
  pub old_connections : List ℕ
  pub receipts : List ℕ
  pub late_receipts : List ℕ

-- ch_pr_init
unfoldable pub init : Protocol
init = record {
  open_servers = [];
  listening = [];
  connections = [];
  old_connections = [];
  receipts = [];
  late_receipts = [];
}

-- The part of ch_pr_start for one server; the two parts differ only in the names.
serve : UvCodes → ServerAnswers → Server → Protocol → Protocol × ErrorCode
serve codes a server p =
    let opened = record p { open_servers = server ∷ p.open_servers } in
    let bound = uv_error_map codes a.bind in
    if is_neg a.text
    then (opened, value_error)
    else if is_neg a.addr
    then (opened, value_error)
    else if not (is_success bound)
    then (opened, bound)
    else if is_neg a.nodelay
    then (opened, uv_error)
    else if is_neg a.listen
    then (opened, eaddrinuse)
    else (record opened { listening = server ∷ p.listening }, success)

-- The end of ch_pr_start.
clear : Protocol → Protocol
clear p = record p { receipts = []; late_receipts = []; connections = [] }

-- ch_pr_start
unfoldable pub start : UvCodes → ServerAnswers → ServerAnswers → Protocol → Protocol × ErrorCode
unfolding serve clear
start codes v4 v6 p =
    let (p4, e4) = serve codes v4 server_v4 p in
    let (p6, e6) = serve codes v6 server_v6 p4 in
    if is_success e4 then (if is_success e6 then (clear p6, success) else (p6, e6)) else (p4, e4)
