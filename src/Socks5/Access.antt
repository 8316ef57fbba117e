-- ===== src/Socks5/Access.antt =====
-- server/socks5.c: the texts of the access log.
use protos_tpe.Prelude.{
  ℕ, ◌-◌, ◌≡◌, refl, ◌&&◌, Option, none, some, List, [], ◌∷◌, ◌++◌, ltb, leb, ◌==◌, if◌then◌else◌,
  take, min,
}
use mathlib.Core.List.{map}
use protos_tpe.Text.{codes, decimal}
use protos_tpe.Negotiation.{method_userpass}
use protos_tpe.Request.{Parser, atyp_domain, atyp_ipv6}
use protos_tpe.Users.{name_max}
use protos_tpe.Socks5.{
  Conn, Key, Server, AccessEntry, Errno, econnrefused, enetunreach, ehostunreach, etimedout,
  other_errno,
}
use protos_tpe.Socks5.Os.{Os}

abbrev pub rep_success : ℕ
rep_success = 0

abbrev pub rep_general_failure : ℕ
rep_general_failure = 1

abbrev pub rep_network_unreachable : ℕ
rep_network_unreachable = 3

abbrev pub rep_host_unreachable : ℕ
rep_host_unreachable = 4

abbrev pub rep_connection_refused : ℕ
rep_connection_refused = 5

abbrev pub rep_ttl_expired : ℕ
rep_ttl_expired = 6

abbrev pub rep_cmd_not_supported : ℕ
rep_cmd_not_supported = 7

-- `rep_from_errno`
unfoldable pub rep_from_errno : Errno → ℕ
rep_from_errno econnrefused = rep_connection_refused
rep_from_errno enetunreach = rep_network_unreachable
rep_from_errno ehostunreach = rep_host_unreachable
rep_from_errno etimedout = rep_ttl_expired
rep_from_errno other_errno = rep_general_failure

-- `result_token`
unfoldable pub result_token : ℕ → List ℕ
result_token rep =
    if rep == rep_success
    then codes "OK"
    else if rep == rep_connection_refused
    then codes "CONN-REFUSED"
    else if rep == rep_host_unreachable
    then codes "HOST-UNREACH"
    else if rep == rep_network_unreachable
    then codes "NET-UNREACH"
    else if rep == rep_ttl_expired
    then codes "TTL-EXPIRED"
    else if rep == rep_cmd_not_supported
    then codes "CMD-NOT-SUPPORTED"
    else codes "GENERAL-FAILURE"

-- `sanitize_domain(dst, cap, src, n)`: the text that it leaves in `dst`
unfoldable pub sanitize_domain : ℕ → List ℕ → ℕ → List ℕ
sanitize_domain cap src n =
    map (λ c. if leb 32 c && ltb c 127 then c else 63) (take (min n (cap - 1)) src)

-- The user of the log line.
unfoldable pub log_user : Conn → List ℕ
log_user c =
    if c.method == method_userpass && ltb 0 c.auth.ulen
    then map (λ ch. if ltb 32 ch && ltb ch 127 then ch else 63)
        (take (min c.auth.ulen name_max) c.auth.uname)
    else codes "-"

module _ (os : Os) where
  -- `format_request_dst`; its buffer of 300 bytes holds any host of at most 255 with a port.
  unfoldable pub format_request_dst : Parser → List ℕ
  unfolding sanitize_domain
  format_request_dst r =
      (if r.atyp == atyp_domain
        then sanitize_domain 256 r.dst_addr r.addr_len
        else os.ntop (r.atyp == atyp_ipv6) r.dst_addr)
      ++ (58 ∷ decimal r.dst_port)

  -- A line behind the others.
  append_entry : List ℕ → Option (List AccessEntry) → Key → Key
  unfolding log_user format_request_dst
  append_entry result none k = k
  append_entry result (some entries) k =
      let entry : AccessEntry = record {
        user = log_user k.conn;
        dst = format_request_dst k.conn.request;
        result = result;
      } in
      record k { server = record k.server { access_log = some (entries ++ entry ∷ []) } }

  -- `socks5_log_access`
  unfoldable pub log_access : List ℕ → Key → Key
  unfolding append_entry
  log_access result k = append_entry result k.server.access_log k

-- The log has grown, and nothing else has changed.
append_entry-server :
    (os : Os) (result : List ℕ) (o : Option (List AccessEntry)) (k : Key)
    → (s : Server) × (append_entry os result o k ≡ record k { server = s })
      × (s.users_store ≡ k.server.users_store)
unfolding append_entry
append_entry-server os result none k = (k.server, refl, refl)
append_entry-server os result (some entries) k = (_, refl, refl)

pub log_access-server :
    (os : Os) (result : List ℕ) (k : Key)
    → (s : Server) × (log_access os result k ≡ record k { server = s })
      × (s.users_store ≡ k.server.users_store)
unfolding log_access
log_access-server os result k = append_entry-server os result k.server.access_log k
