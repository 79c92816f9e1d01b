-- ===== src/Util/AddressList.antt =====
-- src/util/address_list.rs, and the address list of src/proto/adnl.rs.
use tiny_adnl.Prelude.Bytes.{add32}
use tiny_adnl.Prelude.{
  ℕ, ◌/◌, ◌%◌, ◌^◌, Option, none, some, Result, ok, err, if◌then◌else◌, ltb, ◌==◌, ◌&&◌, not,
}
use tiny_adnl.Adnl.Peer.{SocketAddr}

pub record Address : Type 0 where
  pub ip : ℕ
  pub port : ℕ

pub record AddressList : Type 0 where
  pub address : Option Address
  pub version : ℕ
  pub reinit_date : ℕ
  pub expire_at : ℕ

pub data AdnlAddressListError : Type 0 where
  list_is_empty too_new_version expired : AdnlAddressListError

pub to_socket_addr : Address → SocketAddr
to_socket_addr a = record {
  octet0 = a.ip / 2 ^ 24 % 256;
  octet1 = a.ip / 2 ^ 16 % 256;
  octet2 = a.ip / 2 ^ 8 % 256;
  octet3 = a.ip % 256;
  port = a.port % 2 ^ 16;
}

pub parse_address_list : ℕ → AddressList → ℕ → Result AdnlAddressListError SocketAddr
parse_address_list now list clock_tolerance = elim list.address [
  | none ↦ err list_is_empty
  | some address ↦
      if ltb (add32 now clock_tolerance) list.reinit_date
      then err too_new_version
      else if not (list.expire_at == 0) && ltb list.expire_at now
      then err expired
      else ok (to_socket_addr address)
]
