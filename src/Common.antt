-- ===== src/Common.antt =====
-- The constants and the message type that every part shares: common/define.go, and the messages of
-- msg/framepb (generated from frame.proto) as records.
pub mod Codes
use newtbig.Prelude.{ℕ, ◌+◌, ◌-◌, ◌^◌, ◌%◌, Bytes, codes}

abbrev pub broatcast : Bytes
broatcast = codes "broatcast"

abbrev pub request : Bytes
request = codes "req"

abbrev pub publish : Bytes
publish = codes "pub"

abbrev pub send : Bytes
send = codes "send"

-- RouteType is an int8, as its bit pattern below 256.
abbrev pub RouteType : Type 0
RouteType = ℕ

abbrev pub default_route : RouteType
default_route = 0

abbrev pub hash_route : RouteType
hash_route = 1

abbrev pub direct_route : RouteType
direct_route = 2

-- framepb.Msg. A nil body is the empty one: protobuf does not tell them apart on the wire.
pub record Msg : Type 0 where
  pub seq : ℕ
  pub id : ℕ
  pub body : Bytes
  pub key : ℕ
  pub uid : ℕ
