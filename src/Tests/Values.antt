-- ===== src/Tests/Values.antt =====
-- Concrete parameters and values for the tests: whole numbers for `f32`, a sum for HMAC-SHA256.
pub use otap_signup_validator.Csr.Access.{new_register_file-IsRegisterFile}
use otap_signup_validator.Common.{
  ℕ, ◌+◌, ◌-◌, ◌*◌, ◌%◌, ◌^◌, refl, List, [], ◌∷◌, replicate, not, IsByte, IsArray, All-replicate,
  leb, to_be_bytes, from_be_bytes, arith,
}
use otap_signup_validator.Common.Int.{pos, pos_part, negsuc}
use otap_signup_validator.Core.Float.{Float32}
use otap_signup_validator.Core.Dimensions.{Wavelength, IsChannel}
use otap_signup_validator.Crypto.Hmac.{Hmac}
use otap_signup_validator.Schema.EquityOrder.{EquityTradeOrder, IsOrder, buy}
use otap_signup_validator.Schema.Heartbeat.{Heartbeat, IsHeartbeat}

instance abbrev pub whole_numbers : Float32 ℕ
whole_numbers = record {
  literal = λ m e. pos_part m;
  pi = 3;
  add = λ x y. x + y;
  sub = λ x y. x - y;
  mul = λ x y. x * y;
  div = λ x y. x;
  neg = λ x. 0;
  maximum = λ x y. if_max x y;
  clamp = λ x lo hi. x;
  sqrt = λ x. x;
  acos = λ x. x;
  atan2 = λ y x. y % 4;
  round = λ x. x;
  gt = λ x y. not (leb x y);
  le = λ x y. leb x y;
  to_i32 = λ x. pos x;
  to_u32 = λ x. x % 2 ^ 32;
  of_i16 = λ z. pos_part z;
  of_u32 = λ x. x;
}
  where
    if_max : ℕ → ℕ → ℕ
    if_max x y = x + (y - x)

instance abbrev pub sum_tag : Hmac
sum_tag = record { mac = λ key message. to_be_bytes 32 (from_be_bytes key + from_be_bytes message) }

abbrev pub key : List ℕ
key = replicate 32 7

pub key-IsArray : IsArray 32 key
key-IsArray = record { size = refl; bytes = All-replicate IsByte 32 7 (omega arith) }

abbrev pub channel : Wavelength
channel = record { channel = 40 }

pub channel-IsChannel : IsChannel channel
channel-IsChannel = omega arith

abbrev pub an_order : EquityTradeOrder
an_order = record {
  symbol = 65 ∷ 65 ∷ 80 ∷ 76 ∷ [];
  side = buy;
  quantity = 100;
  price_cents = 18_500;
  timestamp_ns = 1;
  client_order_id = 2;
  firm_uuid = replicate 16 9;
}

pub an_order-IsOrder : IsOrder an_order
an_order-IsOrder = record {
  symbol = record {
    size = refl;
    bytes = (omega arith, (omega arith, (omega arith, (omega arith, tt))));
  };
  quantity = omega arith;
  price_cents = omega arith;
  timestamp_ns = omega arith;
  client_order_id = omega arith;
  firm_uuid = record { size = refl; bytes = All-replicate IsByte 16 9 (omega arith) };
}

abbrev pub a_heartbeat : Heartbeat
a_heartbeat = record {
  node_id = 3;
  clock_offset_ns = negsuc 4;
  heartbeat_seq = 8;
  reserved = replicate 8 0;
}

pub a_heartbeat-IsHeartbeat : IsHeartbeat a_heartbeat
a_heartbeat-IsHeartbeat = record {
  node_id = omega arith;
  clock_offset_ns = ground arith;
  heartbeat_seq = omega arith;
  reserved = record { size = refl; bytes = All-replicate IsByte 8 0 (omega arith) };
}
