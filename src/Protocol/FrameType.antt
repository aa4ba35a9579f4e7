-- ===== src/Protocol/FrameType.antt =====
-- `FrameType`, `Scope` and `StreamId` of crates/protocol/src/frame.rs.
use tunnel_proxy.Common.{
  ℕ, ◌<◌, ◌≡◌, refl, ◌↔◌, Bool, Option, none, some, arith, ◌==◌, if◌then◌else◌,
}

pub data FrameType : Type 0 where
  hello register registered : FrameType
  open_stream data_frame end_stream reset_stream : FrameType
  ping pong error : FrameType

pub data Scope : Type 0 where
  control stream : Scope

unfoldable pub scope : FrameType → Scope
scope open_stream = stream
scope data_frame = stream
scope end_stream = stream
scope reset_stream = stream
scope hello = control
scope register = control
scope registered = control
scope ping = control
scope pong = control
scope error = control

unfoldable pub as_u8 : FrameType → ℕ
as_u8 hello = 0x01
as_u8 register = 0x02
as_u8 registered = 0x03
as_u8 open_stream = 0x10
as_u8 data_frame = 0x11
as_u8 end_stream = 0x12
as_u8 reset_stream = 0x13
as_u8 ping = 0x20
as_u8 pong = 0x21
as_u8 error = 0xff

unfoldable pub from_raw : ℕ → Option FrameType
from_raw byte =
    if byte == 0x01
    then some hello
    else if byte == 0x02
    then some register
    else if byte == 0x03
    then some registered
    else if byte == 0x10
    then some open_stream
    else if byte == 0x11
    then some data_frame
    else if byte == 0x12
    then some end_stream
    else if byte == 0x13
    then some reset_stream
    else if byte == 0x20
    then some ping
    else if byte == 0x21
    then some pong
    else if byte == 0xff
    then some error
    else none

-- A `u32`; 0 stands for no stream.
abbrev pub StreamId : Type 0
StreamId = ℕ

abbrev pub control_id : StreamId
control_id = 0

unfoldable pub stream_id_new : ℕ → Option StreamId
stream_id_new id = if id == 0 then none else some id

abbrev pub is_control : StreamId → Bool
is_control id = id == 0

pub from_raw-as_u8 : (t : FrameType) → from_raw (as_u8 t) ≡ some t
unfolding from_raw as_u8
from_raw-as_u8 hello = refl
from_raw-as_u8 _ = refl

as_u8_of_from_raw : (b : ℕ) (t : FrameType) → from_raw b ≡ some t → as_u8 t ≡ b
unfolding from_raw as_u8
as_u8_of_from_raw b t h = ground arith

-- A byte decodes to a frame type exactly when it is the byte that the type is written as.
pub from_raw_iff : (b : ℕ) (t : FrameType) → (from_raw b ≡ some t) ↔ (as_u8 t ≡ b)
from_raw_iff b t = (as_u8_of_from_raw b t, λ e. rw (← e) (from_raw-as_u8 t))

pub as_u8-IsByte : (t : FrameType) → as_u8 t < 256
unfolding as_u8
as_u8-IsByte hello = omega arith
as_u8-IsByte _ = omega arith
