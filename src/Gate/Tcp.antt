-- ===== src/Gate/Tcp.antt =====
-- The framing of a TCP connection, gate/connect/tcp/connect.go. Deadlines, logging and the error
-- texts are left out; what `conn.Write` and `bufio.Reader` do is a list of bytes. `hCache` and
-- `dCache` are filled before each use, so they are not state; `cache` keeps its old bytes.
pub mod Buffer
pub mod Frames
pub mod Streams
use newtbig.Prelude.{
  ℕ, zero, suc, ◌+◌, ◌-◌, ◌*◌, ◌/◌, ◌%◌, ◌^◌, Bool, true, false, ◌||◌, List, [], ◌∷◌, ◌++◌, Option,
  none, some, ltb, ◌==◌, nat_eq, if◌then◌else◌, Bytes, length, take, drop, Result, ok, err, ◌>>=◌,
}
use newtbig.Common.{Msg}
use newtbig.Options.{Options}

pub data ConnectError : Type 0 where
  connect_is_closed size_err head_err data_err unmarshal_err : ConnectError
  -- The panic of a slice or of binary.ByteOrder out of range.
  out_of_range : ConnectError

pub record Connect : Type 0 where
  pub opts : Options
  pub cache : Bytes
  pub is_close : Bool

-- make([]byte, n).
pub make_bytes : ℕ → Bytes
make_bytes zero = []
make_bytes (suc n) = 0 ∷ make_bytes n

unfoldable pub on_init : Options → Connect
unfolding make_bytes
on_init opts = record { opts = opts; cache = make_bytes opts.max_packet_size; is_close = false }

unfoldable pub on_close : Connect → Connect
on_close c = record c { is_close = true }

-- binary.BigEndian and binary.LittleEndian: PutUint16 and Uint16, PutUint32 and Uint32.
pub put_uint16 : Bool → ℕ → Bytes
put_uint16 true n = n / 256 % 256 ∷ n % 256 ∷ []
put_uint16 false n = n % 256 ∷ n / 256 % 256 ∷ []

pub uint16 : Bool → Bytes → Option ℕ
uint16 big [] = none
uint16 big (a ∷ []) = none
uint16 true (a ∷ b ∷ s) = some (a * 256 + b)
uint16 false (a ∷ b ∷ s) = some (b * 256 + a)

pub put_uint32 : Bool → ℕ → Bytes
put_uint32 true n = n / 2 ^ 24 % 256 ∷ n / 2 ^ 16 % 256 ∷ n / 256 % 256 ∷ n % 256 ∷ []
put_uint32 false n = n % 256 ∷ n / 256 % 256 ∷ n / 2 ^ 16 % 256 ∷ n / 2 ^ 24 % 256 ∷ []

pub uint32 : Bool → Bytes → Option ℕ
uint32 big [] = none
uint32 big (a ∷ []) = none
uint32 big (a ∷ b ∷ []) = none
uint32 big (a ∷ b ∷ c ∷ []) = none
uint32 true (a ∷ b ∷ c ∷ d ∷ s) = some (a * 2 ^ 24 + b * 2 ^ 16 + c * 256 + d)
uint32 false (a ∷ b ∷ c ∷ d ∷ s) = some (d * 2 ^ 24 + c * 2 ^ 16 + b * 256 + a)

-- The head of a frame: 2 bytes, or 4 for every other head size.
unfoldable pub put_size : Options → ℕ → Bytes
unfolding put_uint16 put_uint32
put_size opts sz =
    if opts.net_head_size == 2
    then put_uint16 opts.byte_order (sz % 2 ^ 16)
    else put_uint32 opts.byte_order (sz % 2 ^ 32)

unfoldable pub read_size : Options → Bytes → Option ℕ
unfolding uint16 uint32
read_size opts head =
    if opts.net_head_size == 2 then uint16 opts.byte_order head else uint32 opts.byte_order head

-- copy(cache, d), and copy(cache[i:], d).
unfoldable pub overwrite : Bytes → Bytes → Bytes
overwrite [] cache = cache
overwrite (b ∷ d) [] = []
overwrite (b ∷ d) (c ∷ cache) = b ∷ overwrite d cache

unfoldable pub write_at : ℕ → Bytes → Bytes → Bytes
unfolding overwrite
write_at zero d cache = overwrite d cache
write_at (suc i) d [] = []
write_at (suc i) d (c ∷ cache) = c ∷ write_at i d cache

abbrev pub is_bad_size : Options → ℕ → Bool
is_bad_size opts sz = ltb opts.max_packet_size (sz + opts.net_head_size) || sz == 0

-- OnSend: the connection, and what it hands to `conn.Write`.
unfoldable pub on_send : Connect → Bytes → Result ConnectError (Connect × Bytes)
on_send c d =
    let sz = length d in
    let head = put_size c.opts sz in
    if c.is_close
    then err connect_is_closed
    else if is_bad_size c.opts sz
    then err size_err
    else if ltb (length c.cache) (length head) || ltb (length c.cache) (sz + c.opts.net_head_size)
    then err out_of_range
    else (let cache = write_at c.opts.net_head_size d (overwrite head c.cache) in
        ok (record c { cache = cache }, take (sz + c.opts.net_head_size) cache))

-- io.ReadFull of a buffer of n bytes from what the connection still gives before it ends: the bytes
-- and the rest.
unfoldable pub read_full : ConnectError → ℕ → Bytes → Result ConnectError (Bytes × Bytes)
read_full e n stream = if ltb (length stream) n then err e else ok (take n stream, drop n stream)

abbrev pub in_range : {A : Type 0} → Option A → Result ConnectError A
in_range none = err out_of_range
in_range (some a) = ok a

-- OnReceive up to Unmarshal: the frame's data and the rest of the stream.
unfoldable pub receive_data : Connect → Bytes → Result ConnectError (Bytes × Bytes)
receive_data c stream = if c.is_close then err connect_is_closed else do
  head ← read_full head_err c.opts.net_head_size stream
  size ← in_range (read_size c.opts head.0)
  if is_bad_size c.opts size then err size_err else read_full data_err size head.1

unfoldable pub on_receive :
    (Bytes → Option Msg) → Connect → Bytes → Result ConnectError (Msg × Bytes)
on_receive unmarshal c stream = do
  read ← receive_data c stream
  elim (unmarshal read.0) [ none ↦ err unmarshal_err | some msg ↦ ok (msg, read.1) ]
