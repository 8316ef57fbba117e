-- ===== src/Socks5/Os.antt =====
-- The calls that server/socks5.c makes of the system and of the selector. What they answer is a
-- parameter, for each call by its number.
use protos_tpe.Prelude.{
  ℕ, ◌+◌, Bool, true, false, Option, some, List, ◌++◌, if◌then◌else◌, ◌>>=◌, take, min, drop, pos,
  ◌==◌,
}
use protos_tpe.Buffer.{Buffer, write_ptr, read_ptr, read_adv, fill}
use protos_tpe.Request.{SockAddr}
use protos_tpe.Selector.{Interest}
use protos_tpe.Socks5.{Errno, Key, Net, is_client}

-- The result of `recv` and `send`: what was transferred, EAGAIN, or an error.
pub data Io (A : Type 0) : Type 0 where
  io_ok : A → Io A
  io_again io_failed : Io A

-- What `connect` answers.
pub data Connecting : Type 0 where
  connected in_progress : Connecting
  refused : Errno → Connecting

-- `socket`, `selector_fd_set_nio` and `connect` for one address.
pub data Attempt : Type 0 where
  no_socket no_nio : Errno → Attempt
  opened : ℕ → Connecting → Attempt

pub record Os : Type 0 where
  pub recv : ℕ → Io (List ℕ)
  pub send : ℕ → Io ℕ
  pub set_interest : ℕ → Bool
  pub register : ℕ → Bool
  pub attempt : ℕ → Attempt
  pub so_error : ℕ → Option Errno
  pub sockname : ℕ → Option SockAddr
  pub queue_job : ℕ → Bool
  pub now : ℕ → ℕ
  pub ntop : Bool → List ℕ → List ℕ

abbrev pub called : Key → Key
called k = record k { net = record k.net { calls = k.net.calls + 1 } }

-- The bytes that came in on the descriptor of the event.
abbrev pub log_received : Bool → List ℕ → Net → Net
log_received true xs n = record n { from_client = n.from_client ++ xs }
log_received false xs n = record n { from_origin = n.from_origin ++ xs }

-- The bytes that went out, to the client or to the origin.
abbrev pub log_sent : Bool → List ℕ → Net → Net
log_sent true xs n = record n { to_client = n.to_client ++ xs }
log_sent false xs n = record n { to_origin = n.to_origin ++ xs }

-- The descriptor that `selector_set_interest` is called for.
pub data Side : Type 0 where
  client_side origin_side : Side

abbrev pub arm : Side → Interest → Net → Net
arm client_side i n = record n { client_armed = i }
arm origin_side i n = record n { origin_armed = i }

abbrev pub key_side : Key → Side
key_side k = elim (is_client k) [ true ↦ client_side | false ↦ origin_side ]

module _ (os : Os) where
  -- `selector_set_interest(s, fd, i)`; the flag is `SELECTOR_SUCCESS`.
  unfoldable pub set_interest : Side → Interest → Key → Bool × Key
  set_interest side i k =
      let k' = called k in
      if os.set_interest k.net.calls
      then (true, record k' { net = arm side i k'.net })
      else (false, k')

  -- `recv` into the room at the write pointer of a buffer, by no more bytes than there is room for;
  -- no byte is the end of the stream.
  unfoldable pub recv_into : Key → Buffer → Option (Io (List ℕ) × Buffer × Key)
  recv_into k b = do
    (at, space) ← write_ptr b
    elim (os.recv k.net.calls) [
      | io_ok bytes ↦
          (let got = take space bytes in
            do
              b' ← fill b got
              let k' = called k
              some (io_ok got, b', record k' { net = log_received (is_client k) got k'.net }))
      | io_again ↦ some (io_again, b, called k)
      | io_failed ↦ some (io_failed, b, called k)
    ]

  -- `send` of what waits in a buffer, to the client or to the origin. It takes no more than there
  -- is; what it has taken leaves the buffer.
  unfoldable pub send_from : Bool → Buffer → Key → Option (Io ℕ × Buffer × Key)
  send_from to_client b k = do
    (at, pending) ← read_ptr b
    elim (os.send k.net.calls) [
      | io_ok m ↦
          (let n = min m pending in
            elim (n == 0) [
              | true ↦ some (io_ok 0, b, called k)
              | false ↦ (do
                b' ← read_adv b (pos n)
                let k' = called k
                let bytes = take n (drop at b.bytes)
                some (io_ok n, b', record k' { net = log_sent to_client bytes k'.net }))
            ])
      | io_again ↦ some (io_again, b, called k)
      | io_failed ↦ some (io_failed, b, called k)
    ]
