-- ===== src/Net/Tcp/Reach.antt =====
-- Every socket of servers/libtanix-net/src/tcp.rs that a program can come to: opened, and then any
-- sequence of application calls, segments and polls.
use tanix.Bytes.{Bytes}
use tanix.Net.Tcp.{TcpSocket, TcpSeg, blank, connect, take_notify, app_write, app_read, app_close}
use tanix.Net.Tcp.Invariant.{
  IsValid, blank-IsValid, connect-IsValid, app_write-IsValid, app_read-IsValid, app_close-IsValid,
  take_notify-IsValid, rx_segment-IsValid, poll-IsValid,
}
use tanix.Net.Tcp.Poll.{poll}
use tanix.Net.Tcp.Segment.{rx_segment}
use tanix.Net.Wire.{TxCtx}
use tanix.Prelude.{ℕ}

pub data Run : TcpSocket → Type 0 where
  listens : (port : ℕ) → Run (blank port)
  connects : (ip : Bytes) (dport sport now : ℕ) → Run (connect ip dport sport now)
  writes : (bs : Bytes) {s : TcpSocket} → Run s → Run (app_write bs s).1
  reads : (cap : ℕ) {s : TcpSocket} → Run s → Run (app_read cap s).1
  closes : {s : TcpSocket} → Run s → Run (app_close s)
  learns : {s : TcpSocket} → Run s → Run (take_notify s).1
  receives :
      (seg : TcpSeg) (now : ℕ) (ctx : TxCtx) {s : TcpSocket}
      → Run s
      → Run (rx_segment seg now s ctx).0
  polls : (now : ℕ) (ctx : TxCtx) {s : TcpSocket} → Run s → Run (poll now s ctx).0

-- Every socket that is opened and then driven by any sequence of application calls, segments and
-- polls keeps the invariant: its buffers are not overrun, what is in flight is one segment and a
-- prefix of the queue, the next sequence number is that of the queue's end, and a live socket has
-- not used up its tries.
pub Run-IsValid : {s : TcpSocket} → Run s → IsValid s
Run-IsValid (listens port) = blank-IsValid port
Run-IsValid (connects ip dport sport now) = connect-IsValid ip dport sport now
Run-IsValid (writes bs {s} r) = app_write-IsValid s (Run-IsValid r) bs
Run-IsValid (reads cap {s} r) = app_read-IsValid s (Run-IsValid r) cap
Run-IsValid (closes {s} r) = app_close-IsValid s (Run-IsValid r)
Run-IsValid (learns {s} r) = take_notify-IsValid s (Run-IsValid r)
Run-IsValid (receives seg now ctx {s} r) = rx_segment-IsValid seg now s ctx (Run-IsValid r)
Run-IsValid (polls now ctx {s} r) = poll-IsValid now s ctx (Run-IsValid r)
