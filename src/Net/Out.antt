-- ===== src/Net/Out.antt =====
-- servers/libtanix-net/src/out.rs: the queue of outbound frames, one scratch buffer cut by offsets.
use tanix.Bytes.{Bytes, at, slice}
use tanix.Prelude.{
  ℕ, ◌+◌, ◌%◌, ◌^◌, Option, none, some, List, leb, ltb, ◌||◌, if◌then◌else◌, set, replicate, Bool,
  ◌==◌,
}

abbrev pub frame_max : ℕ
frame_max = 1518

abbrev pub max_frames : ℕ
max_frames = 4

-- `off` holds cumulative end offsets: frame `i` is `buf[off[i]..off[i + 1]]`.
pub record OutQueue : Type 0 where
  pub buf : Bytes
  pub off : List ℕ
  pub n : ℕ

abbrev pub new : OutQueue
new = record { buf = replicate frame_max 0; off = replicate 5 0; n = 0 }

-- Reserves `len` bytes for one frame and returns where it starts.
unfoldable pub push : ℕ → OutQueue → Option ℕ × OutQueue
push len q = if leb max_frames q.n || ltb frame_max (at q.off q.n + len) then (none, q) else (
  some (at q.off q.n),
  record q { off = set q.off (q.n + 1) ((at q.off q.n + len) % 2 ^ 16); n = q.n + 1 },
)

unfoldable pub is_empty : OutQueue → Bool
is_empty q = q.n == 0

unfoldable pub frame : OutQueue → ℕ → Bytes
frame q i = slice q.buf (at q.off i) (at q.off (i + 1))

unfoldable pub clear : OutQueue → OutQueue
clear q = record q { n = 0; off = set q.off 0 0 }
