-- ===== src/Net/Ip.antt =====
-- servers/libtanix-net/src/ip.rs: the ethernet and IPv4 headers of an inbound frame.
use tanix.Bytes.{Bytes, at, slice}
use tanix.Prelude.{
  ℕ, ◌+◌, ◌*◌, ◌/◌, ◌%◌, ◌^◌, Option, none, some, ◌||◌, not, length, ltb, ◌==◌, if◌then◌else◌,
}

-- The destination, the source and the ethertype.
pub record EthHdr : Type 0 where
  pub dst : Bytes
  pub src : Bytes
  pub etype : ℕ

unfoldable pub parse_eth : Bytes → Option EthHdr
parse_eth frame =
    if ltb (length frame) 14
    then none
    else some (record {
      dst = slice frame 0 6;
      src = slice frame 6 12;
      etype = at frame 12 * 2 ^ 8 + at frame 13;
    })

pub record Ip4Hdr : Type 0 where
  pub src : Bytes
  pub dst : Bytes
  pub proto : ℕ
  pub total_len : ℕ
  pub transport : ℕ

-- `(vihl & 0x0F) as usize * 4`
abbrev pub header_len : ℕ → ℕ
header_len vihl = vihl % 2 ^ 4 * 4

unfoldable pub parse_ip4 : Bytes → Option Ip4Hdr
parse_ip4 frame =
    let total = at frame 16 * 2 ^ 8 + at frame 17 in
    let ihl = header_len (at frame 14) in
    if ltb (length frame) (14 + 20)
    then none
    else if not (at frame 14 / 2 ^ 4 == 4)
    then none
    else if ltb (length frame) (14 + total)
    then none
    else if ltb ihl 20 || ltb (length frame) (14 + ihl)
    then none
    else some (record {
      src = slice frame 26 30;
      dst = slice frame 30 34;
      proto = at frame 23;
      total_len = total;
      transport = 14 + ihl;
    })
