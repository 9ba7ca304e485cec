-- ===== src/Net/Tests.antt =====
-- The checksums and the frame builders of servers/libtanix-net at concrete bytes.
use tanix.Bytes.{Bytes}
use tanix.Net.Bytes.{put_u16, get_u16}
use tanix.Net.Checksum.{checksum_seed, sum_words, fold_carries}
use tanix.Net.Checksum.Verify.{checksum_stale}
use tanix.Net.Out
use tanix.Net.Wire.{TxCtx, tcp_frame, ipproto_tcp}
use tanix.Net.Wire.Verify.{HasBytes, Verifies, tcp_frame-Verifies}
use tanix.Prelude.{◌*◌, ◌≡◌, ◌≢◌, refl, [], ◌∷◌, arith, replicate}

abbrev sample : Bytes
sample = 0x45 ∷ 0x00 ∷ 0 ∷ 0 ∷ 0x12 ∷ []

-- `sample` with its checksum in the second word.
abbrev summed : Bytes
summed = 0x45 ∷ 0x00 ∷ 0xA8 ∷ 0xFF ∷ 0x12 ∷ []

checksum-sample : checksum_seed sample 0 ≡ 0xA8FF
unfolding checksum_seed sum_words fold_carries
checksum-sample = refl

checksum_stale_example : checksum_seed (put_u16 summed (2 * 1) (checksum_seed summed 0)) 0 ≢ 0
unfolding get_u16
checksum_stale_example =
    checksum_stale summed 1 0 (omega arith) (omega arith) (omega arith) (omega arith) (omega arith)

abbrev station : TxCtx
station = record {
  mac = 2 ∷ 0 ∷ 0 ∷ 0 ∷ 0 ∷ 1 ∷ [];
  my_ip = 10 ∷ 0 ∷ 2 ∷ 15 ∷ [];
  ip_id = 7;
  q = Out.new;
}

abbrev gateway : Bytes
gateway = 10 ∷ 0 ∷ 2 ∷ 2 ∷ []

abbrev gateway_mac : Bytes
gateway_mac = 2 ∷ 0 ∷ 0 ∷ 0 ∷ 0 ∷ 2 ∷ []

-- Stale bytes, as an earlier frame leaves them.
abbrev stale_tcp : Bytes
stale_tcp = replicate 56 0xEE

abbrev greeting : Bytes
greeting = b'h' ∷ b'i' ∷ []

tcp-HasBytes : HasBytes station gateway_mac gateway greeting stale_tcp
tcp-HasBytes = omega arith

tcp_frame-Verifies_example :
    Verifies station gateway ipproto_tcp 22
      (tcp_frame station gateway_mac gateway 80 4000 1000 501 0x18 1024 greeting stale_tcp)
tcp_frame-Verifies_example =
    tcp_frame-Verifies station gateway_mac gateway 80 4000 1000 501 0x18 1024 greeting stale_tcp
      tcp-HasBytes (omega arith) refl (omega arith)
