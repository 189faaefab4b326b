-- ===== src/Tests/Checksums.antt =====
-- The checksum of an ICMP echo request.
use socket.Base.{◌≡◌, refl, arith, ◌==◌, if◌then◌else◌}
use socket.Checksum.{checksum, AreBytes, checksum-write16}
use socket.Packet.{Packet, read16, read8, write16}

-- Type 8, the id 7 and the number 1.
abbrev echo : Packet
echo = λ i. if i == 0 then 8 else if i == 4 then 7 else if i == 6 then 1 else 0

echo-AreBytes : AreBytes echo
echo-AreBytes i = ground arith

no_field : read16 2 echo ≡ 0
unfolding read16 read8
no_field = refl

checksum-write16_example : checksum (write16 2 (checksum echo 64) echo) 64 ≡ 0
checksum-write16_example =
    checksum-write16 echo 64 1 echo-AreBytes (omega arith) (omega arith) no_field

-- 8 + 7 + 1 = 16.
echo_sum : checksum echo 64 ≡ 0xffef
unfolding checksum read16 read8
echo_sum = refl
