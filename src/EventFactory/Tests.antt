-- ===== src/EventFactory/Tests.antt =====
-- The checksum's published test value.
use event_stream_core.Common.{◌≡◌, refl, codes}
use event_stream_core.EventFactory.{crc32_table, crc_bytes, calculate_crc32}

check_value : calculate_crc32 (codes "123456789") ≡ 0xCBF43926
unfolding calculate_crc32 crc_bytes crc32_table
check_value = refl
