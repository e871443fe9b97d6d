-- ===== src/LossStat/Tests.antt =====
-- Runs of the statistics (socks5udpf/src/loss_stat.cpp, dly_cache.cpp) at concrete packets.
use udpfec.Base.{ℕ, ◌≤◌, ◌≡◌, refl, List, [], ◌∷◌, length, replicate, arith}
use udpfec.SlideWin.Buffer.{byte_of, get_buf_bit, set_buf_bit, clr_buf_bit}
use udpfec.LossStat.Stat.{
  reset, count_range, count_period, calc_pkg_loss_rate, first_packet, mark_packet, calc_when_due,
  cache_pkg_sn, sn_delta,
}
use udpfec.LossStat.Delay.{update_start_time, get_start_time, get_start_time-update_start_time}
use udpfec.LossStat.Bounds.{PacketAt, IsStat, cache_all, cache_all-IsStat, count_period_lem}

-- Packet 12 is lost.
abbrev packets : List PacketAt
packets =
    record { pkg_sn = 10; cur_ms = 10; now_ms = 10 }
    ∷ record { pkg_sn = 11; cur_ms = 20; now_ms = 20 }
    ∷ record { pkg_sn = 13; cur_ms = 30; now_ms = 30 }
    ∷ record { pkg_sn = 14; cur_ms = 2100; now_ms = 2100 }
    ∷ []

-- One of the three packets before the last of the first 1500 milliseconds.
rate_test : (cache_all (reset 0) packets).pkg_loss_rate ≡ 3333
unfolding cache_all cache_pkg_sn calc_when_due calc_pkg_loss_rate count_period count_range
    first_packet mark_packet sn_delta reset get_buf_bit set_buf_bit clr_buf_bit byte_of
rate_test = refl

cache_all-IsStat_example : IsStat (cache_all (reset 0) packets)
cache_all-IsStat_example = cache_all-IsStat 0 packets

abbrev some_received : List ℕ
some_received = replicate 256 129

count_period_lem_example :
    let c = count_period some_received 2040 5 in
    (c.pkg_total ≡ 13) × (c.pkg_loss_count ≤ c.pkg_total) × (length c.buf ≡ length some_received)
count_period_lem_example = count_period_lem some_received 2040 5 (omega arith) (omega arith)

get_start_time-update_start_time_example :
    get_start_time (update_start_time 4294967290 32760) 4294967300 ≡ 1
get_start_time-update_start_time_example =
    get_start_time-update_start_time 4294967290 4294967300 32760 (omega arith) (omega arith)
