-- ===== src/Fec2/Tests.antt =====
-- Runs of the model of `Fec2Buffer` at concrete inputs, and its theorems at such inputs.
use udpfec.Base.{ℕ, ◌≡◌, ◌≢◌, ◌≤◌, ◌<◌, refl, [], ◌∷◌, true, false, none, some, arith}
use udpfec.Fec2.Buffer.{
  GtpPackCacheStru, Fec2Buffer, fec2_buffer, cached, clear, push_into, pop_pack, buf_returned,
  cached_num, calc_pos_in_pack_cache,
}
use udpfec.Fec2.Clear.{IsCounted, offset, zone, clear-zone}
use udpfec.Fec2.History.{
  push, pop_at, clear_between, reset, execute_all, execute_all-fec2_buffer-IsCounted,
}
use udpfec.Fec2.RoundTrip.{push_into-pop_pack}

-- One packet, in slot 2.
abbrev one_cached : Fec2Buffer
one_cached = record {
  pack_cache =
      none
      ∷ none
      ∷ some (record { address = 70; cache_id = 2; payload_len = 100 })
      ∷ none
      ∷ none
      ∷ none
      ∷ none
      ∷ none
      ∷ none
      ∷ none
      ∷ none
      ∷ none
      ∷ none
      ∷ none
      ∷ none
      ∷ none
      ∷ none
      ∷ none
      ∷ none
      ∷ none
      ∷ none
      ∷ none
      ∷ none
      ∷ none
      ∷ none
      ∷ none
      ∷ none
      ∷ none
      ∷ none
      ∷ none
      ∷ none
      ∷ none
      ∷ [];
  pack_num_in_cache = 1;
  max_cached_sn = 2;
  buf_calls = [];
}

one_cached-IsCounted : IsCounted one_cached
unfolding cached_num
one_cached-IsCounted = (refl, refl)

execute_all-fec2_buffer-IsCounted_example :
    (b : Fec2Buffer) × (execute_all
        (push true (some 70) 60 2 100
          ∷ push false none 61 34 90
          ∷ clear_between 30 3
          ∷ pop_at 2
          ∷ reset
          ∷ [])
        fec2_buffer
      ≡ some b)
    × IsCounted b
execute_all-fec2_buffer-IsCounted_example =
    execute_all-fec2_buffer-IsCounted
      (push true (some 70) 60 2 100
        ∷ push false none 61 34 90
        ∷ clear_between 30 3
        ∷ pop_at 2
        ∷ reset
        ∷ [])
      (omega arith, omega arith, tt)

clear-zone_example :
    (b' : Fec2Buffer) × (clear one_cached 30 3 ≡ some b')
    × IsCounted b'
    × ((k : ℕ) → k < 32 → offset 30 k ≤ zone 30 3 → cached b' k ≡ none)
    × ((k : ℕ) → k < 32 → zone 30 3 < offset 30 k → cached b' k ≡ cached one_cached k)
clear-zone_example = clear-zone one_cached 30 3 one_cached-IsCounted (omega arith) (omega arith)

push_into-pop_pack_example :
    let pos = calc_pos_in_pack_cache 34 in
    let pushed = (push_into one_cached 71 34 90).1 in
    (p : GtpPackCacheStru) × (p.address ≡ 71)
    × ((push_into one_cached 71 34 90).0 ≡ some p)
    × (cached pushed pos ≡ some p)
    × ((k : ℕ) → pos ≢ k → cached pushed k ≡ cached one_cached k)
    × (cached (pop_pack pushed p) pos ≡ none)
    × ((k : ℕ) → pos ≢ k → cached (pop_pack pushed p) k ≡ cached one_cached k)
    × ((pop_pack pushed p).buf_calls ≡ buf_returned 71 ∷ pushed.buf_calls)
push_into-pop_pack_example = push_into-pop_pack one_cached 71 34 90 refl
