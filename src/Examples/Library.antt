-- ===== src/Examples/Library.antt =====
-- The library of lib/cfa at concrete inputs.
use chat_server.Base.{ℕ, length, ◌+◌, ◌*◌, ◌/◌, ◌%◌, ◌≡◌, ◌↔◌, ◌⊎◌, refl, some, [], ◌∷◌, arith}
use chat_server.Base.Int.{pos}
use chat_server.Memory.{Mem, moved, bytes}
use chat_server.Builtin.Memcpy.{memcpy}
use chat_server.Builtin.Memcpy.Moves.{memcpy-moved, memcpy_returns}
use chat_server.Builtin.Slices.{Slice, unsafe_slice}
use chat_server.Builtin.Slices.Fill.{Filled}
use chat_server.Builtin.Text.{c_strlen, memequal}
use chat_server.Builtin.Text.Laws.{IsCString, c_strlen_finds, memequal-bytes}
use chat_server.Pool.{Pool, pool_init, pool_get, pool_put}
use chat_server.Pool.FreeList.{
  IsFresh, Free, pool_init-IsFresh, pool_put_unguarded, pool_get-pool_put,
}
use chat_server.Time.{Tm, time_to_tm, tm_in_slice2}
use chat_server.Time.Calendar.{IsDate, seconds_of, days_before_year, time_to_tm-seconds_of}
use chat_server.Time.Rfc822.{tm_rfc822_in_slice}
use chat_server.Time.Dates.{rfc822_text, IsPrinted, tm_rfc822_in_slice-rfc822_text}
use chat_server.Time.Clock.{clock_text, tm_in_slice2-clock_text}
use chat_server.Chat.State.{Clients, nodes, store_link}
use chat_server.Chat.New.{zero_client}

-- Every byte is its own address, modulo 256.
abbrev counting : Mem
counting a = a % 256

-- Overlapping, forward and backward.
memcpy-moved_example : (memcpy counting 1000 1003 20).0 1005 ≡ moved counting 1000 1003 20 1005
memcpy-moved_example = memcpy-moved counting 1000 1003 20 1005

memcpy_returns_example : (memcpy counting 1000 1003 20).1 ≡ 1020
memcpy_returns_example = memcpy_returns counting 1000 1003 20 (omega arith)

hundred : IsCString counting 300 212
hundred = record { ends = refl; runs = λ i lt. omega arith }

c_strlen_finds_example : c_strlen counting 300 ≡ some 212
c_strlen_finds_example = c_strlen_finds counting 300 212 (omega arith) (omega arith) hundred

memequal-bytes_example :
    ((memequal counting 1 257 3 ≡ 1) ↔ (bytes counting 1 3 ≡ bytes counting 257 3))
    × ((memequal counting 1 257 3 ≡ 0) ⊎ (memequal counting 1 257 3 ≡ 1))
memequal-bytes_example = memequal-bytes counting 1 257 3

abbrev buffer : Slice
buffer = record { base = 500; len = 20; cap = 20 }

abbrev nobody : Clients
nobody a = zero_client

pool_init-IsFresh_example :
    (m' : Clients) × (p : Pool) × (pool_init nodes nobody 4096 100 16 8 ≡ some (m', p))
    × IsFresh nodes nobody 4096 100 16 m' p
pool_init-IsFresh_example =
    pool_init-IsFresh nodes nobody 4096 100 16 (omega arith) (omega arith) (omega arith)
      (omega arith) (omega arith) (omega arith)

-- A pool whose only free chunk is 4112.
abbrev one_free : Pool
one_free = record { buf = 4096; buf_len = 100; chunk_size = 16; head = 4112 }

one_free-Free : Free nodes nobody one_free (4112 ∷ [])
one_free-Free = (refl, omega arith, refl)

pool_put_unguarded_example :
    pool_put nodes nobody one_free 7 ≡ some (store_link nobody 7 4112, record one_free { head = 7 })
pool_put_unguarded_example = pool_put_unguarded nodes nobody one_free 7 (omega arith)

pool_get-pool_put_example :
    (m' : Clients) × (p' : Pool) × (pool_put nodes nobody one_free 4128 ≡ some (m', p'))
    × ((pool_get nodes m' p').0 ≡ 4128)
    × Free nodes m' (pool_get nodes m' p').1 (4112 ∷ [])
pool_get-pool_put_example =
    pool_get-pool_put nodes nobody one_free 4128 (4112 ∷ []) one_free-Free (omega arith) refl

time_to_tm-seconds_of_example :
    IsDate (time_to_tm 1696766034)
    × (seconds_of (time_to_tm 1696766034) ≡ days_before_year 1970 * 86400 + (1696766034 + 3 * 3600))
    × ((time_to_tm 1696766034).tm_wday ≡ (seconds_of (time_to_tm 1696766034) / 86400 + 1) % 7)
time_to_tm-seconds_of_example = time_to_tm-seconds_of 1696766034 (omega arith)

abbrev morning : Tm
morning = record {
  tm_sec = 7;
  tm_min = 5;
  tm_hour = 9;
  tm_mday = 8;
  tm_mon = 9;
  tm_year = 123;
  tm_wday = 0;
  tm_yday = 280;
  tm_isdst = pos 0;
  tm_gmtoff = 10800;
  tm_zone = 0;
}

tm_in_slice2-clock_text_example :
    ((tm_in_slice2 counting (unsafe_slice 500 20) morning).1 ≡ length (clock_text morning))
    × Filled 500 20 counting
        (tm_in_slice2 counting (unsafe_slice 500 20) morning).0
        (tm_in_slice2 counting (unsafe_slice 500 20) morning).1
        (clock_text morning)
tm_in_slice2-clock_text_example =
    tm_in_slice2-clock_text 500 20 counting (omega arith) morning (omega arith) (omega arith)
      (omega arith) (omega arith)

morning-IsDate : IsDate morning
morning-IsDate = record {
  sec_in = omega arith;
  min_in = omega arith;
  hour_in = omega arith;
  mon_in = omega arith;
  mday_in = (omega arith, ground arith);
  wday_in = omega arith;
  yday_in = ground arith;
}

tm_rfc822_in_slice-rfc822_text_example :
    (r : Mem × ℕ) × (tm_rfc822_in_slice counting (unsafe_slice 500 40) morning ≡ some r)
    × IsPrinted 500 40 counting (rfc822_text morning) r
tm_rfc822_in_slice-rfc822_text_example =
    tm_rfc822_in_slice-rfc822_text 500 40 counting (omega arith) morning morning-IsDate
      (omega arith) (omega arith)
