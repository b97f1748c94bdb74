-- ===== src/Discovery/Sntp.antt =====
-- `_query_ntp_offset` of discovery/time_sync.py. Sending and receiving are the host's `exchange`.
use dng_preflight.Base.{
  ℕ, ◌+◌, ◌-◌, ◌*◌, ◌^◌, ◌≡◌, refl, String, Option, none, some, List, [], ◌∷◌, length, take, drop,
  replicate, Result, ok, err, struct_error, map_result, ltb, leb, if◌then◌else◌, false,
}
use dng_preflight.Base.Int.{ℤ, pos, negsuc}
use dng_preflight.Base.Float.{Float, finite}
use dng_preflight.Base.Arithmetic.{of_int, add, subtract, shift_down}
use dng_preflight.Discovery.Host.{Host, Exchange}

abbrev pub ntp_host : String
ntp_host = "pool.ntp.org"

abbrev pub ntp_port : ℕ
ntp_port = 123

-- `b"\x1b" + b"\x00" * 47`
abbrev pub ntp_packet : List ℕ
ntp_packet = 0x1b ∷ replicate 47 0

-- Seconds between 1900 and 1970.
abbrev pub ntp_epoch_offset : ℕ
ntp_epoch_offset = 2208988800

-- Four bytes, the highest first.
abbrev pub word : ℕ → ℕ → ℕ → ℕ → ℕ
word a b c d = ((a * 256 + b) * 256 + c) * 256 + d

-- `struct.unpack("!II", buffer)`
unfoldable pub unpack : List ℕ → Result (ℕ × ℕ)
unpack (a ∷ b ∷ c ∷ d ∷ e ∷ f ∷ g ∷ h ∷ []) = ok (word a b c d, word e f g h)
unpack _ = err struct_error

-- `secs - _NTP_EPOCH_OFFSET`
unfoldable pub unix_seconds : ℕ → ℤ
unix_seconds secs =
    if leb ntp_epoch_offset secs
    then pos (secs - ntp_epoch_offset)
    else negsuc (ntp_epoch_offset - secs - 1)

unfoldable pub server_time : ℕ × ℕ → Float
unfolding unix_seconds of_int add shift_down
server_time (secs, frac) = add (of_int (unix_seconds secs)) (shift_down 32 (of_int (pos frac)))

-- `server_time - (t1 + t4) / 2`
unfoldable pub offset_from : Float → Float → ℕ × ℕ → Float
unfolding server_time subtract add shift_down
offset_from t1 t4 stamp = subtract (server_time stamp) (shift_down 1 (add t1 t4))

-- The transmit timestamp, `data[40:48]`.
abbrev pub transmit : List ℕ → List ℕ
transmit reply = take 8 (drop 40 reply)

-- The offset, or none where there is no exchange or the reply is short.
unfoldable pub offset_of : Option Exchange → Result (Option Float)
unfolding unpack offset_from
offset_of none = ok none
offset_of (some x) =
    if ltb (length x.reply) 48
    then ok none
    else map_result (λ stamp. some (offset_from x.sent x.received stamp))
        (unpack (transmit x.reply))

unfoldable pub query_ntp_offset : Host → Result (Option Float)
unfolding offset_of
query_ntp_offset host = offset_of (host.exchange ntp_packet ntp_host ntp_port)

-- 2024-01-01 and a half second.
new_year : server_time (3913056000, 2147483648) ≡ finite false (1704067200 * 2 ^ 32 + 2147483648) 32
unfolding server_time
new_year = refl
